-- ===== src/Spaceman/Query.antt =====
-- src/spaceman.rs, `is_block_free`: the query against a stored space manager.
use newtua_apfs.Prelude.{ℕ, ◌+◌, ◌*◌, ◌/◌, ◌%◌, ◌<◌, ◌≡◌, ◌≢◌, ap, ◌∙◌, arith, Bool, true, not}
use newtua_apfs.Bytes.{Bytes, AllBytes, from_le_bytes, le_u32, le_u64}
use newtua_apfs.Error.{ok, >>=-eq-ok}
use newtua_apfs.Reader.{Reader, read_exact_at, saturating_mul}
use newtua_apfs.Spaceman.{
  Device, device_of, check_device, read_obj_block, is_allocated, bitmap_address, read_bit,
  query_chunk, is_block_free, cib_chunk_info, cib_chunk_info_count, chunk_info_len, ci_bitmap_addr,
}
use newtua_apfs.Spaceman.Bitmap.{test_bit, is_allocated-test_bit}

-- The block lies on the device, and its chunk in the device's tables.
pub record IsCovered (d : Device) (block : ℕ) : Type 0 where
  pub chunk_size : d.blocks_per_chunk ≢ 0
  pub cib_size : d.chunks_per_cib ≢ 0
  pub on_device : block < d.block_count
  pub inline_cibs : d.cab_count ≡ 0
  pub chunk : block / d.blocks_per_chunk < d.chunk_count
  pub cib : block / d.blocks_per_chunk / d.chunks_per_cib < d.cib_count

-- The checks pass exactly on a covered block, and then give the index of its chunk.
pub check_device-IsCovered :
    (d : Device) (block : ℕ)
    → IsCovered d block
    → check_device d block ≡ ok (block / d.blocks_per_chunk)
unfolding check_device
check_device-IsCovered d block c = ground arith

pub check_device-eq-ok :
    (d : Device) (block chunk : ℕ)
    → check_device d block ≡ ok chunk
    → IsCovered d block × (chunk ≡ block / d.blocks_per_chunk)
unfolding check_device
check_device-eq-ok d block chunk h = (
  record {
    chunk_size = ground arith;
    cib_size = ground arith;
    on_device = ground arith;
    inline_cibs = ground arith;
    chunk = ground arith;
    cib = ground arith;
  },
  ground arith,
)

-- The addresses that the query follows, from the space manager's block and the chunk-info block.
abbrev pub cib_paddr_of : Bytes → ℕ → ℕ
cib_paddr_of sm block =
    let d = device_of sm in
    le_u64 sm (d.addr_offset + block / d.blocks_per_chunk / d.chunks_per_cib * 8)

abbrev pub within_cib_of : Bytes → ℕ → ℕ
within_cib_of sm block = let d = device_of sm in block / d.blocks_per_chunk % d.chunks_per_cib

abbrev pub bitmap_addr_of : Bytes → Bytes → ℕ → ℕ
bitmap_addr_of sm cib block =
    le_u64 cib (cib_chunk_info + within_cib_of sm block * chunk_info_len + ci_bitmap_addr)

bitmap_address-within :
    (cib : Bytes) (within_cib : ℕ)
    → within_cib < le_u32 cib cib_chunk_info_count
    → bitmap_address cib within_cib
      ≡ ok (le_u64 cib (cib_chunk_info + within_cib * chunk_info_len + ci_bitmap_addr))
unfolding bitmap_address
bitmap_address-within cib within_cib h = ground arith

module _ (reader : Reader) (block_size bit addr : ℕ) where
  read_bit-zero : addr ≡ 0 → read_bit reader block_size bit addr ≡ ok true
  unfolding read_bit
  read_bit-zero h = ground arith

  read_bit-some :
      (bitmap : Bytes)
      → addr ≢ 0
      → read_exact_at reader (saturating_mul addr block_size) block_size ≡ ok bitmap
      → read_bit reader block_size bit addr ≡ ok (not (is_allocated bitmap bit))
  unfolding read_bit
  read_bit-some bitmap h read = ground arith

module _ (reader : Reader) (spaceman_paddr block block_size : ℕ) (sm cib : Bytes)
    (manager : read_obj_block reader spaceman_paddr block_size ≡ ok sm)
    (covered : IsCovered (device_of sm) block)
    (chunk_info : read_obj_block reader (cib_paddr_of sm block) block_size ≡ ok cib)
    (listed : within_cib_of sm block < le_u32 cib cib_chunk_info_count) where
  -- The query comes down to the bit of the block's chunk.
  is_block_free-read_bit :
      is_block_free reader spaceman_paddr block block_size
      ≡ read_bit reader block_size
          (block % (device_of sm).blocks_per_chunk)
          (bitmap_addr_of sm cib block)
  unfolding is_block_free query_chunk
  is_block_free-read_bit = rw (
    manager,
    check_device-IsCovered (device_of sm) block covered,
    chunk_info,
    bitmap_address-within cib (within_cib_of sm block) listed,
  )

-- Where the space manager, the chunk info block of the queried block and the chunk's bitmap are
-- stored, the block is free exactly if its bit in the bitmap, read as one little-endian number,
-- is 0.
pub is_block_free-bitmap :
    (reader : Reader) (spaceman_paddr block block_size : ℕ) (sm cib bitmap : Bytes)
    → read_obj_block reader spaceman_paddr block_size ≡ ok sm
    → IsCovered (device_of sm) block
    → read_obj_block reader (cib_paddr_of sm block) block_size ≡ ok cib
    → within_cib_of sm block < le_u32 cib cib_chunk_info_count
    → bitmap_addr_of sm cib block ≢ 0
    → read_exact_at reader (saturating_mul (bitmap_addr_of sm cib block) block_size) block_size
      ≡ ok bitmap
    → AllBytes bitmap
    → is_block_free reader spaceman_paddr block block_size
      ≡ ok (not (test_bit (from_le_bytes bitmap) (block % (device_of sm).blocks_per_chunk)))
is_block_free-bitmap reader spaceman_paddr block block_size sm cib bitmap manager covered chunk_info
      listed some_bitmap read all =
    let addr = bitmap_addr_of sm cib block in
    let bit = block % (device_of sm).blocks_per_chunk in
    is_block_free-read_bit reader spaceman_paddr block block_size sm cib manager covered chunk_info
      listed
    ∙ read_bit-some reader block_size bit addr bitmap some_bitmap read
    ∙ ap (λ b. ok (not b)) (is_allocated-test_bit bitmap bit all)

-- Where the space manager and the chunk info block of the queried block are stored and the chunk
-- has no bitmap, the block is free.
pub is_block_free-no_bitmap :
    (reader : Reader) (spaceman_paddr block block_size : ℕ) (sm cib : Bytes)
    → read_obj_block reader spaceman_paddr block_size ≡ ok sm
    → IsCovered (device_of sm) block
    → read_obj_block reader (cib_paddr_of sm block) block_size ≡ ok cib
    → within_cib_of sm block < le_u32 cib cib_chunk_info_count
    → bitmap_addr_of sm cib block ≡ 0
    → is_block_free reader spaceman_paddr block block_size ≡ ok true
is_block_free-no_bitmap reader spaceman_paddr block block_size sm cib manager covered chunk_info
      listed no_bitmap =
    is_block_free-read_bit reader spaceman_paddr block block_size sm cib manager covered chunk_info
      listed
    ∙ read_bit-zero reader block_size (block % (device_of sm).blocks_per_chunk)
        (bitmap_addr_of sm cib block) no_bitmap

-- The query answers only for a block that the device covers: any other query is an error.
pub is_block_free-IsCovered :
    (reader : Reader) (spaceman_paddr block block_size : ℕ) (free : Bool)
    → is_block_free reader spaceman_paddr block block_size ≡ ok free
    → (sm : Bytes) × (read_obj_block reader spaceman_paddr block_size ≡ ok sm)
      × IsCovered (device_of sm) block
unfolding is_block_free
is_block_free-IsCovered reader spaceman_paddr block block_size free h =
    let (sm, manager, rest) = >>=-eq-ok (read_obj_block reader spaceman_paddr block_size) _ h in
    let (chunk, checked, _) = >>=-eq-ok (check_device (device_of sm) block) _ rest in
    (sm, manager, (check_device-eq-ok (device_of sm) block chunk checked).0)
