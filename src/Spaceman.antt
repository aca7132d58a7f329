-- ===== src/Spaceman.antt =====
-- src/spaceman.rs: whether a physical block is free, by the allocation bitmaps.
pub mod Bitmap
pub mod Query
mod Tests
use newtua_apfs.Prelude.{
  ℕ, ◌+◌, ◌*◌, ◌/◌, ◌%◌, ◌^◌, bit_and, none, some, Bool, true, false, not, ◌||◌, leb, ◌==◌,
  if◌then◌else◌, get_elem?,
}
use newtua_apfs.Bytes.{Bytes, le_u32, le_u64}
use newtua_apfs.Error.{
  Result, ok, err, ◌>>=◌, ◌>>◌, reject_if, checksum_mismatch, field_out_of_range,
  unsupported_spaceman_cab,
}
use newtua_apfs.Reader.{Reader, read_exact_at, saturating_mul}
use newtua_apfs.Object.{fletcher64_stored, fletcher64_checksum}

abbrev pub sm_blocks_per_chunk : ℕ
sm_blocks_per_chunk = 36

abbrev pub sm_chunks_per_cib : ℕ
sm_chunks_per_cib = 40

abbrev pub sm_dev0 : ℕ
sm_dev0 = 48

abbrev pub dev_block_count : ℕ
dev_block_count = 0

abbrev pub dev_chunk_count : ℕ
dev_chunk_count = 8

abbrev pub dev_cib_count : ℕ
dev_cib_count = 16

abbrev pub dev_cab_count : ℕ
dev_cab_count = 20

abbrev pub dev_addr_offset : ℕ
dev_addr_offset = 32

abbrev pub cib_chunk_info_count : ℕ
cib_chunk_info_count = 36

abbrev pub cib_chunk_info : ℕ
cib_chunk_info = 40

abbrev pub chunk_info_len : ℕ
chunk_info_len = 32

abbrev pub ci_bitmap_addr : ℕ
ci_bitmap_addr = 24

unfoldable pub read_obj_block : Reader → ℕ → ℕ → Result Bytes
read_obj_block reader paddr block_size =
    read_exact_at reader (saturating_mul paddr block_size) block_size >>= λ buf.
    if fletcher64_stored buf == fletcher64_checksum buf
    then ok buf
    else err (checksum_mismatch (le_u64 buf 8) (fletcher64_stored buf) (fletcher64_checksum buf))

-- The fields of the space manager's main device that the query reads.
pub record Device : Type 0 where
  pub blocks_per_chunk : ℕ
  pub chunks_per_cib : ℕ
  pub block_count : ℕ
  pub chunk_count : ℕ
  pub cib_count : ℕ
  pub cab_count : ℕ
  pub addr_offset : ℕ

unfoldable pub device_of : Bytes → Device
device_of sm = record {
  blocks_per_chunk = le_u32 sm sm_blocks_per_chunk;
  chunks_per_cib = le_u32 sm sm_chunks_per_cib;
  block_count = le_u64 sm (sm_dev0 + dev_block_count);
  chunk_count = le_u64 sm (sm_dev0 + dev_chunk_count);
  cib_count = le_u32 sm (sm_dev0 + dev_cib_count);
  cab_count = le_u32 sm (sm_dev0 + dev_cab_count);
  addr_offset = le_u32 sm (sm_dev0 + dev_addr_offset);
}

-- The checks on the device and the block, in the source's order; the result is the index of the
-- block's chunk.
unfoldable pub check_device : Device → ℕ → Result ℕ
check_device d block =
    reject_if (d.blocks_per_chunk == 0 || d.chunks_per_cib == 0)
      (field_out_of_range "spaceman_phys" "sm_blocks_per_chunk/sm_chunks_per_cib" 0 1)
    >> reject_if (leb d.block_count block)
        (field_out_of_range "spaceman_phys" "block" block d.block_count)
    >> reject_if (not (d.cab_count == 0)) (unsupported_spaceman_cab d.cab_count)
    >> reject_if (leb d.chunk_count (block / d.blocks_per_chunk)) (
        field_out_of_range "spaceman_phys" "chunk_index" (block / d.blocks_per_chunk) d.chunk_count)
    >> reject_if (leb d.cib_count (block / d.blocks_per_chunk / d.chunks_per_cib)) (
        field_out_of_range "spaceman_phys" "cib_index"
          (block / d.blocks_per_chunk / d.chunks_per_cib) d.cib_count)
    >> ok (block / d.blocks_per_chunk)

-- `bitmap.get(bit / 8).is_some_and(|byte| byte & (1u8 << (bit % 8)) != 0)`
unfoldable pub is_allocated : Bytes → ℕ → Bool
is_allocated bitmap bit = elim (get_elem? bitmap (bit / 8)) [
  | none ↦ false
  | some byte ↦ not (bit_and byte (2 ^ (bit % 8)) == 0)
]

-- The bitmap's address in the chunk-info block, for the chunk within it.
unfoldable pub bitmap_address : Bytes → ℕ → Result ℕ
bitmap_address cib within_cib =
    reject_if (leb (le_u32 cib cib_chunk_info_count) within_cib) (
      field_out_of_range "spaceman_phys" "chunk_info_index" within_cib
        (le_u32 cib cib_chunk_info_count))
    >> ok (le_u64 cib (cib_chunk_info + within_cib * chunk_info_len + ci_bitmap_addr))

-- From the bitmap's address on: 0 stands for a chunk that is all free.
unfoldable pub read_bit : Reader → ℕ → ℕ → ℕ → Result Bool
unfolding is_allocated
read_bit reader block_size bit bitmap_addr =
    let bitmap : Result Bytes =
      read_exact_at reader (saturating_mul bitmap_addr block_size) block_size in
    if bitmap_addr == 0 then ok true else bitmap >>= λ b. ok (not (is_allocated b bit))

-- The address array and the chunk-info block, behind the checks.
unfoldable pub query_chunk : Reader → ℕ → Bytes → Device → ℕ → ℕ → Result Bool
unfolding bitmap_address read_bit
query_chunk reader block_size sm d block chunk_index =
    let cib_paddr = le_u64 sm (d.addr_offset + chunk_index / d.chunks_per_cib * 8) in
    read_obj_block reader cib_paddr block_size >>= λ cib.
    bitmap_address cib (chunk_index % d.chunks_per_cib)
    >>= read_bit reader block_size (block % d.blocks_per_chunk)

unfoldable pub is_block_free : Reader → ℕ → ℕ → ℕ → Result Bool
unfolding check_device query_chunk device_of
is_block_free reader spaceman_paddr block block_size =
    read_obj_block reader spaceman_paddr block_size >>= λ sm.
    check_device (device_of sm) block >>= query_chunk reader block_size sm (device_of sm) block
