-- ===== src/Compression.antt =====
-- src/compression.rs: transparent decmpfs compression. The vendored module src/decmpfs.rs and the
-- three codec crates are the parameter `Decmpfs`; nothing is assumed of them here. The capacities
-- that vectors are created with are not modelled.
pub mod Reads
pub mod Chunked
pub mod Blocks
pub mod RoundTrip
mod Tests
use newtua_apfs.Prelude.{
  ℕ, zero, suc, ◌+◌, ◌*◌, ◌/◌, min, [], ◌∷◌, ◌++◌, Option, none, some, Bool, true, false, not, ltb,
  leb, ◌==◌, foldl, length, drop, if◌then◌else◌,
}
use newtua_apfs.Bytes.{Bytes, Str, slice, from_le_bytes}
use newtua_apfs.Error.{ApfsError, Result, ok, err, ◌>>=◌, ◌>>◌, reject_if, ok_or, decmpfs}
use newtua_apfs.Reader.{Reader, checked_add, checked_sub, checked_mul}
use newtua_apfs.Volume.{ApfsVolume}
use newtua_apfs.Inode.{Inode}
use newtua_apfs.Xattr

-- What `decmpfs::classify` answers.
pub data Storage : Type 0 where
  inline resource_fork : Storage

pub data Algorithm : Type 0 where
  uncompressed zlib lzvn lzfse lz_bitmap : Algorithm

pub record Kind : Type 0 where
  pub algorithm : Algorithm
  pub storage : Storage

-- The constants and the table of src/decmpfs.rs, and the codecs: `ZlibDecoder::read_to_end`,
-- `lzvn::decode` and `lzfse_rust::decode_bytes`, with `none` for any of their errors.
pub record Decmpfs : Type 0 where
  pub magic : ℕ
  pub header_len : ℕ
  pub compression_type_offset : ℕ
  pub uncompressed_size_offset : ℕ
  pub chunk_size : ℕ
  pub classify : ℕ → Option Kind
  pub zlib_read_to_end : Bytes → Option Bytes
  pub lzvn_decode_bytes : Bytes → ℕ → Option Bytes
  pub lzfse_decode_bytes : Bytes → Option Bytes

unfoldable pub from_be_bytes : Bytes → ℕ
from_be_bytes = foldl (λ n b. n * 256 + b) 0

-- `data.get(offset..offset + n)`, with the errors of the module's readers.
unfoldable pub checked_bytes : ℕ → Bytes → ℕ → Result Bytes
checked_bytes n bytes offset =
    ok_or (checked_add offset n) (decmpfs "decmpfs read offset overflow") >>= λ end.
    ok_or (slice bytes offset end) (decmpfs "decmpfs read out of bounds")

-- The module's own `le_u32`, `be_u32` and `le_u64`, which fail out of range.
unfoldable pub checked_le_u32 : Bytes → ℕ → Result ℕ
unfolding checked_bytes
checked_le_u32 bytes offset = checked_bytes 4 bytes offset >>= λ s. ok (from_le_bytes s)

unfoldable pub checked_be_u32 : Bytes → ℕ → Result ℕ
unfolding checked_bytes from_be_bytes
checked_be_u32 bytes offset = checked_bytes 4 bytes offset >>= λ s. ok (from_be_bytes s)

unfoldable pub checked_le_u64 : Bytes → ℕ → Result ℕ
unfolding checked_bytes
checked_le_u64 bytes offset = checked_bytes 8 bytes offset >>= λ s. ok (from_le_bytes s)

unfoldable pub unreachable_algorithm : Result Bytes
unreachable_algorithm = err (decmpfs "decmpfs unsupported algorithm")

unfoldable pub is_fork : Option Kind → Bool
is_fork none = false
is_fork (some kind) = elim kind.storage [ inline ↦ false | resource_fork ↦ true ]

unfoldable pub is_lz_bitmap : Algorithm → Bool
is_lz_bitmap lz_bitmap = true
is_lz_bitmap _ = false

-- The error for a type that `classify` does not know.
unfoldable pub unknown_type : ℕ → ApfsError
unknown_type compression_type =
    if compression_type == 5
    then decmpfs "decmpfs type 5 (de-dup generation store, no payload)"
    else decmpfs "decmpfs unknown compression_type"

-- `table.checked_add(4).and_then(|b| b.checked_add(i.checked_mul(8)?))`.
unfoldable pub entry_offset : ℕ → ℕ → Option ℕ
entry_offset table i = elim (checked_add table 4) [
  | none ↦ none
  | some b ↦ elim (checked_mul i 8) [ none ↦ none | some k ↦ checked_add b k ]
]

module _ (d : Decmpfs) where
  unfoldable pub uncompressed_size : Bytes → Result ℕ
  unfolding checked_le_u32 checked_le_u64
  uncompressed_size header =
      reject_if (ltb (length header) d.header_len)
        (decmpfs "decmpfs xattr shorter than 16-byte header")
      >> (checked_le_u32 header 0 >>= λ magic.
          reject_if (not (magic == d.magic)) (decmpfs "decmpfs bad magic (expected 'cmpf')")
          >> checked_le_u64 header d.uncompressed_size_offset)

  unfoldable pub inflate : Bytes → Result Bytes
  inflate bytes = ok_or (d.zlib_read_to_end bytes) (decmpfs "decmpfs zlib codec error")

  unfoldable pub lzvn_decode : Bytes → ℕ → Result Bytes
  lzvn_decode chunk len = ok_or (d.lzvn_decode_bytes chunk len) (decmpfs "decmpfs lzvn codec error")

  unfoldable pub lzfse_decode : Bytes → Result Bytes
  lzfse_decode stream = ok_or (d.lzfse_decode_bytes stream) (decmpfs "decmpfs lzfse codec error")

  -- A payload that starts with the marker is stored verbatim behind it.
  unfoldable pub stored_or : ℕ → Bytes → Result Bytes → Result Bytes
  stored_or marker [] decoded = decoded
  stored_or marker (b ∷ bs) decoded = if b == marker then ok bs else decoded

  unfoldable pub decode_inline : Algorithm → Bytes → ℕ → ℕ → Result Bytes
  unfolding stored_or inflate lzvn_decode lzfse_decode unreachable_algorithm
  decode_inline uncompressed payload size compression_type =
      if compression_type == 9 then ok (drop 1 payload) else ok payload
  decode_inline zlib payload size compression_type = stored_or 0xff payload (inflate payload)
  decode_inline lzvn payload size compression_type =
      stored_or 0x06 payload (lzvn_decode payload size)
  decode_inline lzfse payload size compression_type = lzfse_decode payload
  decode_inline lz_bitmap payload size compression_type = unreachable_algorithm

  -- Block `i` of a zlib fork, whose block table begins at `table`.
  unfoldable pub zlib_block : Bytes → ℕ → ℕ → Result Bytes
  unfolding entry_offset checked_le_u32 inflate
  zlib_block fork table i =
      ok_or (entry_offset table i) (decmpfs "decmpfs zlib fork entry offset overflow") >>= λ entry.
      checked_le_u32 fork entry >>= λ offset. checked_le_u32 fork (entry + 4) >>= λ size.
      ok_or (checked_add table offset) (decmpfs "decmpfs zlib fork block start overflow")
      >>= λ start.
          ok_or (checked_add start size) (decmpfs "decmpfs zlib fork block end overflow") >>= λ end.
          ok_or (slice fork start end) (decmpfs "decmpfs zlib fork block out of bounds") >>= inflate

  -- `for i in 0..num_blocks`, with the rounds that are left.
  unfoldable pub zlib_loop : Bytes → ℕ → ℕ → ℕ → Bytes → Result Bytes
  unfolding zlib_block
  zlib_loop fork table zero i out = ok out
  zlib_loop fork table (suc n) i out =
      zlib_block fork table i >>= λ block. zlib_loop fork table n (i + 1) (out ++ block)

  unfoldable pub decode_zlib_resource_fork : Bytes → Result Bytes
  unfolding checked_be_u32 checked_le_u32 zlib_loop
  decode_zlib_resource_fork fork = checked_be_u32 fork 0 >>= λ header_size.
      ok_or (checked_add header_size 4) (decmpfs "decmpfs zlib fork table offset overflow")
      >>= λ table. checked_le_u32 fork table >>= λ num_blocks. zlib_loop fork table num_blocks 0 []

  unfoldable pub decode_chunk : Algorithm → Bytes → ℕ → Result Bytes
  unfolding lzvn_decode lzfse_decode unreachable_algorithm
  decode_chunk lzvn chunk chunk_uncompressed = lzvn_decode chunk chunk_uncompressed
  decode_chunk lzfse chunk chunk_uncompressed = lzfse_decode chunk
  decode_chunk uncompressed chunk chunk_uncompressed = ok chunk
  decode_chunk _ chunk chunk_uncompressed = unreachable_algorithm

  -- One slot of a chunked fork: the chunk from `src` to the slot's end-offset, which is returned
  -- with what it decodes to, when `done` bytes are there.
  unfoldable pub chunk_at : Algorithm → Bytes → ℕ → ℕ → ℕ → ℕ → Result (ℕ × Bytes)
  unfolding checked_le_u32 decode_chunk
  chunk_at algorithm fork size i src done = checked_le_u32 fork (4 + i * 4) >>= λ end.
      reject_if (ltb end src) (decmpfs "decmpfs chunked fork end-offset goes backward")
      >> (ok_or (slice fork src end) (decmpfs "decmpfs chunked fork chunk out of bounds")
          >>= λ chunk.
              ok_or (checked_sub size done) (decmpfs "decmpfs chunked fork size underflow")
              >>= λ left. decode_chunk algorithm chunk (min left d.chunk_size) >>= λ decoded.
                  ok (end, decoded))

  -- `for i in 0..n_slots`, with the rounds that are left.
  unfoldable pub chunk_loop : Algorithm → Bytes → ℕ → ℕ → ℕ → ℕ → Bytes → Result Bytes
  unfolding chunk_at
  chunk_loop algorithm fork size zero i src out = ok out
  chunk_loop algorithm fork size (suc n) i src out =
      let next : Result Bytes = chunk_at algorithm fork size i src (length out) >>= λ r.
      chunk_loop algorithm fork size n (i + 1) r.0 (out ++ r.1) in
      if leb size (length out) then ok out else next

  unfoldable pub decode_chunked_resource_fork : Algorithm → Bytes → ℕ → Result Bytes
  unfolding checked_le_u32 chunk_loop
  decode_chunked_resource_fork algorithm fork size = checked_le_u32 fork 0 >>= λ header_size.
      ok_or (checked_sub (header_size / 4) 1) (decmpfs "decmpfs chunked fork header too small")
      >>= λ n_slots. chunk_loop algorithm fork size n_slots 0 header_size []

  unfoldable pub decode_resource_fork : Algorithm → Bytes → ℕ → Result Bytes
  unfolding decode_zlib_resource_fork decode_chunked_resource_fork unreachable_algorithm
  decode_resource_fork zlib fork size = decode_zlib_resource_fork fork
  decode_resource_fork lz_bitmap fork size = unreachable_algorithm
  decode_resource_fork algorithm fork size = decode_chunked_resource_fork algorithm fork size

  -- The `match kind.storage` of `decompress_decmpfs`.
  unfoldable pub decode_payload : Kind → Bytes → Option Bytes → ℕ → ℕ → Result Bytes
  unfolding decode_inline decode_resource_fork
  decode_payload kind header resource size compression_type = elim kind.storage [
    | inline ↦
        ok_or (slice header d.header_len (length header))
          (decmpfs "decmpfs inline payload truncated")
        >>= λ payload. decode_inline kind.algorithm payload size compression_type
    | fork ↦ ok_or resource (decmpfs "decmpfs resource-fork type but no fork present") >>= λ bytes.
        decode_resource_fork kind.algorithm bytes size
  ]

  unfoldable pub decompress_decmpfs : Bytes → Option Bytes → Result Bytes
  unfolding uncompressed_size checked_le_u32 decode_payload unknown_type is_lz_bitmap
  decompress_decmpfs header resource = uncompressed_size header >>= λ size.
      checked_le_u32 header d.compression_type_offset >>= λ compression_type.
      ok_or (d.classify compression_type) (unknown_type compression_type) >>= λ kind.
      reject_if (is_lz_bitmap kind.algorithm) (decmpfs "decmpfs LZBitmap (no public spec)")
      >> (decode_payload kind header resource size compression_type >>= λ out.
          reject_if (not (length out == size))
            (decmpfs "decmpfs decoded length != uncompressed_size")
          >> ok out)

  unfoldable pub read_compressed :
      (Bytes → Str) → Reader → ApfsVolume Str → Inode Str → Bytes → ℕ → Result Bytes
  unfolding checked_le_u32 is_fork Xattr.resource_fork decompress_decmpfs
  read_compressed from_utf8_lossy reader volume inode header block_size =
      checked_le_u32 header d.compression_type_offset >>= λ compression_type.
      (if is_fork (d.classify compression_type)
        then Xattr.resource_fork from_utf8_lossy reader volume inode.oid block_size
        else ok none)
      >>= λ resource. decompress_decmpfs header resource
