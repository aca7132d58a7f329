-- ===== src/Compression/Reads.antt =====
-- src/compression.rs, its bounds-checked readers on what was written at an offset.
use newtua_apfs.Prelude.{ℕ, ◌+◌, ◌^◌, ◌<◌, ◌≡◌, refl, sym, arith, ◌++◌, length, some, true, ltb}
use newtua_apfs.Bytes.{Bytes, slice, to_le_bytes}
use newtua_apfs.Bytes.Slices.{slice-append}
use newtua_apfs.Bytes.Reads.{length-to_le_bytes, from_le_bytes-to_le_bytes}
use newtua_apfs.Error.{ok}
use newtua_apfs.Reader.{checked_add}
use newtua_apfs.Compression.{checked_bytes, checked_le_u32, checked_le_u64}

pub slice-written :
    (fork before chunk back : Bytes) (src : ℕ)
    → fork ≡ before ++ (chunk ++ back)
    → length before ≡ src
    → slice fork src (src + length chunk) ≡ some chunk
slice-written fork before chunk back src is at_src =
    rw (is, sym at_src) (slice-append before chunk back)

module _ (bytes front back : Bytes) (offset : ℕ) where
  checked_bytes-written :
      (n v : ℕ)
      → bytes ≡ front ++ (to_le_bytes n v ++ back)
      → length front ≡ offset
      → offset + n < 2 ^ 64
      → checked_bytes n bytes offset ≡ ok (to_le_bytes n v)
  unfolding checked_bytes checked_add
  checked_bytes-written n v is at_offset inside =
      let here : slice bytes offset (offset + n) ≡ some (to_le_bytes n v) =
        rw (length-to_le_bytes n v) at
          (slice-written bytes front (to_le_bytes n v) back offset is at_offset) in
      let fits : ltb (offset + n) (2 ^ 64) ≡ true = ground arith in rw (fits, here) refl

  pub checked_le_u32-written :
      (v : ℕ)
      → bytes ≡ front ++ (to_le_bytes 4 v ++ back)
      → length front ≡ offset
      → v < 2 ^ 32
      → offset + 4 < 2 ^ 64
      → checked_le_u32 bytes offset ≡ ok v
  unfolding checked_le_u32
  checked_le_u32-written v is at_offset small inside =
      rw (checked_bytes-written 4 v is at_offset inside, from_le_bytes-to_le_bytes 4 v small) refl

  pub checked_le_u64-written :
      (v : ℕ)
      → bytes ≡ front ++ (to_le_bytes 8 v ++ back)
      → length front ≡ offset
      → v < 2 ^ 64
      → offset + 8 < 2 ^ 64
      → checked_le_u64 bytes offset ≡ ok v
  unfolding checked_le_u64
  checked_le_u64-written v is at_offset small inside =
      rw (checked_bytes-written 8 v is at_offset inside, from_le_bytes-to_le_bytes 8 v small) refl
