-- ===== src/Bytes/Reads.antt =====
-- src/bytes.rs: the range of the little-endian reads, and that they read back what was written.
use newtua_apfs.Prelude.{
  ℕ, zero, suc, ◌+◌, ◌/◌, ◌^◌, ◌<◌, ◌≡◌, refl, ap, arith, [], ◌∷◌, ◌++◌, length, replicate,
}
use newtua_apfs.Bytes.{Bytes, AllBytes, from_le_bytes, to_le_bytes, arr, le_u16, le_u32, le_u64}
use newtua_apfs.Bytes.Slices.{length-arr, arr-AllBytes, arr_in, arr_out, slice-append, slice_out}
use native.Mathlib.Nat.{pow-suc}

from_le_bytes-lt : (bs : Bytes) → AllBytes bs → from_le_bytes bs < 256 ^ length bs
unfolding from_le_bytes
from_le_bytes-lt [] h = omega arith
from_le_bytes-lt (b ∷ bs) h = omega (arith, from_le_bytes-lt bs h.1, h.0, pow-suc 256 (length bs))

from_le_bytes-zeros : (n : ℕ) → from_le_bytes (replicate n 0) ≡ 0
unfolding from_le_bytes
from_le_bytes-zeros zero = refl
from_le_bytes-zeros (suc n) = omega (arith, from_le_bytes-zeros n)

pub length-to_le_bytes : (n v : ℕ) → length (to_le_bytes n v) ≡ n
unfolding to_le_bytes
length-to_le_bytes zero v = refl
length-to_le_bytes (suc n) v = ap suc (length-to_le_bytes n (v / 256))

pub to_le_bytes-AllBytes : (n v : ℕ) → AllBytes (to_le_bytes n v)
unfolding to_le_bytes
to_le_bytes-AllBytes zero v = tt
to_le_bytes-AllBytes (suc n) v = (omega arith, to_le_bytes-AllBytes n (v / 256))

pub from_le_bytes-to_le_bytes : (n v : ℕ) → v < 256 ^ n → from_le_bytes (to_le_bytes n v) ≡ v
unfolding from_le_bytes to_le_bytes
from_le_bytes-to_le_bytes zero v h = omega arith
from_le_bytes-to_le_bytes (suc n) v h =
    omega (arith, from_le_bytes-to_le_bytes n (v / 256) (omega (arith, pow-suc 256 n)))

arr-word-lt :
    (n : ℕ) (buf : Bytes) (offset : ℕ) → AllBytes buf → from_le_bytes (arr n buf offset) < 256 ^ n
arr-word-lt n buf offset all =
    rw (length-arr n buf offset) at
      (from_le_bytes-lt (arr n buf offset) (arr-AllBytes n buf offset all))

-- Every read of a buffer of bytes, in range or not, fits the word it is read as.
pub le_reads_fit :
    (buf : Bytes) (offset : ℕ)
    → AllBytes buf
    → (le_u16 buf offset < 2 ^ 16) × (le_u32 buf offset < 2 ^ 32) × (le_u64 buf offset < 2 ^ 64)
unfolding le_u16 le_u32 le_u64 arr
le_reads_fit buf offset all =
    (arr-word-lt 2 buf offset all, arr-word-lt 4 buf offset all, arr-word-lt 8 buf offset all)

zeros_read :
    (n : ℕ) (buf : Bytes) (offset : ℕ)
    → length buf < offset + n
    → from_le_bytes (arr n buf offset) ≡ 0
zeros_read n buf offset h =
    rw (arr_out n buf offset (slice_out buf offset (offset + n) h)) (from_le_bytes-zeros n)

-- Where fewer than two bytes of the data are left, all three reads yield 0, whatever the data
-- holds.
pub le_reads_past_end :
    (buf : Bytes) (offset : ℕ)
    → length buf < offset + 2
    → (le_u16 buf offset ≡ 0) × (le_u32 buf offset ≡ 0) × (le_u64 buf offset ≡ 0)
unfolding le_u16 le_u32 le_u64 arr
le_reads_past_end buf offset h = (
  zeros_read 2 buf offset h,
  zeros_read 4 buf offset (omega arith),
  zeros_read 8 buf offset (omega arith),
)

module _ (front back : Bytes) where
  word_back :
      (n v : ℕ)
      → v < 256 ^ n
      → from_le_bytes (arr n (front ++ (to_le_bytes n v ++ back)) (length front)) ≡ v
  word_back n v h =
      let here = rw (length-to_le_bytes n v) at (slice-append front (to_le_bytes n v) back) in
      rw (arr_in n (front ++ (to_le_bytes n v ++ back)) (length front) here)
        (from_le_bytes-to_le_bytes n v h)

  pub le_u16-to_le_bytes :
      (v : ℕ) → v < 2 ^ 16 → le_u16 (front ++ (to_le_bytes 2 v ++ back)) (length front) ≡ v
  unfolding le_u16 arr
  le_u16-to_le_bytes v h = word_back 2 v h

  pub le_u32-to_le_bytes :
      (v : ℕ) → v < 2 ^ 32 → le_u32 (front ++ (to_le_bytes 4 v ++ back)) (length front) ≡ v
  unfolding le_u32 arr
  le_u32-to_le_bytes v h = word_back 4 v h

  -- A 64-bit word written in little-endian order anywhere in a buffer is read back from there.
  pub le_u64-to_le_bytes :
      (v : ℕ) → v < 2 ^ 64 → le_u64 (front ++ (to_le_bytes 8 v ++ back)) (length front) ≡ v
  unfolding le_u64 arr
  le_u64-to_le_bytes v h = word_back 8 v h
