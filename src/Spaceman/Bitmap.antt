-- ===== src/Spaceman/Bitmap.antt =====
-- src/spaceman.rs: a bitmap block as one number, whose binary digits are the allocation bits.
use newtua_apfs.Prelude.{
  ℕ, zero, suc, ◌+◌, ◌*◌, ◌/◌, ◌%◌, ◌^◌, ◌<◌, ◌≡◌, refl, sym, ap, ◌∙◌, arith, bit_and, [], ◌∷◌,
  none, some, Bool, false, not, ◌==◌, get_elem?,
}
use newtua_apfs.Prelude.Bits.{bit_and_flag, two_pow-pos}
use native.Mathlib.Nat.{div-div-eq-div-mul}
use native.Mathlib.Numerals.{towards_suc}
use newtua_apfs.Bytes.{Bytes, AllBytes, from_le_bytes}
use newtua_apfs.Spaceman.{is_allocated}

-- Bit `k` of a number.
abbrev pub test_bit : ℕ → ℕ → Bool
test_bit n k = n / 2 ^ k % 2 == 1

flag_test : (byte k : ℕ) → not (bit_and byte (2 ^ k) == 0) ≡ test_bit byte k
flag_test byte k = ground (arith, bit_and_flag k byte, two_pow-pos k)

-- The low byte of a number holds its eight lowest bits.
low_byte_bit : (b m r : ℕ) → b < 256 → r < 8 → test_bit b r ≡ test_bit (b + 256 * m) r
low_byte_bit b m zero hb hr = ground arith
low_byte_bit b m (suc zero) hb hr = ground arith
low_byte_bit b m (suc (suc zero)) hb hr = ground arith
low_byte_bit b m (suc (suc (suc zero))) hb hr = ground arith
low_byte_bit b m (suc (suc (suc (suc zero)))) hb hr = ground arith
low_byte_bit b m (suc (suc (suc (suc (suc zero))))) hb hr = ground arith
low_byte_bit b m (suc (suc (suc (suc (suc (suc zero)))))) hb hr = ground arith
low_byte_bit b m (suc (suc (suc (suc (suc (suc (suc zero))))))) hb hr = ground arith
low_byte_bit b m (suc (suc (suc (suc (suc (suc (suc (suc r)))))))) hb hr = absurd (omega arith)

eight_up : (k : ℕ) → 2 ^ (k + 8) ≡ 256 * 2 ^ k
eight_up k = simp towards_suc (omega arith)

-- The bits above the low byte are those of the rest.
high_byte_bit : (b m k : ℕ) → b < 256 → test_bit m k ≡ test_bit (b + 256 * m) (k + 8)
high_byte_bit b m k hb =
    let rest : (b + 256 * m) / 256 ≡ m = omega arith in
    ap (λ (x : ℕ). x % 2 == 1)
      (sym (
        ap (λ (p : ℕ). (b + 256 * m) / p) (eight_up k)
        ∙ sym (div-div-eq-div-mul (b + 256 * m) 256 (2 ^ k))
        ∙ ap (λ (x : ℕ). x / 2 ^ k) rest))

zero_bit : (k : ℕ) → false ≡ test_bit 0 k
zero_bit k = ground (arith, two_pow-pos k)

byte_bit :
    (bs : Bytes) (q r : ℕ)
    → AllBytes bs
    → r < 8
    → elim (get_elem? bs q) [ none ↦ false | some byte ↦ test_bit byte r ]
      ≡ test_bit (from_le_bytes bs) (8 * q + r)
unfolding from_le_bytes
byte_bit [] q r all hr = zero_bit (8 * q + r)
byte_bit (b ∷ bs) zero r all hr =
    low_byte_bit b (from_le_bytes bs) r all.0 hr
    ∙ ap (test_bit (b + 256 * from_le_bytes bs)) (omega arith)
byte_bit (b ∷ bs) (suc q) r all hr =
    byte_bit bs q r all.1 hr
    ∙ high_byte_bit b (from_le_bytes bs) (8 * q + r) all.0
    ∙ ap (test_bit (b + 256 * from_le_bytes bs)) (omega arith)

-- Read as one little-endian number, a bitmap marks block `bit` of its chunk as allocated exactly
-- if bit `bit` of that number is 1; past the end of the bitmap no block is allocated.
pub is_allocated-test_bit :
    (bitmap : Bytes) (bit : ℕ)
    → AllBytes bitmap
    → is_allocated bitmap bit ≡ test_bit (from_le_bytes bitmap) bit
unfolding is_allocated
is_allocated-test_bit bitmap bit all =
    (elim (get_elem? bitmap (bit / 8))
      as (λ o.
        elim o [ none ↦ false | some byte ↦ not (bit_and byte (2 ^ (bit % 8)) == 0) ]
        ≡ elim o [ none ↦ false | some byte ↦ test_bit byte (bit % 8) ]) [
          | none ↦ refl
          | some byte ↦ flag_test byte (bit % 8)
        ])
    ∙ byte_bit bitmap (bit / 8) (bit % 8) all (omega arith)
    ∙ ap (test_bit (from_le_bytes bitmap)) (omega arith)
