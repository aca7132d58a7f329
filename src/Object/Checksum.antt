-- ===== src/Object/Checksum.antt =====
-- src/object.rs: what the Fletcher-64 checksum of a block promises.
use newtua_apfs.Prelude.{
  ℕ, ◌+◌, ◌*◌, ◌%◌, ◌^◌, ◌≤◌, ◌<◌, ◌≡◌, ◌≢◌, refl, sym, ap, ◌∙◌, arith, List, [], ◌∷◌, ◌++◌, length,
  drop,
}
use newtua_apfs.Bytes.{Bytes, to_le_bytes}
use newtua_apfs.Bytes.Reads.{le_u64-to_le_bytes}
use newtua_apfs.Object.{
  Sums, fletcher_mod, fletcher_step, fletcher_loop, fletcher64_checksum, fletcher64_stored, stamp,
  words,
}
use newtua_apfs.Object.Fletcher.{
  AreReduced, check_lo, check_hi, fletcher_finish-parts, fletcher_finish-lt, fletcher_closes,
  fletcher_loop-AreReduced, fletcher_loop-append, fletcher_finish-injective, fletcher_loop-ne,
  fletcher_step-ne, fletcher_step-AreReduced,
}

abbrev pub zero_sums : Sums
zero_sums = record { sum_lo = 0; sum_hi = 0 }

-- The sums of a block's words, and a bound on them.
abbrev pub block_sums : Bytes → Sums
block_sums block = fletcher_loop 0 (words block) zero_sums

block_sums-AreReduced : (block : Bytes) → AreReduced (block_sums block)
block_sums-AreReduced block =
    fletcher_loop-AreReduced 0 (words block) zero_sums
      (record { lo = omega arith; hi = omega arith })

-- The checksum of a block is two words `hi` and `lo`, both fit 32 bits, and summing them behind
-- the words of a block of at least two words brings both Fletcher sums to zero.
pub fletcher64_checksum_closes :
    (block : Bytes)
    → 2 ≤ length (words block)
    → (lo : ℕ) × (hi : ℕ) × (lo < 2 ^ 32)
      × (hi < 2 ^ 32)
      × (fletcher64_checksum block ≡ hi * 2 ^ 32 + lo)
      × (fletcher_loop 0 (words block ++ (lo ∷ hi ∷ [])) zero_sums ≡ zero_sums)
unfolding fletcher64_checksum
fletcher64_checksum_closes block h =
    let s = block_sums block in
    (
      check_lo s,
      check_hi s,
      omega arith,
      omega arith,
      fletcher_finish-parts s,
      fletcher_loop-append 0 (words block) (check_lo s ∷ check_hi s ∷ []) zero_sums
          ∙ fletcher_closes (0 + length (words block)) s (omega arith),
    )

pub fletcher64_checksum-lt : (block : Bytes) → fletcher64_checksum block < 2 ^ 64
unfolding fletcher64_checksum
fletcher64_checksum-lt block = fletcher_finish-lt (block_sums block)

-- The checksum does not read the field that stores it.
pub fletcher64_checksum-header :
    (a b c d e f g h a' b' c' d' e' f' g' h' : ℕ) (rest : Bytes)
    → fletcher64_checksum (a ∷ b ∷ c ∷ d ∷ e ∷ f ∷ g ∷ h ∷ rest)
      ≡ fletcher64_checksum (a' ∷ b' ∷ c' ∷ d' ∷ e' ∷ f' ∷ g' ∷ h' ∷ rest)
unfolding fletcher64_checksum
fletcher64_checksum-header a b c d e f g h a' b' c' d' e' f' g' h' rest = refl

fletcher64_checksum-stamp :
    (block : Bytes)
    → 8 ≤ length block
    → fletcher64_checksum (stamp block) ≡ fletcher64_checksum block
unfolding stamp to_le_bytes
fletcher64_checksum-stamp (a ∷ b ∷ c ∷ d ∷ e ∷ f ∷ g ∷ h ∷ rest) le =
    fletcher64_checksum-header _ _ _ _ _ _ _ _ a b c d e f g h rest
fletcher64_checksum-stamp _ le = absurd (omega arith)

-- A block of at least eight bytes that carries its own checksum passes the check that every
-- reader of an object makes.
pub stamp-verifies :
    (block : Bytes)
    → 8 ≤ length block
    → fletcher64_stored (stamp block) ≡ fletcher64_checksum (stamp block)
unfolding fletcher64_stored stamp
stamp-verifies block le =
    le_u64-to_le_bytes [] (drop 8 block) (fletcher64_checksum block) (fletcher64_checksum-lt block)
    ∙ sym (fletcher64_checksum-stamp block le)

block_sums-split :
    (block : Bytes) (front back : List ℕ) (w : ℕ)
    → words block ≡ front ++ (w ∷ back)
    → block_sums block
      ≡ fletcher_loop
          (0 + length front + 1)
          back
          (fletcher_step (0 + length front) w (fletcher_loop 0 front zero_sums))
unfolding fletcher_loop
block_sums-split block front back w e =
    ap (λ ws. fletcher_loop 0 ws zero_sums) e ∙ fletcher_loop-append 0 front (w ∷ back) zero_sums

-- Two blocks that differ in one 32-bit word outside the checksum field, where the two words are
-- not congruent modulo 0xffffffff, have different checksums.
pub fletcher64_checksum_detects :
    (block block' : Bytes) (front back : List ℕ) (w w' : ℕ)
    → words block ≡ front ++ (w ∷ back)
    → words block' ≡ front ++ (w' ∷ back)
    → 2 ≤ length front
    → w % fletcher_mod ≢ w' % fletcher_mod
    → fletcher64_checksum block ≢ fletcher64_checksum block'
unfolding fletcher64_checksum
fletcher64_checksum_detects block block' front back w w' e e' h ne same =
    let i = 0 + length front in
    let mid = fletcher_loop 0 front zero_sums in
    let differ =
      fletcher_loop-ne (i + 1) back (fletcher_step i w mid) (fletcher_step i w' mid)
        (fletcher_step-AreReduced i w mid).lo (fletcher_step-AreReduced i w' mid).lo
        (fletcher_step-ne i w w' mid (omega arith) ne) in
    let sums = block_sums-split block front back w e in
    let sums' = block_sums-split block' front back w' e' in
    let recovered =
      fletcher_finish-injective (block_sums block) (block_sums block') (block_sums-AreReduced block)
        (block_sums-AreReduced block') same in
    differ (ap (λ s. s.sum_lo) (sym sums) ∙ recovered.0 ∙ ap (λ s. s.sum_lo) sums')
