-- ===== src/Object/Fletcher.antt =====
-- src/object.rs, `fletcher64_checksum`: the two running sums.
use newtua_apfs.Prelude.{
  ℕ, ◌+◌, ◌-◌, ◌*◌, ◌%◌, ◌^◌, ◌≤◌, ◌<◌, ◌≡◌, ◌≢◌, sym, ap, ◌∙◌, arith, List, [], ◌∷◌, ◌++◌, length,
  bit_or,
}
use newtua_apfs.Prelude.Bits.{bit_or_shifted}
use newtua_apfs.Object.{Sums, fletcher_mod, fletcher_step, fletcher_loop, fletcher_finish}

-- The range of the two sums, which keeps every u64 addition of the loop from wrapping.
pub record AreReduced (s : Sums) : Type 0 where
  pub lo : s.sum_lo < fletcher_mod
  pub hi : s.sum_hi < fletcher_mod

pub fletcher_step-AreReduced : (i w : ℕ) (s : Sums) → AreReduced (fletcher_step i w s)
unfolding fletcher_step
fletcher_step-AreReduced i w s = record { lo = omega arith; hi = omega arith }

pub fletcher_loop-AreReduced :
    (i : ℕ) (ws : List ℕ) (s : Sums) → AreReduced s → AreReduced (fletcher_loop i ws s)
unfolding fletcher_loop
fletcher_loop-AreReduced i [] s r = r
fletcher_loop-AreReduced i (w ∷ ws) s r =
    fletcher_loop-AreReduced (i + 1) ws (fletcher_step i w s) (fletcher_step-AreReduced i w s)

pub fletcher_loop-append :
    (i : ℕ) (us ws : List ℕ) (s : Sums)
    → fletcher_loop i (us ++ ws) s ≡ fletcher_loop (i + length us) ws (fletcher_loop i us s)
unfolding fletcher_loop
fletcher_loop-append i [] ws s = ap (λ n. fletcher_loop n ws s) (omega arith)
fletcher_loop-append i (u ∷ us) ws s =
    fletcher_loop-append (i + 1) us ws (fletcher_step i u s)
    ∙ ap (λ n. fletcher_loop n ws (fletcher_loop (i + 1) us (fletcher_step i u s))) (omega arith)

-- The two halves of the result.
abbrev pub check_lo : Sums → ℕ
check_lo s = fletcher_mod - (s.sum_lo + s.sum_hi) % fletcher_mod

abbrev pub check_hi : Sums → ℕ
check_hi s = fletcher_mod - (s.sum_lo + check_lo s) % fletcher_mod

pub fletcher_finish-parts : (s : Sums) → fletcher_finish s ≡ check_hi s * 2 ^ 32 + check_lo s
unfolding fletcher_finish
fletcher_finish-parts s =
    ap (λ (t : ℕ). bit_or t (check_lo s)) shifted
    ∙ bit_or_shifted 32 (check_hi s) (check_lo s) (omega arith)
  where
    shifted : check_hi s * 2 ^ 32 % 2 ^ 64 ≡ check_hi s * 2 ^ 32
    shifted = omega arith

pub fletcher_finish-lt : (s : Sums) → fletcher_finish s < 2 ^ 64
fletcher_finish-lt s = omega (arith, fletcher_finish-parts s)

-- Feeding the two halves of the result back as two more words brings both sums to zero.
pub fletcher_closes :
    (i : ℕ) (s : Sums)
    → 2 ≤ i
    → fletcher_loop i (check_lo s ∷ check_hi s ∷ []) s ≡ record { sum_lo = 0; sum_hi = 0 }
unfolding fletcher_loop fletcher_step
fletcher_closes i s h = ground arith

-- The sums are recovered from the result.
pub fletcher_finish-injective :
    (s t : Sums)
    → AreReduced s
    → AreReduced t
    → fletcher_finish s ≡ fletcher_finish t
    → (s.sum_lo ≡ t.sum_lo) × (s.sum_hi ≡ t.sum_hi)
fletcher_finish-injective s t rs rt h =
    let parts = sym (fletcher_finish-parts s) ∙ h ∙ fletcher_finish-parts t in omega (arith, parts)

-- The lower sum moves by the same amount whatever it was.
add_mod-ne :
    (a b v : ℕ)
    → a < fletcher_mod
    → b < fletcher_mod
    → a ≢ b
    → (a + v) % fletcher_mod ≢ (b + v) % fletcher_mod
add_mod-ne a b v ha hb h = omega arith

pub fletcher_loop-ne :
    (i : ℕ) (ws : List ℕ) (s t : Sums)
    → s.sum_lo < fletcher_mod
    → t.sum_lo < fletcher_mod
    → s.sum_lo ≢ t.sum_lo
    → (fletcher_loop i ws s).sum_lo ≢ (fletcher_loop i ws t).sum_lo
unfolding fletcher_loop fletcher_step
fletcher_loop-ne i [] s t hs ht h = h
fletcher_loop-ne i (w ∷ ws) s t hs ht h =
    fletcher_loop-ne (i + 1) ws (fletcher_step i w s) (fletcher_step i w t) (omega arith)
      (omega arith) (add_mod-ne s.sum_lo t.sum_lo _ hs ht h)

-- Two different words behind the same sums leave different lower sums.
pub fletcher_step-ne :
    (i w w' : ℕ) (s : Sums)
    → 2 ≤ i
    → w % fletcher_mod ≢ w' % fletcher_mod
    → (fletcher_step i w s).sum_lo ≢ (fletcher_step i w' s).sum_lo
unfolding fletcher_step
fletcher_step-ne i w w' s h ne = ground arith
