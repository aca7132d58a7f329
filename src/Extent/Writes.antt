-- ===== src/Extent/Writes.antt =====
-- src/extent.rs, the copy of an extent's bytes into the buffer: what a buffer holds afterwards.
use newtua_apfs.Prelude.{
  ℕ, zero, suc, ◌+◌, ◌≤◌, ◌<◌, ◌≡◌, refl, ap, ◌∙◌, arith, [], ◌∷◌, ◌++◌, length, take, drop, get_or,
  length-take, length-drop, length-append,
}
use newtua_apfs.Bytes.{Bytes}
use newtua_apfs.Extent.{write_at}

pub at_index : (xs : Bytes) {i j : ℕ} → i ≡ j → get_or xs i 0 ≡ get_or xs j 0
at_index xs e = ap (λ k. get_or xs k 0) e

pub get_or-take : (n : ℕ) (xs : Bytes) (i : ℕ) → i < n → get_or (take n xs) i 0 ≡ get_or xs i 0
get_or-take zero xs i h = absurd (omega arith)
get_or-take (suc n) [] i h = refl
get_or-take (suc n) (x ∷ xs) zero h = refl
get_or-take (suc n) (x ∷ xs) (suc i) h = get_or-take n xs i (omega arith)

pub get_or-drop : (n : ℕ) (xs : Bytes) (i : ℕ) → get_or (drop n xs) i 0 ≡ get_or xs (n + i) 0
get_or-drop zero xs i = ap (λ k. get_or xs k 0) (omega arith)
get_or-drop (suc n) [] i = refl
get_or-drop (suc n) (x ∷ xs) i =
    get_or-drop n xs i ∙ at_index (x ∷ xs) {i = suc (n + i)} (omega arith)

get_or-append_left : (xs ys : Bytes) (i : ℕ) → i < length xs → get_or (xs ++ ys) i 0 ≡ get_or xs i 0
get_or-append_left [] ys i h = absurd (omega arith)
get_or-append_left (x ∷ xs) ys zero h = refl
get_or-append_left (x ∷ xs) ys (suc i) h = get_or-append_left xs ys i (omega arith)

get_or-append_right : (xs ys : Bytes) (i : ℕ) → get_or (xs ++ ys) (length xs + i) 0 ≡ get_or ys i 0
get_or-append_right [] ys i = ap (λ k. get_or ys k 0) (omega arith)
get_or-append_right (x ∷ xs) ys i =
    at_index (x ∷ (xs ++ ys)) {j = suc (length xs + i)} (omega arith) ∙ get_or-append_right xs ys i

module _ (out : Bytes) (start : ℕ) (bytes : Bytes) (fits : start + length bytes ≤ length out) where
  pub length-write_at : length (write_at out start bytes) ≡ length out
  unfolding write_at
  length-write_at = omega (
    arith,
    length-append (take start out) (bytes ++ drop (start + length bytes) out),
    length-append bytes (drop (start + length bytes) out),
    length-take start out,
    length-drop (start + length bytes) out,
  )

  pub write_at_before : (i : ℕ) → i < start → get_or (write_at out start bytes) i 0 ≡ get_or out i 0
  unfolding write_at
  write_at_before i h =
      get_or-append_left (take start out) (bytes ++ drop (start + length bytes) out) i
        (omega (arith, length-take start out))
      ∙ get_or-take start out i h

  pub write_at_within :
      (k : ℕ)
      → k < length bytes
      → get_or (write_at out start bytes) (start + k) 0 ≡ get_or bytes k 0
  unfolding write_at
  write_at_within k h =
      at_index (take start out ++ (bytes ++ drop (start + length bytes) out))
        {j = length (take start out) + k} (omega (arith, length-take start out))
      ∙ get_or-append_right (take start out) (bytes ++ drop (start + length bytes) out) k
      ∙ get_or-append_left bytes (drop (start + length bytes) out) k h

  pub write_at_after :
      (k : ℕ)
      → get_or (write_at out start bytes) (start + length bytes + k) 0
        ≡ get_or out (start + length bytes + k) 0
  unfolding write_at
  write_at_after k =
      at_index (take start out ++ (bytes ++ drop (start + length bytes) out))
        {j = length (take start out) + (length bytes + k)} (omega (arith, length-take start out))
      ∙ get_or-append_right (take start out) (bytes ++ drop (start + length bytes) out)
          (length bytes + k)
      ∙ get_or-append_right bytes (drop (start + length bytes) out) k
      ∙ get_or-drop (start + length bytes) out k
