-- ===== src/Bytes/Slices.antt =====
-- `data.get(from..to)` of src/bytes.rs and of every parser: what a slice holds.
use newtua_apfs.Prelude.{
  ℕ, zero, suc, ◌+◌, ◌-◌, ◌≤◌, ◌<◌, ◌≡◌, refl, ap, arith, [], ◌∷◌, ◌++◌, none, some, length, take,
  drop, length-take, length-drop, length-append, replicate, length-replicate, Option-cases, inl,
  inr,
}
use newtua_apfs.Bytes.{Bytes, AllBytes, slice, arr}

pub AllBytes-take : (n : ℕ) (bs : Bytes) → AllBytes bs → AllBytes (take n bs)
AllBytes-take zero bs h = tt
AllBytes-take (suc n) [] h = tt
AllBytes-take (suc n) (b ∷ bs) h = (h.0, AllBytes-take n bs h.1)

pub AllBytes-drop : (n : ℕ) (bs : Bytes) → AllBytes bs → AllBytes (drop n bs)
AllBytes-drop zero bs h = h
AllBytes-drop (suc n) [] h = tt
AllBytes-drop (suc n) (b ∷ bs) h = AllBytes-drop n bs h.1

pub AllBytes-append : (bs cs : Bytes) → AllBytes bs → AllBytes cs → AllBytes (bs ++ cs)
AllBytes-append [] cs h k = k
AllBytes-append (b ∷ bs) cs h k = (h.0, AllBytes-append bs cs h.1 k)

pub AllBytes-zeros : (n : ℕ) → AllBytes (replicate n 0)
AllBytes-zeros zero = tt
AllBytes-zeros (suc n) = (omega arith, AllBytes-zeros n)

-- A slice exists exactly within the data, and is then what lies there.
pub slice-eq-some :
    (buf : Bytes) (from to : ℕ) {s : Bytes}
    → slice buf from to ≡ some s
    → (from ≤ to) × (to ≤ length buf) × (s ≡ take (to - from) (drop from buf))
unfolding slice
slice-eq-some buf from to h = ground arith

pub slice_in :
    (buf : Bytes) (from to : ℕ)
    → from ≤ to
    → to ≤ length buf
    → slice buf from to ≡ some (take (to - from) (drop from buf))
unfolding slice
slice_in buf from to h k = ground arith

pub slice_out : (buf : Bytes) (from to : ℕ) → length buf < to → slice buf from to ≡ none
unfolding slice
slice_out buf from to h = ground arith

pub length-slice :
    (buf : Bytes) (from to : ℕ) {s : Bytes} → slice buf from to ≡ some s → length s ≡ to - from
length-slice buf from to {s} h =
    let (lo, hi, e) = slice-eq-some buf from to h in
    omega (arith, ap length e, length-take (to - from) (drop from buf), length-drop from buf)

pub slice-AllBytes :
    (buf : Bytes) (from to : ℕ) {s : Bytes} → AllBytes buf → slice buf from to ≡ some s → AllBytes s
slice-AllBytes buf from to all h =
    let (lo, hi, e) = slice-eq-some buf from to h in
    rw e (AllBytes-take (to - from) (drop from buf) (AllBytes-drop from buf all))

drop-append : (front rest : Bytes) → drop (length front) (front ++ rest) ≡ rest
drop-append [] rest = refl
drop-append (b ∷ front) rest = drop-append front rest

take-append : (mid back : Bytes) → take (length mid) (mid ++ back) ≡ mid
take-append [] back = refl
take-append (b ∷ mid) back = ap (λ t. b ∷ t) (take-append mid back)

sub_front : (m n : ℕ) → m + n - m ≡ n
sub_front m n = omega arith

-- The slice at a part of a concatenation is that part.
pub slice-append :
    (front mid back : Bytes)
    → slice (front ++ (mid ++ back)) (length front) (length front + length mid) ≡ some mid
unfolding slice
slice-append front mid back = ground (
  arith,
  length-append front (mid ++ back),
  length-append mid back,
  drop-append front (mid ++ back),
  take-append mid back,
  sub_front (length front) (length mid),
)

module _ (n : ℕ) (buf : Bytes) (offset : ℕ) where
  pub arr_in : {s : Bytes} → slice buf offset (offset + n) ≡ some s → arr n buf offset ≡ s
  unfolding arr
  arr_in e = rw (e, arr)

  -- Past the end of the data every byte reads as zero.
  pub arr_out : slice buf offset (offset + n) ≡ none → arr n buf offset ≡ replicate n 0
  unfolding arr
  arr_out e = rw (e, arr)

  pub length-arr : length (arr n buf offset) ≡ n
  length-arr = elim (Option-cases (slice buf offset (offset + n))) [
    | inl e ↦ rw (arr_out e) (length-replicate {A = ℕ} n 0)
    | inr (s, e) ↦ rw (arr_in e) (omega (arith, length-slice buf offset (offset + n) e))
  ]

  pub arr-AllBytes : AllBytes buf → AllBytes (arr n buf offset)
  arr-AllBytes all = elim (Option-cases (slice buf offset (offset + n))) [
    | inl e ↦ rw (arr_out e) (AllBytes-zeros n)
    | inr (s, e) ↦ rw (arr_in e) (slice-AllBytes buf offset (offset + n) all e)
  ]
