-- ===== src/Btree/Order.antt =====
-- src/btree.rs: the order of keys that a B-tree keeps, in the leaves and of the separators.
use newtua_apfs.Prelude.{ap, ℕ, suc, ◌≤◌, ◌<◌, ◌≡◌, arith, List, [], ◌∷◌, ◌++◌, ◌⊎◌, inl, inr}
use newtua_apfs.Bytes.{Bytes, AllBytes}
use newtua_apfs.Btree.Node.{Entry}
use newtua_apfs.Btree.Tree.{Tree, Forest, leaf, index, nil, cons, entries_of, entries_in}

-- Membership, as a sum over the places.
abbrev pub Among : Entry → List Entry → Type 0
Among e [] = ⊥
Among e (x ∷ xs) = (e ≡ x) ⊎ Among e xs

pub Among-append : (e : Entry) (xs ys : List Entry) → Among e (xs ++ ys) → Among e xs ⊎ Among e ys
Among-append e [] ys m = inr m
Among-append e (x ∷ xs) ys (inl p) = inl (inl p)
Among-append e (x ∷ xs) ys (inr m) = elim (Among-append e xs ys m) [
  | inl a ↦ inl (inr a)
  | inr b ↦ inr b
]

pub Among-append_left : (e : Entry) (xs ys : List Entry) → Among e xs → Among e (xs ++ ys)
Among-append_left e [] ys m = absurd m
Among-append_left e (x ∷ xs) ys (inl p) = inl p
Among-append_left e (x ∷ xs) ys (inr m) = inr (Among-append_left e xs ys m)

pub Among-append_right : (e : Entry) (xs ys : List Entry) → Among e ys → Among e (xs ++ ys)
Among-append_right e [] ys m = m
Among-append_right e (x ∷ xs) ys m = inr (Among-append_right e xs ys m)

-- A separator is the smallest key below it, keys ascend strictly, and lie from `lo` on below `hi`.
module _ (rank : Bytes → ℕ) where
  abbrev pub first_rank : Forest → ℕ → ℕ
  first_rank nil hi = hi
  first_rank (cons sep t f) hi = rank sep

  abbrev pub AreAscending : ℕ → ℕ → List Entry → Type 0
  AreAscending lo hi [] = lo ≤ hi
  AreAscending lo hi (e ∷ es) =
      AllBytes e.key × (lo ≤ rank e.key) × (rank e.key < hi) × AreAscending (suc (rank e.key)) hi es

  abbrev mutual
    pub IsOrdered : ℕ → ℕ → Tree → Type 0
    IsOrdered lo hi (leaf p es) = AreAscending lo hi es
    IsOrdered lo hi (index p f) = AreOrdered lo hi f

    pub AreOrdered : ℕ → ℕ → Forest → Type 0
    AreOrdered lo hi nil = lo ≤ hi
    AreOrdered lo hi (cons sep t f) =
        AllBytes sep
        × (lo ≤ rank sep)
        × IsOrdered (rank sep) (first_rank f hi) t
        × ((e : Entry) × Among e (entries_of t) × (rank e.key ≡ rank sep))
        × AreOrdered (first_rank f hi) hi f

  pub ascending-bounds :
      (lo hi : ℕ) (es : List Entry) (e : Entry)
      → AreAscending lo hi es
      → Among e es
      → (lo ≤ rank e.key) × (rank e.key < hi) × AllBytes e.key
  ascending-bounds lo hi [] e a m = absurd m
  ascending-bounds lo hi (x ∷ es) e a (inl p) = rw p (a.1, a.2, a.0)
  ascending-bounds lo hi (x ∷ es) e a (inr m) =
      let (l, h, b) = ascending-bounds (suc (rank x.key)) hi es e a.3 m in (omega arith, h, b)

  ascending-le : (lo hi : ℕ) (es : List Entry) → AreAscending lo hi es → lo ≤ hi
  ascending-le lo hi [] a = a
  ascending-le lo hi (x ∷ es) a = omega arith

  mutual
    pub ordered-le : (lo hi : ℕ) (t : Tree) → IsOrdered lo hi t → lo ≤ hi
    ordered-le lo hi (leaf p es) o = ascending-le lo hi es o
    ordered-le lo hi (index p f) o = ordered_all-le lo hi f o

    pub ordered_all-le : (lo hi : ℕ) (f : Forest) → AreOrdered lo hi f → lo ≤ hi
    ordered_all-le lo hi nil o = o
    ordered_all-le lo hi (cons sep t f) o = omega (
      arith,
      ordered-le (rank sep) (first_rank f hi) t o.2,
      ordered_all-le (first_rank f hi) hi f o.4,
    )

  -- Every entry of an ordered tree lies in its range.
  mutual
    pub ordered-bounds :
        (lo hi : ℕ) (t : Tree) (e : Entry)
        → IsOrdered lo hi t
        → Among e (entries_of t)
        → (lo ≤ rank e.key) × (rank e.key < hi) × AllBytes e.key
    ordered-bounds lo hi (leaf p es) e o m = ascending-bounds lo hi es e o m
    ordered-bounds lo hi (index p f) e o m = ordered_all-bounds lo hi f e o m

    pub ordered_all-bounds :
        (lo hi : ℕ) (f : Forest) (e : Entry)
        → AreOrdered lo hi f
        → Among e (entries_in f)
        → (lo ≤ rank e.key) × (rank e.key < hi) × AllBytes e.key
    ordered_all-bounds lo hi nil e o m = absurd m
    ordered_all-bounds lo hi (cons sep t f) e o m =
        elim (Among-append e (entries_of t) (entries_in f) m) [
          | inl a ↦
              let (l, h, b) = ordered-bounds (rank sep) (first_rank f hi) t e o.2 a in
              (omega arith, omega (arith, ordered_all-le (first_rank f hi) hi f o.4), b)
          | inr a ↦
              let (l, h, b) = ordered_all-bounds (first_rank f hi) hi f e o.4 a in
              (omega (arith, ordered-le (rank sep) (first_rank f hi) t o.2), h, b)
        ]

  ascending_unique :
      (lo hi : ℕ) (es : List Entry) (e e' : Entry)
      → AreAscending lo hi es
      → Among e es
      → Among e' es
      → rank e.key ≡ rank e'.key
      → e ≡ e'
  ascending_unique lo hi [] e e' a m m' same = absurd m
  ascending_unique lo hi (x ∷ es) e e' a (inl p) (inl q) same = cc
  ascending_unique lo hi (x ∷ es) e e' a (inl p) (inr m') same =
      let above = ascending-bounds (suc (rank x.key)) hi es e' a.3 m' in
      absurd (omega (arith, ap (λ (y : Entry). rank y.key) p))
  ascending_unique lo hi (x ∷ es) e e' a (inr m) (inl q) same =
      let above = ascending-bounds (suc (rank x.key)) hi es e a.3 m in
      absurd (omega (arith, ap (λ (y : Entry). rank y.key) q))
  ascending_unique lo hi (x ∷ es) e e' a (inr m) (inr m') same =
      ascending_unique (suc (rank x.key)) hi es e e' a.3 m m' same

  mutual
    unique-tree :
        (lo hi : ℕ) (t : Tree) (e e' : Entry)
        → IsOrdered lo hi t
        → Among e (entries_of t)
        → Among e' (entries_of t)
        → rank e.key ≡ rank e'.key
        → e ≡ e'
    unique-tree lo hi (leaf p es) e e' o m m' same = ascending_unique lo hi es e e' o m m' same
    unique-tree lo hi (index p f) e e' o m m' same = unique-forest lo hi f e e' o m m' same

    unique-forest :
        (lo hi : ℕ) (f : Forest) (e e' : Entry)
        → AreOrdered lo hi f
        → Among e (entries_in f)
        → Among e' (entries_in f)
        → rank e.key ≡ rank e'.key
        → e ≡ e'
    unique-forest lo hi nil e e' o m m' same = absurd m
    unique-forest lo hi (cons sep t f) e e' o m m' same =
        let here = λ (x : Entry). ordered-bounds (rank sep) (first_rank f hi) t x o.2 in
        let there = λ (x : Entry). ordered_all-bounds (first_rank f hi) hi f x o.4 in
        elim (Among-append e (entries_of t) (entries_in f) m) [
          | inl a ↦ elim (Among-append e' (entries_of t) (entries_in f) m') [
            | inl b ↦ unique-tree (rank sep) (first_rank f hi) t e e' o.2 a b same
            | inr b ↦ absurd (omega (arith, here e a, there e' b))
          ]
          | inr a ↦ elim (Among-append e' (entries_of t) (entries_in f) m') [
            | inl b ↦ absurd (omega (arith, there e a, here e' b))
            | inr b ↦ unique-forest (first_rank f hi) hi f e e' o.4 a b same
          ]
        ]

  -- Two entries of an ordered tree with the same key are one entry.
  pub ordered_unique :
      (lo hi : ℕ) (t : Tree) (e e' : Entry)
      → IsOrdered lo hi t
      → Among e (entries_of t)
      → Among e' (entries_of t)
      → rank e.key ≡ rank e'.key
      → e ≡ e'
  ordered_unique lo hi t e e' o m m' same = unique-tree lo hi t e e' o m m' same
