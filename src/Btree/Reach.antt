-- ===== src/Btree/Reach.antt =====
-- src/btree.rs, `find_leaf`: in an ordered tree the leaf of the keyed descent decides what the
-- greatest entry at or below the target is.
use newtua_apfs.Prelude.{
  ℕ, ◌≤◌, ◌<◌, ◌≡◌, refl, arith, List, [], ◌++◌, ◌⊎◌, inl, inr, Ordering, compare,
}
use newtua_apfs.Bytes.{Bytes, AllBytes}
use native.Mathlib.Decide.{dec_le}
use newtua_apfs.Btree.Node.{Entry}
use newtua_apfs.Btree.Tree.{Tree, Forest, leaf, index, nil, cons, entries_of, entries_in}
use newtua_apfs.Btree.Descent.{landing, landing_first, landing_after}
use newtua_apfs.Btree.Order
use newtua_apfs.Btree.Order.{Among, Among-append, Among-append_left, Among-append_right}

-- The landing of an index node is one of its loop over the separators.
landing_first-after :
    (cmp : Bytes → Ordering) (f : Forest)
    → (current : List Entry) × (landing_first cmp f ≡ landing_after cmp current f)
landing_first-after cmp nil = ([], refl)
landing_first-after cmp (cons sep t f) = (landing cmp t, refl)

-- The landing leaf is a leaf of the tree.
module _ (cmp : Bytes → Ordering) where
  mutual
    landing-within : (t : Tree) (e : Entry) → Among e (landing cmp t) → Among e (entries_of t)
    landing-within (leaf p es) e m = m
    landing-within (index p f) e m = landing_first-within f e m

    landing_first-within :
        (f : Forest) (e : Entry) → Among e (landing_first cmp f) → Among e (entries_in f)
    landing_first-within nil e m = absurd m
    landing_first-within (cons sep t f) e m =
        (elim (cmp sep)
            as (λ o.
              Among e
                (elim o [ Ordering.gt ↦ landing cmp t | _ ↦ landing_after cmp (landing cmp t) f ])
              → Among e (entries_of t ++ entries_in f)) [
                | Ordering.gt ↦ λ a. Among-append_left e _ _ (landing-within t e a)
                | _ ↦ λ a. elim (landing_after-within f (landing cmp t) e a) [
                  | inl b ↦ Among-append_left e _ _ (landing-within t e b)
                  | inr b ↦ Among-append_right e (entries_of t) (entries_in f) b
                ]
              ])
          m

    landing_after-within :
        (f : Forest) (current : List Entry) (e : Entry)
        → Among e (landing_after cmp current f)
        → Among e current ⊎ Among e (entries_in f)
    landing_after-within nil current e m = inl m
    landing_after-within (cons sep t f) current e m =
        (elim (cmp sep)
            as (λ o.
              Among e (elim o [ Ordering.gt ↦ current | _ ↦ landing_after cmp (landing cmp t) f ])
              → Among e current ⊎ Among e (entries_of t ++ entries_in f)) [
                | Ordering.gt ↦ inl
                | _ ↦ λ a. elim (landing_after-within f (landing cmp t) e a) [
                  | inl b ↦ inr (Among-append_left e _ _ (landing-within t e b))
                  | inr b ↦ inr (Among-append_right e (entries_of t) (entries_in f) b)
                ]
              ])
          m

  pub Among-landing : (t : Tree) (e : Entry) → Among e (landing cmp t) → Among e (entries_of t)
  Among-landing t e m = landing-within t e m

module _ (rank : Bytes → ℕ) (cmp : Bytes → Ordering) (target : ℕ)
    (agrees : (k : Bytes) → AllBytes k → cmp k ≡ compare (rank k) target) where
  -- `es` has the entry `e`, or one above it that is not above the target.
  abbrev pub Reaches : Entry → List Entry → Type 0
  Reaches e es =
      Among e es
      ⊎ ((e' : Entry) × Among e' es × (rank e.key < rank e'.key) × (rank e'.key ≤ target))

  -- The first entry of a child not above the target stands for all that is below it.
  Reaches-below :
      (e x : Entry) (es : List Entry)
      → rank e.key < rank x.key
      → rank x.key ≤ target
      → Reaches x es
      → Reaches e es
  Reaches-below e x es lt le (inl m) = inr (x, m, lt, le)
  Reaches-below e x es lt le (inr (y, m, lt', le')) = inr (y, m, omega arith, le')

  landing_after-skip :
      (current : List Entry) (sep : Bytes) (t : Tree) (f : Forest)
      → AllBytes sep
      → target < rank sep
      → landing_after cmp current (cons sep t f) ≡ current
  landing_after-skip current sep t f b h = ground (arith, agrees sep b)

  landing_after-enter :
      (current : List Entry) (sep : Bytes) (t : Tree) (f : Forest)
      → AllBytes sep
      → rank sep ≤ target
      → landing_after cmp current (cons sep t f) ≡ landing_after cmp (landing cmp t) f
  landing_after-enter current sep t f b h = ground (arith, agrees sep b)

  mutual
    -- Every entry at or below the target is in the landing leaf, or is passed there by another.
    Reaches-landing :
        (lo hi : ℕ) (t : Tree) (e : Entry)
        → Order.IsOrdered rank lo hi t
        → Among e (entries_of t)
        → rank e.key ≤ target
        → Reaches e (landing cmp t)
    Reaches-landing lo hi (leaf p es) e o m le = inl m
    Reaches-landing lo hi (index p f) e o m le =
        let (current, same) = landing_first-after cmp f in
        rw same (Reaches-in lo hi f current e o m le)

    Reaches-in :
        (lo hi : ℕ) (f : Forest) (current : List Entry) (e : Entry)
        → Order.AreOrdered rank lo hi f
        → Among e (entries_in f)
        → rank e.key ≤ target
        → Reaches e (landing_after cmp current f)
    Reaches-in lo hi nil current e o m le = absurd m
    Reaches-in lo hi (cons sep t f) current e o m le =
        let inside = Order.ordered_all-bounds rank lo hi (cons sep t f) e o m in
        elim (Among-append e (entries_of t) (entries_in f) m) [
          | inl a ↦
              let bounds =
                Order.ordered-bounds rank (rank sep) (Order.first_rank rank f hi) t e o.2 a in
              rw (landing_after-enter current sep t f o.0 (omega arith)) (
                Reaches-after (Order.first_rank rank f hi) hi f (landing cmp t) e o.4 bounds.1
                  (Reaches-landing (rank sep) (Order.first_rank rank f hi) t e o.2 a le))
          | inr a ↦
              let bounds =
                Order.ordered_all-bounds rank (Order.first_rank rank f hi) hi f e o.4 a in
              let span = Order.ordered-le rank (rank sep) (Order.first_rank rank f hi) t o.2 in
              rw (landing_after-enter current sep t f o.0 (omega arith))
                (Reaches-in (Order.first_rank rank f hi) hi f (landing cmp t) e o.4 a le)
        ]

    Reaches-after :
        (lo hi : ℕ) (f : Forest) (current : List Entry) (e : Entry)
        → Order.AreOrdered rank lo hi f
        → rank e.key < Order.first_rank rank f hi
        → Reaches e current
        → Reaches e (landing_after cmp current f)
    Reaches-after lo hi nil current e o lt r = r
    Reaches-after lo hi (cons sep t f) current e o lt r =
        let (x, among, same) = o.3 in
        let span = Order.ordered-le rank (rank sep) (Order.first_rank rank f hi) t o.2 in
        elim (dec_le (rank sep) target) [
          | yes h ↦ rw (landing_after-enter current sep t f o.0 h) (
              Reaches-after (Order.first_rank rank f hi) hi f (landing cmp t) e o.4 (omega arith) (
                Reaches-below e x (landing cmp t) (omega arith) (omega arith) (
                  Reaches-landing (rank sep) (Order.first_rank rank f hi) t x o.2 among
                    (omega arith))))
          | no h ↦ rw (landing_after-skip current sep t f o.0 (omega arith)) r
        ]

  -- The landing leaf of an ordered tree has, for every entry of the tree at or below the
  -- target, that entry or a greater one at or below the target.
  pub landing-Reaches :
      (lo hi : ℕ) (t : Tree) (e : Entry)
      → Order.IsOrdered rank lo hi t
      → Among e (entries_of t)
      → rank e.key ≤ target
      → Reaches e (landing cmp t)
  landing-Reaches lo hi t e o m le = Reaches-landing lo hi t e o m le
