-- ===== src/Btree/Acyclic.antt =====
-- src/btree.rs: a tree whose blocks are all distinct has no cycle on any path.
use newtua_apfs.Prelude.{ℕ, ◌≡◌, arith, List, [], ◌∷◌, false}
use newtua_apfs.Btree.Walk.{contains}
use newtua_apfs.Btree.Tree.{Tree, Forest, leaf, index, nil, cons, met, met_all, IsFresh, AreFresh}
use newtua_apfs.Btree.Descent.{IsAcyclic, AreAcyclic}

-- What the first set has, the second has too.
abbrev IsWithin : List ℕ → List ℕ → Type 0
IsWithin small large = (p : ℕ) → contains large p ≡ false → contains small p ≡ false

IsWithin-cons :
    (p : ℕ) (small large : List ℕ) → IsWithin small large → IsWithin (p ∷ small) (p ∷ large)
unfolding contains
IsWithin-cons p small large h q e = ground (arith, h q)

IsWithin-push : (p : ℕ) (seen : List ℕ) → IsWithin seen (p ∷ seen)
unfolding contains
IsWithin-push p seen q e = ground arith

mutual
  IsWithin-met : (t : Tree) (seen : List ℕ) → IsWithin seen (met t seen)
  IsWithin-met (leaf p es) seen q e = IsWithin-push p seen q e
  IsWithin-met (index p f) seen q e = IsWithin-push p seen q (IsWithin-met_all f (p ∷ seen) q e)

  IsWithin-met_all : (f : Forest) (seen : List ℕ) → IsWithin seen (met_all f seen)
  IsWithin-met_all nil seen q e = e
  IsWithin-met_all (cons sep t f) seen q e =
      IsWithin-met t seen q (IsWithin-met_all f (met t seen) q e)

mutual
  fresh-IsAcyclic :
      (t : Tree) (small large : List ℕ) → IsWithin small large → IsFresh t large → IsAcyclic t small
  fresh-IsAcyclic (leaf p es) small large h fresh = h p fresh
  fresh-IsAcyclic (index p f) small large h fresh = (
    h p fresh.0,
    fresh_all-acyclic f (p ∷ small) (p ∷ large) (IsWithin-cons p small large h) fresh.1,
  )

  fresh_all-acyclic :
      (f : Forest) (small large : List ℕ)
      → IsWithin small large
      → AreFresh f large
      → AreAcyclic f small
  fresh_all-acyclic nil small large h fresh = tt
  fresh_all-acyclic (cons sep t f) small large h fresh = (
    fresh-IsAcyclic t small large h fresh.0,
    fresh_all-acyclic f small (met t large) (λ q e. h q (IsWithin-met t large q e)) fresh.1,
  )

pub IsFresh-IsAcyclic : (t : Tree) → IsFresh t [] → IsAcyclic t []
IsFresh-IsAcyclic t fresh = fresh-IsAcyclic t [] [] (λ q e. e) fresh
