-- ===== src/FsTree/Walks.antt =====
-- src/dir.rs, `descend_virtual` over a stored tree: the leaves that it lands in, for a keyed walk
-- and for a full one.
use newtua_apfs.Prelude.{
  ℕ, zero, suc, ◌≤◌, ◌≡◌, refl, ◌∙◌, arith, List, [], ◌∷◌, ◌++◌, Option, none, some, Bool, true,
  false, foldl, if◌then◌else◌, Bool-cases, inl, inr,
}
use newtua_apfs.Bytes.{Bytes}
use newtua_apfs.Error.{Result, ok}
use newtua_apfs.Btree.Node.{Entry}
use newtua_apfs.Btree.Walk.{Walk, Visitor, contains, descend_all}
use newtua_apfs.Btree.Tree.{
  Tree, Forest, leaf, index, nil, cons, paddr_of, depth, depth_all, met, met_all, IsFresh, AreFresh,
  Names,
}
use newtua_apfs.Btree.FullWalk.{foldl-append}
use newtua_apfs.FsTree.{
  oid_of, child_may_contain_oid, next_sep_oid, enters, child_oids, visit_node, descend_virtual,
}
use newtua_apfs.FsTree.Stored.{VirtualNode, IsStored, AreStored, first_oid}

-- Every oid of `v` is one of `seen`.
abbrev pub Within : List ℕ → List ℕ → Type 0
Within v seen = (q : ℕ) → contains seen q ≡ false → contains v q ≡ false

pub Within-cons : (p : ℕ) (v seen : List ℕ) → Within v seen → Within (p ∷ v) (p ∷ seen)
unfolding contains
Within-cons p v seen h q out = ground (arith, h q)

mutual
  unfolding contains

  pub met-Within : (t : Tree) (seen : List ℕ) → Within seen (met t seen)
  met-Within (leaf p es) seen q out = ground arith
  met-Within (index p f) seen q out = let out' = met_all-Within f (p ∷ seen) q out in ground arith

  met_all-Within : (f : Forest) (seen : List ℕ) → Within seen (met_all f seen)
  met_all-Within nil seen q out = out
  met_all-Within (cons sep t f) seen q out =
      met-Within t seen q (met_all-Within f (met t seen) q out)

module _ (target : Option ℕ) where
  -- Whether a walk goes into the child below `sep`, which the children of `f` follow.
  abbrev pub admits : Bytes → Forest → Bool
  admits sep f = elim target [
    | none ↦ true
    | some oid ↦ child_may_contain_oid (oid_of sep) (first_oid f) oid
  ]

  abbrev mutual
    -- The entries of the leaves that a walk lands in, from left to right.
    pub landed : Tree → List Entry
    landed (leaf p es) = es
    landed (index p f) = landed_in f

    pub landed_in : Forest → List Entry
    landed_in nil = []
    landed_in (cons sep t f) =
        let rest = landed_in f in if admits sep f then landed t ++ rest else rest

next_sep_oid-Names : (es : List Entry) (f : Forest) → Names es f → next_sep_oid es ≡ first_oid f
unfolding next_sep_oid
next_sep_oid-Names [] nil n = refl
next_sep_oid-Names [] (cons sep t f) n = absurd n
next_sep_oid-Names (e ∷ es) nil n = absurd n
next_sep_oid-Names (e ∷ es) (cons sep t f) n = rw n.0 refl

enters-Names :
    (target : Option ℕ) (e : Entry) (es : List Entry) (sep : Bytes) (f : Forest)
    → e.key ≡ sep
    → Names es f
    → enters target e es ≡ admits target sep f
unfolding enters
enters-Names none e es sep f k n = refl
enters-Names (some oid) e es sep f k n = rw (k, next_sep_oid-Names es f n) refl

module _ (target : Option ℕ) {S : Type 0} (visit : Visitor S) (read : ℕ → Result Bytes) where
  abbrev go : ℕ → ℕ → Walk S → Result (Walk S)
  go = descend_virtual target visit read

  descend_virtual-leaf :
      (levels oid : ℕ) (es : List Entry) (w : Walk S)
      → VirtualNode read oid true es
      → contains w.visited oid ≡ false
      → go (suc levels) oid w
        ≡ ok (record { visited = oid ∷ w.visited; state = foldl visit w.state es })
  unfolding descend_virtual visit_node
  descend_virtual-leaf levels oid es w n fresh =
      rw (fresh, n.verified, n.headed, visit_node, n.kind, n.holds)

  descend_virtual-index :
      (levels oid : ℕ) (es : List Entry) (w : Walk S)
      → VirtualNode read oid false es
      → contains w.visited oid ≡ false
      → go (suc levels) oid w
        ≡ descend_all (go levels) (child_oids target es) (record w { visited = oid ∷ w.visited })
  unfolding descend_virtual visit_node
  descend_virtual-index levels oid es w n fresh =
      rw (fresh, n.verified, n.headed, visit_node, n.kind, n.holds)

  -- The walk succeeds, with the visitor run over the entries that it landed on; what it visited
  -- was to be met.
  abbrev Runs : Result (Walk S) → S → List ℕ → Type 0
  Runs r s seen = (v : List ℕ) × (r ≡ ok (record { visited = v; state = s })) × Within v seen

  mutual
    unfolding descend_all child_oids

    pub descend_virtual-IsStored :
        (t : Tree) (levels : ℕ) (w : Walk S) (seen : List ℕ)
        → IsStored read t
        → depth t ≤ levels
        → IsFresh t seen
        → Within w.visited seen
        → Runs (go levels (paddr_of t) w) (foldl visit w.state (landed target t)) (met t seen)
    descend_virtual-IsStored (leaf p es) zero w seen st fits fresh within = absurd (omega arith)
    descend_virtual-IsStored (leaf p es) (suc levels) w seen st fits fresh within = (
      p ∷ w.visited,
      descend_virtual-leaf levels p es w st (within p fresh),
      Within-cons p w.visited seen within,
    )
    descend_virtual-IsStored (index p f) zero w seen st fits fresh within = absurd (omega arith)
    descend_virtual-IsStored (index p f) (suc levels) w seen st fits fresh within =
        let (v, runs, meets) =
          descend_all-stored f levels st.0.0 (record w { visited = p ∷ w.visited }) (p ∷ seen)
            st.0.2 st.1 (omega arith) fresh.1 (Within-cons p w.visited seen within) in
        (v, descend_virtual-index levels p st.0.0 w st.0.1 (within p fresh.0) ∙ runs, meets)

    pub descend_all-stored :
        (f : Forest) (levels : ℕ) (es : List Entry) (w : Walk S) (seen : List ℕ)
        → Names es f
        → AreStored read f
        → depth_all f ≤ levels
        → AreFresh f seen
        → Within w.visited seen
        → Runs
            (descend_all (go levels) (child_oids target es) w)
            (foldl visit w.state (landed_in target f))
            (met_all f seen)
    descend_all-stored nil levels [] w seen n st fits fresh within = (w.visited, refl, within)
    descend_all-stored nil levels (e ∷ es) w seen n st fits fresh within = absurd n
    descend_all-stored (cons sep t f) levels [] w seen n st fits fresh within = absurd n
    descend_all-stored (cons sep t f) levels (e ∷ es) w seen n st fits fresh within =
        elim (Bool-cases (admits target sep f)) [
          | inl into ↦
              let (v, here, meets) =
                descend_virtual-IsStored t levels w seen st.0 (omega arith) fresh.0 within in
              let w' : Walk S = record {
                visited = v;
                state = foldl visit w.state (landed target t);
              } in
              let (v', there, meets') =
                descend_all-stored f levels es w' (met t seen) n.2 st.1 (omega arith) fresh.1
                  meets in
              (
                v',
                rw (enters-Names target e es sep f n.0 n.2, into, n.1, here)
                    (rw (foldl-append visit w.state (landed target t) (landed_in target f)) there),
                meets',
              )
          | inr past ↦
              let (v', there, meets') =
                descend_all-stored f levels es w (met t seen) n.2 st.1 (omega arith) fresh.1
                  (λ q out. within q (met-Within t seen q out)) in
              (v', rw (enters-Names target e es sep f n.0 n.2, past) there, meets')
        ]
