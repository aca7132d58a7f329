-- ===== src/Btree/Descent.antt =====
-- src/btree.rs, `find_leaf`: on a stored tree the keyed descent meets the entries of one leaf.
use newtua_apfs.Prelude.{
  ℕ, zero, suc, ◌≤◌, ◌≡◌, ◌∙◌, arith, List, [], ◌∷◌, true, false, foldl, Ordering,
}
use newtua_apfs.Bytes.{Bytes, le_u64}
use newtua_apfs.Error.{Result, ok}
use newtua_apfs.Reader.{Reader}
use newtua_apfs.Btree.Node.{BTreeSubtype, Entry, max_btree_depth}
use newtua_apfs.Btree.Walk.{
  Visitor, contains, choose_child, find_leaf_node, find_leaf_loop, find_leaf,
}
use newtua_apfs.Btree.Tree.{
  Tree, Forest, leaf, index, nil, cons, paddr_of, depth, depth_all, Names, NodeAt, Stored,
  AllStored,
}

-- The entries of the leaf that a descent lands on: at an index node the last child whose separator
-- is not above the target, or the first child.
abbrev mutual
  pub landing : (Bytes → Ordering) → Tree → List Entry
  landing cmp (leaf p es) = es
  landing cmp (index p f) = landing_first cmp f

  pub landing_first : (Bytes → Ordering) → Forest → List Entry
  landing_first cmp nil = []
  landing_first cmp (cons sep t f) = elim (cmp sep) [
    | Ordering.gt ↦ landing cmp t
    | _ ↦ landing_after cmp (landing cmp t) f
  ]

  -- The landing among `f`, where `current` is the landing in the child chosen so far.
  pub landing_after : (Bytes → Ordering) → List Entry → Forest → List Entry
  landing_after cmp current nil = current
  landing_after cmp current (cons sep t f) = elim (cmp sep) [
    | Ordering.gt ↦ current
    | _ ↦ landing_after cmp (landing cmp t) f
  ]

-- No block occurs twice on a path from the root, nor among `seen`.
abbrev mutual
  pub IsAcyclic : Tree → List ℕ → Type 0
  IsAcyclic (leaf p es) seen = contains seen p ≡ false
  IsAcyclic (index p f) seen = (contains seen p ≡ false) × AreAcyclic f (p ∷ seen)

  pub AreAcyclic : Forest → List ℕ → Type 0
  AreAcyclic nil seen = Unit
  AreAcyclic (cons sep t f) seen = IsAcyclic t seen × AreAcyclic f seen

module _ (reader : Reader) (block_size : ℕ) (subtype : BTreeSubtype) {S : Type 0}
    (cmp : Bytes → Ordering) (visit : Visitor S) (s : S) where
  abbrev from_node : ℕ → ℕ → List ℕ → Result S
  from_node rounds p seen = find_leaf_loop reader block_size subtype cmp visit rounds p seen s

  find_leaf-leaf :
      (rounds p : ℕ) (es : List Entry) (seen : List ℕ)
      → NodeAt reader block_size subtype p true es
      → contains seen p ≡ false
      → from_node (suc rounds) p seen ≡ ok (foldl visit s es)
  unfolding find_leaf_loop find_leaf_node
  find_leaf-leaf rounds p es seen n fresh =
      rw (fresh, n.verified, n.headed, find_leaf_node, n.kind, n.holds)

  find_leaf-index :
      (rounds p : ℕ) (e : Entry) (es : List Entry) (seen : List ℕ)
      → NodeAt reader block_size subtype p false (e ∷ es)
      → contains seen p ≡ false
      → from_node (suc rounds) p seen
        ≡ from_node rounds (choose_child cmp (le_u64 e.value 0) (e ∷ es)) (p ∷ seen)
  unfolding find_leaf_loop find_leaf_node
  find_leaf-index rounds p e es seen n fresh =
      rw (fresh, n.verified, n.headed, find_leaf_node, n.kind, n.holds)

  find_leaf-no_child :
      (rounds p : ℕ) (seen : List ℕ)
      → NodeAt reader block_size subtype p false []
      → contains seen p ≡ false
      → from_node (suc rounds) p seen ≡ ok s
  unfolding find_leaf_loop find_leaf_node
  find_leaf-no_child rounds p seen n fresh =
      rw (fresh, n.verified, n.headed, find_leaf_node, n.kind, n.holds)

  -- One round of the loop over the separators.
  choose_child-step :
      (rounds child : ℕ) (e : Entry) (es : List Entry) (seen : List ℕ) (sep : Bytes)
      (current further : List Entry)
      → e.key ≡ sep
      → from_node rounds child seen ≡ ok (foldl visit s current)
      → from_node rounds (choose_child cmp (le_u64 e.value 0) es) seen ≡ ok (foldl visit s further)
      → from_node rounds (choose_child cmp child (e ∷ es)) seen
        ≡ ok (foldl visit s (elim (cmp sep) [ Ordering.gt ↦ current | _ ↦ further ]))
  unfolding choose_child
  choose_child-step rounds child e es seen sep current further key stop on =
      rw key
        (elim (cmp sep)
          as (λ o.
            from_node rounds
              (elim o [ Ordering.gt ↦ child | _ ↦ choose_child cmp (le_u64 e.value 0) es ]) seen
            ≡ ok (foldl visit s (elim o [ Ordering.gt ↦ current | _ ↦ further ]))) [
              | Ordering.gt ↦ stop
              | _ ↦ on
            ])

  mutual
    unfolding choose_child

    find_leaf-tree :
        (t : Tree) (rounds : ℕ) (seen : List ℕ)
        → Stored reader block_size subtype t
        → depth t ≤ rounds
        → IsAcyclic t seen
        → from_node rounds (paddr_of t) seen ≡ ok (foldl visit s (landing cmp t))
    find_leaf-tree (leaf p es) zero seen st fits ac = absurd (omega arith)
    find_leaf-tree (leaf p es) (suc rounds) seen st fits ac = find_leaf-leaf rounds p es seen st ac
    find_leaf-tree (index p f) zero seen st fits ac = absurd (omega arith)
    find_leaf-tree (index p f) (suc rounds) seen st fits ac =
        find_leaf-first f rounds p st.0.0 seen st.0.1 st.0.2 st.1 (omega arith) ac.0 ac.1

    find_leaf-first :
        (f : Forest) (rounds p : ℕ) (es : List Entry) (seen : List ℕ)
        → NodeAt reader block_size subtype p false es
        → Names es f
        → AllStored reader block_size subtype f
        → depth_all f ≤ rounds
        → contains seen p ≡ false
        → AreAcyclic f (p ∷ seen)
        → from_node (suc rounds) p seen ≡ ok (foldl visit s (landing_first cmp f))
    find_leaf-first nil rounds p [] seen n names st fits fresh ac =
        find_leaf-no_child rounds p seen n fresh
    find_leaf-first nil rounds p (e ∷ es) seen n names st fits fresh ac = absurd names
    find_leaf-first (cons sep t f) rounds p [] seen n names st fits fresh ac = absurd names
    find_leaf-first (cons sep t f) rounds p (e ∷ es) seen n names st fits fresh ac =
        let here = rw (← names.1) at (find_leaf-tree t rounds (p ∷ seen) st.0 (omega arith) ac.0) in
        find_leaf-index rounds p e es seen n fresh
        ∙ choose_child-step rounds (le_u64 e.value 0) e es (p ∷ seen) sep (landing cmp t)
            (landing_after cmp (landing cmp t) f) names.0 here
            (find_leaf-after f rounds (le_u64 e.value 0) (landing cmp t) es (p ∷ seen) names.2 st.1
              (omega arith) ac.1 here)

    -- From the child chosen so far, whose descent is known, on through the other children.
    find_leaf-after :
        (f : Forest) (rounds child : ℕ) (current es : List Entry) (seen : List ℕ)
        → Names es f
        → AllStored reader block_size subtype f
        → depth_all f ≤ rounds
        → AreAcyclic f seen
        → from_node rounds child seen ≡ ok (foldl visit s current)
        → from_node rounds (choose_child cmp child es) seen
          ≡ ok (foldl visit s (landing_after cmp current f))
    find_leaf-after nil rounds child current [] seen names st fits ac chosen = chosen
    find_leaf-after nil rounds child current (e ∷ es) seen names st fits ac chosen = absurd names
    find_leaf-after (cons sep t f) rounds child current [] seen names st fits ac chosen =
        absurd names
    find_leaf-after (cons sep t f) rounds child current (e ∷ es) seen names st fits ac chosen =
        let here = rw (← names.1) at (find_leaf-tree t rounds seen st.0 (omega arith) ac.0) in
        choose_child-step rounds child e es seen sep current (landing_after cmp (landing cmp t) f)
          names.0 chosen
          (find_leaf-after f rounds (le_u64 e.value 0) (landing cmp t) es seen names.2 st.1
            (omega arith) ac.1 here)

-- On a tree of at most 64 levels whose nodes are stored and pass their checksums, and where no
-- block occurs twice on a path, the keyed descent succeeds and hands the visitor the entries of
-- one leaf: at each index node it goes on with the child before the first separator above the
-- target, and with the first child where that is the first separator.
pub find_leaf-Stored :
    (reader : Reader) (block_size : ℕ) (subtype : BTreeSubtype) {S : Type 0}
    (cmp : Bytes → Ordering) (visit : Visitor S) (t : Tree) (s : S)
    → Stored reader block_size subtype t
    → depth t ≤ max_btree_depth
    → IsAcyclic t []
    → find_leaf reader block_size subtype cmp visit (paddr_of t) s
      ≡ ok (foldl visit s (landing cmp t))
unfolding find_leaf
find_leaf-Stored reader block_size subtype cmp visit t s st fits ac =
    find_leaf-tree reader block_size subtype cmp visit s t max_btree_depth [] st fits ac
