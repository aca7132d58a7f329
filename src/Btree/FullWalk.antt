-- ===== src/Btree/FullWalk.antt =====
-- src/btree.rs, `for_each_leaf_entry`: on a stored tree the walk meets every leaf entry, in order.
use newtua_apfs.Prelude.{
  ℕ, zero, suc, ◌≤◌, ◌≡◌, refl, ◌∙◌, arith, List, [], ◌∷◌, ◌++◌, true, false, foldl,
}
use newtua_apfs.Error.{Result, ok}
use newtua_apfs.Reader.{Reader}
use newtua_apfs.Btree.Node.{BTreeSubtype, Entry, max_btree_depth}
use newtua_apfs.Btree.Walk.{
  Walk, Visitor, contains, child_paddrs, descend_all, descend_node, descend, for_each_leaf_entry,
}
use newtua_apfs.Btree.Tree.{
  Tree, Forest, leaf, index, nil, cons, paddr_of, entries_of, entries_in, depth, depth_all, met,
  met_all, IsFresh, AreFresh, Names, NodeAt, Stored, AllStored,
}

pub foldl-append {ℓ κ} :
    {A : Type ℓ} {B : Type κ} (f : B → A → B) (b : B) (xs ys : List A)
    → foldl f b (xs ++ ys) ≡ foldl f (foldl f b xs) ys
foldl-append f b [] ys = refl
foldl-append f b (x ∷ xs) ys = foldl-append f (f b x) xs ys

module _ (reader : Reader) (block_size : ℕ) (subtype : BTreeSubtype) {S : Type 0}
    (visit : Visitor S) where
  abbrev go : ℕ → ℕ → Walk S → Result (Walk S)
  go = descend reader block_size subtype visit

  -- One node of the walk, with the children left to `descend_all`.
  descend-leaf :
      (levels p : ℕ) (es : List Entry) (w : Walk S)
      → NodeAt reader block_size subtype p true es
      → contains w.visited p ≡ false
      → go (suc levels) p w
        ≡ ok (record { visited = p ∷ w.visited; state = foldl visit w.state es })
  unfolding descend descend_node
  descend-leaf levels p es w n fresh =
      rw (fresh, n.verified, n.headed, descend_node, n.kind, n.holds)

  descend-index :
      (levels p : ℕ) (es : List Entry) (w : Walk S)
      → NodeAt reader block_size subtype p false es
      → contains w.visited p ≡ false
      → go (suc levels) p w
        ≡ descend_all (go levels) (child_paddrs es) (record w { visited = p ∷ w.visited })
  unfolding descend descend_node
  descend-index levels p es w n fresh =
      rw (fresh, n.verified, n.headed, descend_node, n.kind, n.holds)

  mutual
    unfolding descend_all child_paddrs

    descend-Stored :
        (t : Tree) (levels : ℕ) (w : Walk S)
        → Stored reader block_size subtype t
        → depth t ≤ levels
        → IsFresh t w.visited
        → go levels (paddr_of t) w
          ≡ ok (record { visited = met t w.visited; state = foldl visit w.state (entries_of t) })
    descend-Stored (leaf p es) zero w st fits fresh = absurd (omega arith)
    descend-Stored (leaf p es) (suc levels) w st fits fresh = descend-leaf levels p es w st fresh
    descend-Stored (index p f) zero w st fits fresh = absurd (omega arith)
    descend-Stored (index p f) (suc levels) w st fits fresh =
        descend-index levels p st.0.0 w st.0.1 fresh.0
        ∙ descend_all-stored f levels st.0.0 (record w { visited = p ∷ w.visited }) st.0.2 st.1
            (omega arith) fresh.1

    descend_all-stored :
        (f : Forest) (levels : ℕ) (es : List Entry) (w : Walk S)
        → Names es f
        → AllStored reader block_size subtype f
        → depth_all f ≤ levels
        → AreFresh f w.visited
        → descend_all (go levels) (child_paddrs es) w
          ≡ ok
              (record { visited = met_all f w.visited; state = foldl visit w.state (entries_in f) })
    descend_all-stored nil levels [] w n st fits fresh = refl
    descend_all-stored nil levels (e ∷ es) w n st fits fresh = absurd n
    descend_all-stored (cons sep t f) levels [] w n st fits fresh = absurd n
    descend_all-stored (cons sep t f) levels (e ∷ es) w n st fits fresh =
        rw (n.1, descend-Stored t levels w st.0 (omega arith) fresh.0)
          (rw (foldl-append visit w.state (entries_of t) (entries_in f)) (
            descend_all-stored f levels es
              (record { visited = met t w.visited; state = foldl visit w.state (entries_of t) }) n.2
              st.1 (omega arith) fresh.1))

-- On a tree of at most 64 levels whose nodes are stored, pass their checksums and occupy distinct
-- blocks, the full walk succeeds and hands the visitor every leaf entry once, from left to right.
pub for_each_leaf_entry-Stored :
    (reader : Reader) (block_size : ℕ) (subtype : BTreeSubtype) {S : Type 0} (visit : Visitor S)
    (t : Tree) (s : S)
    → Stored reader block_size subtype t
    → depth t ≤ max_btree_depth
    → IsFresh t []
    → for_each_leaf_entry reader block_size subtype visit (paddr_of t) s
      ≡ ok (foldl visit s (entries_of t))
unfolding for_each_leaf_entry
for_each_leaf_entry-Stored reader block_size subtype visit t s st fits fresh = rw (
    descend-Stored reader block_size subtype visit t max_btree_depth
      (record { visited = []; state = s }) st fits fresh)
