-- ===== src/Btree/Walk.antt =====
-- src/btree.rs: `for_each_leaf_entry`, `descend` and `find_leaf`. A visitor is a function on the
-- state that the closure captures; an error discards that state, as every caller does by `?`.
use newtua_apfs.Prelude.{
  ℕ, zero, suc, List, [], ◌∷◌, map, foldl, none, some, Bool, false, ◌||◌, ◌==◌, if◌then◌else◌,
  Ordering,
}
use newtua_apfs.Bytes.{Bytes, le_u64}
use newtua_apfs.Error.{Result, ok, err, ◌>>=◌, cycle_guard}
use newtua_apfs.Reader.{Reader}
use newtua_apfs.Btree.Node.{
  BTreeSubtype, Entry, is_leaf, parse_node_header, node_entries, read_verified_node,
  max_btree_depth,
}

-- `HashSet::contains`; `insert` answers false exactly where this is true.
unfoldable pub contains : List ℕ → ℕ → Bool
contains [] p = false
contains (q ∷ qs) p = q == p || contains qs p

-- The visited set and the visitor's state.
pub record Walk (S : Type 0) : Type 0 where
  pub visited : List ℕ
  pub state : S

abbrev pub Visitor : Type 0 → Type 0
Visitor S = S → Entry → S

-- The child block numbers of an index node.
unfoldable pub child_paddrs : List Entry → List ℕ
child_paddrs = map (λ e. le_u64 e.value 0)

-- `for child in children { descend(…)?; }`
unfoldable pub descend_all {ℓ} : {W : Type ℓ} → (ℕ → W → Result W) → List ℕ → W → Result W
descend_all visit_child [] w = ok w
descend_all visit_child (p ∷ ps) w = visit_child p w >>= descend_all visit_child ps

-- The child that `find_leaf` goes on with: `child` so far, and the entries that are left.
unfoldable pub choose_child : (Bytes → Ordering) → ℕ → List Entry → ℕ
choose_child cmp child [] = child
choose_child cmp child (e ∷ es) = elim (cmp e.key) [
  | Ordering.gt ↦ child
  | _ ↦ choose_child cmp (le_u64 e.value 0) es
]

module _ (reader : Reader) (block_size : ℕ) (subtype : BTreeSubtype) where
  module _ {S : Type 0} (visit : Visitor S) where
    -- What `descend` does with a node that was read, given the descent of a child.
    unfoldable pub descend_node : (ℕ → Walk S → Result (Walk S)) → Bytes → Walk S → Result (Walk S)
    unfolding descend_all child_paddrs
    descend_node visit_child buf w = elim (parse_node_header buf) [
      | none ↦ ok w
      | some hdr ↦
          if is_leaf hdr
          then ok (record w { state = foldl visit w.state (node_entries buf subtype) })
          else descend_all visit_child (child_paddrs (node_entries buf subtype)) w
    ]

    -- The first argument is `MAX_BTREE_DEPTH - depth`.
    unfoldable pub descend : ℕ → ℕ → Walk S → Result (Walk S)
    descend zero paddr w = err (cycle_guard max_btree_depth)
    descend (suc levels) paddr w =
        let w' : Walk S = record w { visited = paddr ∷ w.visited } in
        let node : Result (Walk S) =
          read_verified_node reader paddr block_size
          >>= elim [ none ↦ ok w' | some buf ↦ descend_node (descend levels) buf w' ] in
        if contains w.visited paddr then err (cycle_guard max_btree_depth) else node

    unfoldable pub for_each_leaf_entry : ℕ → S → Result S
    unfolding descend descend_node contains
    for_each_leaf_entry root_paddr s =
        descend max_btree_depth root_paddr (record { visited = []; state = s }) >>= λ w. ok w.state

  module _ {S : Type 0} (cmp : Bytes → Ordering) (visit : Visitor S) where
    -- The step from a node that was read, given the loop's next round.
    unfoldable pub find_leaf_node : (ℕ → Result S) → Bytes → S → Result S
    unfolding choose_child
    find_leaf_node next buf s = elim (parse_node_header buf) [
      | none ↦ ok s
      | some hdr ↦
          if is_leaf hdr
          then ok (foldl visit s (node_entries buf subtype))
          else elim (node_entries buf subtype) [
            | [] ↦ ok s
            | first ∷ rest ↦ next (choose_child cmp (le_u64 first.value 0) (first ∷ rest))
          ]
    ]

    -- `for _ in 0..MAX_BTREE_DEPTH`, with the rounds that are left.
    unfoldable pub find_leaf_loop : ℕ → ℕ → List ℕ → S → Result S
    find_leaf_loop zero paddr visited s = err (cycle_guard max_btree_depth)
    find_leaf_loop (suc rounds) paddr visited s =
        let node : Result S = read_verified_node reader paddr block_size >>= elim [
          | none ↦ ok s
          | some buf ↦
              find_leaf_node (λ child. find_leaf_loop rounds child (paddr ∷ visited) s) buf s
        ] in
        if contains visited paddr then err (cycle_guard max_btree_depth) else node

    unfoldable pub find_leaf : ℕ → S → Result S
    unfolding find_leaf_loop find_leaf_node contains
    find_leaf root_paddr s = find_leaf_loop max_btree_depth root_paddr [] s
