-- ===== src/Snapshot/Walks.antt =====
-- src/snapshot.rs, `for_each_snap_record` over a stored snapshot-metadata tree.
use newtua_apfs.Prelude.{
  ℕ, zero, suc, ◌≤◌, ◌≡◌, refl, ap, ◌∙◌, arith, List, [], ◌∷◌, none, Bool, true, false, foldl,
  Bool-cases, Option-cases, inl, inr,
}
use newtua_apfs.Bytes.{Bytes, le_u64}
use newtua_apfs.Error.{Result, ok, err, ◌>>=◌}
use newtua_apfs.Reader.{Reader}
use newtua_apfs.Btree.Node.{Entry, fs_tree, parse_node_header, is_leaf, node_entries}
use newtua_apfs.Btree.Walk.{Walk, Visitor, contains, child_paddrs, descend_all, descend_node}
use newtua_apfs.Btree.Tree.{Tree, leaf, index, paddr_of, entries_of, depth, IsFresh, Names}
use newtua_apfs.Omap.{ObjectMap}
use newtua_apfs.Volume.{ApfsVolume}
use newtua_apfs.FsTree.{child_oids, enters, visit_node, descend_virtual, volume_omap}
use newtua_apfs.FsTree.Stored.{VirtualNode, AreStored}
use newtua_apfs.FsTree.Walks.{descend_all-stored}
use newtua_apfs.FsTree.Keyed.{landed_in-none}
use newtua_apfs.Snapshot.{read_snap_node, descend_snap, for_each_snap_record, max_snap_tree_depth}

child_oids-none : (es : List Entry) → child_oids none es ≡ child_paddrs es
unfolding child_oids child_paddrs enters
child_oids-none [] = refl
child_oids-none (e ∷ es) = ap (λ ps. le_u64 e.value 0 ∷ ps) (child_oids-none es)

descend_all_same :
    {W : Type 0} (go go' : ℕ → W → Result W) (ps : List ℕ) (w : W)
    → ((p : ℕ) (x : W) → go p x ≡ go' p x)
    → descend_all go ps w ≡ descend_all go' ps w
unfolding descend_all
descend_all_same go go' [] w same = refl
descend_all_same go go' (p ∷ ps) w same =
    rw (same p w) (elim (go' p w) as (λ r. (r >>= descend_all go ps) ≡ (r >>= descend_all go' ps)) [
      | err e ↦ refl
      | ok x ↦ descend_all_same go go' ps x same
    ])

module _ {S : Type 0} (reader : Reader) (block_size : ℕ) (visit : Visitor S)
    (read : Bool → ℕ → Result Bytes) where
  -- Behind the root the walk is the full walk over a tree of virtual nodes.
  descend_node_same :
      (go go' : ℕ → Walk S → Result (Walk S)) (buf : Bytes) (w : Walk S)
      → ((p : ℕ) (x : Walk S) → go p x ≡ go' p x)
      → descend_node reader block_size fs_tree visit go buf w ≡ visit_node none visit go' buf w
  unfolding descend_node visit_node
  descend_node_same go go' buf w same = elim (Option-cases (parse_node_header buf)) [
    | inl e ↦ rw (descend_node, visit_node, e) refl
    | inr (hdr, e) ↦ elim (Bool-cases (is_leaf hdr)) [
      | inl b ↦ rw (descend_node, visit_node, e, b) refl
      | inr b ↦
          rw (descend_node, visit_node, e, b, child_oids-none (node_entries buf fs_tree))
            (descend_all_same go go' (child_paddrs (node_entries buf fs_tree)) w same)
    ]
  ]

  descend_snap-virtual :
      (levels oid : ℕ) (w : Walk S)
      → descend_snap reader block_size visit read levels false oid w
        ≡ descend_virtual none visit (read false) levels oid w
  unfolding descend_snap descend_virtual
  descend_snap-virtual zero oid w = refl
  descend_snap-virtual (suc levels) oid w = elim (Bool-cases (contains w.visited oid)) [
    | inl b ↦ rw b refl
    | inr b ↦
        rw b
          (elim (read false oid)
            as (λ r.
              (r >>= λ buf.
              descend_node reader block_size fs_tree visit
                (descend_snap reader block_size visit read levels false) buf
                (record w { visited = oid ∷ w.visited }))
              ≡ (r >>= λ buf.
                  visit_node none visit (descend_virtual none visit (read false) levels) buf
                    (record w { visited = oid ∷ w.visited }))) [
                      | err e ↦ refl
                      | ok buf ↦
                          descend_node_same (descend_snap reader block_size visit read levels false)
                            (descend_virtual none visit (read false) levels) buf
                            (record w { visited = oid ∷ w.visited }) (descend_snap-virtual levels)
                    ])
  ]

-- The tree as it is read: its root under the number of a block, the nodes below it under virtual
-- oids.
abbrev pub IsRooted : (Bool → ℕ → Result Bytes) → Tree → Type 0
IsRooted read (leaf p es) = VirtualNode (read true) p true es
IsRooted read (index p f) =
    ((es : List Entry) × VirtualNode (read true) p false es × Names es f) × AreStored (read false) f

abbrev pub snap_reader : Reader → ObjectMap → ℕ → ℕ → Bool → ℕ → Result Bytes
snap_reader reader om xid block_size is_root oid =
    read_snap_node reader om is_root oid xid block_size

-- The volume's snapshot-metadata tree is `t`: at most 64 levels deep, and no number, of the root's
-- block or of a virtual node, occurs twice.
pub record IsSnapTree {Text : Type 0} (reader : Reader) (volume : ApfsVolume Text) (block_size : ℕ)
    (t : Tree) : Type 0 where
  pub om : ObjectMap
  pub mapped : volume_omap reader volume block_size ≡ ok om
  pub root : volume.snap_meta_tree_oid ≡ paddr_of t
  pub rooted : IsRooted (snap_reader reader om volume.xid block_size) t
  pub fits : depth t ≤ max_snap_tree_depth
  pub fresh : IsFresh t []

module _ {S : Type 0} (reader : Reader) (block_size : ℕ) (visit : Visitor S)
    (read : Bool → ℕ → Result Bytes) where
  pub snap_index :
      (levels p : ℕ) (es : List Entry) (w : Walk S)
      → VirtualNode (read true) p false es
      → contains w.visited p ≡ false
      → descend_snap reader block_size visit read (suc levels) true p w
        ≡ descend_all
            (descend_virtual none visit (read false) levels)
            (child_oids none es)
            (record w { visited = p ∷ w.visited })
  unfolding descend_snap descend_node
  snap_index levels p es w n fresh =
      rw (fresh, n.verified, descend_node, n.headed, n.kind, n.holds, child_oids-none es)
        (descend_all_same (descend_snap reader block_size visit read levels false)
          (descend_virtual none visit (read false) levels) (child_paddrs es)
          (record w { visited = p ∷ w.visited })
          (descend_snap-virtual reader block_size visit read levels))

  snap_leaf :
      (levels p : ℕ) (es : List Entry) (w : Walk S)
      → VirtualNode (read true) p true es
      → contains w.visited p ≡ false
      → descend_snap reader block_size visit read (suc levels) true p w
        ≡ ok (record { visited = p ∷ w.visited; state = foldl visit w.state es })
  unfolding descend_snap descend_node
  snap_leaf levels p es w n fresh =
      rw (fresh, n.verified, descend_node, n.headed, n.kind, n.holds) refl

  pub descend_snap-IsRooted :
      (t : Tree) (s : S)
      → IsRooted read t
      → depth t ≤ max_snap_tree_depth
      → IsFresh t []
      → (v : List ℕ) × (descend_snap reader block_size visit read max_snap_tree_depth true
            (paddr_of t)
            (record { visited = []; state = s })
          ≡ ok (record { visited = v; state = foldl visit s (entries_of t) }))
  descend_snap-IsRooted (leaf p es) s st fits fresh =
      (p ∷ [], snap_leaf 63 p es (record { visited = []; state = s }) st fresh)
  descend_snap-IsRooted (index p f) s st fits fresh =
      let start : Walk S = record { visited = []; state = s } in
      let (v, runs, meets) =
        descend_all-stored none visit (read false) f 63 st.0.0 (record start { visited = p ∷ [] })
          (p ∷ []) st.0.2 st.1 (omega arith) fresh.1 (λ q out. out) in
      (
        v,
        snap_index 63 p st.0.0 start st.0.1 fresh.0
            ∙ runs
            ∙ ap (λ es. ok (record { visited = v; state = foldl visit s es })) (landed_in-none f),
      )

-- On a stored snapshot-metadata tree the walk succeeds and hands the visitor every record, in the
-- order of the tree.
pub for_each_snap_record-IsSnapTree :
    {Text : Type 0} {S : Type 0} (reader : Reader) (volume : ApfsVolume Text) (block_size : ℕ)
    (t : Tree) (visit : Visitor S) (s : S)
    → IsSnapTree reader volume block_size t
    → for_each_snap_record reader block_size visit volume s ≡ ok (foldl visit s (entries_of t))
unfolding for_each_snap_record
for_each_snap_record-IsSnapTree {S} reader volume block_size t visit s tree =
    let (v, runs) =
      descend_snap-IsRooted reader block_size visit
        (snap_reader reader tree.om volume.xid block_size) t s tree.rooted tree.fits tree.fresh in
    let read = snap_reader reader tree.om volume.xid block_size in
    let from : ℕ → Result (Walk S) = λ p.
      descend_snap reader block_size visit read max_snap_tree_depth true p
        (record { visited = []; state = s }) in
    rw tree.mapped
      (ap (λ p. from p >>= λ w. ok w.state) tree.root ∙ ap (λ r. r >>= λ w. ok w.state) runs)
