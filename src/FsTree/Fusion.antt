-- ===== src/FsTree/Fusion.antt =====
-- src/dir.rs: two visitors of one walk, of which the second keeps an image of what the first keeps,
-- end in such an image, and fail alike.
use newtua_apfs.Prelude.{
  ℕ, zero, suc, ◌≡◌, refl, List, [], ◌∷◌, Option, some, foldl, Bool-cases, inl, inr, Option-cases,
}
use newtua_apfs.Bytes.{Bytes}
use newtua_apfs.Error.{Result, ok, err, ◌>>=◌}
use newtua_apfs.Reader.{Reader}
use newtua_apfs.Btree.Node.{Entry, fs_tree, parse_node_header, is_leaf, node_entries}
use newtua_apfs.Btree.Walk.{Walk, Visitor, contains, descend_all}
use newtua_apfs.Volume.{ApfsVolume}
use newtua_apfs.FsTree.{
  child_oids, visit_node, descend_virtual, read_virtual_node, volume_omap, walk_fs_tree,
  for_each_fs_record_for_oid, max_fstree_depth,
}

abbrev pub map_ok {ℓ κ} : {A : Type ℓ} {B : Type κ} → (A → B) → Result A → Result B
map_ok f (err e) = err e
map_ok f (ok a) = ok (f a)

descend_all-map :
    {V W : Type 0} (m : V → W) (go : ℕ → V → Result V) (go' : ℕ → W → Result W) (ps : List ℕ)
    (v : V)
    → ((p : ℕ) (x : V) → go' p (m x) ≡ map_ok m (go p x))
    → descend_all go' ps (m v) ≡ map_ok m (descend_all go ps v)
unfolding descend_all
descend_all-map m go go' [] v each = refl
descend_all-map m go go' (p ∷ ps) v each =
    rw (each p v)
      (elim (go p v)
        as (λ r. (map_ok m r >>= descend_all go' ps) ≡ map_ok m (r >>= descend_all go ps)) [
          | err e ↦ refl
          | ok x ↦ descend_all-map m go go' ps x each
        ])

module _ {S T : Type 0} (image : S → T) (visit : Visitor S) (visit' : Visitor T)
    (agree : (s : S) (e : Entry) → visit' (image s) e ≡ image (visit s e)) where
  abbrev image_of : Walk S → Walk T
  image_of w = record { visited = w.visited; state = image w.state }

  foldl-image : (es : List Entry) (s : S) → foldl visit' (image s) es ≡ image (foldl visit s es)
  foldl-image [] s = refl
  foldl-image (e ∷ es) s = rw (agree s e) (foldl-image es (visit s e))

  visit_node-image :
      (target : Option ℕ) (go : ℕ → Walk S → Result (Walk S)) (go' : ℕ → Walk T → Result (Walk T))
      (buf : Bytes) (w : Walk S)
      → ((p : ℕ) (x : Walk S) → go' p (image_of x) ≡ map_ok image_of (go p x))
      → visit_node target visit' go' buf (image_of w)
        ≡ map_ok image_of (visit_node target visit go buf w)
  unfolding visit_node
  visit_node-image target go go' buf w each = elim (Option-cases (parse_node_header buf)) [
    | inl e ↦ rw (visit_node, e) refl
    | inr (hdr, e) ↦ elim (Bool-cases (is_leaf hdr)) [
      | inl b ↦ rw (visit_node, e, b, foldl-image (node_entries buf fs_tree) w.state) refl
      | inr b ↦
          rw (visit_node, e, b)
            (descend_all-map image_of go go' (child_oids target (node_entries buf fs_tree)) w each)
    ]
  ]

  descend_virtual-image :
      (target : Option ℕ) (read : ℕ → Result Bytes) (levels oid : ℕ) (w : Walk S)
      → descend_virtual target visit' read levels oid (image_of w)
        ≡ map_ok image_of (descend_virtual target visit read levels oid w)
  unfolding descend_virtual
  descend_virtual-image target read zero oid w = refl
  descend_virtual-image target read (suc levels) oid w =
      elim (Bool-cases (contains w.visited oid)) [
        | inl b ↦ rw b refl
        | inr b ↦
            rw b
              (elim (read oid)
                as (λ r.
                  (r >>= λ buf.
                  visit_node target visit' (descend_virtual target visit' read levels) buf
                    (image_of (record w { visited = oid ∷ w.visited })))
                  ≡ map_ok image_of (
                      r >>= λ buf.
                      visit_node target visit (descend_virtual target visit read levels) buf
                        (record w { visited = oid ∷ w.visited }))) [
                          | err e ↦ refl
                          | ok buf ↦
                              visit_node-image target (descend_virtual target visit read levels)
                                (descend_virtual target visit' read levels) buf
                                (record w { visited = oid ∷ w.visited })
                                (λ p x. descend_virtual-image target read levels p x)
                        ])
      ]

  state-image :
      (r : Result (Walk S))
      → (map_ok image_of r >>= λ w. ok w.state) ≡ map_ok image (r >>= λ w. ok w.state)
  state-image (err e) = refl
  state-image (ok w) = refl

  pub for_each_fs_record_for_oid-image :
      {Text : Type 0} (reader : Reader) (volume : ApfsVolume Text) (block_size oid : ℕ) (s : S)
      → for_each_fs_record_for_oid reader volume block_size oid visit' (image s)
        ≡ map_ok image (for_each_fs_record_for_oid reader volume block_size oid visit s)
  unfolding for_each_fs_record_for_oid walk_fs_tree
  for_each_fs_record_for_oid-image reader volume block_size oid s =
      let start : Walk S = record { visited = []; state = s } in
      elim (volume_omap reader volume block_size)
        as (λ r.
          (r >>= λ om.
          descend_virtual (some oid) visit'
            (λ o. read_virtual_node reader om o volume.xid block_size) max_fstree_depth
            volume.root_tree_oid (image_of start)
          >>= λ w. ok w.state)
          ≡ map_ok image (
              r >>= λ om.
              descend_virtual (some oid) visit
                (λ o. read_virtual_node reader om o volume.xid block_size) max_fstree_depth
                volume.root_tree_oid start
              >>= λ w. ok w.state)) [
                | err e ↦ refl
                | ok om ↦
                    let read : ℕ → Result Bytes =
                      λ o. read_virtual_node reader om o volume.xid block_size in
                    rw
                      (descend_virtual-image (some oid) read max_fstree_depth volume.root_tree_oid
                        start)
                      (state-image (
                        descend_virtual (some oid) visit read max_fstree_depth volume.root_tree_oid
                          start))
              ]
