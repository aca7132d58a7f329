-- ===== src/Snapshot/Clash.antt =====
-- src/snapshot.rs, the visited set of `descend_snap`, which holds the root's block number among the
-- virtual oids of the other nodes.
use newtua_apfs.Prelude.{ℕ, zero, suc, ◌≡◌, refl, ap, ◌∙◌, arith, List, [], ◌∷◌, none, true, false}
use newtua_apfs.Bytes.{Bytes, le_u64}
use newtua_apfs.Error.{Result, ok, err, ◌>>=◌, cycle_guard}
use newtua_apfs.Reader.{Reader}
use newtua_apfs.Btree.Node.{Entry}
use newtua_apfs.Btree.Walk.{Walk, Visitor, contains, descend_all}
use newtua_apfs.Omap.{ObjectMap}
use newtua_apfs.Volume.{ApfsVolume}
use newtua_apfs.FsTree.{child_oids, enters, descend_virtual, volume_omap}
use newtua_apfs.FsTree.Stored.{VirtualNode}
use newtua_apfs.Snapshot.{for_each_snap_record, max_snap_tree_depth}
use newtua_apfs.Snapshot.Walks.{snap_reader, snap_index}

module _ {S : Type 0} (visit : Visitor S) (read : ℕ → Result Bytes) where
  -- A virtual oid that was visited ends a walk.
  descend_virtual_visited :
      (levels oid : ℕ) (w : Walk S)
      → contains w.visited oid ≡ true
      → descend_virtual none visit read levels oid w ≡ err (cycle_guard max_snap_tree_depth)
  unfolding descend_virtual
  descend_virtual_visited zero oid w seen = refl
  descend_virtual_visited (suc levels) oid w seen = rw seen refl

  first_child_visited :
      (levels : ℕ) (e : Entry) (es : List Entry) (w : Walk S)
      → contains w.visited (le_u64 e.value 0) ≡ true
      → descend_all (descend_virtual none visit read levels) (child_oids none (e ∷ es)) w
        ≡ err (cycle_guard max_snap_tree_depth)
  unfolding descend_all child_oids enters
  first_child_visited levels e es w seen =
      rw (descend_virtual_visited levels (le_u64 e.value 0) w seen) refl

contains_one : (p q : ℕ) → q ≡ p → contains (p ∷ []) q ≡ true
unfolding contains
contains_one p q e = ground arith

contains_none : (p : ℕ) → contains [] p ≡ false
unfolding contains
contains_none p = refl

-- A snapshot-metadata tree whose root is an index node at a block with the number of its first
-- child's virtual oid is refused as a cycle, whatever that oid resolves to.
pub for_each_snap_record-clash :
    {Text : Type 0} {S : Type 0} (reader : Reader) (volume : ApfsVolume Text) (block_size : ℕ)
    (om : ObjectMap) (e : Entry) (es : List Entry) (visit : Visitor S) (s : S)
    → volume_omap reader volume block_size ≡ ok om
    → VirtualNode
        (snap_reader reader om volume.xid block_size true)
        volume.snap_meta_tree_oid
        false
        (e ∷ es)
    → le_u64 e.value 0 ≡ volume.snap_meta_tree_oid
    → for_each_snap_record reader block_size visit volume s ≡ err (cycle_guard max_snap_tree_depth)
unfolding for_each_snap_record
for_each_snap_record-clash {S} reader volume block_size om e es visit s mapped root same =
    let p = volume.snap_meta_tree_oid in
    let read = snap_reader reader om volume.xid block_size in
    let start : Walk S = record { visited = []; state = s } in
    let met : Walk S = record { visited = p ∷ []; state = s } in
    let walk = snap_index reader block_size visit read 63 p (e ∷ es) start root (contains_none p) in
    rw mapped (
      ap (λ r. r >>= λ w. ok w.state)
        (walk
          ∙ first_child_visited visit (read false) 63 e es met
              (contains_one p (le_u64 e.value 0) same)))
