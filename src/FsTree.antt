-- ===== src/FsTree.antt =====
-- src/dir.rs: the walk over a volume's file-system tree, `walk_fs_tree` and `descend_virtual`.
-- The tree's nodes are virtual objects, which the volume's object map resolves at its transaction.
pub mod Stored
pub mod Walks
pub mod Keyed
pub mod Fusion
pub mod Collect
pub mod Tests
use newtua_apfs.Prelude.{
  ℕ, zero, suc, List, [], ◌∷◌, ◌++◌, Option, none, some, Bool, true, ◌&&◌, leb, ◌==◌, foldl,
  if◌then◌else◌,
}
use newtua_apfs.Bytes.{Bytes, le_u64}
use newtua_apfs.Error.{Result, ok, err, ◌>>=◌, cycle_guard}
use newtua_apfs.Reader.{Reader, read_exact_at, saturating_mul}
use newtua_apfs.Object.{fletcher64_stored, fletcher64_checksum}
use newtua_apfs.Btree.Node.{Entry, fs_tree, parse_node_header, is_leaf, node_entries, mismatch}
use newtua_apfs.Btree.Walk.{Walk, Visitor, contains, descend_all}
use newtua_apfs.Omap.{ObjectMap, parse_object_map, resolve}
use newtua_apfs.FsRecord.{RecordType, is_some_type, decode_jkey}
use newtua_apfs.Volume.{ApfsVolume}

abbrev pub max_fstree_depth : ℕ
max_fstree_depth = 64

-- `decode_jkey(le_u64(key, 0)).0`.
unfoldable pub oid_of : Bytes → ℕ
oid_of key = (decode_jkey (le_u64 key 0)).0

unfoldable pub child_may_contain_oid : ℕ → Option ℕ → ℕ → Bool
child_may_contain_oid sep_oid next_sep_oid target =
    leb sep_oid target && elim next_sep_oid [ none ↦ true | some next ↦ leb target next ]

-- `entries.get(i + 1).map(|e| …)`, for the entries from `i + 1` on.
unfoldable pub next_sep_oid : List Entry → Option ℕ
next_sep_oid [] = none
next_sep_oid (e ∷ es) = some (oid_of e.key)

-- Whether the loop goes into the child at `e`, which `es` follow.
unfoldable pub enters : Option ℕ → Entry → List Entry → Bool
enters none e es = true
enters (some target) e es = child_may_contain_oid (oid_of e.key) (next_sep_oid es) target

-- The virtual oids of the children that `for i in 0..entries.len()` descends.
unfoldable pub child_oids : Option ℕ → List Entry → List ℕ
unfolding enters
child_oids target [] = []
child_oids target (e ∷ es) =
    let rest = child_oids target es in if enters target e es then le_u64 e.value 0 ∷ rest else rest

-- A node's block: its oid resolved, the block read and its checksum verified.
unfoldable pub read_virtual_node : Reader → ObjectMap → ℕ → ℕ → ℕ → Result Bytes
unfolding resolve
read_virtual_node reader om node_oid xid block_size =
    resolve om reader node_oid xid block_size >>= λ entry.
    read_exact_at reader (saturating_mul entry.paddr block_size) block_size >>= λ buf.
    if fletcher64_stored buf == fletcher64_checksum buf then ok buf else mismatch buf entry.paddr

module _ {S : Type 0} (target : Option ℕ) (visit : Visitor S) where
  -- What `descend_virtual` does with a node that was read, given the descent of a child.
  unfoldable pub visit_node : (ℕ → Walk S → Result (Walk S)) → Bytes → Walk S → Result (Walk S)
  unfolding descend_all child_oids
  visit_node visit_child buf w = elim (parse_node_header buf) [
    | none ↦ ok w
    | some hdr ↦
        if is_leaf hdr
        then ok (record w { state = foldl visit w.state (node_entries buf fs_tree) })
        else descend_all visit_child (child_oids target (node_entries buf fs_tree)) w
  ]

  -- The nodes come from `read`; the first number is `MAX_FSTREE_DEPTH - depth`.
  unfoldable pub descend_virtual : (ℕ → Result Bytes) → ℕ → ℕ → Walk S → Result (Walk S)
  unfolding visit_node
  descend_virtual read zero node_oid w = err (cycle_guard max_fstree_depth)
  descend_virtual read (suc levels) node_oid w =
      let w' : Walk S = record w { visited = node_oid ∷ w.visited } in
      let node : Result (Walk S) =
        read node_oid >>= λ buf. visit_node (descend_virtual read levels) buf w' in
      if contains w.visited node_oid then err (cycle_guard max_fstree_depth) else node

-- `ty == Some(t) && oid == …`, for the header word of a record's key.
unfoldable pub is_record : RecordType → ℕ → Entry → Bool
unfolding is_some_type
is_record t oid e =
    let (k_oid, ty) = decode_jkey (le_u64 e.key 0) in is_some_type t ty && k_oid == oid

-- A visitor that pushes what it makes of a record on a vector, if it makes anything of it.
unfoldable pub push_some {ℓ} : {A : Type ℓ} → (Entry → Option A) → List A → Entry → List A
push_some make out e = elim (make e) [ none ↦ out | some a ↦ out ++ (a ∷ []) ]

-- The volume's object map, at the block that `apfs_omap_oid` names.
unfoldable pub volume_omap : {Text : Type 0} → Reader → ApfsVolume Text → ℕ → Result ObjectMap
volume_omap reader volume block_size =
    read_exact_at reader (saturating_mul volume.omap_oid block_size) block_size >>= parse_object_map

unfoldable pub walk_fs_tree :
    {Text : Type 0} {S : Type 0}
    → Reader
    → ApfsVolume Text
    → ℕ
    → Option ℕ
    → Visitor S
    → S
    → Result S
unfolding descend_virtual contains read_virtual_node volume_omap
walk_fs_tree reader volume block_size target visit s =
    volume_omap reader volume block_size >>= λ om.
    descend_virtual target visit (λ oid. read_virtual_node reader om oid volume.xid block_size)
      max_fstree_depth volume.root_tree_oid (record { visited = []; state = s })
    >>= λ w. ok w.state

unfoldable pub for_each_fs_record_for_oid :
    {Text : Type 0} {S : Type 0} → Reader → ApfsVolume Text → ℕ → ℕ → Visitor S → S → Result S
unfolding walk_fs_tree
for_each_fs_record_for_oid reader volume block_size target_oid visit s =
    walk_fs_tree reader volume block_size (some target_oid) visit s
