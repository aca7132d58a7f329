-- ===== src/Snapshot.antt =====
-- src/snapshot.rs: the walk over a volume's snapshot-metadata tree, the listing of snapshots, and
-- the mount of one. `String::from_utf8_lossy` is a parameter.
pub mod Walks
pub mod Listing
pub mod Clash
mod Tests
use newtua_apfs.Prelude.{
  ℕ, zero, suc, ◌+◌, min, List, [], ◌∷◌, Option, none, some, Bool, true, false, leb, ◌==◌,
  if◌then◌else◌,
}
use newtua_apfs.Bytes.{Bytes, Str, eq_bytes, slice, le_u16, le_u32, le_u64}
use newtua_apfs.Error.{Result, ok, err, ◌>>=◌, cycle_guard}
use newtua_apfs.Reader.{Reader, read_exact_at, saturating_mul}
use newtua_apfs.Object.{fletcher64_stored, fletcher64_checksum}
use newtua_apfs.Btree.Node.{Entry, fs_tree, mismatch}
use newtua_apfs.Btree.Walk.{Walk, Visitor, contains, descend_node}
use newtua_apfs.FsRecord.{RecordType, is_some_type, decode_jkey}
use newtua_apfs.Omap.{ObjectMap, resolve}
use newtua_apfs.Volume.{ApfsVolume, until_nul, parse_volume, with_omap_oid}
use newtua_apfs.FsTree.{push_some, volume_omap}

abbrev pub off_snap_name_key_len : ℕ
off_snap_name_key_len = 8

abbrev pub off_snap_name_key_name : ℕ
off_snap_name_key_name = 10

abbrev pub off_snap_extentref_tree_oid : ℕ
off_snap_extentref_tree_oid = 0

abbrev pub off_snap_sblock_oid : ℕ
off_snap_sblock_oid = 8

abbrev pub off_snap_create_time : ℕ
off_snap_create_time = 16

abbrev pub off_snap_change_time : ℕ
off_snap_change_time = 24

abbrev pub off_snap_inum : ℕ
off_snap_inum = 32

abbrev pub off_snap_flags : ℕ
off_snap_flags = 44

abbrev pub off_snap_name_len : ℕ
off_snap_name_len = 48

abbrev pub off_snap_name : ℕ
off_snap_name = 50

abbrev pub max_snap_tree_depth : ℕ
max_snap_tree_depth = 64

abbrev pub max_snap_name_len : ℕ
max_snap_name_len = 4096

pub record Snapshot : Type 0 where
  pub xid : ℕ
  pub name : Str
  pub create_time : ℕ
  pub change_time : ℕ
  pub sblock_oid : ℕ
  pub extentref_tree_oid : ℕ
  pub inum : ℕ
  pub flags : ℕ

-- `sort_by_key`, which is stable: of two snapshots at one xid the one listed first stays first.
unfoldable pub insert_snapshot : Snapshot → List Snapshot → List Snapshot
insert_snapshot x [] = x ∷ []
insert_snapshot x (y ∷ ys) =
    let rest = insert_snapshot x ys in if leb x.xid y.xid then x ∷ y ∷ ys else y ∷ rest

unfoldable pub sort_by_xid : List Snapshot → List Snapshot
unfolding insert_snapshot
sort_by_xid [] = []
sort_by_xid (x ∷ xs) = insert_snapshot x (sort_by_xid xs)

-- The block of a node: the root's is its own number, any other is a virtual oid.
unfoldable pub snap_paddr : Reader → ObjectMap → Bool → ℕ → ℕ → ℕ → Result ℕ
unfolding resolve
snap_paddr reader om true node_oid xid block_size = ok node_oid
snap_paddr reader om false node_oid xid block_size =
    resolve om reader node_oid xid block_size >>= λ entry. ok entry.paddr

unfoldable pub read_snap_node : Reader → ObjectMap → Bool → ℕ → ℕ → ℕ → Result Bytes
unfolding snap_paddr
read_snap_node reader om is_root node_oid xid block_size =
    snap_paddr reader om is_root node_oid xid block_size >>= λ paddr.
    read_exact_at reader (saturating_mul paddr block_size) block_size >>= λ buf.
    if fletcher64_stored buf == fletcher64_checksum buf then ok buf else mismatch buf paddr

module _ {S : Type 0} (reader : Reader) (block_size : ℕ) (visit : Visitor S) where
  -- The nodes come from `read`, which is told the root; what is done with a node is what `descend`
  -- of src/btree.rs does. The number is `MAX_SNAP_TREE_DEPTH - depth`.
  unfoldable pub descend_snap : (Bool → ℕ → Result Bytes) → ℕ → Bool → ℕ → Walk S → Result (Walk S)
  unfolding descend_node
  descend_snap read zero is_root node_oid w = err (cycle_guard max_snap_tree_depth)
  descend_snap read (suc levels) is_root node_oid w =
      let w' : Walk S = record w { visited = node_oid ∷ w.visited } in
      let node : Result (Walk S) = read is_root node_oid >>= λ buf.
      descend_node reader block_size fs_tree visit (descend_snap read levels false) buf w' in
      if contains w.visited node_oid then err (cycle_guard max_snap_tree_depth) else node

  unfoldable pub for_each_snap_record : {Text : Type 0} → ApfsVolume Text → S → Result S
  unfolding descend_snap contains read_snap_node volume_omap
  for_each_snap_record volume s = volume_omap reader volume block_size >>= λ om.
      descend_snap (λ is_root oid. read_snap_node reader om is_root oid volume.xid block_size)
        max_snap_tree_depth true volume.snap_meta_tree_oid (record { visited = []; state = s })
      >>= λ w. ok w.state

-- The bytes of a snapshot-name key's name, if it holds as many as it says.
unfoldable pub snap_name_bytes : Bytes → Option Bytes
snap_name_bytes key =
    let name_len = min (le_u16 key off_snap_name_key_len) max_snap_name_len in
    if name_len == 0
    then none
    else slice key off_snap_name_key_name (off_snap_name_key_name + name_len)

module _ (from_utf8_lossy : Bytes → Str) where
  unfoldable pub decode_cstr : Bytes → Str
  unfolding until_nul
  decode_cstr bytes = from_utf8_lossy (until_nul bytes)

  unfoldable pub decode_snap_name_key : Bytes → Option Str
  unfolding snap_name_bytes decode_cstr
  decode_snap_name_key key = elim (snap_name_bytes key) [
    | none ↦ none
    | some name ↦ some (decode_cstr name)
  ]

  unfoldable pub parse_snap_metadata : ℕ → Bytes → Snapshot
  unfolding decode_cstr
  parse_snap_metadata xid value =
      let name_len = min (le_u16 value off_snap_name_len) max_snap_name_len in
      record {
        xid = xid;
        name = elim (slice value off_snap_name (off_snap_name + name_len)) [
          | none ↦ []
          | some name ↦ decode_cstr name
        ];
        create_time = le_u64 value off_snap_create_time;
        change_time = le_u64 value off_snap_change_time;
        sblock_oid = le_u64 value off_snap_sblock_oid;
        extentref_tree_oid = le_u64 value off_snap_extentref_tree_oid;
        inum = le_u64 value off_snap_inum;
        flags = le_u32 value off_snap_flags;
      }

  -- What the visitor of `list_snapshots` makes of a record.
  unfoldable pub snapshot_of : Entry → Option Snapshot
  unfolding is_some_type parse_snap_metadata
  snapshot_of e =
      let (xid, ty) = decode_jkey (le_u64 e.key 0) in
      if is_some_type RecordType.snap_metadata ty
      then some (parse_snap_metadata xid e.value)
      else none

  -- `decode_snap_name_key(key).as_deref() == Some(name)`.
  unfoldable pub has_name : Str → Bytes → Bool
  unfolding decode_snap_name_key eq_bytes
  has_name name key = elim (decode_snap_name_key key) [ none ↦ false | some n ↦ eq_bytes n name ]

  -- The visitor of `resolve_snapshot_xid`.
  unfoldable pub keep_snap_xid : Str → Option ℕ → Entry → Option ℕ
  unfolding is_some_type has_name
  keep_snap_xid name (some xid) e = some xid
  keep_snap_xid name none e =
      if is_some_type RecordType.snap_name (decode_jkey (le_u64 e.key 0)).1
      then if has_name name e.key then some (le_u64 e.value 0) else none
      else none

  module _ (reader : Reader) (volume : ApfsVolume Str) (block_size : ℕ) where
    unfoldable pub list_snapshots : Result (List Snapshot)
    unfolding for_each_snap_record push_some snapshot_of sort_by_xid
    list_snapshots =
        for_each_snap_record reader block_size (push_some snapshot_of) volume [] >>= λ out.
        ok (sort_by_xid out)

    unfoldable pub resolve_snapshot_xid : Str → Result (Option ℕ)
    unfolding for_each_snap_record keep_snap_xid
    resolve_snapshot_xid name =
        for_each_snap_record reader block_size (keep_snap_xid name) volume none

    -- The volume here is the live one.
    unfoldable pub mount_snapshot : Snapshot → Result (ApfsVolume Str)
    unfolding parse_volume with_omap_oid
    mount_snapshot snapshot =
        read_exact_at reader (saturating_mul snapshot.sblock_oid block_size) block_size >>= λ buf.
        parse_volume from_utf8_lossy buf >>= λ frozen. ok (with_omap_oid frozen volume.omap_oid)
