-- ===== src/Snapshot/Listing.antt =====
-- src/snapshot.rs: `list_snapshots`, `resolve_snapshot_xid` and `mount_snapshot` against the records
-- of the tree.
use mathlib.Core.List.{Perm}
use mathlib.Core.List.Perm
use newtua_apfs.Prelude.{
  ℕ, ◌≤◌, ◌≡◌, refl, sym, ap, ◌∙◌, List, [], ◌∷◌, Option, none, some, foldl, Bool-cases, inl, inr,
  if◌then◌else◌,
}
use newtua_apfs.Bytes.{Bytes, Str, le_u64}
use newtua_apfs.Error.{ok, >>=-eq-ok, ok-injective}
use newtua_apfs.Reader.{Reader, read_exact_at, saturating_mul}
use newtua_apfs.Btree.Node.{Entry}
use newtua_apfs.Btree.Tree.{Tree, entries_of}
use newtua_apfs.FsRecord.{RecordType, is_some_type, decode_jkey}
use newtua_apfs.Volume.{ApfsVolume, parse_volume, with_omap_oid}
use newtua_apfs.FsTree.{volume_omap}
use newtua_apfs.Snapshot.{Snapshot, has_name, keep_snap_xid, resolve_snapshot_xid, mount_snapshot}
use newtua_apfs.Snapshot.Walks.{IsSnapTree, for_each_snap_record-IsSnapTree}

-- The transactions ascend, from `lo` on.
abbrev pub AreSorted : ℕ → List Snapshot → Type 0
AreSorted lo [] = Unit
AreSorted lo (x ∷ xs) = (lo ≤ x.xid) × AreSorted x.xid xs

module _ (from_utf8_lossy : Bytes → Str) where
  -- The xid that the first snapshot-name record of that name gives.
  abbrev pub xid_named : Str → List Entry → Option ℕ
  xid_named name [] = none
  xid_named name (e ∷ es) =
      let rest = xid_named name es in
      if is_some_type RecordType.snap_name (decode_jkey (le_u64 e.key 0)).1
      then if has_name from_utf8_lossy name e.key then some (le_u64 e.value 0) else rest
      else rest

  foldl_found :
      (name : Str) (es : List Entry) (xid : ℕ)
      → foldl (keep_snap_xid from_utf8_lossy name) (some xid) es ≡ some xid
  unfolding keep_snap_xid
  foldl_found name [] xid = refl
  foldl_found name (e ∷ es) xid = foldl_found name es xid

  foldl-keep_snap_xid :
      (name : Str) (es : List Entry)
      → foldl (keep_snap_xid from_utf8_lossy name) none es ≡ xid_named name es
  unfolding keep_snap_xid
  foldl-keep_snap_xid name [] = refl
  foldl-keep_snap_xid name (e ∷ es) =
      elim (Bool-cases (is_some_type RecordType.snap_name (decode_jkey (le_u64 e.key 0)).1)) [
        | inr b ↦ rw (keep_snap_xid, b) (foldl-keep_snap_xid name es)
        | inl b ↦ elim (Bool-cases (has_name from_utf8_lossy name e.key)) [
          | inl c ↦ rw (keep_snap_xid, b, c) (foldl_found name es (le_u64 e.value 0))
          | inr c ↦ rw (keep_snap_xid, b, c) (foldl-keep_snap_xid name es)
        ]
      ]

  -- On a stored snapshot-metadata tree `resolve_snapshot_xid` gives the transaction of the first
  -- name record of that name, and nothing where there is none.
  pub resolve_snapshot_xid-IsSnapTree :
      (reader : Reader) (volume : ApfsVolume Str) (block_size : ℕ) (name : Str) (t : Tree)
      → IsSnapTree reader volume block_size t
      → resolve_snapshot_xid from_utf8_lossy reader volume block_size name
        ≡ ok (xid_named name (entries_of t))
  unfolding resolve_snapshot_xid
  resolve_snapshot_xid-IsSnapTree reader volume block_size name t tree =
      for_each_snap_record-IsSnapTree reader volume block_size t
        (keep_snap_xid from_utf8_lossy name) none tree
      ∙ ap ok (foldl-keep_snap_xid name (entries_of t))

  -- A mounted snapshot is the volume that its superblock's block parses to, in every field but the
  -- object map's oid, which is the live volume's: whatever walks it finds the map that the live
  -- volume has.
  pub mount_snapshot-graft :
      (reader : Reader) (live mounted : ApfsVolume Str) (block_size : ℕ) (snapshot : Snapshot)
      → mount_snapshot from_utf8_lossy reader live block_size snapshot ≡ ok mounted
      → (buf : Bytes) × (frozen : ApfsVolume Str) × (read_exact_at reader
            (saturating_mul snapshot.sblock_oid block_size)
            block_size
          ≡ ok buf)
        × (parse_volume from_utf8_lossy buf ≡ ok frozen)
        × (mounted ≡ record {
          oid = frozen.oid;
          xid = frozen.xid;
          fs_index = frozen.fs_index;
          features = frozen.features;
          readonly_compatible_features = frozen.readonly_compatible_features;
          incompatible_features = frozen.incompatible_features;
          root_tree_type = frozen.root_tree_type;
          omap_oid = live.omap_oid;
          root_tree_oid = frozen.root_tree_oid;
          extentref_tree_oid = frozen.extentref_tree_oid;
          snap_meta_tree_oid = frozen.snap_meta_tree_oid;
          uuid = frozen.uuid;
          fs_flags = frozen.fs_flags;
          name = frozen.name;
        })
        × (volume_omap reader mounted block_size ≡ volume_omap reader live block_size)
  unfolding mount_snapshot with_omap_oid volume_omap
  mount_snapshot-graft reader live mounted block_size snapshot h =
      let (buf, read, h1) =
        >>=-eq-ok (read_exact_at reader (saturating_mul snapshot.sblock_oid block_size) block_size)
          _ h in
      let (frozen, parsed, h2) = >>=-eq-ok (parse_volume from_utf8_lossy buf) _ h1 in
      let is = sym (ok-injective h2) in
      (
        buf,
        frozen,
        read,
        parsed,
        is,
        ap (λ (v : ApfsVolume Str). volume_omap reader v block_size) is,
      )
