-- ===== src/Snapshot/Tests.antt =====
-- src/snapshot.rs on a snapshot-metadata tree of one leaf, and on one that the walk refuses.
use newtua_apfs.Prelude.{ℕ, ◌≡◌, ◌+◌, refl, List, [], ◌∷◌, some, true, false}
use newtua_apfs.Bytes.{Bytes, slice, from_le_bytes, le_u16, le_u32, le_u64, to_le_bytes}
use newtua_apfs.Error.{ok}
use newtua_apfs.Reader.{cursor, checked_mul, saturating_mul, read_exact_at}
use newtua_apfs.Object.{
  stamp, fletcher64_stored, fletcher64_checksum, words, fletcher_loop, fletcher_step,
  fletcher_finish, parse_obj_phys, obj_type,
}
use newtua_apfs.Btree.Node.{
  Entry, is_leaf, is_root, is_fixed_kv, fixed_key_len, fixed_leaf_val_len, fixed_branch_val_len,
  parse_node_header, node_layout, toc_entry, entries_loop, node_entries, read_verified_node,
}
use newtua_apfs.Btree.Walk.{contains, find_leaf, find_leaf_loop, find_leaf_node, choose_child}
use newtua_apfs.FsRecord.{decode_jkey}
use newtua_apfs.Omap.{
  ObjectMap, parse_object_map, parse_typed as parse_typed_omap, resolve, cmp_key, keep_best,
  omap_entry,
}
use newtua_apfs.FsTree.{volume_omap}
use newtua_apfs.FsTree.Stored.{VirtualNode}
use newtua_apfs.Samples.{u16, u32, u64, header}
use newtua_apfs.Samples.Files.{file_node, toc_entry_of, jkey, omap_header, file_volume}
use newtua_apfs.Samples.{apsb}
use newtua_apfs.Samples.Files.{
  snap_leaf, clash_node, snap_image, meta_value, snap_name_key, snap_entry, snap_name_entry,
}
use newtua_apfs.Error.{err, cycle_guard}
use newtua_apfs.Reader.{Reader}
use newtua_apfs.Volume.{
  ApfsVolume, parse_volume, parse_typed, volume_of, until_nul, decode_volname, with_omap_oid,
}
use newtua_apfs.Bytes.{Str, eq_bytes, arr}
use newtua_apfs.FsRecord.{from_u4, is_some_type, to_u4}
use newtua_apfs.Snapshot.{
  Snapshot, snap_paddr, read_snap_node, has_name, decode_snap_name_key, snap_name_bytes,
  decode_cstr, mount_snapshot, for_each_snap_record, max_snap_tree_depth,
}
use newtua_apfs.Snapshot.Walks.{snap_reader}
use newtua_apfs.Snapshot.Listing.{xid_named, mount_snapshot-graft}
use newtua_apfs.Snapshot.Clash.{for_each_snap_record-clash}

abbrev same_text : Bytes → Str
same_text bytes = bytes

abbrev snap_omap : ObjectMap
snap_omap = record { flags = 0; tree_type = 0x40000002; tree_oid = 1; snapshot_tree_oid = 0 }

abbrev snap_device : Reader
snap_device = cursor snap_image

-- The sample volume, with its snapshot-metadata tree at the block.
abbrev volume_at : ℕ → ApfsVolume Str
volume_at block = record file_volume { snap_meta_tree_oid = block }

omap_found : (block : ℕ) → volume_omap snap_device (volume_at block) 512 ≡ ok snap_omap
unfolding omap_header file_node toc_entry_of jkey u16 u32 u64 stamp header to_le_bytes cursor slice
    saturating_mul checked_mul read_exact_at read_verified_node fletcher64_stored
    fletcher64_checksum words fletcher_loop fletcher_step fletcher_finish from_le_bytes le_u16
    le_u32 le_u64 parse_node_header is_leaf is_root is_fixed_kv fixed_key_len fixed_leaf_val_len
    fixed_branch_val_len node_layout toc_entry entries_loop node_entries resolve cmp_key keep_best
    omap_entry find_leaf find_leaf_loop find_leaf_node choose_child contains snap_image snap_leaf
    clash_node meta_value snap_name_key snap_paddr read_snap_node volume_omap parse_object_map
    parse_typed_omap parse_obj_phys obj_type
omap_found block = refl

-- The name leads to the transaction.
named : xid_named same_text (115 ∷ 49 ∷ []) (snap_entry ∷ snap_name_entry ∷ []) ≡ some 9
unfolding snap_entry snap_name_entry meta_value snap_name_key jkey u16 u32 u64 to_le_bytes le_u16
    le_u64 slice from_le_bytes decode_jkey from_u4 is_some_type to_u4 has_name decode_snap_name_key
    snap_name_bytes decode_cstr until_nul eq_bytes
named = refl

clash_read :
    VirtualNode
      (snap_reader snap_device snap_omap 6 512 true)
      2
      false
      (record { key = jkey 1 9; value = u64 2 } ∷ record { key = jkey 1 20; value = u64 102 } ∷ [])
unfolding omap_header file_node toc_entry_of jkey u16 u32 u64 stamp header to_le_bytes cursor slice
    saturating_mul checked_mul read_exact_at read_verified_node fletcher64_stored
    fletcher64_checksum words fletcher_loop fletcher_step fletcher_finish from_le_bytes le_u16
    le_u32 le_u64 parse_node_header is_leaf is_root is_fixed_kv fixed_key_len fixed_leaf_val_len
    fixed_branch_val_len node_layout toc_entry entries_loop node_entries resolve cmp_key keep_best
    omap_entry find_leaf find_leaf_loop find_leaf_node choose_child contains snap_image snap_leaf
    clash_node meta_value snap_name_key snap_paddr read_snap_node
clash_read = record {
  buf = clash_node;
  hdr = record { flags = 0; level = 1; nkeys = 2 };
  verified = refl;
  headed = refl;
  kind = refl;
  holds = refl;
}

child_oid : le_u64 (u64 2) 0 ≡ 2
unfolding u64 to_le_bytes le_u64 slice from_le_bytes
child_oid = refl

abbrev count : ℕ → Entry → ℕ
count n e = n + 1

for_each_snap_record-clash_example :
    for_each_snap_record snap_device 512 count (volume_at 2) 0
    ≡ err (cycle_guard max_snap_tree_depth)
for_each_snap_record-clash_example =
    for_each_snap_record-clash snap_device (volume_at 2) 512 snap_omap
      (record { key = jkey 1 9; value = u64 2 }) (record { key = jkey 1 20; value = u64 102 } ∷ [])
      count 0 (omap_found 2) clash_read child_oid

abbrev frozen_at_zero : Snapshot
frozen_at_zero = record {
  xid = 6;
  name = [];
  create_time = 0;
  change_time = 0;
  sblock_oid = 0;
  extentref_tree_oid = 0;
  inum = 0;
  flags = 0;
}

abbrev mounted_volume : ApfsVolume Str
mounted_volume = with_omap_oid (volume_of same_text apsb) 33

mounts :
    mount_snapshot same_text
      (cursor apsb)
      (record file_volume { omap_oid = 33 })
      1024
      frozen_at_zero
    ≡ ok mounted_volume
unfolding apsb stamp header u32 u64 to_le_bytes parse_volume parse_typed volume_of parse_obj_phys
    obj_type fletcher64_stored fletcher64_checksum words fletcher_loop fletcher_step fletcher_finish
    from_le_bytes le_u32 le_u64 arr slice until_nul decode_volname cursor saturating_mul
    read_exact_at with_omap_oid mount_snapshot
mounts = refl

mount_snapshot-graft_example :
    (buf : Bytes) × (frozen : ApfsVolume Str) × (read_exact_at
        (cursor apsb)
        (saturating_mul 0 1024)
        1024
      ≡ ok buf)
    × (parse_volume same_text buf ≡ ok frozen)
    × (mounted_volume ≡ record {
      oid = frozen.oid;
      xid = frozen.xid;
      fs_index = frozen.fs_index;
      features = frozen.features;
      readonly_compatible_features = frozen.readonly_compatible_features;
      incompatible_features = frozen.incompatible_features;
      root_tree_type = frozen.root_tree_type;
      omap_oid = 33;
      root_tree_oid = frozen.root_tree_oid;
      extentref_tree_oid = frozen.extentref_tree_oid;
      snap_meta_tree_oid = frozen.snap_meta_tree_oid;
      uuid = frozen.uuid;
      fs_flags = frozen.fs_flags;
      name = frozen.name;
    })
    × (volume_omap (cursor apsb) mounted_volume 1024
        ≡ volume_omap (cursor apsb) (record file_volume { omap_oid = 33 }) 1024)
mount_snapshot-graft_example =
    mount_snapshot-graft same_text (cursor apsb) (record file_volume { omap_oid = 33 })
      mounted_volume 1024 frozen_at_zero mounts
