-- ===== src/Extent/Tests.antt =====
-- src/extent.rs on the sample volume.
use newtua_apfs.Prelude.{◌≡◌, refl, List, [], ◌∷◌, filter_map}
use mathlib.Core.List.{Perm}
use newtua_apfs.Bytes.{slice, from_le_bytes, le_u16, le_u32, le_u64, to_le_bytes}
use newtua_apfs.Error.{ok}
use newtua_apfs.Reader.{cursor, checked_mul, saturating_mul, read_exact_at}
use newtua_apfs.Object.{
  stamp, fletcher64_stored, fletcher64_checksum, words, fletcher_loop, fletcher_step,
  fletcher_finish, parse_obj_phys, obj_type,
}
use newtua_apfs.Btree.Node.{
  is_leaf, is_root, is_fixed_kv, fixed_key_len, fixed_leaf_val_len, fixed_branch_val_len,
  parse_node_header, node_layout, toc_entry, entries_loop, node_entries, read_verified_node,
}
use newtua_apfs.Btree.Tree.{entries_of}
use newtua_apfs.Btree.Walk.{
  contains, descend_all, find_leaf, find_leaf_loop, find_leaf_node, choose_child,
}
use newtua_apfs.FsRecord.{decode_jkey, from_u4, is_some_type, to_u4}
use newtua_apfs.Omap.{parse_object_map, parse_typed, resolve, cmp_key, keep_best, omap_entry}
use newtua_apfs.FsTree.{
  oid_of, is_record, push_some, read_virtual_node, volume_omap, walk_fs_tree,
  for_each_fs_record_for_oid, descend_virtual, visit_node, child_oids, enters, next_sep_oid,
  child_may_contain_oid,
}
use newtua_apfs.FsTree.Tests.{file_tree-IsFsTree}
use newtua_apfs.Samples.{u16, u32, u64, header, key, value}
use newtua_apfs.Samples.Files.{
  file_node, toc_entry_of, jkey, omap_header, omap_leaf, root_node, inode_bytes, dir_key, dir_value,
  root_leaf, xattr_key, xattr_value, extent_key, extent_value, file_leaf, file_image, file_reader,
  file_volume, file_tree, separator,
}
use newtua_apfs.Extent.{FileExtent, extent_of, insert_extent, sort_by_logical_offset, list_extents}
use newtua_apfs.Extent.Listing.{AreSorted, list_extents-IsFsTree}

abbrev file_extents : List FileExtent
file_extents = record { logical_offset = 0; len = 512; phys_block_num = 5 } ∷ []

lists : list_extents file_reader file_volume 20 512 ≡ ok file_extents
unfolding file_image omap_header omap_leaf root_node root_leaf file_leaf file_node toc_entry_of jkey
    inode_bytes dir_key dir_value xattr_key xattr_value extent_key extent_value u16 u32 u64 key
    value stamp header to_le_bytes cursor slice saturating_mul checked_mul read_exact_at
    read_verified_node fletcher64_stored fletcher64_checksum words fletcher_loop fletcher_step
    fletcher_finish from_le_bytes le_u16 le_u32 le_u64 parse_node_header is_leaf is_root is_fixed_kv
    fixed_key_len fixed_leaf_val_len fixed_branch_val_len node_layout toc_entry entries_loop
    node_entries read_virtual_node resolve cmp_key keep_best omap_entry find_leaf find_leaf_loop
    find_leaf_node choose_child contains separator is_record is_some_type to_u4 push_some
    walk_fs_tree for_each_fs_record_for_oid descend_virtual visit_node child_oids enters
    next_sep_oid child_may_contain_oid descend_all oid_of decode_jkey from_u4 extent_of
    insert_extent sort_by_logical_offset list_extents volume_omap parse_object_map parse_typed
    parse_obj_phys obj_type
lists = refl

list_extents-IsFsTree_example :
    (exts : List FileExtent) × (list_extents file_reader file_volume 20 512 ≡ ok exts)
    × Perm exts (filter_map (extent_of 20) (entries_of file_tree))
    × AreSorted 0 exts
list_extents-IsFsTree_example =
    list_extents-IsFsTree file_reader file_volume 20 512 file_tree file_tree-IsFsTree
