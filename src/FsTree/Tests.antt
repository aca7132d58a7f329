-- ===== src/FsTree/Tests.antt =====
-- src/dir.rs, the walk over the file-system tree of the sample volume.
use newtua_apfs.Prelude.{
  ℕ, ◌≡◌, ◌≢◌, refl, arith, List, [], ◌∷◌, Option, none, some, true, false, inl, inr, ◌==◌,
  if◌then◌else◌,
}
use newtua_apfs.Bytes.{Bytes, slice, from_le_bytes, le_u16, le_u32, le_u64, to_le_bytes}
use newtua_apfs.Error.{Result, ok}
use newtua_apfs.Reader.{cursor, checked_mul, saturating_mul, read_exact_at}
use newtua_apfs.Object.{
  stamp, fletcher64_stored, fletcher64_checksum, words, fletcher_loop, fletcher_step,
  fletcher_finish, parse_obj_phys, obj_type,
}
use newtua_apfs.Btree.Node.{
  Entry, is_leaf, is_root, is_fixed_kv, fixed_key_len, fixed_leaf_val_len, fixed_branch_val_len,
  parse_node_header, node_layout, toc_entry, entries_loop, node_entries, read_verified_node,
}
use newtua_apfs.Btree.Walk.{contains, find_leaf, find_leaf_loop, find_leaf_node, choose_child}
use newtua_apfs.Btree.Order.{Among}
use newtua_apfs.FsRecord.{decode_jkey}
use newtua_apfs.Omap.{
  ObjectMap, parse_object_map, parse_typed, resolve, cmp_key, keep_best, omap_entry,
}
use newtua_apfs.FsTree.{
  oid_of, read_virtual_node, volume_omap, walk_fs_tree, for_each_fs_record_for_oid, push_some,
}
use newtua_apfs.FsTree.Stored.{VirtualNode, IsFsTree}
use newtua_apfs.FsTree.Keyed.{for_each_fs_record_for_oid-full_walk}
use newtua_apfs.FsTree.Collect.{push_some-Ignores}
use newtua_apfs.Samples.{u16, u32, u64, header, key, value}
use newtua_apfs.Samples.Files.{
  file_node, toc_entry_of, jkey, omap_header, omap_leaf, root_node, inode_bytes, dir_key, dir_value,
  root_leaf, xattr_key, xattr_value, extent_key, extent_value, file_leaf, file_image, file_reader,
  file_volume, file_tree, root_inode, dir_entry, file_inode, file_xattr, file_extent_record,
  separator,
}

abbrev file_omap : ObjectMap
file_omap = record { flags = 0; tree_type = 0x40000002; tree_oid = 1; snapshot_tree_oid = 0 }

abbrev read_file_node : ℕ → Result Bytes
read_file_node oid = read_virtual_node file_reader file_omap oid 6 512

file_omap_found : volume_omap file_reader file_volume 512 ≡ ok file_omap
unfolding file_image omap_header omap_leaf root_node root_leaf file_leaf file_node toc_entry_of jkey
    inode_bytes dir_key dir_value xattr_key xattr_value extent_key extent_value u16 u32 u64 key
    value stamp header to_le_bytes cursor slice saturating_mul read_exact_at volume_omap
    parse_object_map parse_typed parse_obj_phys obj_type fletcher64_stored fletcher64_checksum words
    fletcher_loop fletcher_step fletcher_finish from_le_bytes le_u32 le_u64
file_omap_found = refl

root_stored : VirtualNode read_file_node 100 false (
    record { key = separator 2; value = u64 101 }
    ∷ record { key = separator 20; value = u64 102 }
    ∷ [])
unfolding file_image omap_header omap_leaf root_node root_leaf file_leaf file_node toc_entry_of jkey
    inode_bytes dir_key dir_value xattr_key xattr_value extent_key extent_value u16 u32 u64 key
    value stamp header to_le_bytes cursor slice saturating_mul checked_mul read_exact_at
    read_verified_node fletcher64_stored fletcher64_checksum words fletcher_loop fletcher_step
    fletcher_finish from_le_bytes le_u16 le_u32 le_u64 parse_node_header is_leaf is_root is_fixed_kv
    fixed_key_len fixed_leaf_val_len fixed_branch_val_len node_layout toc_entry entries_loop
    node_entries read_virtual_node resolve cmp_key keep_best omap_entry find_leaf find_leaf_loop
    find_leaf_node choose_child contains separator
root_stored = record {
  buf = root_node;
  hdr = record { flags = 0; level = 1; nkeys = 2 };
  verified = refl;
  headed = refl;
  kind = refl;
  holds = refl;
}

root_leaf_stored : VirtualNode read_file_node 101 true (root_inode ∷ dir_entry ∷ [])
unfolding file_image omap_header omap_leaf root_node root_leaf file_leaf file_node toc_entry_of jkey
    inode_bytes dir_key dir_value xattr_key xattr_value extent_key extent_value u16 u32 u64 key
    value stamp header to_le_bytes cursor slice saturating_mul checked_mul read_exact_at
    read_verified_node fletcher64_stored fletcher64_checksum words fletcher_loop fletcher_step
    fletcher_finish from_le_bytes le_u16 le_u32 le_u64 parse_node_header is_leaf is_root is_fixed_kv
    fixed_key_len fixed_leaf_val_len fixed_branch_val_len node_layout toc_entry entries_loop
    node_entries read_virtual_node resolve cmp_key keep_best omap_entry find_leaf find_leaf_loop
    find_leaf_node choose_child contains separator root_inode dir_entry
root_leaf_stored = record {
  buf = root_leaf;
  hdr = record { flags = 2; level = 0; nkeys = 2 };
  verified = refl;
  headed = refl;
  kind = refl;
  holds = refl;
}

file_leaf_stored :
    VirtualNode read_file_node 102 true (file_inode ∷ file_xattr ∷ file_extent_record ∷ [])
unfolding file_image omap_header omap_leaf root_node root_leaf file_leaf file_node toc_entry_of jkey
    inode_bytes dir_key dir_value xattr_key xattr_value extent_key extent_value u16 u32 u64 key
    value stamp header to_le_bytes cursor slice saturating_mul checked_mul read_exact_at
    read_verified_node fletcher64_stored fletcher64_checksum words fletcher_loop fletcher_step
    fletcher_finish from_le_bytes le_u16 le_u32 le_u64 parse_node_header is_leaf is_root is_fixed_kv
    fixed_key_len fixed_leaf_val_len fixed_branch_val_len node_layout toc_entry entries_loop
    node_entries read_virtual_node resolve cmp_key keep_best omap_entry find_leaf find_leaf_loop
    find_leaf_node choose_child contains separator file_inode file_xattr file_extent_record
file_leaf_stored = record {
  buf = file_leaf;
  hdr = record { flags = 2; level = 0; nkeys = 3 };
  verified = refl;
  headed = refl;
  kind = refl;
  holds = refl;
}

root_oids : (oid_of root_inode.key ≡ 2) × (oid_of dir_entry.key ≡ 2) × (oid_of (separator 2) ≡ 2)
unfolding oid_of root_inode dir_entry dir_key separator jkey u16 u64 to_le_bytes decode_jkey le_u64
    slice from_le_bytes
root_oids = (refl, refl, refl)

file_oids :
    (oid_of file_inode.key ≡ 20)
    × (oid_of file_xattr.key ≡ 20)
    × (oid_of file_extent_record.key ≡ 20)
    × (oid_of (separator 20) ≡ 20)
unfolding oid_of file_inode file_xattr file_extent_record xattr_key extent_key separator jkey u16
    u64 to_le_bytes decode_jkey le_u64 slice from_le_bytes
file_oids = (refl, refl, refl, refl)

oid_of_one : (e x : Entry) (oid : ℕ) → e ≡ x → oid_of x.key ≡ oid → oid_of e.key ≡ oid
oid_of_one e x oid p q = rw p q

root_leaf_oids : (e : Entry) → Among e (root_inode ∷ dir_entry ∷ []) → oid_of e.key ≡ 2
root_leaf_oids e (inl p) = oid_of_one e root_inode 2 p root_oids.0
root_leaf_oids e (inr (inl p)) = oid_of_one e dir_entry 2 p root_oids.1
root_leaf_oids e (inr (inr m)) = absurd m

file_leaf_oids :
    (e : Entry) → Among e (file_inode ∷ file_xattr ∷ file_extent_record ∷ []) → oid_of e.key ≡ 20
file_leaf_oids e (inl p) = oid_of_one e file_inode 20 p file_oids.0
file_leaf_oids e (inr (inl p)) = oid_of_one e file_xattr 20 p file_oids.1
file_leaf_oids e (inr (inr (inl p))) = oid_of_one e file_extent_record 20 p file_oids.2
file_leaf_oids e (inr (inr (inr m))) = absurd m

pub file_tree-IsFsTree : IsFsTree file_reader file_volume 512 file_tree
unfolding contains u64 to_le_bytes le_u64 slice from_le_bytes
file_tree-IsFsTree = record {
  om = file_omap;
  mapped = file_omap_found;
  root = refl;
  stored = (
    (
      record { key = separator 2; value = u64 101 }
          ∷ record { key = separator 20; value = u64 102 }
          ∷ [],
      root_stored,
      (refl, refl, (refl, refl, tt)),
    ),
    (root_leaf_stored, (file_leaf_stored, tt)),
  );
  fits = omega arith;
  fresh = (refl, (refl, (refl, tt)));
  separated = (
    λ e m. let here = root_leaf_oids e m in (omega (arith, root_oids), omega (arith, file_oids)),
    tt,
    (λ e m. let here = file_leaf_oids e m in (omega (arith, file_oids), tt), tt, tt),
  );
}

-- A visitor that keeps the values of one object's records.
abbrev value_of : ℕ → Entry → Option Bytes
value_of oid e = if oid_of e.key == oid then some e.value else none

value_of_other : (oid : ℕ) (e : Entry) → oid_of e.key ≢ oid → value_of oid e ≡ none
value_of_other oid e other = ground arith

abbrev keep_value : ℕ → List Bytes → Entry → List Bytes
keep_value oid = push_some (value_of oid)

for_each_fs_record_for_oid-full_walk_example :
    for_each_fs_record_for_oid file_reader file_volume 512 20 (keep_value 20) []
    ≡ walk_fs_tree file_reader file_volume 512 none (keep_value 20) []
for_each_fs_record_for_oid-full_walk_example =
    for_each_fs_record_for_oid-full_walk file_reader file_volume 512 20 file_tree (keep_value 20) []
      file_tree-IsFsTree (push_some-Ignores (value_of 20) 20 (value_of_other 20))
