-- ===== src/Content/Tests.antt =====
-- src/extent.rs, `read_data` and `data_size` of the file of the sample volume.
use newtua_apfs.Prelude.{
  ℕ, ◌<◌, ◌≡◌, refl, arith, List, [], ◌∷◌, inr, get_or, length, filter_map, none, some, true, Bool,
  ◌&&◌, ltb,
}
use newtua_apfs.Bytes.{
  Bytes, Str, AllBytes, eq_bytes, slice, from_le_bytes, le_u16, le_u32, le_u64, to_le_bytes,
}
use newtua_apfs.Error.{ok}
use newtua_apfs.Reader.{cursor, cursor-IsReader, checked_mul, saturating_mul, read_exact_at}
use newtua_apfs.Object.{
  stamp, fletcher64_stored, fletcher64_checksum, words, fletcher_loop, fletcher_step,
  fletcher_finish, parse_obj_phys, obj_type,
}
use newtua_apfs.Btree.Node.{
  is_leaf, is_root, is_fixed_kv, fixed_key_len, fixed_leaf_val_len, fixed_branch_val_len,
  parse_node_header, node_layout, toc_entry, entries_loop, node_entries, read_verified_node,
}
use newtua_apfs.Btree.Tree.{entries_of}
use newtua_apfs.Btree.Walk.{
  contains, descend_all, find_leaf, find_leaf_loop, find_leaf_node, choose_child,
}
use newtua_apfs.FsRecord.{decode_jkey, from_u4, is_some_type, to_u4}
use newtua_apfs.Omap.{parse_object_map, parse_typed, resolve, cmp_key, keep_best, omap_entry}
use newtua_apfs.FsTree.{
  oid_of, is_record, push_some, read_virtual_node, volume_omap, walk_fs_tree,
  for_each_fs_record_for_oid, descend_virtual, visit_node, child_oids, enters, next_sep_oid,
  child_may_contain_oid,
}
use newtua_apfs.FsTree.Tests.{file_tree-IsFsTree}
use newtua_apfs.Samples.{u16, u32, u64, header, key, value}
use newtua_apfs.Samples.Files.{
  root_inode, dir_entry, file_xattr, file_extent_record, file_node, toc_entry_of, jkey, omap_header,
  omap_leaf, root_node, inode_bytes, dir_key, dir_value, root_leaf, xattr_key, xattr_value,
  extent_key, extent_value, file_leaf, file_image, file_reader, file_volume, file_tree, file_inode,
  separator,
}
use newtua_apfs.Extent.{
  FileExtent, extent_of, insert_extent, sort_by_logical_offset, list_extents, read_stream,
  fill_extents, fill_extent, write_at, extent_offset,
}
use newtua_apfs.Volume.{until_nul}
use newtua_apfs.Inode.{Inode, pos}
use newtua_apfs.Reader.{IsReader}
use newtua_apfs.Xattr.{
  decode_cstr, xattr_name_bytes, xdata_of, xattr_value_of, parse_xattr, xattr_of, find_xattr,
  list_xattrs, get_xattr, decmpfs_bytes, decmpfs_header, xattr_name_decmpfs,
}
use newtua_apfs.Xattr.Listing.{xattrs_in}
use newtua_apfs.Extent.Assembly.{file_byte}
use newtua_apfs.Compression.{Decmpfs}
use newtua_apfs.Content.{read_data, data_size, size_or_zero}
use newtua_apfs.Content.Size.{data_size-read_data}
use newtua_apfs.Content.Plain.{extents_in, read_data-file_byte}

abbrev same_text : Bytes → Str
same_text bytes = bytes

-- A table that knows no type, and codecs that fail.
abbrev no_codecs : Decmpfs
no_codecs = record {
  magic = 0x636d_7066;
  header_len = 16;
  compression_type_offset = 4;
  uncompressed_size_offset = 8;
  chunk_size = 65536;
  classify = λ compression_type. none;
  zlib_read_to_end = λ bytes. none;
  lzvn_decode_bytes = λ chunk len. none;
  lzfse_decode_bytes = λ stream. none;
}

abbrev file : Inode Str
file = record {
  oid = 20;
  parent_id = 2;
  private_id = 20;
  create_time = 0;
  mod_time = 0;
  change_time = 0;
  access_time = 0;
  internal_flags = 0;
  nlink_or_nchildren = pos 1;
  bsd_flags = 0;
  uid = 0;
  gid = 0;
  mode = 0;
  name = none;
  size = some 4;
}

all_below : Bytes → Bool
all_below [] = true
all_below (b ∷ bs) = ltb b 256 && all_below bs

all_below-AllBytes : (bs : Bytes) → all_below bs ≡ true → AllBytes bs
unfolding all_below
all_below-AllBytes [] h = tt
all_below-AllBytes (b ∷ bs) h = (ground arith, all_below-AllBytes bs (ground arith))

image_below : all_below file_image ≡ true
unfolding all_below file_image omap_header omap_leaf root_node root_leaf file_leaf file_node
    toc_entry_of jkey inode_bytes dir_key dir_value xattr_key xattr_value extent_key extent_value
    u16 u32 u64 key value stamp header to_le_bytes fletcher64_checksum words fletcher_loop
    fletcher_step fletcher_finish from_le_bytes
image_below = refl

file_reader-IsReader : IsReader file_reader
file_reader-IsReader = cursor-IsReader file_image (all_below-AllBytes file_image image_below)

reads :
    read_data no_codecs same_text file_reader file_volume file 512 ≡ ok (104 ∷ 105 ∷ 33 ∷ 10 ∷ [])
unfolding file_image omap_header omap_leaf root_node root_leaf file_leaf file_node toc_entry_of jkey
    inode_bytes dir_key dir_value xattr_key xattr_value extent_key extent_value u16 u32 u64 key
    value stamp header to_le_bytes cursor slice saturating_mul checked_mul read_exact_at
    read_verified_node fletcher64_stored fletcher64_checksum words fletcher_loop fletcher_step
    fletcher_finish from_le_bytes le_u16 le_u32 le_u64 parse_node_header is_leaf is_root is_fixed_kv
    fixed_key_len fixed_leaf_val_len fixed_branch_val_len node_layout toc_entry entries_loop
    node_entries read_virtual_node resolve cmp_key keep_best omap_entry find_leaf find_leaf_loop
    find_leaf_node choose_child contains separator is_record is_some_type to_u4 push_some
    walk_fs_tree for_each_fs_record_for_oid descend_virtual visit_node child_oids enters
    next_sep_oid child_may_contain_oid descend_all oid_of decode_jkey from_u4 extent_of
    insert_extent sort_by_logical_offset list_extents volume_omap parse_object_map parse_typed
    parse_obj_phys obj_type filter_map decode_cstr xattr_name_bytes xdata_of xattr_value_of
    parse_xattr xattr_of find_xattr until_nul eq_bytes list_xattrs get_xattr decmpfs_bytes
    decmpfs_header read_stream fill_extents fill_extent write_at extent_offset size_or_zero
    read_data
reads = refl

data_size-read_data_example : data_size no_codecs same_text file_reader file_volume file 512 ≡ ok 4
data_size-read_data_example =
    data_size-read_data no_codecs same_text file_reader file_volume file 512
      (104 ∷ 105 ∷ 33 ∷ 10 ∷ []) file_reader-IsReader reads

no_header : find_xattr xattr_name_decmpfs (xattrs_in same_text 20 (entries_of file_tree)) ≡ none
unfolding is_record is_some_type to_u4 decode_jkey from_u4 le_u16 le_u64 slice from_le_bytes
    root_inode dir_entry file_inode file_xattr file_extent_record dir_key dir_value inode_bytes
    xattr_key xattr_value extent_key extent_value jkey u16 u64 to_le_bytes filter_map decode_cstr
    xattr_name_bytes xdata_of xattr_value_of parse_xattr xattr_of find_xattr until_nul eq_bytes
no_header = refl

abbrev extents : List FileExtent
extents = record { logical_offset = 0; len = 512; phys_block_num = 5 } ∷ []

extents_listed : extents_in file_tree 20 ≡ extents
unfolding is_record is_some_type to_u4 decode_jkey from_u4 le_u16 le_u64 slice from_le_bytes
    root_inode dir_entry file_inode file_xattr file_extent_record dir_key dir_value inode_bytes
    xattr_key xattr_value extent_key extent_value jkey u16 u64 to_le_bytes filter_map extent_of
    insert_extent sort_by_logical_offset
extents_listed = refl

image_length : length file_image ≡ 3072
unfolding file_image omap_header omap_leaf root_node root_leaf file_leaf file_node toc_entry_of jkey
    inode_bytes dir_key dir_value xattr_key xattr_value extent_key extent_value u16 u32 u64 key
    value stamp header to_le_bytes fletcher64_checksum words fletcher_loop fletcher_step
    fletcher_finish from_le_bytes
image_length = refl

read_data-file_byte_example :
    (out : Bytes) × (read_data no_codecs same_text file_reader file_volume file 512 ≡ ok out)
    × (length out ≡ size_or_zero file)
    × ((i : ℕ)
        → i < size_or_zero file
        → get_or out i 0 ≡ file_byte file_image 512 (extents_in file_tree 20) i)
unfolding size_or_zero
read_data-file_byte_example =
    read_data-file_byte no_codecs same_text file_image file_volume file 512 file_tree
      file_tree-IsFsTree no_header (omega arith)
      (rw extents_listed (inr (inr (omega arith, omega (arith, image_length))), tt))
