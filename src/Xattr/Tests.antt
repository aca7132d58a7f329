-- ===== src/Xattr/Tests.antt =====
-- src/xattr.rs on the sample volume, and on records of both kinds.
use newtua_apfs.Prelude.{◌≡◌, ◌*◌, ◌+◌, refl, arith, [], ◌∷◌, some, filter_map}
use newtua_apfs.Bytes.{Bytes, Str, eq_bytes, to_le_bytes, le_u16, le_u64, slice, from_le_bytes}
use newtua_apfs.Btree.Tree.{entries_of}
use newtua_apfs.FsRecord.{decode_jkey, from_u4, is_some_type, to_u4}
use newtua_apfs.FsTree.{is_record}
use newtua_apfs.Volume.{until_nul}
use newtua_apfs.Samples.{u16, u64}
use newtua_apfs.Samples.Files.{
  file_tree, xattr_name, jkey, root_inode, dir_entry, file_inode, file_xattr, file_extent_record,
  dir_key, dir_value, inode_bytes, xattr_key, xattr_value, extent_key, extent_value,
}
use newtua_apfs.Dir.Names.{unhashed_key}
use newtua_apfs.Xattr.{
  embedded, stream, decode_cstr, xattr_name_bytes, xdata_of, xattr_value_of, parse_xattr, xattr_of,
  find_xattr, xattr_data_stream,
}
use newtua_apfs.Xattr.Listing.{xattrs_in}
use newtua_apfs.Xattr.Written.{value_bytes, dstream, parse_xattr-written}

abbrev same_text : Bytes → Str
same_text bytes = bytes

-- The file's attribute holds three bytes.
found :
    find_xattr xattr_name (xattrs_in same_text 20 (entries_of file_tree))
    ≡ some (embedded (1 ∷ 2 ∷ 3 ∷ []))
unfolding decode_cstr xattr_name_bytes xdata_of xattr_value_of parse_xattr xattr_of find_xattr
    filter_map is_record is_some_type to_u4 until_nul eq_bytes decode_jkey from_u4 le_u16 le_u64
    slice from_le_bytes root_inode dir_entry file_inode file_xattr file_extent_record dir_key
    dir_value inode_bytes xattr_key xattr_value extent_key extent_value jkey u16 u64 to_le_bytes
found = refl

parse_xattr-written_example :
    (parse_xattr same_text
        (unhashed_key (to_le_bytes 8 9) xattr_name)
        (value_bytes (2 * 1) (7 ∷ []))
      ≡ some (record { name = xattr_name; flags = 2; value = embedded (7 ∷ []) }))
    × (parse_xattr same_text
          (unhashed_key (to_le_bytes 8 9) xattr_name)
          (value_bytes (2 * 1 + xattr_data_stream) (dstream 30 5 []))
        ≡ some (record { name = xattr_name; flags = 3; value = stream 30 5 }))
unfolding to_le_bytes
parse_xattr-written_example =
    parse_xattr-written same_text (to_le_bytes 8 9) xattr_name (7 ∷ []) [] 1 30 5 refl
      (omega arith, tt) (omega arith) (omega arith) (omega arith) (omega arith) (omega arith)
      (omega arith)
