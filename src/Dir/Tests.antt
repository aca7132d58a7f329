-- ===== src/Dir/Tests.antt =====
-- src/dir.rs on the sample volume, and on keys of both layouts.
use newtua_apfs.Prelude.{◌≡◌, refl, arith, [], ◌∷◌, ◌++◌, some, inl, inr, filter_map}
use newtua_apfs.Bytes.{
  Bytes, Str, eq_bytes, to_le_bytes, le_u16, le_u32, le_u64, slice, from_le_bytes,
}
use newtua_apfs.Error.{err, omap_unresolved}
use newtua_apfs.FsRecord.{decode_jkey, from_u4, is_some_type}
use newtua_apfs.Volume.{until_nul}
use newtua_apfs.Volume.Parse.{HasNoNul}
use newtua_apfs.FsTree.{is_record}
use newtua_apfs.FsTree.Tests.{file_tree-IsFsTree}
use newtua_apfs.FsTree.Fusion.{map_ok}
use newtua_apfs.Samples.{u16, u64}
use newtua_apfs.Samples.Files.{
  file_reader, file_volume, file_tree, file_name, jkey, root_inode, dir_entry, file_inode,
  file_xattr, file_extent_record, dir_key, dir_value, inode_bytes, xattr_key, xattr_value,
  extent_key, extent_value,
}
use newtua_apfs.Dir.{
  components, split_on, extend_first, drop_empty, slash, root_dir_ino_num, decode_drec_name,
  hashed_name, unhashed_name, decode_cstr, entry_under, parse_dir_entry, list_dir, lookup_child,
  open_path,
}
use newtua_apfs.Dir.Listing.{find_name, lookup_child-list_dir}
use newtua_apfs.Dir.Names.{hashed_key, unhashed_key, decode_drec_name-written}
use newtua_apfs.Dir.Paths.{follow, child_in, inode_in, open_path-follow}

-- The names of the sample are ASCII, which the conversion leaves as they are.
abbrev same_text : Bytes → Str
same_text bytes = bytes

abbrev path : Str
path = slash ∷ slash ∷ file_name ++ (slash ∷ [])

components-path : components path ≡ file_name ∷ []
unfolding components split_on extend_first drop_empty
components-path = refl

open_path-follow_example :
    open_path same_text file_reader file_volume 512 path
    ≡ elim (follow (child_in same_text file_tree) root_dir_ino_num (components path)) [
      | inl stuck ↦ err (omap_unresolved stuck 6)
      | inr oid ↦ inode_in same_text file_tree 6 oid
    ]
open_path-follow_example =
    open_path-follow same_text file_reader file_volume 512 path file_tree file_tree-IsFsTree

-- The file's path leads to its inode, and another name is stuck in the root directory.
leads_to_file : follow (child_in same_text file_tree) root_dir_ino_num (components path) ≡ inr 20
unfolding components split_on extend_first drop_empty entry_under parse_dir_entry decode_drec_name
    hashed_name unhashed_name decode_cstr is_record is_some_type until_nul eq_bytes decode_jkey
    from_u4 le_u16 le_u32 le_u64 slice from_le_bytes root_inode dir_entry file_inode file_xattr
    file_extent_record dir_key dir_value inode_bytes xattr_key xattr_value extent_key extent_value
    jkey u16 u64 to_le_bytes filter_map
leads_to_file = refl

leads_nowhere : follow (child_in same_text file_tree) root_dir_ino_num ((97 ∷ []) ∷ []) ≡ inl 2
unfolding entry_under parse_dir_entry decode_drec_name hashed_name unhashed_name decode_cstr
    is_record is_some_type until_nul eq_bytes decode_jkey from_u4 le_u16 le_u32 le_u64 slice
    from_le_bytes root_inode dir_entry file_inode file_xattr file_extent_record dir_key dir_value
    inode_bytes xattr_key xattr_value extent_key extent_value jkey u16 u64 to_le_bytes filter_map
leads_nowhere = refl

lookup_child-list_dir_example :
    lookup_child same_text file_reader file_volume 512 2 file_name
    ≡ map_ok (find_name file_name) (list_dir same_text file_reader file_volume 512 2)
lookup_child-list_dir_example =
    lookup_child-list_dir same_text file_reader file_volume 512 2 file_name

file_name-HasNoNul : HasNoNul file_name
file_name-HasNoNul = (omega arith, (omega arith, (omega arith, tt)))

decode_drec_name-written_example :
    (decode_drec_name same_text (hashed_key (to_le_bytes 8 9) file_name 77) ≡ some file_name)
    × (decode_drec_name same_text (unhashed_key (to_le_bytes 8 9) file_name) ≡ some file_name)
unfolding to_le_bytes
decode_drec_name-written_example =
    decode_drec_name-written same_text (to_le_bytes 8 9) file_name refl file_name-HasNoNul 77
      (omega arith) (omega arith)
