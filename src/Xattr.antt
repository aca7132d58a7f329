-- ===== src/Xattr.antt =====
-- src/xattr.rs: extended attributes, the compression header and the resource fork that two of them
-- hold, and symlink targets. `String::from_utf8_lossy` is a parameter.
pub mod Listing
pub mod Written
mod Tests
use newtua_apfs.Prelude.{
  ℕ, ◌+◌, ◌^◌, bit_and, List, [], ◌∷◌, Option, none, some, not, ltb, ◌==◌, if◌then◌else◌,
}
use newtua_apfs.Bytes.{Bytes, Str, eq_bytes, slice, le_u16, le_u64}
use newtua_apfs.Error.{Result, ok, ◌>>=◌, ◌>>◌, reject_if, field_out_of_range}
use newtua_apfs.Reader.{Reader}
use newtua_apfs.Btree.Node.{Entry}
use newtua_apfs.FsRecord.{RecordType}
use newtua_apfs.Volume.{ApfsVolume, until_nul}
use newtua_apfs.FsTree.{is_record, push_some, for_each_fs_record_for_oid}
use newtua_apfs.Extent.{read_stream}

abbrev pub xattr_data_stream : ℕ
xattr_data_stream = 0x0001

abbrev pub xattr_data_embedded : ℕ
xattr_data_embedded = 0x0002

-- "com.apple.decmpfs", "com.apple.ResourceFork" and "com.apple.fs.symlink".
abbrev pub com_apple : Str → Str
com_apple rest = 99 ∷ 111 ∷ 109 ∷ 46 ∷ 97 ∷ 112 ∷ 112 ∷ 108 ∷ 101 ∷ 46 ∷ rest

abbrev pub xattr_name_decmpfs : Str
xattr_name_decmpfs = com_apple (100 ∷ 101 ∷ 99 ∷ 109 ∷ 112 ∷ 102 ∷ 115 ∷ [])

abbrev pub xattr_name_resource_fork : Str
xattr_name_resource_fork =
    com_apple (82 ∷ 101 ∷ 115 ∷ 111 ∷ 117 ∷ 114 ∷ 99 ∷ 101 ∷ 70 ∷ 111 ∷ 114 ∷ 107 ∷ [])

abbrev pub xattr_name_symlink : Str
xattr_name_symlink = com_apple (102 ∷ 115 ∷ 46 ∷ 115 ∷ 121 ∷ 109 ∷ 108 ∷ 105 ∷ 110 ∷ 107 ∷ [])

abbrev pub off_xattr_key_name_len : ℕ
off_xattr_key_name_len = 8

abbrev pub off_xattr_key_name : ℕ
off_xattr_key_name = 10

abbrev pub off_xattr_val_flags : ℕ
off_xattr_val_flags = 0

abbrev pub off_xattr_val_xdata_len : ℕ
off_xattr_val_xdata_len = 2

abbrev pub off_xattr_val_xdata : ℕ
off_xattr_val_xdata = 4

abbrev pub off_xdstream_obj_id : ℕ
off_xdstream_obj_id = 0

abbrev pub off_xdstream_size : ℕ
off_xdstream_size = 8

abbrev pub max_decmpfs_xattr_bytes : ℕ
max_decmpfs_xattr_bytes = 2 ^ 20

pub data XattrValue : Type 0 where
  embedded : Bytes → XattrValue
  stream : (dstream_oid size : ℕ) → XattrValue

pub record Xattr : Type 0 where
  pub name : Str
  pub flags : ℕ
  pub value : XattrValue

-- The bytes of the key's name, if the key holds as many as it says.
unfoldable pub xattr_name_bytes : Bytes → Option Bytes
xattr_name_bytes key =
    let name_len = le_u16 key off_xattr_key_name_len in
    if name_len == 0 then none else slice key off_xattr_key_name (off_xattr_key_name + name_len)

-- The value's data, or nothing where it runs past the record.
unfoldable pub xdata_of : Bytes → Bytes
xdata_of value =
    let xdata_len = le_u16 value off_xattr_val_xdata_len in
    elim (slice value off_xattr_val_xdata (off_xattr_val_xdata + xdata_len)) [
      | none ↦ []
      | some xdata ↦ xdata
    ]

unfoldable pub xattr_value_of : ℕ → Bytes → XattrValue
xattr_value_of flags xdata =
    if not (bit_and flags xattr_data_stream == 0)
    then stream (le_u64 xdata off_xdstream_obj_id) (le_u64 xdata off_xdstream_size)
    else embedded xdata

-- `xattrs.into_iter().find(|x| x.name == name).map(|x| x.value)`.
unfoldable pub find_xattr : Str → List Xattr → Option XattrValue
find_xattr name [] = none
find_xattr name (x ∷ xs) =
    let rest = find_xattr name xs in if eq_bytes x.name name then some x.value else rest

module _ (from_utf8_lossy : Bytes → Str) where
  unfoldable pub decode_cstr : Bytes → Str
  unfolding until_nul
  decode_cstr bytes = from_utf8_lossy (until_nul bytes)

  unfoldable pub parse_xattr : Bytes → Bytes → Option Xattr
  unfolding xattr_name_bytes xdata_of xattr_value_of decode_cstr
  parse_xattr key value = elim (xattr_name_bytes key) [
    | none ↦ none
    | some name_bytes ↦ some (record {
      name = decode_cstr name_bytes;
      flags = le_u16 value off_xattr_val_flags;
      value = xattr_value_of (le_u16 value off_xattr_val_flags) (xdata_of value);
    })
  ]

  -- What the visitor of `list_xattrs` makes of a record.
  unfoldable pub xattr_of : ℕ → Entry → Option Xattr
  unfolding is_record parse_xattr
  xattr_of inode_oid e =
      if is_record RecordType.xattr inode_oid e then parse_xattr e.key e.value else none

  module _ (reader : Reader) (volume : ApfsVolume Str) where
    unfoldable pub list_xattrs : ℕ → ℕ → Result (List Xattr)
    unfolding push_some xattr_of for_each_fs_record_for_oid
    list_xattrs inode_oid block_size =
        for_each_fs_record_for_oid reader volume block_size inode_oid
          (push_some (xattr_of inode_oid)) []

    unfoldable pub get_xattr : ℕ → Str → ℕ → Result (Option XattrValue)
    unfolding list_xattrs find_xattr
    get_xattr inode_oid name block_size =
        list_xattrs inode_oid block_size >>= λ xattrs. ok (find_xattr name xattrs)

    -- The bytes of a value, a stream's read through its extents.
    unfoldable pub decmpfs_bytes : ℕ → Option XattrValue → Result (Option Bytes)
    unfolding read_stream
    decmpfs_bytes block_size none = ok none
    decmpfs_bytes block_size (some (embedded bytes)) = ok (some bytes)
    decmpfs_bytes block_size (some (stream dstream_oid size)) =
        reject_if (ltb max_decmpfs_xattr_bytes size) (
          field_out_of_range "com.apple.decmpfs j_xattr_dstream" "size" size
            max_decmpfs_xattr_bytes)
        >> (read_stream reader volume dstream_oid size block_size >>= λ bytes. ok (some bytes))

    unfoldable pub decmpfs_header : ℕ → ℕ → Result (Option Bytes)
    unfolding get_xattr decmpfs_bytes
    decmpfs_header inode_oid block_size =
        get_xattr inode_oid xattr_name_decmpfs block_size >>= decmpfs_bytes block_size

    unfoldable pub fork_bytes : ℕ → Option XattrValue → Result (Option Bytes)
    unfolding read_stream
    fork_bytes block_size none = ok none
    fork_bytes block_size (some (embedded bytes)) = ok (some bytes)
    fork_bytes block_size (some (stream dstream_oid size)) =
        read_stream reader volume dstream_oid size block_size >>= λ bytes. ok (some bytes)

    unfoldable pub resource_fork : ℕ → ℕ → Result (Option Bytes)
    unfolding get_xattr fork_bytes
    resource_fork inode_oid block_size =
        get_xattr inode_oid xattr_name_resource_fork block_size >>= fork_bytes block_size

    unfoldable pub target_of : Option XattrValue → Option Str
    unfolding decode_cstr
    target_of (some (embedded bytes)) = some (decode_cstr bytes)
    target_of _ = none

    unfoldable pub symlink_target : ℕ → ℕ → Result (Option Str)
    unfolding get_xattr target_of
    symlink_target inode_oid block_size =
        get_xattr inode_oid xattr_name_symlink block_size >>= λ value. ok (target_of value)
