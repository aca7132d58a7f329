-- ===== src/Dir.antt =====
-- src/dir.rs: directory records and the navigation from names to inodes. The walk that they share
-- is in FsTree. `String::from_utf8_lossy` (the standard library's) is a parameter.
pub mod Listing
pub mod Names
pub mod Paths
mod Tests
use newtua_apfs.Prelude.{
  ℕ, ◌+◌, List, [], ◌∷◌, ◌++◌, Option, none, some, Bool, ◌&&◌, ltb, ◌==◌, bit_and, if◌then◌else◌,
}
use newtua_apfs.Bytes.{Bytes, Str, eq_bytes, slice, le_u16, le_u32, le_u64}
use newtua_apfs.Error.{Result, ok, err, ◌>>=◌, ok_or, omap_unresolved}
use newtua_apfs.Reader.{Reader}
use newtua_apfs.Btree.Node.{Entry}
use newtua_apfs.FsRecord.{RecordType}
use newtua_apfs.Volume.{ApfsVolume, until_nul}
use newtua_apfs.Inode.{Inode, parse_inode}
use newtua_apfs.FsTree.{is_record, push_some, for_each_fs_record_for_oid}

abbrev pub root_dir_ino_num : ℕ
root_dir_ino_num = 2

abbrev pub j_drec_len_mask : ℕ
j_drec_len_mask = 0x0000_03ff

abbrev pub off_drec_file_id : ℕ
off_drec_file_id = 0

abbrev pub off_drec_date_added : ℕ
off_drec_date_added = 8

abbrev pub off_drec_flags : ℕ
off_drec_flags = 16

pub record DirEntry : Type 0 where
  pub name : Str
  pub file_id : ℕ
  pub date_added : ℕ
  pub flags : ℕ

-- The bytes of the name, by the hashed form of the key and by the unhashed one.
unfoldable pub hashed_name : Bytes → Option Bytes
hashed_name key =
    let hashed_len = bit_and (le_u32 key 8) j_drec_len_mask in
    if ltb 0 hashed_len then slice key 12 (12 + hashed_len) else none

unfoldable pub unhashed_name : Bytes → Option Bytes
unhashed_name key =
    let unhashed_len = le_u16 key 8 in
    if ltb 0 unhashed_len then slice key 10 (10 + unhashed_len) else none

-- `path.split('/')`: there is always one part, which the next byte of the text extends.
unfoldable pub extend_first : ℕ → List Str → List Str
extend_first b [] = (b ∷ []) ∷ []
extend_first b (part ∷ parts) = (b ∷ part) ∷ parts

unfoldable pub split_on : ℕ → Str → List Str
unfolding extend_first
split_on sep [] = [] ∷ []
split_on sep (b ∷ bs) =
    let parts = split_on sep bs in if b == sep then [] ∷ parts else extend_first b parts

unfoldable pub drop_empty : List Str → List Str
drop_empty [] = []
drop_empty ([] ∷ parts) = drop_empty parts
drop_empty ((b ∷ bs) ∷ parts) = (b ∷ bs) ∷ drop_empty parts

abbrev pub slash : ℕ
slash = 47

-- `path.split('/').filter(|c| !c.is_empty())`.
unfoldable pub components : Str → List Str
unfolding split_on drop_empty
components path = drop_empty (split_on slash path)

-- The visitor of `load_inode`, on the value kept so far.
unfoldable pub keep_inode : ℕ → Option Bytes → Entry → Option Bytes
unfolding is_record
keep_inode oid (some v) e = some v
keep_inode oid none e = if is_record RecordType.inode oid e then some e.value else none

module _ (from_utf8_lossy : Bytes → Str) where
  unfoldable pub decode_cstr : Bytes → Str
  unfolding until_nul
  decode_cstr bytes = from_utf8_lossy (until_nul bytes)

  unfoldable pub decode_drec_name : Bytes → Option Str
  unfolding hashed_name unhashed_name decode_cstr
  decode_drec_name key = elim (hashed_name key) [
    | some name ↦ some (decode_cstr name)
    | none ↦ elim (unhashed_name key) [ some name ↦ some (decode_cstr name) | none ↦ none ]
  ]

  unfoldable pub parse_dir_entry : Bytes → Bytes → Option DirEntry
  unfolding decode_drec_name
  parse_dir_entry key value = elim (decode_drec_name key) [
    | none ↦ none
    | some n ↦ some (record {
      name = n;
      file_id = le_u64 value off_drec_file_id;
      date_added = le_u64 value off_drec_date_added;
      flags = le_u16 value off_drec_flags;
    })
  ]

  -- The directory entry of a record, if it is one of the parent's.
  unfoldable pub entry_under : ℕ → Entry → Option DirEntry
  unfolding is_record parse_dir_entry
  entry_under parent_oid e =
      if is_record RecordType.dir_rec parent_oid e then parse_dir_entry e.key e.value else none

  -- The visitor of `list_dir`.
  abbrev pub push_entry : ℕ → List DirEntry → Entry → List DirEntry
  push_entry parent_oid = push_some (entry_under parent_oid)

  -- The visitor of `lookup_child`.
  unfoldable pub keep_child : ℕ → Str → Option ℕ → Entry → Option ℕ
  unfolding entry_under eq_bytes
  keep_child parent_oid name (some id) e = some id
  keep_child parent_oid name none e = elim (entry_under parent_oid e) [
    | none ↦ none
    | some entry ↦ if eq_bytes entry.name name then some entry.file_id else none
  ]

  module _ (reader : Reader) (volume : ApfsVolume Str) (block_size : ℕ) where
    unfoldable pub list_dir : ℕ → Result (List DirEntry)
    unfolding push_some entry_under for_each_fs_record_for_oid
    list_dir parent_oid =
        for_each_fs_record_for_oid reader volume block_size parent_oid (push_entry parent_oid) []

    unfoldable pub lookup_child : ℕ → Str → Result (Option ℕ)
    unfolding keep_child for_each_fs_record_for_oid
    lookup_child parent_oid name =
        for_each_fs_record_for_oid reader volume block_size parent_oid (keep_child parent_oid name)
          none

    unfoldable pub load_inode : ℕ → Result (Inode Str)
    unfolding keep_inode for_each_fs_record_for_oid parse_inode
    load_inode oid =
        for_each_fs_record_for_oid reader volume block_size oid (keep_inode oid) none >>= λ value.
        ok_or value (omap_unresolved oid volume.xid) >>= parse_inode from_utf8_lossy oid

    -- `for component in …`.
    unfoldable pub follow_components : ℕ → List Str → Result ℕ
    unfolding lookup_child
    follow_components current [] = ok current
    follow_components current (component ∷ rest) = lookup_child current component >>= elim [
      | some child ↦ follow_components child rest
      | none ↦ err (omap_unresolved current volume.xid)
    ]

    unfoldable pub open_path : Str → Result (Inode Str)
    unfolding follow_components components load_inode
    open_path path = follow_components root_dir_ino_num (components path) >>= load_inode
