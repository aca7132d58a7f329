-- ===== src/Samples/Files.antt =====
-- A sample volume of blocks of 512 bytes, on which the tests run the model of the file-system
-- records: a root directory with one file, which has an attribute and an extent.
use newtua_apfs.Prelude.{ℕ, ◌*◌, ◌+◌, ◌-◌, ◌^◌, [], ◌∷◌, ◌++◌, replicate, length}
use newtua_apfs.Bytes.{Bytes, Str, to_le_bytes}
use newtua_apfs.Object.{stamp}
use newtua_apfs.Reader.{Reader, cursor}
use newtua_apfs.Btree.Node.{Entry}
use newtua_apfs.Btree.Tree.{Tree, leaf, index, nil, cons}
use newtua_apfs.Volume.{ApfsVolume}
use newtua_apfs.Samples.{u16, u32, u64, header, key, value}

-- A node of `n` entries, filled up to a block: `gap` lies between the keys and the values.
unfoldable pub file_node : ℕ → ℕ → ℕ → Bytes → Bytes → ℕ → Bytes → Bytes
unfolding stamp header u16 u32 u64 to_le_bytes
file_node flags level n toc keys gap values = stamp (
    header 1 1 3
    ++ u16 flags
    ++ u16 level
    ++ u32 n
    ++ u16 0
    ++ u16 (length toc)
    ++ replicate 12 0
    ++ toc
    ++ keys
    ++ replicate gap 0
    ++ values)

unfoldable pub toc_entry_of : ℕ → ℕ → ℕ → ℕ → Bytes
unfolding u16
toc_entry_of koff klen voff vlen = u16 koff ++ u16 klen ++ u16 voff ++ u16 vlen

unfoldable pub jkey : ℕ → ℕ → Bytes
unfolding u64 to_le_bytes
jkey ty oid = u64 (ty * 2 ^ 60 + oid)

unfoldable pub omap_header : Bytes
unfolding stamp header u32 u64
omap_header =
    stamp (
      header 0 6 0x4000000b
      ++ u32 0
      ++ u32 0
      ++ u32 0x40000002
      ++ u32 0
      ++ u64 1
      ++ replicate 456 0)

-- The nodes 100, 101 and 102 are blocks 2, 3 and 4.
unfoldable pub omap_leaf : Bytes
unfolding file_node u16 key value
omap_leaf =
    file_node 6 0 3 (u16 0 ++ u16 16 ++ u16 16 ++ u16 32 ++ u16 32 ++ u16 48)
      (key 100 3 ++ key 101 3 ++ key 102 3) 348 (value 4 ++ value 3 ++ value 2)

unfoldable pub root_node : Bytes
unfolding file_node toc_entry_of jkey u64
root_node =
    file_node 0 1 2 (toc_entry_of 0 8 8 8 ++ toc_entry_of 8 8 16 8) (jkey 3 2 ++ jkey 3 20) 408
      (u64 102 ++ u64 101)

-- An inode whose data stream has the given size.
unfoldable pub inode_bytes : ℕ → ℕ → ℕ → Bytes
unfolding u16 u64
inode_bytes parent private size =
    u64 parent
    ++ u64 private
    ++ replicate 76 0
    ++ u16 1
    ++ u16 40
    ++ (8 ∷ 32 ∷ [])
    ++ u16 40
    ++ u64 size
    ++ replicate 32 0

-- The name of the file, and of its attribute.
abbrev pub file_name : Str
file_name = 97 ∷ 46 ∷ 99 ∷ []

abbrev pub xattr_name : Str
xattr_name = 120 ∷ []

unfoldable pub dir_key : Bytes
unfolding jkey u16
dir_key = jkey 9 2 ++ (u16 4 ++ (97 ∷ 46 ∷ 99 ∷ 0 ∷ []))

unfoldable pub dir_value : Bytes
unfolding u64 u16
dir_value = u64 20 ++ u64 7 ++ u16 8

unfoldable pub root_leaf : Bytes
unfolding file_node toc_entry_of jkey inode_bytes dir_key dir_value
root_leaf =
    file_node 2 0 2 (toc_entry_of 0 8 140 140 ++ toc_entry_of 8 14 158 18) (jkey 3 2 ++ dir_key)
      (512 - 252) (dir_value ++ inode_bytes 1 2 0)

unfoldable pub xattr_key : Bytes
unfolding jkey u16
xattr_key = jkey 4 20 ++ (u16 2 ++ (120 ∷ 0 ∷ []))

unfoldable pub xattr_value : Bytes
unfolding u16
xattr_value = u16 2 ++ u16 3 ++ (1 ∷ 2 ∷ 3 ∷ [])

-- 512 bytes at block 5.
unfoldable pub extent_key : Bytes
unfolding jkey u64
extent_key = jkey 8 20 ++ u64 0

unfoldable pub extent_value : Bytes
unfolding u64
extent_value = u64 512 ++ u64 5 ++ u64 0

unfoldable pub file_leaf : Bytes
unfolding file_node toc_entry_of jkey inode_bytes xattr_key xattr_value extent_key extent_value
file_leaf =
    file_node 2 0 3
      (toc_entry_of 0 8 140 140 ++ toc_entry_of 8 12 147 7 ++ toc_entry_of 20 16 171 24)
      (jkey 3 20 ++ xattr_key ++ extent_key) 225 (extent_value ++ xattr_value ++ inode_bytes 2 20 4)

abbrev pub data_block : Bytes
data_block = 104 ∷ 105 ∷ 33 ∷ replicate 509 10

unfoldable pub file_image : Bytes
unfolding omap_header omap_leaf root_node root_leaf file_leaf
file_image = omap_header ++ omap_leaf ++ root_node ++ root_leaf ++ file_leaf ++ data_block

abbrev pub file_reader : Reader
file_reader = cursor file_image

-- A snapshot-metadata tree of one leaf: a snapshot at transaction 9, and its name.
unfoldable pub meta_value : Bytes
unfolding u16 u32 u64
meta_value =
    u64 7 ++ u64 3 ++ u64 1 ++ u64 2 ++ u64 4 ++ u32 2 ++ u32 0 ++ u16 3 ++ (115 ∷ 49 ∷ 0 ∷ [])

unfoldable pub snap_name_key : Bytes
unfolding jkey u16
snap_name_key = jkey 11 0 ++ (u16 3 ++ (115 ∷ 49 ∷ 0 ∷ []))

unfoldable pub snap_leaf : Bytes
unfolding file_node toc_entry_of jkey meta_value snap_name_key u64
snap_leaf =
    file_node 2 0 2 (toc_entry_of 0 8 53 53 ++ toc_entry_of 8 13 61 8) (jkey 1 9 ++ snap_name_key)
      358 (u64 9 ++ meta_value)

-- An index node at block 2 whose first child has the virtual oid 2.
unfoldable pub clash_node : Bytes
unfolding file_node toc_entry_of jkey u64
clash_node =
    file_node 0 1 2 (toc_entry_of 0 8 8 8 ++ toc_entry_of 8 8 16 8) (jkey 1 9 ++ jkey 1 20) 408
      (u64 102 ++ u64 2)

unfoldable pub snap_image : Bytes
unfolding omap_header snap_leaf clash_node
snap_image = omap_header ++ snap_leaf ++ clash_node

unfoldable pub snap_entry : Entry
unfolding jkey meta_value
snap_entry = record { key = jkey 1 9; value = meta_value }

unfoldable pub snap_name_entry : Entry
unfolding snap_name_key u64
snap_name_entry = record { key = snap_name_key; value = u64 9 }

abbrev pub file_volume : ApfsVolume Str
file_volume = record {
  oid = 1026;
  xid = 6;
  fs_index = 0;
  features = 0;
  readonly_compatible_features = 0;
  incompatible_features = 0;
  root_tree_type = 2;
  omap_oid = 0;
  root_tree_oid = 100;
  extentref_tree_oid = 0;
  snap_meta_tree_oid = 0;
  uuid = [];
  fs_flags = 0;
  name = [];
}

unfoldable pub root_inode : Entry
unfolding jkey inode_bytes
root_inode = record { key = jkey 3 2; value = inode_bytes 1 2 0 }

unfoldable pub dir_entry : Entry
unfolding dir_key dir_value
dir_entry = record { key = dir_key; value = dir_value }

unfoldable pub file_inode : Entry
unfolding jkey inode_bytes
file_inode = record { key = jkey 3 20; value = inode_bytes 2 20 4 }

unfoldable pub file_xattr : Entry
unfolding xattr_key xattr_value
file_xattr = record { key = xattr_key; value = xattr_value }

unfoldable pub file_extent_record : Entry
unfolding extent_key extent_value
file_extent_record = record { key = extent_key; value = extent_value }

unfoldable pub separator : ℕ → Bytes
unfolding jkey
separator oid = jkey 3 oid

abbrev pub file_tree : Tree
file_tree = index 100 (
    cons (separator 2) (leaf 101 (root_inode ∷ dir_entry ∷ []))
      (cons (separator 20) (leaf 102 (file_inode ∷ file_xattr ∷ file_extent_record ∷ [])) nil))
