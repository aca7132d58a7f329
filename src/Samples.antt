-- ===== src/Samples.antt =====
-- Sample blocks and devices, on which the tests run the model of src/.
pub mod Files
use newtua_apfs.Prelude.{ℕ, [], ◌∷◌, ◌++◌, replicate}
use newtua_apfs.Bytes.{Bytes, to_le_bytes}
use newtua_apfs.Object.{stamp}
use newtua_apfs.Reader.{Reader, cursor}
use newtua_apfs.Btree.Node.{Entry}
use newtua_apfs.Btree.Tree.{Tree, leaf, index, nil, cons}
use newtua_apfs.Omap.{ObjectMap}

unfoldable pub u16 : ℕ → Bytes
unfolding to_le_bytes
u16 n = to_le_bytes 2 n

unfoldable pub u32 : ℕ → Bytes
unfolding to_le_bytes
u32 n = to_le_bytes 4 n

unfoldable pub u64 : ℕ → Bytes
unfolding to_le_bytes
u64 n = to_le_bytes 8 n

-- The 32 bytes of an object's header, with a zero checksum.
unfoldable pub header : ℕ → ℕ → ℕ → Bytes
header oid xid obj_type = u64 0 ++ u64 oid ++ u64 xid ++ u32 obj_type ++ u32 0

-- A node of two entries with a table of contents of 8 bytes, 72 bytes in all but its entries.
unfoldable pub node : ℕ → ℕ → Bytes → Bytes → Bytes
node flags level toc entries =
    header 1 1 3
    ++ u16 flags
    ++ u16 level
    ++ u32 2
    ++ u16 0
    ++ u16 8
    ++ replicate 12 0
    ++ toc
    ++ entries

unfoldable pub key : ℕ → ℕ → Bytes
key oid xid = u64 oid ++ u64 xid

unfoldable pub value : ℕ → Bytes
value paddr = u32 0 ++ u32 4096 ++ u64 paddr

-- A leaf of 128 bytes.
unfoldable pub leaf_block : Bytes → Bytes → Bytes → Bytes → Bytes
unfolding stamp node header u16 u32 u64 to_le_bytes
leaf_block k0 v0 k1 v1 =
    stamp (node 6 0 (u16 0 ++ u16 16 ++ u16 16 ++ u16 32) (k0 ++ k1 ++ v1 ++ v0))

unfoldable pub index_block : Bytes → ℕ → Bytes → ℕ → Bytes
unfolding stamp node header u16 u32 u64 to_le_bytes
index_block k0 c0 k1 c1 =
    stamp (
      node 4 1 (u16 0 ++ u16 8 ++ u16 16 ++ u16 16)
        (k0 ++ k1 ++ replicate 16 0 ++ u64 c1 ++ u64 c0))

unfoldable pub index_node : Bytes
unfolding index_block key
index_node = index_block (key 7 1) 2 (key 9 2) 3

unfoldable pub leaf_node : Bytes
unfolding leaf_block key value
leaf_node = leaf_block (key 7 1) (value 40) (key 7 5) (value 41)

unfoldable pub last_node : Bytes
unfolding leaf_block key value
last_node = leaf_block (key 9 2) (value 50) (key 9 6) (value 51)

unfoldable pub node_reader : Reader
unfolding cursor index_node leaf_node last_node
node_reader = cursor (replicate 128 0 ++ index_node ++ leaf_node ++ last_node)

unfoldable pub entry : ℕ → ℕ → ℕ → Entry
unfolding u16 u32 u64 key value
entry oid xid paddr = record { key = key oid xid; value = value paddr }

abbrev pub node_tree : Tree
node_tree = index 1 (
    cons (key 7 1) (leaf 2 (entry 7 1 40 ∷ entry 7 5 41 ∷ []))
      (cons (key 9 2) (leaf 3 (entry 9 2 50 ∷ entry 9 6 51 ∷ [])) nil))

abbrev pub node_omap : ObjectMap
node_omap = record { flags = 0; tree_type = 2; tree_oid = 1; snapshot_tree_oid = 0 }

-- A container superblock of 4096 bytes, whose descriptor ring is blocks 1 and 2.
unfoldable pub superblock : ℕ → Bytes
unfolding stamp header u32 u64
superblock xid = stamp (
    header 1 xid 0x80000001
    ++ u32 0x4253584e
    ++ u32 4096
    ++ u64 64
    ++ replicate 16 0
    ++ u64 2
    ++ replicate 16 7
    ++ replicate 16 0
    ++ u32 2
    ++ u32 1
    ++ u64 1
    ++ u64 3
    ++ replicate 24 0
    ++ u64 1024
    ++ u64 5
    ++ u64 1025
    ++ u32 0
    ++ u32 3
    ++ u64 1026
    ++ u64 0
    ++ u64 1027
    ++ replicate 3888 0)

-- A device of three superblocks: block zero, and the ring, whose first block is the later one.
unfoldable pub ring_reader : Reader
unfolding superblock cursor
ring_reader = cursor (superblock 2 ++ superblock 6 ++ superblock 4)

-- A space manager of 16 blocks in two chunks, its chunk info block and the first chunk's bitmap.
unfoldable pub spaceman_block : Bytes
unfolding stamp header u32 u64
spaceman_block = stamp (
    header 1024 6 5
    ++ u32 128
    ++ u32 8
    ++ u32 2
    ++ u32 0
    ++ u64 16
    ++ u64 2
    ++ u32 1
    ++ u32 0
    ++ u64 5
    ++ u32 96
    ++ replicate 12 0
    ++ u64 2
    ++ replicate 24 0)

unfoldable pub chunk_info_block : Bytes
unfolding stamp header u32 u64
chunk_info_block = stamp (
    header 2 6 7
    ++ u32 0
    ++ u32 2
    ++ replicate 24 0
    ++ u64 3
    ++ replicate 24 0
    ++ u64 0
    ++ replicate 24 0)

abbrev pub bitmap_block : Bytes
bitmap_block = 165 ∷ replicate 127 0

-- A reaper, of which `head` is the first list, and a list.
unfoldable pub reaper_block : ℕ → Bytes
unfolding stamp header u32 u64
reaper_block head = stamp (
    header 1025 6 17
    ++ replicate 16 0
    ++ u64 head
    ++ replicate 16 0
    ++ u32 6
    ++ replicate 12 0
    ++ u64 900
    ++ replicate 32 0)

unfoldable pub list_block : ℕ → ℕ → Bytes
unfolding stamp header u32 u64
list_block next oid = stamp (
    header 500 6 18
    ++ u64 next
    ++ replicate 8 0
    ++ u32 1
    ++ replicate 20 0
    ++ u32 2
    ++ replicate 12 0
    ++ u64 oid
    ++ replicate 32 0)

-- Blocks 1 to 3 are the space manager's, 4 to 6 a reaper and its two lists, 7 and 8 a reaper and a
-- list that names itself.
unfoldable pub object_reader : Reader
unfolding spaceman_block chunk_info_block reaper_block list_block cursor
object_reader = cursor (
    replicate 128 0
    ++ spaceman_block
    ++ chunk_info_block
    ++ bitmap_block
    ++ reaper_block 500
    ++ list_block 501 901
    ++ list_block 0 902
    ++ reaper_block 502
    ++ list_block 502 903)

-- A container's object map: its header in block 0, and the one leaf of its tree in block 1, which
-- maps two volumes.
unfoldable pub map_block : Bytes
unfolding stamp header u32 u64
map_block = stamp (
    header 0 6 0x4000000b ++ u32 0 ++ u32 0 ++ u32 0x40000002 ++ u32 0 ++ u64 1 ++ replicate 4040 0)

unfoldable pub map_leaf : Bytes
unfolding stamp node header u16 u32 u64 key value
map_leaf = stamp (
    node 6 0 (u16 0 ++ u16 16 ++ u16 16 ++ u16 32)
      (key 1026 3 ++ key 1027 9 ++ replicate 3968 0 ++ value 81 ++ value 80))

unfoldable pub map_reader : Reader
unfolding map_block map_leaf cursor
map_reader = cursor (map_block ++ map_leaf)

abbrev pub map_tree : Tree
map_tree = leaf 1 (entry 1026 3 80 ∷ entry 1027 9 81 ∷ [])

-- A checkpoint map of one mapping, and a device whose ring is the map and the live superblock.
unfoldable pub map_entries : Bytes
unfolding stamp header u32 u64
map_entries = stamp (
    header 1 6 0x4000000c
    ++ u32 1
    ++ u32 1
    ++ u32 0x80000005
    ++ u32 0
    ++ u32 4096
    ++ u32 0
    ++ u64 0
    ++ u64 1024
    ++ u64 9
    ++ replicate 4016 0)

unfoldable pub mapped_reader : Reader
unfolding superblock map_entries cursor
mapped_reader = cursor (superblock 2 ++ map_entries ++ superblock 6)

-- A volume superblock of 1024 bytes.
unfoldable pub apsb : Bytes
unfolding stamp header u32 u64
apsb = stamp (
    header 1026 6 13
    ++ u32 0x42535041
    ++ replicate 92 0
    ++ u64 70
    ++ u64 1030
    ++ replicate 560 0
    ++ 85 ∷ 83 ∷ 66 ∷ replicate 317 0)
