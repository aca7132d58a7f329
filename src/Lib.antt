-- ===== src/Lib.antt =====
-- A model of newtua-apfs, a read-only parser of APFS containers, and the theorems that make its
-- core correct. Paths are from the repository's root.
--
-- The program reads fixed-layout little-endian blocks from a `Read + Seek` source. `open` (src/lib.rs)
-- parses the superblock in block zero, scans the checkpoint ring for the most recent valid
-- superblock and re-reads it; the object map then resolves virtual object ids to blocks through a
-- B-tree whose nodes are verified by a Fletcher-64 checksum before they are trusted.
--
--   Bytes       src/bytes.rs       le_u16, le_u32, le_u64, arr: reads that yield 0 out of range
--   Error       src/lib.rs         ApfsError and Result, with the operations behind `?`
--   Reader      (std::io)          a source, as what a seek and a read_exact return together
--   Object      src/object.rs      ObjPhys::parse, fletcher64_checksum
--   Btree       src/btree.rs       Node: a node's header and entries; Walk: descend and find_leaf;
--                                  Tree: the abstract tree that a reader stores; Toc: where a node
--                                  keeps its entries
--   Omap        src/omap.rs        ObjectMap::parse, ObjectMap::resolve
--   Container   src/container.rs   NxSuperblock::parse
--   Fusion      src/fusion.rs      is_fusion, translate_address
--   Checkpoint  src/checkpoint.rs  resolve_live_checkpoint
--   Spaceman    src/spaceman.rs    read_obj_block, is_block_free
--   Reaper      src/reaper.rs      pending_objects
--   FsRecord    src/fsrecord.rs    decode_jkey, parse_xfields
--   Volume      src/volume.rs      ApfsVolume::parse
--   Inode       src/inode.rs       Inode::parse, ns_to_datetime
--   Encryption  src/encryption.rs  read_keybag
--   Sealed      src/sealed.rs      IntegrityMeta::parse
--   FsTree      src/dir.rs         for_each_fs_record_for_oid and the virtual descent below it
--   Dir         src/dir.rs         decode_drec_name, list_dir, lookup_child, load_inode, open_path
--   Extent      src/extent.rs      list_extents, read_stream
--   Xattr       src/xattr.rs       parse_xattr, list_xattrs, get_xattr and the named attributes
--   Compression src/compression.rs decompress_decmpfs, read_compressed
--   Content     src/extent.rs      read_data, data_size
--   Snapshot    src/snapshot.rs    list_snapshots, resolve_snapshot_xid, mount_snapshot
--   Apfs        src/lib.rs         ApfsContainer::open (open_container) and its methods
--   Prelude     shared names, lists under native indices and facts on bit operations
--   Samples     sample blocks and devices, on which each component's Tests run the model
--
-- Integers are natural numbers; a fixed width shows where the source's does: a byte is below 256, a
-- word read from bytes is below its power of two, u64 products are checked or saturate as the
-- source has them, and the one unchecked u64 addition (checkpoint.rs, `desc_base + i`) wraps. A
-- usize is taken to have 64 bits. A block is the list of its bytes.
--
-- The source is a parameter. `Reader` is what the pair of a seek from the start and a read_exact
-- returns, `IsReader` what the code relies on, and `cursor` a concrete one. The bytes under a reader
-- do not change while an operation runs. `String::from_utf8_lossy` is a parameter of Volume, Inode,
-- Dir, Xattr, Compression, Content and Snapshot, where a string is the list of its UTF-8 bytes
-- (`Str`), and chrono's `DateTime::from_timestamp` one of Inode. The codecs of other crates and the
-- vendored constants and `classify` of src/decmpfs.rs are the record `Decmpfs` of Compression.
-- `sort_by_key` is a stable insertion sort.
--
-- A volume's trees have virtual nodes: `descend_virtual` and `descend_snap` resolve each child's oid
-- through the volume's object map, read and verify its block and hand the leaf records to the
-- visitor. `FsTree.Stored` and `Snapshot.Walks` say what it is for a device to store an abstract
-- tree under an object map. The listings, path lookup and the reads of a file stand on these walks,
-- and Content composes attributes, compression and extents into the bytes of a file. The compressor
-- that Compression decodes is one of the development's own: `chunked_fork` and `zlib_fork`, which lay
-- a fork out as the source's comments describe it.
--
-- The mutable state of a loop is a record or an accumulator that is passed on: the visited set and
-- the visitor's state in `Walk`, the best superblock in `Scan`, the two lists of tags in `Tags`. A
-- visitor closure is a function from the state before an entry to the state after it. The walks take
-- the source's own depth cap of 64 levels as their recursion bound. The reaper's loop, whose bound
-- is the size of the set of lists seen, runs on 4097 rounds.
--
-- Not modelled: src/decmpfs.rs, which is vendored; src/vfs.rs, an adapter to another crate's trait;
-- the capacities of vectors; the tests. Accessors that return a field are the fields of the records.
pub mod Prelude
pub mod Error
pub mod Bytes
pub mod Reader
pub mod Object
pub mod Btree
pub mod Omap
pub mod Container
pub mod Fusion
pub mod Checkpoint
pub mod Spaceman
pub mod Reaper
pub mod FsRecord
pub mod Volume
pub mod Encryption
pub mod Sealed
pub mod Inode
pub mod FsTree
pub mod Dir
pub mod Extent
pub mod Xattr
pub mod Compression
pub mod Content
pub mod Snapshot
pub mod Apfs
pub mod Samples
