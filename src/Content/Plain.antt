-- ===== src/Content/Plain.antt =====
-- src/extent.rs, `read_data` of an ordinary file, from the image to the file's bytes.
use newtua_apfs.Prelude.{ℕ, ◌≤◌, ◌<◌, ◌≡◌, refl, none, length, get_or, filter_map, List}
use newtua_apfs.Bytes.{Bytes, Str}
use newtua_apfs.Error.{ok}
use newtua_apfs.Reader.{Reader, cursor}
use newtua_apfs.Btree.Tree.{Tree, entries_of}
use newtua_apfs.Volume.{ApfsVolume}
use newtua_apfs.Inode.{Inode}
use newtua_apfs.FsTree.Stored.{IsFsTree}
use newtua_apfs.Extent.{FileExtent, extent_of, sort_by_logical_offset, max_file_bytes}
use newtua_apfs.Extent.Assembly.{AllInside, file_byte, read_stream-file_byte}
use newtua_apfs.Extent.Listing.{list_extents-sorted}
use newtua_apfs.Xattr.{find_xattr, decmpfs_bytes, decmpfs_header, xattr_name_decmpfs}
use newtua_apfs.Xattr.Listing.{xattrs_in, get_xattr-IsFsTree}
use newtua_apfs.Compression.{Decmpfs}
use newtua_apfs.Content.{read_data, size_or_zero}

decmpfs_header_absent :
    (from_utf8_lossy : Bytes → Str) (reader : Reader) (volume : ApfsVolume Str)
    (inode_oid block_size : ℕ) (t : Tree)
    → IsFsTree reader volume block_size t
    → find_xattr xattr_name_decmpfs (xattrs_in from_utf8_lossy inode_oid (entries_of t)) ≡ none
    → decmpfs_header from_utf8_lossy reader volume inode_oid block_size ≡ ok none
unfolding decmpfs_header decmpfs_bytes
decmpfs_header_absent from_utf8_lossy reader volume inode_oid block_size t tree absent =
    rw
      (
        get_xattr-IsFsTree from_utf8_lossy reader volume inode_oid xattr_name_decmpfs block_size t
            tree,
        absent,
      )
      refl

-- The extents of a stream that the records of the tree give, in the order of their offsets.
abbrev pub extents_in : Tree → ℕ → List FileExtent
extents_in t stream_oid = sort_by_logical_offset (filter_map (extent_of stream_oid) (entries_of t))

-- On an image that stores a file-system tree, for an inode without a compression attribute, of at
-- most 2^34 bytes and whose extents lie inside the image below its size, `read_data` returns as
-- many bytes as the inode says; byte `i` is what the last extent that holds it, in the order of
-- their offsets, has on the device, and zero in a hole or where no extent is.
pub read_data-file_byte :
    (d : Decmpfs) (from_utf8_lossy : Bytes → Str) (image : Bytes) (volume : ApfsVolume Str)
    (inode : Inode Str) (block_size : ℕ) (t : Tree)
    → IsFsTree (cursor image) volume block_size t
    → find_xattr xattr_name_decmpfs (xattrs_in from_utf8_lossy inode.oid (entries_of t)) ≡ none
    → size_or_zero inode ≤ max_file_bytes
    → AllInside image block_size (size_or_zero inode) (extents_in t inode.private_id)
    → (out : Bytes) × (read_data d from_utf8_lossy (cursor image) volume inode block_size ≡ ok out)
      × (length out ≡ size_or_zero inode)
      × ((i : ℕ)
          → i < size_or_zero inode
          → get_or out i 0 ≡ file_byte image block_size (extents_in t inode.private_id) i)
unfolding read_data
read_data-file_byte d from_utf8_lossy image volume inode block_size t tree absent small inside =
    let (out, runs, sized, bytes) =
      read_stream-file_byte image volume inode.private_id (size_or_zero inode) block_size
        (extents_in t inode.private_id) small
        (list_extents-sorted (cursor image) volume inode.private_id block_size t tree) inside in
    (
      out,
      rw
          (decmpfs_header_absent from_utf8_lossy (cursor image) volume inode.oid block_size t tree
            absent)
          runs,
      sized,
      bytes,
    )
