-- ===== src/Content.antt =====
-- src/extent.rs, `read_data` and `data_size`: a file's content and its size, compressed or not.
pub mod Size
pub mod Plain
mod Tests
use newtua_apfs.Prelude.{ℕ, Option, none, some}
use newtua_apfs.Bytes.{Bytes, Str}
use newtua_apfs.Error.{Result, ok, ◌>>=◌}
use newtua_apfs.Reader.{Reader}
use newtua_apfs.Volume.{ApfsVolume}
use newtua_apfs.Inode.{Inode}
use newtua_apfs.Extent.{read_stream}
use newtua_apfs.Xattr.{decmpfs_header}
use newtua_apfs.Compression.{Decmpfs, read_compressed, uncompressed_size}

-- `inode.size.unwrap_or(0)`.
unfoldable pub size_or_zero : Inode Str → ℕ
size_or_zero inode = elim inode.size [ none ↦ 0 | some n ↦ n ]

module _ (d : Decmpfs) (from_utf8_lossy : Bytes → Str) (reader : Reader) (volume : ApfsVolume Str)
    (inode : Inode Str) (block_size : ℕ) where
  unfoldable pub read_data : Result Bytes
  unfolding decmpfs_header read_compressed read_stream size_or_zero
  read_data = decmpfs_header from_utf8_lossy reader volume inode.oid block_size >>= elim [
    | some header ↦ read_compressed d from_utf8_lossy reader volume inode header block_size
    | none ↦ read_stream reader volume inode.private_id (size_or_zero inode) block_size
  ]

  unfoldable pub data_size : Result ℕ
  unfolding decmpfs_header uncompressed_size size_or_zero
  data_size =
      decmpfs_header from_utf8_lossy reader volume inode.oid block_size
      >>= elim [ some header ↦ uncompressed_size d header | none ↦ ok (size_or_zero inode) ]
