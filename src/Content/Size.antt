-- ===== src/Content/Size.antt =====
-- src/extent.rs: the size that `data_size` promises is the length of what `read_data` returns.
use newtua_apfs.Prelude.{
  ℕ, ◌≡◌, sym, ap, ◌∙◌, arith, Option, none, some, length, not, ◌==◌, if◌then◌else◌,
}
use newtua_apfs.Bytes.{Bytes, Str}
use newtua_apfs.Error.{Result, ok, >>=-eq-ok, reject_if-eq-ok, ok-injective, ok_or}
use newtua_apfs.Reader.{Reader, IsReader}
use newtua_apfs.Volume.{ApfsVolume}
use newtua_apfs.Inode.{Inode}
use newtua_apfs.Extent.{read_stream}
use newtua_apfs.Extent.Length.{length-read_stream}
use newtua_apfs.Xattr
use newtua_apfs.Xattr.{decmpfs_header}
use newtua_apfs.Compression.{
  Decmpfs, checked_le_u32, uncompressed_size, unknown_type, is_lz_bitmap, is_fork, decode_payload,
  decompress_decmpfs, read_compressed,
}
use newtua_apfs.Content.{read_data, data_size, size_or_zero}

-- Whatever the codecs return, a decompressed file has the length that its header declares.
pub length-decompress_decmpfs :
    (d : Decmpfs) (header : Bytes) (resource : Option Bytes) (out : Bytes)
    → decompress_decmpfs d header resource ≡ ok out
    → uncompressed_size d header ≡ ok (length out)
unfolding decompress_decmpfs
length-decompress_decmpfs d header resource out h =
    let (size, sized, h1) = >>=-eq-ok (uncompressed_size d header) _ h in
    let (ty, typed, h2) = >>=-eq-ok (checked_le_u32 header d.compression_type_offset) _ h1 in
    let (kind, known, h3) = >>=-eq-ok (ok_or (d.classify ty) (unknown_type ty)) _ h2 in
    let (real, h4) = reject_if-eq-ok (is_lz_bitmap kind.algorithm) _ _ h3 in
    let (bytes, decoded, h5) = >>=-eq-ok (decode_payload d kind header resource size ty) _ h4 in
    let (same, h6) = reject_if-eq-ok (not (length bytes == size)) _ _ h5 in
    let one : length bytes ≡ size = ground arith in
    sized ∙ ap ok (sym one ∙ ap length (ok-injective h6))

length-read_compressed :
    (d : Decmpfs) (from_utf8_lossy : Bytes → Str) (reader : Reader) (volume : ApfsVolume Str)
    (inode : Inode Str) (header : Bytes) (block_size : ℕ) (out : Bytes)
    → read_compressed d from_utf8_lossy reader volume inode header block_size ≡ ok out
    → uncompressed_size d header ≡ ok (length out)
unfolding read_compressed
length-read_compressed d from_utf8_lossy reader volume inode header block_size out h =
    let (ty, typed, h1) = >>=-eq-ok (checked_le_u32 header d.compression_type_offset) _ h in
    let (resource, found, h2) =
      >>=-eq-ok
        (if is_fork (d.classify ty)
          then Xattr.resource_fork from_utf8_lossy reader volume inode.oid block_size
          else ok none)
        _ h1 in
    length-decompress_decmpfs d header resource out h2

-- Whatever the codecs return and the image holds, when `read_data` returns a file's bytes,
-- `data_size` returns their number: for a compressed file, and for an ordinary one.
pub data_size-read_data :
    (d : Decmpfs) (from_utf8_lossy : Bytes → Str) (reader : Reader) (volume : ApfsVolume Str)
    (inode : Inode Str) (block_size : ℕ) (out : Bytes)
    → IsReader reader
    → read_data d from_utf8_lossy reader volume inode block_size ≡ ok out
    → data_size d from_utf8_lossy reader volume inode block_size ≡ ok (length out)
unfolding read_data data_size
data_size-read_data d from_utf8_lossy reader volume inode block_size out is h =
    let (header, found, h1) =
      >>=-eq-ok (decmpfs_header from_utf8_lossy reader volume inode.oid block_size) _ h in
    rw found (content header h1)
  where
    content :
        (header : Option Bytes)
        → (elim header [
          | some hd ↦ read_compressed d from_utf8_lossy reader volume inode hd block_size
          | none ↦ read_stream reader volume inode.private_id (size_or_zero inode) block_size
        ])
          ≡ ok out
        → (elim header as (λ o. Result ℕ) [
          | some hd ↦ uncompressed_size d hd
          | none ↦ ok (size_or_zero inode)
        ])
          ≡ ok (length out)
    content (some hd) e =
        length-read_compressed d from_utf8_lossy reader volume inode hd block_size out e
    content none e = ap ok (
        sym
          (length-read_stream reader volume inode.private_id (size_or_zero inode) block_size out is
            e).0)
