-- ===== src/Extent/Length.antt =====
-- src/extent.rs, `read_stream`: the length of what it returns, over any reader.
use newtua_apfs.Prelude.{
  ℕ, ◌-◌, ◌≤◌, ◌<◌, ◌≡◌, ◌∙◌, arith, min, List, [], ◌∷◌, leb, ltb, ◌||◌, ◌==◌, length, replicate,
  length-replicate, Bool-cases, inl, inr, sym,
}
use newtua_apfs.Bytes.{Bytes}
use newtua_apfs.Error.{ok, ◌>>=◌, >>=-eq-ok, reject_if-eq-ok, ok-injective, field_out_of_range}
use newtua_apfs.Reader.{Reader, IsReader, read_exact_at, read_exact_at-eq-ok}
use newtua_apfs.Volume.{ApfsVolume}
use newtua_apfs.Extent.{
  FileExtent, write_at, extent_offset, fill_extent, fill_extents, list_extents, read_stream,
  max_file_bytes,
}
use newtua_apfs.Extent.Writes.{length-write_at}

module _ (reader : Reader) (is : IsReader reader) (block_size size : ℕ) where
  length-fill_extent :
      (ext : FileExtent) (out : Bytes) {new : Bytes}
      → length out ≡ size
      → fill_extent reader block_size size ext out ≡ ok new
      → length new ≡ size
  unfolding fill_extent
  length-fill_extent ext out {new} sized h =
      elim (Bool-cases (leb size ext.logical_offset || ext.phys_block_num == 0)) [
        | inl guard ↦ rw (sym (ok-injective (rw (fill_extent, guard) at h))) sized
        | inr live ↦
            let start = ext.logical_offset in
            let (off, here, rest) =
              >>=-eq-ok (extent_offset block_size ext)
                (λ byte_off. read_exact_at reader byte_off (min ext.len (size - start)) >>= λ bytes.
                  ok (write_at out start bytes))
                (rw (fill_extent, live) at h) in
            let (bytes, read, done) =
              >>=-eq-ok (read_exact_at reader off (min ext.len (size - start)))
                (λ bytes. ok (write_at out start bytes)) rest in
            let (len, all) = read_exact_at-eq-ok reader off (min ext.len (size - start)) is read in
            let below : start < size = ground arith in
            rw (sym (ok-injective done)) (length-write_at out start bytes (omega arith) ∙ sized)
      ]

  length-fill_extents :
      (exts : List FileExtent) (out : Bytes) {new : Bytes}
      → length out ≡ size
      → fill_extents reader block_size size exts out ≡ ok new
      → length new ≡ size
  unfolding fill_extents
  length-fill_extents [] out sized h = rw (sym (ok-injective h)) sized
  length-fill_extents (ext ∷ exts) out sized h =
      let (mid, here, there) =
        >>=-eq-ok (fill_extent reader block_size size ext out)
          (fill_extents reader block_size size exts) h in
      length-fill_extents exts mid (length-fill_extent ext out sized here) there

-- Whatever the device and the tree hold, a stream that `read_stream` returns has exactly the
-- length that was asked for, which is at most 2^34 bytes.
pub length-read_stream :
    {Text : Type 0} (reader : Reader) (volume : ApfsVolume Text)
    (stream_oid logical_size block_size : ℕ) (out : Bytes)
    → IsReader reader
    → read_stream reader volume stream_oid logical_size block_size ≡ ok out
    → (length out ≡ logical_size) × (logical_size ≤ max_file_bytes)
unfolding read_stream
length-read_stream reader volume stream_oid logical_size block_size out is h =
    let (cap, h') =
      reject_if-eq-ok (ltb max_file_bytes logical_size)
        (field_out_of_range "j_dstream" "size" logical_size max_file_bytes) _ h in
    let (exts, listed, runs) =
      >>=-eq-ok (list_extents reader volume stream_oid block_size)
        (λ extents. fill_extents reader block_size logical_size extents (replicate logical_size 0))
        h' in
    (
      length-fill_extents reader is block_size logical_size exts (replicate logical_size 0)
          (length-replicate logical_size 0) runs,
      ground arith,
    )
