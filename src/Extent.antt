-- ===== src/Extent.antt =====
-- src/extent.rs: the extents of a data stream, and the bytes that they are assembled to. What
-- applies compression on top, `read_data` and `data_size`, is in Content.
pub mod Writes
pub mod Assembly
pub mod Length
pub mod Listing
mod Tests
use newtua_apfs.Prelude.{
  ℕ, ◌+◌, ◌-◌, ◌/◌, ◌^◌, min, bit_and, List, [], ◌∷◌, ◌++◌, Option, none, some, ltb, leb, ◌==◌,
  ◌||◌, length, take, drop, replicate, if◌then◌else◌,
}
use newtua_apfs.Bytes.{Bytes, le_u64}
use newtua_apfs.Error.{Result, ok, ◌>>=◌, ◌>>◌, reject_if, ok_or, field_out_of_range}
use newtua_apfs.Reader.{Reader, read_exact_at, checked_mul}
use newtua_apfs.Btree.Node.{Entry}
use newtua_apfs.FsRecord.{RecordType}
use newtua_apfs.Volume.{ApfsVolume}
use newtua_apfs.FsTree.{push_some, for_each_fs_record_for_oid, is_record}

abbrev pub j_file_extent_len_mask : ℕ
j_file_extent_len_mask = 0x00ff_ffff_ffff_ffff

abbrev pub off_fext_key_logical : ℕ
off_fext_key_logical = 8

abbrev pub off_fext_len_and_flags : ℕ
off_fext_len_and_flags = 0

abbrev pub off_fext_phys_block : ℕ
off_fext_phys_block = 8

abbrev pub max_file_bytes : ℕ
max_file_bytes = 2 ^ 34

pub record FileExtent : Type 0 where
  pub logical_offset : ℕ
  pub len : ℕ
  pub phys_block_num : ℕ

-- What the visitor of `list_extents` makes of a record.
unfoldable pub extent_of : ℕ → Entry → Option FileExtent
unfolding is_record
extent_of stream_oid e =
    if is_record RecordType.file_extent stream_oid e
    then some (record {
      logical_offset = le_u64 e.key off_fext_key_logical;
      len = bit_and (le_u64 e.value off_fext_len_and_flags) j_file_extent_len_mask;
      phys_block_num = le_u64 e.value off_fext_phys_block;
    })
    else none

-- `sort_by_key`, which is stable: of two extents at one offset the one listed first stays first.
unfoldable pub insert_extent : FileExtent → List FileExtent → List FileExtent
insert_extent x [] = x ∷ []
insert_extent x (y ∷ ys) =
    let rest = insert_extent x ys in
    if leb x.logical_offset y.logical_offset then x ∷ y ∷ ys else y ∷ rest

unfoldable pub sort_by_logical_offset : List FileExtent → List FileExtent
unfolding insert_extent
sort_by_logical_offset [] = []
sort_by_logical_offset (x ∷ xs) = insert_extent x (sort_by_logical_offset xs)

-- `out[start..start + bytes.len()].copy_from_slice(bytes)`.
unfoldable pub write_at : Bytes → ℕ → Bytes → Bytes
write_at out start bytes = take start out ++ (bytes ++ drop (start + length bytes) out)

-- Where the extent's bytes begin on the device; the product must fit a u64.
unfoldable pub extent_offset : ℕ → FileExtent → Result ℕ
extent_offset block_size ext = ok_or (checked_mul ext.phys_block_num block_size) (
    field_out_of_range "j_file_extent" "phys_block_num" ext.phys_block_num
      ((2 ^ 64 - 1) / block_size))

-- The body of the loop of `read_stream`, on the buffer.
unfoldable pub fill_extent : Reader → ℕ → ℕ → FileExtent → Bytes → Result Bytes
unfolding write_at extent_offset
fill_extent reader block_size size ext out =
    let start = ext.logical_offset in
    if leb size start || ext.phys_block_num == 0
    then ok out
    else extent_offset block_size ext >>= λ byte_off.
        read_exact_at reader byte_off (min ext.len (size - start)) >>= λ bytes.
        ok (write_at out start bytes)

unfoldable pub fill_extents : Reader → ℕ → ℕ → List FileExtent → Bytes → Result Bytes
unfolding fill_extent
fill_extents reader block_size size [] out = ok out
fill_extents reader block_size size (ext ∷ exts) out =
    fill_extent reader block_size size ext out >>= fill_extents reader block_size size exts

module _ {Text : Type 0} (reader : Reader) (volume : ApfsVolume Text) where
  unfoldable pub list_extents : ℕ → ℕ → Result (List FileExtent)
  unfolding push_some extent_of for_each_fs_record_for_oid sort_by_logical_offset
  list_extents stream_oid block_size =
      for_each_fs_record_for_oid reader volume block_size stream_oid
        (push_some (extent_of stream_oid)) []
      >>= λ out. ok (sort_by_logical_offset out)

  unfoldable pub read_stream : ℕ → ℕ → ℕ → Result Bytes
  unfolding list_extents fill_extents
  read_stream stream_oid logical_size block_size =
      reject_if (ltb max_file_bytes logical_size)
        (field_out_of_range "j_dstream" "size" logical_size max_file_bytes)
      >> (list_extents stream_oid block_size >>= λ extents.
          fill_extents reader block_size logical_size extents (replicate logical_size 0))
