-- ===== src/Spaceman/Tests.antt =====
-- src/spaceman.rs on a device of two chunks.
use newtua_apfs.Prelude.{ℕ, ◌%◌, ◌<◌, ◌≡◌, refl, arith, false, not}
use newtua_apfs.Bytes.{Bytes, AllBytes, slice, from_le_bytes, le_u32, le_u64, to_le_bytes}
use newtua_apfs.Reader.{cursor, saturating_mul, read_exact_at}
use newtua_apfs.Object.{
  stamp, fletcher64_stored, fletcher64_checksum, words, fletcher_loop, fletcher_step,
  fletcher_finish,
}
use newtua_apfs.Bytes.Slices.{AllBytes-zeros}
use newtua_apfs.Error.{ok}
use newtua_apfs.Spaceman.{
  read_obj_block, device_of, is_block_free, is_allocated, query_chunk, check_device, bitmap_address,
  read_bit, cib_chunk_info_count,
}
use newtua_apfs.Spaceman.Bitmap.{test_bit}
use newtua_apfs.Spaceman.Query.{
  IsCovered, cib_paddr_of, within_cib_of, bitmap_addr_of, is_block_free-bitmap,
  is_block_free-IsCovered,
}
use newtua_apfs.Samples.{
  object_reader, spaceman_block, chunk_info_block, bitmap_block, reaper_block, list_block, header,
  u32, u64,
}

manager : read_obj_block object_reader 1 128 ≡ ok spaceman_block
unfolding object_reader spaceman_block chunk_info_block reaper_block list_block stamp header u32 u64
    to_le_bytes cursor fletcher64_stored fletcher64_checksum words fletcher_loop fletcher_step
    fletcher_finish from_le_bytes le_u32 le_u64 slice saturating_mul read_exact_at read_obj_block
manager = refl

covers : (b : ℕ) → b < 16 → IsCovered (device_of spaceman_block) b
unfolding object_reader spaceman_block chunk_info_block reaper_block list_block stamp header u32 u64
    to_le_bytes cursor fletcher64_stored fletcher64_checksum words fletcher_loop fletcher_step
    fletcher_finish from_le_bytes le_u32 le_u64 slice saturating_mul read_exact_at read_obj_block
    device_of
covers b h = record {
  chunk_size = omega arith;
  cib_size = omega arith;
  on_device = h;
  inline_cibs = refl;
  chunk = omega arith;
  cib = omega arith;
}

chunk_info :
    (read_obj_block object_reader (cib_paddr_of spaceman_block 5) 128 ≡ ok chunk_info_block)
    × (read_obj_block object_reader (cib_paddr_of spaceman_block 12) 128 ≡ ok chunk_info_block)
unfolding object_reader spaceman_block chunk_info_block reaper_block list_block stamp header u32 u64
    to_le_bytes cursor fletcher64_stored fletcher64_checksum words fletcher_loop fletcher_step
    fletcher_finish from_le_bytes le_u32 le_u64 slice saturating_mul read_exact_at read_obj_block
    device_of
chunk_info = (refl, refl)

listed :
    (within_cib_of spaceman_block 5 < le_u32 chunk_info_block cib_chunk_info_count)
    × (within_cib_of spaceman_block 12 < le_u32 chunk_info_block cib_chunk_info_count)
unfolding object_reader spaceman_block chunk_info_block reaper_block list_block stamp header u32 u64
    to_le_bytes cursor fletcher64_stored fletcher64_checksum words fletcher_loop fletcher_step
    fletcher_finish from_le_bytes le_u32 le_u64 slice saturating_mul read_exact_at read_obj_block
    device_of
listed = (omega arith, omega arith)

addresses :
    (bitmap_addr_of spaceman_block chunk_info_block 5 ≡ 3)
    × (bitmap_addr_of spaceman_block chunk_info_block 12 ≡ 0)
unfolding object_reader spaceman_block chunk_info_block reaper_block list_block stamp header u32 u64
    to_le_bytes cursor fletcher64_stored fletcher64_checksum words fletcher_loop fletcher_step
    fletcher_finish from_le_bytes le_u32 le_u64 slice saturating_mul read_exact_at read_obj_block
    device_of
addresses = (refl, refl)

bitmap_read :
    read_exact_at object_reader
      (saturating_mul (bitmap_addr_of spaceman_block chunk_info_block 5) 128)
      128
    ≡ ok bitmap_block
unfolding object_reader spaceman_block chunk_info_block reaper_block list_block stamp header u32 u64
    to_le_bytes cursor fletcher64_stored fletcher64_checksum words fletcher_loop fletcher_step
    fletcher_finish from_le_bytes le_u32 le_u64 slice saturating_mul read_exact_at read_obj_block
    device_of
bitmap_read = refl

bitmap_block-AllBytes : AllBytes bitmap_block
bitmap_block-AllBytes = (omega arith, AllBytes-zeros 127)

is_block_free-bitmap_example :
    is_block_free object_reader 1 5 128
    ≡ ok (
        not
          (test_bit (from_le_bytes bitmap_block) (5 % (device_of spaceman_block).blocks_per_chunk)))
is_block_free-bitmap_example =
    is_block_free-bitmap object_reader 1 5 128 spaceman_block chunk_info_block bitmap_block manager
      (covers 5 (omega arith)) chunk_info.0 listed.0 (omega (arith, addresses.0)) bitmap_read
      bitmap_block-AllBytes

taken : is_block_free object_reader 1 5 128 ≡ ok false
unfolding object_reader spaceman_block chunk_info_block reaper_block list_block stamp header u32 u64
    to_le_bytes cursor fletcher64_stored fletcher64_checksum words fletcher_loop fletcher_step
    fletcher_finish from_le_bytes le_u32 le_u64 slice saturating_mul read_exact_at read_obj_block
    device_of is_block_free query_chunk check_device bitmap_address read_bit is_allocated
taken = refl

is_block_free-IsCovered_example :
    (sm : Bytes) × (read_obj_block object_reader 1 128 ≡ ok sm) × IsCovered (device_of sm) 5
is_block_free-IsCovered_example = is_block_free-IsCovered object_reader 1 5 128 false taken
