-- ===== src/Volume/Tests.antt =====
-- src/volume.rs on a volume superblock of 1024 bytes.
use newtua_apfs.Prelude.{◌≡◌, ◌↔◌, refl, [], ◌∷◌}
use newtua_apfs.Bytes.{Bytes, slice, from_le_bytes, arr, le_u32, le_u64, to_le_bytes}
use newtua_apfs.Error.{ok}
use newtua_apfs.Object.{
  stamp, fletcher64_stored, fletcher64_checksum, words, fletcher_loop, fletcher_step,
  fletcher_finish, parse_obj_phys, obj_type,
}
use newtua_apfs.Volume.{parse_volume, parse_typed, volume_of, until_nul, decode_volname}
use newtua_apfs.Volume.Parse.{IsApsbBlock, IsName, name_field, fields_of, parse_volume-eq-ok}
use newtua_apfs.Samples.{apsb, header, u32, u64}

-- A decoder that keeps the bytes.
abbrev kept : Bytes → Bytes
kept bytes = bytes

parse_volume-eq-ok_example : (parse_volume kept apsb ≡ ok (volume_of kept apsb)) ↔ (
    IsApsbBlock apsb
    × ((name : Bytes) × IsName (name_field apsb) name
        × (volume_of kept apsb ≡ fields_of apsb name)))
parse_volume-eq-ok_example = parse_volume-eq-ok kept apsb (volume_of kept apsb)

apsb-parses : parse_volume kept apsb ≡ ok (volume_of kept apsb)
unfolding apsb stamp header u32 u64 to_le_bytes parse_volume parse_typed volume_of parse_obj_phys
    obj_type fletcher64_stored fletcher64_checksum words fletcher_loop fletcher_step fletcher_finish
    from_le_bytes le_u32 le_u64 arr slice until_nul decode_volname
apsb-parses = refl

apsb-named : (volume_of kept apsb).name ≡ 85 ∷ 83 ∷ 66 ∷ []
unfolding apsb stamp header u32 u64 to_le_bytes volume_of fletcher64_checksum words fletcher_loop
    fletcher_step fletcher_finish from_le_bytes le_u32 le_u64 arr slice until_nul decode_volname
apsb-named = refl
