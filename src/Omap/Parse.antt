-- ===== src/Omap/Parse.antt =====
-- src/omap.rs, `ObjectMap::parse`: what the header check admits.
use newtua_apfs.Prelude.{◌≤◌, ◌≡◌, ◌↔◌, arith, length, ◌%◌, ◌^◌}
use newtua_apfs.Prelude.Bits.{bit_and_low_bits}
use newtua_apfs.Bytes.{Bytes, le_u32, le_u64}
use newtua_apfs.Error.{ok}
use newtua_apfs.Object.{parse_obj_phys, obj_type, fletcher64_stored, fletcher64_checksum}
use newtua_apfs.Omap.{
  ObjectMap, parse_object_map, parse_typed, object_type_omap, omap_phys_min_len, off_om_flags,
  off_om_tree_type, off_om_tree_oid, off_om_snapshot_tree_oid,
}

-- A block long enough, of the object map type, whose stored checksum is its own.
pub record IsOmapBlock (block : Bytes) : Type 0 where
  pub long : omap_phys_min_len ≤ length block
  pub typed : le_u32 block 24 % 2 ^ 16 ≡ object_type_omap
  pub sealed : fletcher64_stored block ≡ fletcher64_checksum block

abbrev pub object_map_of : Bytes → ObjectMap
object_map_of block = record {
  flags = le_u32 block off_om_flags;
  tree_type = le_u32 block off_om_tree_type;
  tree_oid = le_u64 block off_om_tree_oid;
  snapshot_tree_oid = le_u64 block off_om_snapshot_tree_oid;
}

-- `ObjectMap::parse` succeeds exactly on a block of at least 56 bytes whose type is the object map
-- type and whose stored checksum is the computed one, and then returns the four fields.
pub parse_object_map-eq-ok :
    (block : Bytes) (om : ObjectMap)
    → (parse_object_map block ≡ ok om) ↔ (IsOmapBlock block × (om ≡ object_map_of block))
unfolding parse_object_map parse_typed parse_obj_phys obj_type
parse_object_map-eq-ok block om =
    let low = bit_and_low_bits 16 (le_u32 block 24) in
    (
      λ h. (
        record { long = ground arith; typed = ground arith; sealed = ground arith },
        ground arith,
      ),
      λ h. ground arith,
    )
