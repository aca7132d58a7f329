-- ===== src/Sealed/Tests.antt =====
-- src/sealed.rs on a seal that was broken at transaction 42.
use newtua_apfs.Prelude.{◌≤◌, ◌≡◌, ◌↔◌, refl, ◌++◌, length, replicate}
use newtua_apfs.Bytes.{Bytes, slice, from_le_bytes, le_u32, le_u64, to_le_bytes}
use newtua_apfs.Error.{ok}
use newtua_apfs.Object.{
  stamp, fletcher64_stored, fletcher64_checksum, words, fletcher_loop, fletcher_step,
  fletcher_finish,
}
use newtua_apfs.Sealed.{
  IntegrityMeta, parse_integrity_meta, integrity_meta_min_len, off_im_version, off_im_flags,
  off_im_hash_type, off_im_broken_xid,
}
use newtua_apfs.Sealed.Parse.{parse_integrity_meta-eq-ok}
use newtua_apfs.Samples.{header, u32, u64}

unfoldable seal : Bytes
unfolding stamp header u32 u64
seal = stamp (header 9 42 30 ++ u32 1 ++ u32 0 ++ u32 1 ++ u32 64 ++ u64 42 ++ replicate 8 0)

abbrev broken : IntegrityMeta
broken = record { version = 1; flags = 0; hash_type = 1; broken_xid = 42 }

parse_integrity_meta-eq-ok_example : (parse_integrity_meta seal ≡ ok broken) ↔ (
    (integrity_meta_min_len ≤ length seal)
    × (fletcher64_stored seal ≡ fletcher64_checksum seal)
    × (1 ≡ le_u32 seal off_im_version)
    × (0 ≡ le_u32 seal off_im_flags)
    × (1 ≡ le_u32 seal off_im_hash_type)
    × (42 ≡ le_u64 seal off_im_broken_xid))
parse_integrity_meta-eq-ok_example = parse_integrity_meta-eq-ok seal broken

seal-parses : parse_integrity_meta seal ≡ ok broken
unfolding seal stamp header u32 u64 to_le_bytes parse_integrity_meta fletcher64_stored
    fletcher64_checksum words fletcher_loop fletcher_step fletcher_finish from_le_bytes le_u32
    le_u64 slice
seal-parses = refl
