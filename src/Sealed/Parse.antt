-- ===== src/Sealed/Parse.antt =====
-- src/sealed.rs, `IntegrityMeta::parse`: what the checks admit.
use newtua_apfs.Prelude.{◌≤◌, ◌≡◌, ◌↔◌, arith, length}
use newtua_apfs.Bytes.{Bytes, le_u32, le_u64}
use newtua_apfs.Error.{ok}
use newtua_apfs.Object.{fletcher64_stored, fletcher64_checksum}
use newtua_apfs.Sealed.{
  IntegrityMeta, parse_integrity_meta, integrity_meta_min_len, off_im_version, off_im_flags,
  off_im_hash_type, off_im_broken_xid,
}

-- `IntegrityMeta::parse` succeeds exactly on a block of at least 56 bytes whose stored checksum is
-- the computed one, and then returns the four fields.
pub parse_integrity_meta-eq-ok :
    (block : Bytes) (im : IntegrityMeta)
    → (parse_integrity_meta block ≡ ok im) ↔ (
        (integrity_meta_min_len ≤ length block)
        × (fletcher64_stored block ≡ fletcher64_checksum block)
        × (im.version ≡ le_u32 block off_im_version)
        × (im.flags ≡ le_u32 block off_im_flags)
        × (im.hash_type ≡ le_u32 block off_im_hash_type)
        × (im.broken_xid ≡ le_u64 block off_im_broken_xid))
unfolding parse_integrity_meta
parse_integrity_meta-eq-ok block im = (λ h. ground arith, λ h. ground arith)
