-- ===== src/Sealed.antt =====
-- src/sealed.rs: the integrity metadata of a sealed volume.
pub mod Parse
mod Tests
use newtua_apfs.Prelude.{ℕ, ◌+◌, not, ltb, ◌==◌, length}
use newtua_apfs.Bytes.{Bytes, le_u32, le_u64}
use newtua_apfs.Error.{Result, ok, ◌>>◌, reject_if, field_out_of_range, checksum_mismatch}
use newtua_apfs.Object.{fletcher64_stored, fletcher64_checksum}

pub record IntegrityMeta : Type 0 where
  pub version : ℕ
  pub flags : ℕ
  pub hash_type : ℕ
  pub broken_xid : ℕ

abbrev pub off_im_version : ℕ
off_im_version = 32

abbrev pub off_im_flags : ℕ
off_im_flags = 36

abbrev pub off_im_hash_type : ℕ
off_im_hash_type = 40

abbrev pub off_im_broken_xid : ℕ
off_im_broken_xid = 48

abbrev pub integrity_meta_min_len : ℕ
integrity_meta_min_len = off_im_broken_xid + 8

-- `IntegrityMeta::parse`.
unfoldable pub parse_integrity_meta : Bytes → Result IntegrityMeta
parse_integrity_meta block =
    reject_if (ltb (length block) integrity_meta_min_len)
      (field_out_of_range "integrity_meta_phys" "block.len" (length block) integrity_meta_min_len)
    >> reject_if (not (fletcher64_stored block == fletcher64_checksum block))
        (checksum_mismatch (le_u64 block 8) (fletcher64_stored block) (fletcher64_checksum block))
    >> ok (record {
      version = le_u32 block off_im_version;
      flags = le_u32 block off_im_flags;
      hash_type = le_u32 block off_im_hash_type;
      broken_xid = le_u64 block off_im_broken_xid;
    })
