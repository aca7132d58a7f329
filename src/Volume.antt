-- ===== src/Volume.antt =====
-- src/volume.rs: the volume superblock. `String::from_utf8_lossy` (the standard library's) is a
-- parameter, as is the type of the strings that it makes; nothing is assumed of them.
pub mod Parse
mod Tests
use newtua_apfs.Prelude.{
  ℕ, ◌+◌, List, [], ◌∷◌, Option, none, some, not, ltb, ◌==◌, length, if◌then◌else◌,
}
use newtua_apfs.Bytes.{Bytes, slice, arr, le_u32, le_u64}
use newtua_apfs.Error.{
  Result, ok, ◌>>=◌, ◌>>◌, reject_if, ok_or, unexpected_object_type, checksum_mismatch,
}
use newtua_apfs.Object.{ObjPhys, parse_obj_phys, obj_type, fletcher64_stored, fletcher64_checksum}

abbrev pub apfs_magic : ℕ
apfs_magic = 0x4253_5041

abbrev pub object_type_fs : ℕ
object_type_fs = 0xd

abbrev pub off_magic : ℕ
off_magic = 32

abbrev pub off_fs_index : ℕ
off_fs_index = 36

abbrev pub off_features : ℕ
off_features = 40

abbrev pub off_ro_compat_features : ℕ
off_ro_compat_features = 48

abbrev pub off_incompat_features : ℕ
off_incompat_features = 56

abbrev pub off_root_tree_type : ℕ
off_root_tree_type = 116

abbrev pub off_omap_oid : ℕ
off_omap_oid = 128

abbrev pub off_root_tree_oid : ℕ
off_root_tree_oid = 136

abbrev pub off_extentref_tree_oid : ℕ
off_extentref_tree_oid = 144

abbrev pub off_snap_meta_tree_oid : ℕ
off_snap_meta_tree_oid = 152

abbrev pub off_vol_uuid : ℕ
off_vol_uuid = 240

abbrev pub off_fs_flags : ℕ
off_fs_flags = 256

abbrev pub off_volname : ℕ
off_volname = 704

abbrev pub volname_len : ℕ
volname_len = 256

abbrev pub apsb_min_len : ℕ
apsb_min_len = off_volname + volname_len

-- The fields are read through the accessors of their names.
pub record ApfsVolume (Text : Type 0) : Type 0 where
  pub oid : ℕ
  pub xid : ℕ
  pub fs_index : ℕ
  pub features : ℕ
  pub readonly_compatible_features : ℕ
  pub incompatible_features : ℕ
  pub root_tree_type : ℕ
  pub omap_oid : ℕ
  pub root_tree_oid : ℕ
  pub extentref_tree_oid : ℕ
  pub snap_meta_tree_oid : ℕ
  pub uuid : Bytes
  pub fs_flags : ℕ
  pub name : Text

-- `&field[..end]`, for the place `end` of the first zero byte, or the whole field.
unfoldable pub until_nul : Bytes → Bytes
until_nul [] = []
until_nul (b ∷ bs) = if b == 0 then [] else b ∷ until_nul bs

module _ {Text : Type 0} (from_utf8_lossy : Bytes → Text) where
  unfoldable pub decode_volname : Bytes → ℕ → ℕ → Text
  unfolding until_nul
  decode_volname block offset len = elim (slice block offset (offset + len)) [
    | none ↦ from_utf8_lossy []
    | some field ↦ from_utf8_lossy (until_nul field)
  ]

  -- The fields of a block that is trusted.
  unfoldable pub volume_of : Bytes → ApfsVolume Text
  unfolding decode_volname
  volume_of block = record {
    oid = le_u64 block 8;
    xid = le_u64 block 16;
    fs_index = le_u32 block off_fs_index;
    features = le_u64 block off_features;
    readonly_compatible_features = le_u64 block off_ro_compat_features;
    incompatible_features = le_u64 block off_incompat_features;
    root_tree_type = le_u32 block off_root_tree_type;
    omap_oid = le_u64 block off_omap_oid;
    root_tree_oid = le_u64 block off_root_tree_oid;
    extentref_tree_oid = le_u64 block off_extentref_tree_oid;
    snap_meta_tree_oid = le_u64 block off_snap_meta_tree_oid;
    uuid = arr 16 block off_vol_uuid;
    fs_flags = le_u64 block off_fs_flags;
    name = decode_volname block off_volname volname_len;
  }

  -- `ApfsVolume::parse` behind the two length checks.
  unfoldable pub parse_typed : Bytes → ObjPhys → Result (ApfsVolume Text)
  unfolding volume_of
  parse_typed block hdr =
      reject_if (not (obj_type hdr == object_type_fs))
        (unexpected_object_type "apfs_superblock" object_type_fs hdr.obj_type_raw)
      >> reject_if (not (le_u32 block off_magic == apfs_magic))
          (unexpected_object_type "apfs_superblock" apfs_magic (le_u32 block off_magic))
      >> reject_if (not (fletcher64_stored block == fletcher64_checksum block))
          (checksum_mismatch hdr.oid (fletcher64_stored block) (fletcher64_checksum block))
      >> ok (record (volume_of block) { oid = hdr.oid; xid = hdr.xid })

  -- `ApfsVolume::parse`.
  unfoldable pub parse_volume : Bytes → Result (ApfsVolume Text)
  unfolding parse_typed
  parse_volume block =
      reject_if (ltb (length block) apsb_min_len)
        (unexpected_object_type "apfs_superblock" apfs_magic 0)
      >> (ok_or (parse_obj_phys block) (unexpected_object_type "apfs_superblock" apfs_magic 0)
          >>= parse_typed block)

-- A snapshot's superblock is read through the live volume's object map.
unfoldable pub with_omap_oid : {Text : Type 0} → ApfsVolume Text → ℕ → ApfsVolume Text
with_omap_oid v omap_oid = record v { omap_oid = omap_oid }
