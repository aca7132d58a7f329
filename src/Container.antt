-- ===== src/Container.antt =====
-- src/container.rs: the container superblock.
pub mod Parse
mod Tests
use newtua_apfs.Prelude.{
  ℕ, zero, suc, ◌+◌, ◌-◌, ◌*◌, ◌^◌, min, bit_and, List, [], ◌∷◌, Bool, not, ltb, ◌==◌, length,
  if◌then◌else◌,
}
use newtua_apfs.Bytes.{Bytes, arr, le_u32, le_u64}
use newtua_apfs.Error.{Result, ok, ◌>>◌, reject_if, no_valid_superblock, checksum_mismatch}
use newtua_apfs.Object.{fletcher64_stored, fletcher64_checksum}

abbrev pub nx_magic : ℕ
nx_magic = 0x4253_584e

abbrev pub nx_incompat_fusion : ℕ
nx_incompat_fusion = 0x100

abbrev pub nx_minimum_block_size : ℕ
nx_minimum_block_size = 4096

abbrev pub nx_maximum_block_size : ℕ
nx_maximum_block_size = 65536

abbrev pub nx_max_file_systems : ℕ
nx_max_file_systems = 100

abbrev pub xp_blocks_tree_flag : ℕ
xp_blocks_tree_flag = 0x8000_0000

abbrev pub off_magic : ℕ
off_magic = 32

abbrev pub off_block_size : ℕ
off_block_size = 36

abbrev pub off_block_count : ℕ
off_block_count = 40

abbrev pub off_incompat_features : ℕ
off_incompat_features = 64

abbrev pub off_uuid : ℕ
off_uuid = 72

abbrev pub off_xp_desc_blocks : ℕ
off_xp_desc_blocks = 104

abbrev pub off_xp_data_blocks : ℕ
off_xp_data_blocks = 108

abbrev pub off_xp_desc_base : ℕ
off_xp_desc_base = 112

abbrev pub off_xp_data_base : ℕ
off_xp_data_base = 120

abbrev pub off_spaceman_oid : ℕ
off_spaceman_oid = 152

abbrev pub off_omap_oid : ℕ
off_omap_oid = 160

abbrev pub off_reaper_oid : ℕ
off_reaper_oid = 168

abbrev pub off_max_file_systems : ℕ
off_max_file_systems = 180

abbrev pub off_fs_oid : ℕ
off_fs_oid = 184

-- `xp_desc_is_tree` and `xp_data_is_tree` are the two flags that the accessors return.
pub record NxSuperblock : Type 0 where
  pub xid : ℕ
  pub uuid : Bytes
  pub block_size : ℕ
  pub block_count : ℕ
  pub incompatible_features : ℕ
  pub xp_desc_base : ℕ
  pub xp_desc_blocks : ℕ
  pub xp_data_base : ℕ
  pub xp_data_blocks : ℕ
  pub omap_oid : ℕ
  pub spaceman_oid : ℕ
  pub reaper_oid : ℕ
  pub fs_oids : List ℕ
  pub xp_desc_is_tree : Bool
  pub xp_data_is_tree : Bool

-- `for i in 0..max_fs`, with the rounds that are left: zero oids are not kept.
unfoldable pub fs_oids_loop : Bytes → ℕ → ℕ → List ℕ
fs_oids_loop block zero i = []
fs_oids_loop block (suc n) i =
    let oid = le_u64 block (off_fs_oid + i * 8) in
    let rest = fs_oids_loop block n (i + 1) in if oid == 0 then rest else oid ∷ rest

-- The geometry, read once the block is trusted.
unfoldable pub superblock_of : Bytes → NxSuperblock
unfolding fs_oids_loop
superblock_of block =
    let desc_blocks_raw = le_u32 block off_xp_desc_blocks in
    let data_blocks_raw = le_u32 block off_xp_data_blocks in
    let max_fs = min (le_u32 block off_max_file_systems) nx_max_file_systems in
    record {
      xid = le_u64 block 16;
      uuid = arr 16 block off_uuid;
      block_size = le_u32 block off_block_size;
      block_count = le_u64 block off_block_count;
      incompatible_features = le_u64 block off_incompat_features;
      xp_desc_base = le_u64 block off_xp_desc_base;
      xp_desc_blocks = bit_and desc_blocks_raw (2 ^ 32 - 1 - xp_blocks_tree_flag);
      xp_data_base = le_u64 block off_xp_data_base;
      xp_data_blocks = bit_and data_blocks_raw (2 ^ 32 - 1 - xp_blocks_tree_flag);
      omap_oid = le_u64 block off_omap_oid;
      spaceman_oid = le_u64 block off_spaceman_oid;
      reaper_oid = le_u64 block off_reaper_oid;
      fs_oids = fs_oids_loop block max_fs 0;
      xp_desc_is_tree = not (bit_and desc_blocks_raw xp_blocks_tree_flag == 0);
      xp_data_is_tree = not (bit_and data_blocks_raw xp_blocks_tree_flag == 0);
    }

-- `NxSuperblock::parse`.
unfoldable pub parse_nx_superblock : Bytes → Result NxSuperblock
parse_nx_superblock block =
    reject_if (ltb (length block) (off_magic + 4)) (no_valid_superblock 1 0)
    >> reject_if (not (le_u32 block off_magic == nx_magic))
        (no_valid_superblock 1 (le_u32 block off_magic))
    >> reject_if (not (fletcher64_stored block == fletcher64_checksum block))
        (checksum_mismatch (le_u64 block 8) (fletcher64_stored block) (fletcher64_checksum block))
    >> ok (superblock_of block)
