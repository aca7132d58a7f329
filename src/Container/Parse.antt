-- ===== src/Container/Parse.antt =====
-- src/container.rs, `NxSuperblock::parse`: what the checks admit, and the bounds of the geometry.
use newtua_apfs.Prelude.{
  ℕ, zero, suc, ◌+◌, ◌*◌, ◌/◌, ◌%◌, ◌^◌, ◌≤◌, ◌<◌, ◌≡◌, ◌↔◌, arith, List, [], ◌∷◌, true, ◌==◌,
  false, refl, sym, ap, ◌∙◌, if◌then◌else◌, not, Option, none, some, filter_map, bit_and, length,
  min, Bool-cases, ◌-◌, inl, inr,
}
use newtua_apfs.Prelude.Bits.{bit_and_low_bits, bit_and_flag}
use newtua_apfs.Bytes.{Bytes, AllBytes, arr, le_u32, le_u64}
use newtua_apfs.Bytes.Reads.{le_reads_fit}
use newtua_apfs.Error.{ok}
use newtua_apfs.Object.{fletcher64_stored, fletcher64_checksum}
use newtua_apfs.Container.{
  NxSuperblock, parse_nx_superblock, superblock_of, fs_oids_loop, nx_max_file_systems, off_fs_oid,
  off_xp_desc_blocks, off_max_file_systems,
}

-- A block that holds the magic number, and whose stored checksum is its own.
pub record IsNxBlock (block : Bytes) : Type 0 where
  pub long : 36 ≤ length block
  pub magic : le_u32 block 32 ≡ 0x4253_584e
  pub sealed : fletcher64_stored block ≡ fletcher64_checksum block

-- `n` 64-bit words in a row, and those of them that are not zero.
abbrev pub words_at : Bytes → ℕ → ℕ → List ℕ
words_at block at zero = []
words_at block at (suc n) = le_u64 block at ∷ words_at block (at + 8) n

abbrev pub nonzero : ℕ → Option ℕ
nonzero zero = none
nonzero (suc n) = some (suc n)

-- The fields of a container superblock, at their places in the block. The size of a checkpoint area
-- has 31 bits, and the bit above them is its tree flag.
abbrev pub geometry : Bytes → NxSuperblock
geometry block = record {
  xid = le_u64 block 16;
  uuid = arr 16 block 72;
  block_size = le_u32 block 36;
  block_count = le_u64 block 40;
  incompatible_features = le_u64 block 64;
  xp_desc_base = le_u64 block 112;
  xp_desc_blocks = le_u32 block 104 % 2 ^ 31;
  xp_data_base = le_u64 block 120;
  xp_data_blocks = le_u32 block 108 % 2 ^ 31;
  omap_oid = le_u64 block 160;
  spaceman_oid = le_u64 block 152;
  reaper_oid = le_u64 block 168;
  fs_oids = filter_map nonzero (words_at block 184 (min (le_u32 block 180) 100));
  xp_desc_is_tree = le_u32 block 104 / 2 ^ 31 % 2 == 1;
  xp_data_is_tree = le_u32 block 108 / 2 ^ 31 % 2 == 1;
}

filter_map-nonzero :
    (w : ℕ) (ws : List ℕ)
    → filter_map nonzero (w ∷ ws)
      ≡ (if w == 0 then filter_map nonzero ws else w ∷ filter_map nonzero ws)
unfolding filter_map
filter_map-nonzero zero ws = refl
filter_map-nonzero (suc n) ws = let kept : (suc n == 0) ≡ false = ground arith in rw kept refl

fs_oids_loop-words_at :
    (block : Bytes) (n i : ℕ)
    → fs_oids_loop block n i ≡ filter_map nonzero (words_at block (184 + i * 8) n)
unfolding fs_oids_loop filter_map
fs_oids_loop-words_at block zero i = refl
fs_oids_loop-words_at block (suc n) i =
    let next : 184 + (i + 1) * 8 ≡ 184 + i * 8 + 8 = omega arith in
    let oid = le_u64 block (184 + i * 8) in
    let rest =
      fs_oids_loop-words_at block n (i + 1)
      ∙ ap (λ at. filter_map nonzero (words_at block at n)) next in
    ap (λ later. if oid == 0 then later else oid ∷ later) rest
    ∙ sym (filter_map-nonzero oid (words_at block (184 + i * 8 + 8) n))

tree_flag : (raw : ℕ) → not (bit_and raw (2 ^ 31) == 0) ≡ (raw / 2 ^ 31 % 2 == 1)
tree_flag raw = ground (arith, bit_and_flag 31 raw)

superblock_of-geometry : (block : Bytes) → superblock_of block ≡ geometry block
unfolding superblock_of
superblock_of-geometry block =
    rw
      (
        bit_and_low_bits 31 (le_u32 block 104),
        bit_and_low_bits 31 (le_u32 block 108),
        tree_flag (le_u32 block 104),
        tree_flag (le_u32 block 108),
        fs_oids_loop-words_at block (min (le_u32 block 180) 100) 0,
      )
      refl

-- `NxSuperblock::parse` succeeds exactly on a block of at least 36 bytes that holds the magic
-- number and whose stored checksum is the computed one, and then returns the fields that stand at
-- their places in the block: of the volume oids those that are not zero, among as many as the
-- block counts and 100 at most.
pub parse_nx_superblock-eq-ok :
    (block : Bytes) (sb : NxSuperblock)
    → (parse_nx_superblock block ≡ ok sb) ↔ (IsNxBlock block × (sb ≡ geometry block))
unfolding parse_nx_superblock
parse_nx_superblock-eq-ok block sb =
    let same = superblock_of-geometry block in
    (
      λ h. (
        record { long = ground arith; magic = ground arith; sealed = ground arith },
        ground arith,
      ),
      λ h. ground arith,
    )

abbrev pub AllNonzero : List ℕ → Type 0
AllNonzero [] = Unit
AllNonzero (oid ∷ oids) = (0 < oid) × AllNonzero oids

fs_oids_loop-AllNonzero : (block : Bytes) (n i : ℕ) → AllNonzero (fs_oids_loop block n i)
unfolding fs_oids_loop
fs_oids_loop-AllNonzero block zero i = tt
fs_oids_loop-AllNonzero block (suc n) i =
    let rest = fs_oids_loop-AllNonzero block n (i + 1) in
    elim (Bool-cases (le_u64 block (off_fs_oid + i * 8) == 0)) [
      | inl e ↦ rw (e) rest
      | inr e ↦ rw (e) (ground arith, rest)
    ]

length-fs_oids_loop : (block : Bytes) (n i : ℕ) → length (fs_oids_loop block n i) ≤ n
unfolding fs_oids_loop
length-fs_oids_loop block zero i = omega arith
length-fs_oids_loop block (suc n) i = let rest = length-fs_oids_loop block n (i + 1) in ground arith

-- From a block of bytes, the descriptor area has fewer than 2^31 blocks and the tree flag is the
-- top bit of its field, and at most 100 volume oids are kept, none of them zero.
pub superblock_of-bounds :
    (block : Bytes)
    → AllBytes block
    → let sb = superblock_of block in
      (sb.xp_desc_blocks < 2 ^ 31)
      × ((sb.xp_desc_is_tree ≡ true) ↔ (2 ^ 31 ≤ le_u32 block off_xp_desc_blocks))
      × (length sb.fs_oids ≤ nx_max_file_systems)
      × AllNonzero sb.fs_oids
unfolding superblock_of
superblock_of-bounds block all =
    let raw = le_u32 block off_xp_desc_blocks in
    let fits : raw < 2 ^ 32 = (le_reads_fit block off_xp_desc_blocks all).1 in
    let low : bit_and raw (2 ^ 31 - 1) ≡ raw % 2 ^ 31 = bit_and_low_bits 31 raw in
    let flag : bit_and raw (2 ^ 31) ≡ raw / 2 ^ 31 % 2 * 2 ^ 31 = bit_and_flag 31 raw in
    let max_fs = min (le_u32 block off_max_file_systems) nx_max_file_systems in
    (
      omega arith,
      (λ h. ground arith, λ h. ground arith),
      (let l = length-fs_oids_loop block max_fs 0 in omega arith),
      fs_oids_loop-AllNonzero block max_fs 0,
    )
