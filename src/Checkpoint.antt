-- ===== src/Checkpoint.antt =====
-- src/checkpoint.rs: the scan of the checkpoint descriptor ring for the live superblock.
pub mod RingScan
pub mod Ring
pub mod Live
pub mod Mappings
mod Tests
use newtua_apfs.Prelude.{
  ℕ, zero, suc, ◌+◌, ◌*◌, ◌%◌, ◌^◌, min, List, [], ◌∷◌, ◌++◌, Option, none, some, Bool, true, not,
  ◌||◌, ltb, ◌==◌, if◌then◌else◌,
}
use newtua_apfs.Bytes.{Bytes, le_u32, le_u64}
use newtua_apfs.Error.{
  Result, ok, err, ◌>>=◌, ◌>>◌, reject_if, io, unexpected_eof, other_kind, no_valid_superblock,
  field_out_of_range, checkpoint_tree_unsupported,
}
use newtua_apfs.Reader.{Reader, ReadResult, filled, failed, checked_mul}
use newtua_apfs.Object.{ObjPhys, parse_obj_phys, obj_type, fletcher64_stored, fletcher64_checksum}
use newtua_apfs.Container.{NxSuperblock, nx_magic, nx_minimum_block_size, nx_maximum_block_size}

abbrev pub object_type_nx_superblock : ℕ
object_type_nx_superblock = 0x1

abbrev pub object_type_checkpoint_map : ℕ
object_type_checkpoint_map = 0xc

abbrev pub cpm_count_off : ℕ
cpm_count_off = 36

abbrev pub cpm_map_off : ℕ
cpm_map_off = 40

abbrev pub checkpoint_mapping_len : ℕ
checkpoint_mapping_len = 40

abbrev pub max_cpm_count : ℕ
max_cpm_count = 4096

pub record CheckpointMapping : Type 0 where
  pub oid : ℕ
  pub paddr : ℕ
  pub obj_type : ℕ
  pub subtype : ℕ

pub record LiveCheckpoint : Type 0 where
  pub superblock_paddr : ℕ
  pub xid : ℕ
  pub mappings : List CheckpointMapping

abbrev pub read_result : ReadResult → Result (Option Bytes)
read_result (filled buf) = ok (some buf)
read_result (failed unexpected_eof) = ok none
read_result (failed (other_kind k)) = err (io (other_kind k))

-- `read_block`: `none` is its `Ok(false)`, for a block past the end of the source.
unfoldable pub read_block : Reader → ℕ → ℕ → Result (Option Bytes)
read_block reader paddr block_size = elim (checked_mul paddr block_size) [
  | none ↦ ok none
  | some offset ↦ read_result (reader offset block_size)
]

-- The locals of the first loop. `best` is a transaction id and a block address.
pub record Scan : Type 0 where
  pub best : Option (ℕ × ℕ)
  pub checked : ℕ
  pub last_magic : ℕ

-- `best.is_none_or(|(bx, _)| hdr.xid > bx)`.
abbrev pub is_newer : Option (ℕ × ℕ) → ℕ → Bool
is_newer none xid = true
is_newer (some (bx, p)) xid = ltb bx xid

-- What the first loop does with a block of the superblock type.
unfoldable pub scan_superblock : ℕ → Bytes → ObjPhys → Scan → Scan
scan_superblock paddr buf hdr s =
    let seen : Scan = record s { last_magic = le_u32 buf 32 } in
    if not (le_u32 buf 32 == nx_magic)
    then seen
    else if not (fletcher64_stored buf == fletcher64_checksum buf)
    then seen
    else if is_newer s.best hdr.xid
    then record seen { best = some (hdr.xid, paddr) }
    else seen

-- The first loop's body, for a block that was read.
unfoldable pub scan_block : ℕ → Bytes → Scan → Scan
unfolding scan_superblock
scan_block paddr buf s =
    let read : Scan = record s { checked = s.checked + 1 } in
    elim (parse_obj_phys buf) [
      | none ↦ read
      | some hdr ↦
          if obj_type hdr == object_type_nx_superblock
          then scan_superblock paddr buf hdr read
          else read
    ]

-- The first loop's body: an unreadable block is passed over.
abbrev pub scan_read : ℕ → Option Bytes → Scan → Scan
scan_read paddr none s = s
scan_read paddr (some buf) s = scan_block paddr buf s

-- The entries of a checkpoint map, `for m in 0..count` with the rounds that are left.
unfoldable pub mappings_loop : Bytes → ℕ → ℕ → List CheckpointMapping
mappings_loop buf zero m = []
mappings_loop buf (suc n) m =
    let off = cpm_map_off + m * checkpoint_mapping_len in
    let mapping : CheckpointMapping = record {
      oid = le_u64 buf (off + 24);
      paddr = le_u64 buf (off + 32);
      obj_type = le_u32 buf off;
      subtype = le_u32 buf (off + 4);
    } in
    mapping ∷ mappings_loop buf n (m + 1)

-- The second loop's body, for a block that was read: the mappings that it pushes.
unfoldable pub block_mappings : ℕ → Bytes → List CheckpointMapping
unfolding mappings_loop
block_mappings xid buf = elim (parse_obj_phys buf) [
  | none ↦ []
  | some hdr ↦
      if not (obj_type hdr == object_type_checkpoint_map) || not (hdr.xid == xid)
      then []
      else if not (fletcher64_stored buf == fletcher64_checksum buf)
      then []
      else mappings_loop buf (min (le_u32 buf cpm_count_off) max_cpm_count) 0
]

module _ (reader : Reader) (desc_base block_size : ℕ) where
  -- `desc_base + i` on u64, which wraps in a release build.
  abbrev pub desc_paddr : ℕ → ℕ
  desc_paddr i = (desc_base + i) % 2 ^ 64

  -- `for i in 0..desc_blocks`, with the rounds that are left.
  unfoldable pub scan_loop : ℕ → ℕ → Scan → Result Scan
  scan_loop zero i s = ok s
  scan_loop (suc n) i s = read_block reader (desc_paddr i) block_size >>= λ block.
      scan_loop n (i + 1) (scan_read (desc_paddr i) block s)

  unfoldable pub collect_loop : ℕ → ℕ → ℕ → List CheckpointMapping → Result (List CheckpointMapping)
  collect_loop xid zero i out = ok out
  collect_loop xid (suc n) i out = read_block reader (desc_paddr i) block_size >>= λ block.
      collect_loop xid n (i + 1)
        (elim block [ none ↦ out | some buf ↦ out ++ block_mappings xid buf ])

abbrev pub start_scan : Scan
start_scan = record { best = none; checked = 0; last_magic = 0 }

-- What follows the first loop.
abbrev pub finish_best : Reader → NxSuperblock → Scan → Option (ℕ × ℕ) → Result LiveCheckpoint
finish_best reader bootstrap s none = err (no_valid_superblock s.checked s.last_magic)
finish_best reader bootstrap s (some (xid, paddr)) =
    collect_loop reader bootstrap.xp_desc_base bootstrap.block_size xid bootstrap.xp_desc_blocks 0
      []
    >>= λ mappings. ok (record { superblock_paddr = paddr; xid = xid; mappings = mappings })

unfoldable pub finish_checkpoint : Reader → NxSuperblock → Scan → Result LiveCheckpoint
unfolding collect_loop block_mappings
finish_checkpoint reader bootstrap s = finish_best reader bootstrap s s.best

-- The two loops, once the geometry is accepted.
unfoldable pub scan_ring : Reader → NxSuperblock → Result LiveCheckpoint
unfolding scan_loop scan_block finish_checkpoint
scan_ring reader bootstrap =
    scan_loop reader bootstrap.xp_desc_base bootstrap.block_size bootstrap.xp_desc_blocks 0
      start_scan
    >>= finish_checkpoint reader bootstrap

unfoldable pub resolve_live_checkpoint : Reader → NxSuperblock → Result LiveCheckpoint
unfolding scan_ring
resolve_live_checkpoint reader bootstrap =
    reject_if bootstrap.xp_desc_is_tree (checkpoint_tree_unsupported "descriptor")
    >> reject_if
        (ltb bootstrap.block_size nx_minimum_block_size
          || ltb nx_maximum_block_size bootstrap.block_size)
        (field_out_of_range "nx_superblock" "nx_block_size" bootstrap.block_size
          nx_maximum_block_size)
    >> scan_ring reader bootstrap
