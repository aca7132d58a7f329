-- ===== src/Checkpoint/Tests.antt =====
-- src/checkpoint.rs on a ring of two superblocks.
use newtua_apfs.Prelude.{◌≡◌, refl, arith, [], ◌∷◌, some, false}
use newtua_apfs.Bytes.{slice, from_le_bytes, arr, le_u32, le_u64, to_le_bytes}
use newtua_apfs.Error.{ok}
use newtua_apfs.Reader.{cursor, checked_mul, saturating_mul, read_exact_at}
use newtua_apfs.Object.{
  stamp, fletcher64_stored, fletcher64_checksum, words, fletcher_loop, fletcher_step,
  fletcher_finish, parse_obj_phys, obj_type,
}
use newtua_apfs.Container.{NxSuperblock, parse_nx_superblock, superblock_of, fs_oids_loop}
use newtua_apfs.Checkpoint.{
  LiveCheckpoint, read_block, scan_superblock, scan_block, scan_loop, mappings_loop, block_mappings,
  collect_loop, finish_checkpoint, scan_ring, resolve_live_checkpoint,
}
use newtua_apfs.Checkpoint.RingScan.{IsLatest}
use newtua_apfs.Checkpoint.Live.{
  Superblocks, EndsOnly, resolve_live_checkpoint-IsLatest, resolve_live_checkpoint-found,
}
use newtua_apfs.Checkpoint.Mappings.{AllMappings, IsMapped, resolve_live_checkpoint-IsMapped}
use newtua_apfs.Samples.{mapped_reader, map_entries, ring_reader, superblock, u32, u64, header}

abbrev bootstrap : NxSuperblock
bootstrap = superblock_of (superblock 2)

abbrev live : LiveCheckpoint
live = record { superblock_paddr = 1; xid = 6; mappings = [] }

resolved : resolve_live_checkpoint ring_reader bootstrap ≡ ok live
unfolding ring_reader superblock stamp header u32 u64 to_le_bytes cursor parse_nx_superblock
    fletcher64_stored fletcher64_checksum words fletcher_loop fletcher_step fletcher_finish
    from_le_bytes arr le_u32 le_u64 slice superblock_of fs_oids_loop parse_obj_phys obj_type
    checked_mul saturating_mul read_exact_at read_block scan_superblock scan_block scan_loop
    mappings_loop block_mappings collect_loop finish_checkpoint scan_ring resolve_live_checkpoint
resolved = refl

resolve_live_checkpoint-IsLatest_example :
    IsLatest (Superblocks ring_reader bootstrap) (some (6, 1))
resolve_live_checkpoint-IsLatest_example =
    resolve_live_checkpoint-IsLatest ring_reader bootstrap live resolved

ring_reader-EndsOnly : EndsOnly ring_reader
unfolding ring_reader cursor
ring_reader-EndsOnly offset len e h = ground arith

second : Superblocks ring_reader bootstrap 4 2
unfolding ring_reader superblock stamp header u32 u64 to_le_bytes cursor parse_nx_superblock
    fletcher64_stored fletcher64_checksum words fletcher_loop fletcher_step fletcher_finish
    from_le_bytes arr le_u32 le_u64 slice superblock_of fs_oids_loop parse_obj_phys obj_type
    checked_mul saturating_mul read_exact_at read_block scan_superblock scan_block scan_loop
    mappings_loop block_mappings collect_loop finish_checkpoint scan_ring resolve_live_checkpoint
second = record {
  slot = 1;
  buf = superblock 4;
  early = omega arith;
  readable = refl;
  superblock = record {
    hdr = record {
      cksum = le_u64 (superblock 4) 0;
      oid = 1;
      xid = 4;
      obj_type_raw = 0x80000001;
      subtype = 0;
    };
    headed = refl;
    typed = refl;
    magic = refl;
    sealed = refl;
    stamped = refl;
  };
  placed = refl;
}

shape : (bootstrap.xp_desc_is_tree ≡ false) × (bootstrap.block_size ≡ 4096)
unfolding ring_reader superblock stamp header u32 u64 to_le_bytes cursor parse_nx_superblock
    fletcher64_stored fletcher64_checksum words fletcher_loop fletcher_step fletcher_finish
    from_le_bytes arr le_u32 le_u64 slice superblock_of fs_oids_loop parse_obj_phys obj_type
    checked_mul saturating_mul read_exact_at read_block scan_superblock scan_block scan_loop
    mappings_loop block_mappings collect_loop finish_checkpoint scan_ring resolve_live_checkpoint
shape = (refl, refl)

resolve_live_checkpoint-found_example :
    (l : LiveCheckpoint) × (resolve_live_checkpoint ring_reader bootstrap ≡ ok l)
resolve_live_checkpoint-found_example =
    resolve_live_checkpoint-found ring_reader bootstrap 4 2 ring_reader-EndsOnly shape.0
      (omega (arith, shape.1)) (omega (arith, shape.1)) second

abbrev live_mapped : LiveCheckpoint
live_mapped = record {
  superblock_paddr = 2;
  xid = 6;
  mappings = record { oid = 1024; paddr = 9; obj_type = 0x80000005; subtype = 0 } ∷ [];
}

resolved_mapped : resolve_live_checkpoint mapped_reader bootstrap ≡ ok live_mapped
unfolding mapped_reader map_entries superblock stamp header u32 u64 to_le_bytes cursor
    parse_nx_superblock fletcher64_stored fletcher64_checksum words fletcher_loop fletcher_step
    fletcher_finish from_le_bytes arr le_u32 le_u64 slice superblock_of fs_oids_loop parse_obj_phys
    obj_type checked_mul saturating_mul read_exact_at read_block scan_superblock scan_block
    scan_loop mappings_loop block_mappings collect_loop finish_checkpoint scan_ring
    resolve_live_checkpoint
resolved_mapped = refl

resolve_live_checkpoint-IsMapped_example :
    AllMappings
      (IsMapped mapped_reader bootstrap.xp_desc_base bootstrap.block_size bootstrap.xp_desc_blocks
        6)
      (record { oid = 1024; paddr = 9; obj_type = 0x80000005; subtype = 0 } ∷ [])
resolve_live_checkpoint-IsMapped_example =
    resolve_live_checkpoint-IsMapped mapped_reader bootstrap live_mapped resolved_mapped
