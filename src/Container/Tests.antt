-- ===== src/Container/Tests.antt =====
-- src/container.rs on a superblock of 4096 bytes.
use newtua_apfs.Prelude.{ℕ, ◌^◌, ◌≤◌, ◌<◌, ◌≡◌, ◌↔◌, refl, ◌++◌, true, length, replicate}
use newtua_apfs.Bytes.{Bytes, AllBytes, slice, from_le_bytes, le_u32, le_u64, to_le_bytes}
use newtua_apfs.Bytes.Slices.{AllBytes-append, AllBytes-zeros}
use newtua_apfs.Bytes.Reads.{to_le_bytes-AllBytes}
use newtua_apfs.Error.{ok}
use newtua_apfs.Object.{
  stamp, fletcher64_stored, fletcher64_checksum, words, fletcher_loop, fletcher_step,
  fletcher_finish,
}
use newtua_apfs.Container.{
  parse_nx_superblock, superblock_of, nx_max_file_systems, off_xp_desc_blocks,
}
use newtua_apfs.Container.Parse.{
  IsNxBlock, geometry, parse_nx_superblock-eq-ok, AllNonzero, superblock_of-bounds,
}
use newtua_apfs.Samples.{superblock, u32, u64, header}

superblock-parses : parse_nx_superblock (superblock 6) ≡ ok (superblock_of (superblock 6))
unfolding superblock stamp header u32 u64 to_le_bytes parse_nx_superblock fletcher64_stored
    fletcher64_checksum words fletcher_loop fletcher_step fletcher_finish from_le_bytes le_u32
    le_u64 slice
superblock-parses = refl

parse_nx_superblock-eq-ok_example :
    (parse_nx_superblock (superblock 6) ≡ ok (geometry (superblock 6)))
    ↔ (IsNxBlock (superblock 6) × (geometry (superblock 6) ≡ geometry (superblock 6)))
parse_nx_superblock-eq-ok_example =
    parse_nx_superblock-eq-ok (superblock 6) (geometry (superblock 6))

abbrev crooked_block : ℕ → ℕ → ℕ → Bytes
crooked_block x y z =
    replicate 104 0 ++ (to_le_bytes 4 x ++ (replicate 72 0 ++ (to_le_bytes 4 y ++ to_le_bytes 8 z)))

crooked_block-AllBytes : (x y z : ℕ) → AllBytes (crooked_block x y z)
crooked_block-AllBytes x y z =
    let c = to_le_bytes 4 y ++ to_le_bytes 8 z in
    let b = replicate 72 0 ++ c in
    let a = to_le_bytes 4 x ++ b in
    AllBytes-append (replicate 104 0) a (AllBytes-zeros 104) (
      AllBytes-append (to_le_bytes 4 x) b (to_le_bytes-AllBytes 4 x) (
        AllBytes-append (replicate 72 0) c (AllBytes-zeros 72) (
          AllBytes-append (to_le_bytes 4 y) (to_le_bytes 8 z) (to_le_bytes-AllBytes 4 y)
            (to_le_bytes-AllBytes 8 z))))

-- The field of the descriptor area has its top bit set, and 200 volumes are claimed.
abbrev crooked : Bytes
crooked = crooked_block 0x80000005 200 9

superblock_of-bounds_example :
    let sb = superblock_of crooked in
    (sb.xp_desc_blocks < 2 ^ 31)
    × ((sb.xp_desc_is_tree ≡ true) ↔ (2 ^ 31 ≤ le_u32 crooked off_xp_desc_blocks))
    × (length sb.fs_oids ≤ nx_max_file_systems)
    × AllNonzero sb.fs_oids
superblock_of-bounds_example =
    superblock_of-bounds crooked (crooked_block-AllBytes 0x80000005 200 9)
