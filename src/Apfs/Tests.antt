-- ===== src/Apfs/Tests.antt =====
-- src/lib.rs on a container of two checkpoints.
use newtua_apfs.Prelude.{ℕ, ◌≡◌, ◌^◌, refl, arith, [], ◌∷◌, some, true, false}
use newtua_apfs.Bytes.{slice, from_le_bytes, arr, le_u16, le_u32, le_u64, to_le_bytes}
use newtua_apfs.Error.{ok}
use newtua_apfs.Reader.{cursor, checked_mul, saturating_mul, read_exact_at}
use newtua_apfs.Object.{
  stamp, fletcher64_stored, fletcher64_checksum, words, fletcher_loop, fletcher_step,
  fletcher_finish, parse_obj_phys, obj_type,
}
use newtua_apfs.Container.{NxSuperblock, parse_nx_superblock, superblock_of, fs_oids_loop}
use newtua_apfs.Fusion.{is_fusion}
use newtua_apfs.Checkpoint.{
  read_block, scan_superblock, scan_block, scan_loop, mappings_loop, block_mappings, collect_loop,
  finish_checkpoint, scan_ring, resolve_live_checkpoint,
}
use newtua_apfs.Checkpoint.RingScan.{IsLatest}
use newtua_apfs.Checkpoint.Live.{Superblocks}
use newtua_apfs.Apfs.{ApfsContainer, open_container, open_bootstrap, reread}
use newtua_apfs.Apfs.Open.{IsBootstrap, open_container-IsLatest}
use newtua_apfs.Apfs.{volume_superblock_addrs, container_omap}
use newtua_apfs.Apfs.Volumes.{Outcome, volume_superblock_addrs-Outcome}
use newtua_apfs.Btree.Node.{
  omap, is_leaf, is_root, is_fixed_kv, fixed_key_len, fixed_leaf_val_len, fixed_branch_val_len,
  parse_node_header, node_layout, toc_entry, entries_loop, node_entries, read_verified_node,
}
use newtua_apfs.Btree.Tree.{NodeAt}
use newtua_apfs.Btree.Walk.{contains}
use newtua_apfs.Btree.Descent.{IsAcyclic}
use newtua_apfs.Btree.Order.{IsOrdered}
use newtua_apfs.Omap.{parse_object_map, parse_typed}
use newtua_apfs.Omap.Resolve.{rank}
use newtua_apfs.Omap.Tests.{key-AllBytes}
use newtua_apfs.Samples.{
  map_reader, map_block, map_leaf, map_tree, entry, key, value, node, u16, ring_reader, superblock,
  u32, u64, header,
}

abbrev opened : ApfsContainer
opened = record {
  reader = ring_reader;
  superblock = superblock_of (superblock 6);
  live_superblock_paddr = 1;
  checkpoint_mappings = [];
}

opens : open_container ring_reader ≡ ok opened
unfolding ring_reader superblock stamp header u32 u64 to_le_bytes cursor parse_nx_superblock
    fletcher64_stored fletcher64_checksum words fletcher_loop fletcher_step fletcher_finish
    from_le_bytes arr le_u32 le_u64 slice superblock_of fs_oids_loop parse_obj_phys obj_type
    checked_mul saturating_mul read_exact_at read_block scan_superblock scan_block scan_loop
    mappings_loop block_mappings collect_loop finish_checkpoint scan_ring resolve_live_checkpoint
    is_fusion reread open_bootstrap open_container
opens = refl

open_container-IsLatest_example :
    (bootstrap : NxSuperblock) × IsBootstrap ring_reader bootstrap
    × (is_fusion bootstrap ≡ false)
    × IsLatest
        (Superblocks ring_reader bootstrap)
        (some (opened.superblock.xid, opened.live_superblock_paddr))
open_container-IsLatest_example = open_container-IsLatest ring_reader opened opens

abbrev mapped : ApfsContainer
mapped = record {
  reader = map_reader;
  superblock = record {
    xid = 6;
    uuid = [];
    block_size = 4096;
    block_count = 64;
    incompatible_features = 0;
    xp_desc_base = 1;
    xp_desc_blocks = 2;
    xp_data_base = 3;
    xp_data_blocks = 1;
    omap_oid = 0;
    reaper_oid = 0;
    spaceman_oid = 0;
    fs_oids = 1026 ∷ 1027 ∷ [];
    xp_desc_is_tree = false;
    xp_data_is_tree = false;
  };
  live_superblock_paddr = 1;
  checkpoint_mappings = [];
}

map_leaf-NodeAt : NodeAt map_reader 4096 omap 1 true (entry 1026 3 80 ∷ entry 1027 9 81 ∷ [])
unfolding map_reader map_block map_leaf u16 u32 u64 key value entry stamp node header to_le_bytes
    cursor slice checked_mul read_exact_at read_verified_node fletcher64_stored fletcher64_checksum
    words fletcher_loop fletcher_step fletcher_finish from_le_bytes le_u16 le_u32 le_u64
    parse_node_header is_leaf is_root is_fixed_kv fixed_key_len fixed_leaf_val_len
    fixed_branch_val_len node_layout toc_entry entries_loop node_entries
map_leaf-NodeAt = record {
  buf = map_leaf;
  hdr = record { flags = 6; level = 0; nkeys = 2 };
  verified = refl;
  headed = refl;
  kind = refl;
  holds = refl;
}

map_parses :
    container_omap mapped
    ≡ ok (record { flags = 0; tree_type = 0x40000002; tree_oid = 1; snapshot_tree_oid = 0 })
unfolding map_reader map_block map_leaf u16 u32 u64 key value stamp node header to_le_bytes cursor
    slice saturating_mul read_exact_at container_omap parse_object_map parse_typed parse_obj_phys
    obj_type fletcher64_stored fletcher64_checksum words fletcher_loop fletcher_step fletcher_finish
    from_le_bytes le_u32 le_u64
map_parses = refl

map_tree-IsAcyclic : IsAcyclic map_tree []
unfolding contains
map_tree-IsAcyclic = refl

abbrev top : ℕ
top = 2 ^ 128

map_tree-IsOrdered : IsOrdered rank 0 top map_tree
unfolding entry key value u64 u32 to_le_bytes le_u64 slice from_le_bytes
map_tree-IsOrdered = (
  key-AllBytes 1026 3,
  omega arith,
  omega arith,
  (key-AllBytes 1027 9, omega arith, omega arith, omega arith),
)

volume_superblock_addrs-Outcome_example :
    Outcome
      (record { flags = 0; tree_type = 0x40000002; tree_oid = 1; snapshot_tree_oid = 0 })
      map_reader
      6
      4096
      0
      top
      map_tree
      (1026 ∷ 1027 ∷ [])
      (volume_superblock_addrs mapped)
volume_superblock_addrs-Outcome_example =
    volume_superblock_addrs-Outcome mapped
      (record { flags = 0; tree_type = 0x40000002; tree_oid = 1; snapshot_tree_oid = 0 }) 0 top
      map_tree (omega arith) (omega arith) map_parses refl (omega arith) map_leaf-NodeAt
      (omega arith) map_tree-IsAcyclic map_tree-IsOrdered
