-- ===== src/Omap/Tests.antt =====
-- src/omap.rs on an object map of two leaves.
use newtua_apfs.Prelude.{ℕ, ◌*◌, ◌↔◌, ◌^◌, ◌≡◌, refl, arith, ◌++◌, Option, none, inl}
use newtua_apfs.Bytes.{Bytes, AllBytes, slice, from_le_bytes, le_u32, le_u64, to_le_bytes}
use newtua_apfs.Bytes.Slices.{AllBytes-append}
use newtua_apfs.Bytes.Reads.{to_le_bytes-AllBytes}
use newtua_apfs.Error.{ok, ok_or, omap_unresolved, ◌>>=◌}
use newtua_apfs.Btree.Node.{omap}
use newtua_apfs.Btree.Walk.{for_each_leaf_entry}
use newtua_apfs.Btree.Tree.{entries_of}
use newtua_apfs.Btree.Order.{IsOrdered}
use newtua_apfs.Btree.Tests.{node_tree-Stored, node_tree-IsFresh, node_tree-IsAcyclic}
use newtua_apfs.Object.{
  stamp, fletcher64_stored, fletcher64_checksum, words, fletcher_loop, fletcher_step,
  fletcher_finish, parse_obj_phys, obj_type,
}
use newtua_apfs.Omap.{OmapEntry, resolve, keep_best, parse_object_map, parse_typed}
use newtua_apfs.Omap.Resolve.{IsAnswer, rank, resolve-IsAnswer}
use newtua_apfs.Omap.FullWalk.{resolve-full_walk}
use newtua_apfs.Omap.Parse.{IsOmapBlock, object_map_of, parse_object_map-eq-ok}
use newtua_apfs.Samples.{node_reader, node_tree, node_omap, entry, key, value, u32, u64, header}

abbrev top : ℕ
top = 2 ^ 64 * 2 ^ 64

pub key-AllBytes : (oid xid : ℕ) → AllBytes (key oid xid)
unfolding key u64
key-AllBytes oid xid =
    AllBytes-append (to_le_bytes 8 oid) (to_le_bytes 8 xid) (to_le_bytes-AllBytes 8 oid)
      (to_le_bytes-AllBytes 8 xid)

pub node_tree-IsOrdered : IsOrdered rank 0 top node_tree
unfolding entry key value u64 u32 to_le_bytes le_u64 slice from_le_bytes
node_tree-IsOrdered = (
  key-AllBytes 7 1,
  omega arith,
  (
    key-AllBytes 7 1,
    omega arith,
    omega arith,
    (key-AllBytes 7 5, omega arith, omega arith, omega arith),
  ),
  (entry 7 1 40, inl refl, refl),
  (
    key-AllBytes 9 2,
    omega arith,
    (
      key-AllBytes 9 2,
      omega arith,
      omega arith,
      (key-AllBytes 9 6, omega arith, omega arith, omega arith),
    ),
    (entry 9 2 50, inl refl, refl),
    omega arith,
  ),
)

resolve-IsAnswer_example :
    (best : Option OmapEntry) × (resolve node_omap node_reader 9 5 128
      ≡ ok_or best (omap_unresolved 9 5))
    × IsAnswer 9 5 (entries_of node_tree) best
resolve-IsAnswer_example =
    resolve-IsAnswer node_omap node_reader 9 5 128 0 top node_tree refl (omega arith)
      node_tree-Stored (omega arith) node_tree-IsAcyclic node_tree-IsOrdered

resolve-full_walk_example : resolve node_omap node_reader 7 9 128 ≡ (
    for_each_leaf_entry node_reader 128 omap (keep_best 7 9) 1 none >>= λ best.
    ok_or best (omap_unresolved 7 9))
resolve-full_walk_example =
    resolve-full_walk node_omap node_reader 7 9 128 0 top node_tree refl (omega arith)
      node_tree-Stored (omega arith) node_tree-IsFresh node_tree-IsOrdered

-- A header block of an object map.
unfoldable omap_block : Bytes
unfolding stamp header u32 u64
omap_block =
    stamp (header 3 8 0x4000000b ++ u32 0 ++ u32 0 ++ u32 0x40000002 ++ u32 0 ++ u64 77 ++ u64 0)

parse_object_map-eq-ok_example :
    (parse_object_map omap_block ≡ ok (object_map_of omap_block))
    ↔ (IsOmapBlock omap_block × (object_map_of omap_block ≡ object_map_of omap_block))
parse_object_map-eq-ok_example = parse_object_map-eq-ok omap_block (object_map_of omap_block)

-- The header block parses to its tree's oid.
parsed_tree_oid : parse_object_map omap_block >>= (λ om. ok om.tree_oid) ≡ ok 77
unfolding omap_block stamp header u32 u64 to_le_bytes parse_object_map parse_typed parse_obj_phys
    obj_type fletcher64_stored fletcher64_checksum words fletcher_loop fletcher_step fletcher_finish
    from_le_bytes le_u32 le_u64 slice
parsed_tree_oid = refl
