-- ===== src/Btree/Tests.antt =====
-- src/btree.rs on a tree of two leaves.
use newtua_apfs.Prelude.{
  ltb, length, if◌then◌else◌, ℕ, ◌≡◌, refl, arith, List, [], ◌∷◌, suc, ◌^◌, min, true, false, foldl,
  Ordering, compare,
}
use newtua_apfs.Bytes.{Bytes, slice, from_le_bytes, le_u16, le_u32, le_u64, to_le_bytes}
use newtua_apfs.Error.{ok}
use newtua_apfs.Reader.{cursor, checked_mul, read_exact_at}
use newtua_apfs.Object.{
  fletcher64_stored, fletcher64_checksum, words, fletcher_loop, fletcher_step, stamp,
  fletcher_finish,
}
use newtua_apfs.Btree.Node.{
  omap, is_leaf, is_root, is_fixed_kv, fixed_key_len, fixed_leaf_val_len, fixed_branch_val_len,
  parse_node_header, node_layout, toc_entry, entries_loop, node_entries, read_verified_node,
}
use newtua_apfs.Btree.Tree.{Stored, NodeAt, entries_of, IsFresh}
use newtua_apfs.Btree.Walk.{contains, Visitor}
use newtua_apfs.Btree.Descent.{IsAcyclic, find_leaf-Stored, landing}
use newtua_apfs.Btree.FullWalk.{for_each_leaf_entry-Stored}
use newtua_apfs.Btree.Entries.{node_entries-decode_toc, decode_toc, toc_capacity}
use newtua_apfs.Btree.Toc.{layout_of}
use newtua_apfs.Btree.Walk.{for_each_leaf_entry, find_leaf}
use newtua_apfs.Btree.Node.{Entry}
use newtua_apfs.Samples.{
  node_reader, node_tree, entry, index_node, leaf_node, last_node, leaf_block, index_block, u16,
  u32, u64, key, value, node, header,
}

read_leaf : NodeAt node_reader 128 omap 2 true (entry 7 1 40 ∷ entry 7 5 41 ∷ [])
unfolding node_reader leaf_node last_node index_node leaf_block index_block u16 u32 u64 key value
    entry stamp node header to_le_bytes cursor slice checked_mul read_exact_at read_verified_node
    fletcher64_stored fletcher64_checksum words fletcher_loop fletcher_step fletcher_finish
    from_le_bytes le_u16 le_u32 le_u64 parse_node_header is_leaf is_root is_fixed_kv fixed_key_len
    fixed_leaf_val_len fixed_branch_val_len node_layout toc_entry entries_loop node_entries
read_leaf = record {
  buf = leaf_node;
  hdr = record { flags = 6; level = 0; nkeys = 2 };
  verified = refl;
  headed = refl;
  kind = refl;
  holds = refl;
}

read_last : NodeAt node_reader 128 omap 3 true (entry 9 2 50 ∷ entry 9 6 51 ∷ [])
unfolding node_reader leaf_node last_node index_node leaf_block index_block u16 u32 u64 key value
    entry stamp node header to_le_bytes cursor slice checked_mul read_exact_at read_verified_node
    fletcher64_stored fletcher64_checksum words fletcher_loop fletcher_step fletcher_finish
    from_le_bytes le_u16 le_u32 le_u64 parse_node_header is_leaf is_root is_fixed_kv fixed_key_len
    fixed_leaf_val_len fixed_branch_val_len node_layout toc_entry entries_loop node_entries
read_last = record {
  buf = last_node;
  hdr = record { flags = 6; level = 0; nkeys = 2 };
  verified = refl;
  headed = refl;
  kind = refl;
  holds = refl;
}

-- The entries of the index node.
abbrev separators : List Entry
separators = record { key = key 7 1; value = u64 2 } ∷ record { key = key 9 2; value = u64 3 } ∷ []

read_index : NodeAt node_reader 128 omap 1 false separators
unfolding node_reader leaf_node last_node index_node leaf_block index_block u16 u32 u64 key value
    entry stamp node header to_le_bytes cursor slice checked_mul read_exact_at read_verified_node
    fletcher64_stored fletcher64_checksum words fletcher_loop fletcher_step fletcher_finish
    from_le_bytes le_u16 le_u32 le_u64 parse_node_header is_leaf is_root is_fixed_kv fixed_key_len
    fixed_leaf_val_len fixed_branch_val_len node_layout toc_entry entries_loop node_entries
read_index = record {
  buf = index_node;
  hdr = record { flags = 4; level = 1; nkeys = 2 };
  verified = refl;
  headed = refl;
  kind = refl;
  holds = refl;
}

named : (le_u64 (u64 2) 0 ≡ 2) × (le_u64 (u64 3) 0 ≡ 3)
unfolding u64 to_le_bytes le_u64 slice from_le_bytes
named = (refl, refl)

pub node_tree-Stored : Stored node_reader 128 omap node_tree
node_tree-Stored =
    ((separators, read_index, (refl, named.0, (refl, named.1, tt))), (read_leaf, (read_last, tt)))

pub node_tree-IsFresh : IsFresh node_tree []
unfolding contains
node_tree-IsFresh = (refl, (refl, (refl, tt)))

pub node_tree-IsAcyclic : IsAcyclic node_tree []
unfolding contains
node_tree-IsAcyclic = (refl, (refl, (refl, tt)))

-- A visitor that counts.
abbrev count : Visitor ℕ
count n e = suc n

for_each_leaf_entry-Stored_example :
    for_each_leaf_entry node_reader 128 omap count 1 0 ≡ ok (foldl count 0 (entries_of node_tree))
for_each_leaf_entry-Stored_example =
    for_each_leaf_entry-Stored node_reader 128 omap count node_tree 0 node_tree-Stored (omega arith)
      node_tree-IsFresh

abbrev by_oid : Bytes → Ordering
by_oid k = compare (le_u64 k 0) 9

find_leaf-Stored_example :
    find_leaf node_reader 128 omap by_oid count 1 0 ≡ ok (foldl count 0 (landing by_oid node_tree))
find_leaf-Stored_example =
    find_leaf-Stored node_reader 128 omap by_oid count node_tree 0 node_tree-Stored (omega arith)
      node_tree-IsAcyclic

node_entries-decode_toc_example : node_entries leaf_node omap ≡ (
    if ltb (length leaf_node) 56
    then []
    else decode_toc leaf_node
        (layout_of leaf_node omap)
        (min
          (min (le_u32 leaf_node 36) (2 ^ 20))
          (toc_capacity leaf_node (layout_of leaf_node omap)))
        0)
node_entries-decode_toc_example = node_entries-decode_toc leaf_node omap
