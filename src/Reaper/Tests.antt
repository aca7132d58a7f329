-- ===== src/Reaper/Tests.antt =====
-- src/reaper.rs on a chain of two lists and on a list that names itself.
use newtua_apfs.Prelude.{ℕ, ◌≡◌, ◌≢◌, refl, arith, List, [], ◌∷◌, true, none}
use newtua_apfs.Bytes.{slice, from_le_bytes, le_u32, le_u64, to_le_bytes}
use newtua_apfs.Reader.{cursor, saturating_mul, read_exact_at}
use newtua_apfs.Object.{
  stamp, fletcher64_stored, fletcher64_checksum, words, fletcher_loop, fletcher_step,
  fletcher_finish,
}
use newtua_apfs.Error.{ok, err, cycle_guard}
use newtua_apfs.Btree.Walk.{contains}
use newtua_apfs.Checkpoint.{CheckpointMapping}
use newtua_apfs.Spaceman.{read_obj_block}
use newtua_apfs.Reaper.{find_mapping, list_paddr, pending_objects, nr_head, max_reap_lists}
use newtua_apfs.Reaper.Fuel.{pending_objects-ne-stuck}
use newtua_apfs.Reaper.Chain.{ReapList, ChainTo, AreNew, seen_after, pending_objects-cycle}
use newtua_apfs.Samples.{
  object_reader, spaceman_block, chunk_info_block, reaper_block, list_block, header, u32, u64,
}

abbrev mapping : ℕ → ℕ → CheckpointMapping
mapping oid paddr = record { oid = oid; paddr = paddr; obj_type = 18; subtype = 0 }

abbrev mappings : List CheckpointMapping
mappings = mapping 500 5 ∷ mapping 501 6 ∷ mapping 502 8 ∷ []

abbrev lists : List ReapList
lists =
    record { oid = 500; block = list_block 501 901 }
    ∷ record { oid = 501; block = list_block 0 902 }
    ∷ []

abbrev knot : List ReapList
knot = record { oid = 502; block = list_block 502 903 } ∷ []

reapers :
    (read_obj_block object_reader 4 128 ≡ ok (reaper_block 500))
    × (read_obj_block object_reader 7 128 ≡ ok (reaper_block 502))
unfolding object_reader spaceman_block chunk_info_block reaper_block list_block stamp header u32 u64
    to_le_bytes cursor fletcher64_stored fletcher64_checksum words fletcher_loop fletcher_step
    fletcher_finish from_le_bytes le_u32 le_u64 slice saturating_mul read_exact_at read_obj_block
reapers = (refl, refl)

knot-ChainTo : ChainTo object_reader mappings 128 (le_u64 (reaper_block 502) nr_head) knot 502
unfolding object_reader spaceman_block chunk_info_block reaper_block list_block stamp header u32 u64
    to_le_bytes cursor fletcher64_stored fletcher64_checksum words fletcher_loop fletcher_step
    fletcher_finish from_le_bytes le_u32 le_u64 slice saturating_mul read_exact_at read_obj_block
    list_paddr find_mapping
knot-ChainTo = (refl, omega arith, (8, refl, refl), refl)

knot-AreNew : AreNew object_reader mappings 128 knot []
unfolding contains
knot-AreNew = (refl, tt)

knot-closed : contains (seen_after object_reader mappings 128 knot []) 502 ≡ true
unfolding contains
knot-closed = refl

pending_objects-cycle_example :
    pending_objects object_reader mappings 128 7 ≡ err (cycle_guard max_reap_lists)
pending_objects-cycle_example =
    pending_objects-cycle object_reader mappings 128 7 (reaper_block 502) knot 502 reapers.1
      knot-ChainTo knot-AreNew (omega arith) (omega arith) knot-closed

pending_objects-ne-stuck_example : pending_objects object_reader mappings 128 7 ≢ ok none
pending_objects-ne-stuck_example = pending_objects-ne-stuck object_reader mappings 128 7
