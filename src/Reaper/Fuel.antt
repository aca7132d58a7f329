-- ===== src/Reaper/Fuel.antt =====
-- src/reaper.rs, `pending_objects`: the chain of reap lists is walked to an end, or refused.
use newtua_apfs.Prelude.{
  ℕ, zero, suc, ◌+◌, ◌≤◌, ◌<◌, ◌≢◌, arith, List, [], ◌∷◌, ◌++◌, Option, none, ◌||◌, ltb, ◌==◌,
  length, Bool-cases, inl, inr,
}
use newtua_apfs.Bytes.{le_u64}
use newtua_apfs.Error.{Result, ok, >>=-eq-ok}
use newtua_apfs.Reader.{Reader}
use newtua_apfs.Btree.Walk.{contains}
use newtua_apfs.Checkpoint.{CheckpointMapping}
use newtua_apfs.Spaceman.{read_obj_block}
use newtua_apfs.Reaper.{
  ReapPending, list_paddr, read_entries, reap_loop, pending_objects, max_reap_lists, nrl_next,
  nr_head, in_progress,
}

module _ (reader : Reader) (mappings : List CheckpointMapping) (block_size : ℕ) where
  abbrev go : ℕ → ℕ → List ℕ → List ReapPending → Result (Option (List ReapPending))
  go = reap_loop reader mappings block_size

  reap_loop-ne-stuck :
      (fuel next_oid : ℕ) (seen : List ℕ) (out : List ReapPending)
      → length seen ≤ max_reap_lists
      → max_reap_lists < length seen + fuel
      → go fuel next_oid seen out ≢ ok none
  unfolding reap_loop
  reap_loop-ne-stuck zero next_oid seen out bound room h = omega arith
  reap_loop-ne-stuck (suc fuel) next_oid seen out bound room h = elim (Bool-cases (next_oid == 0)) [
    | inl done ↦ cc (rw done at h)
    | inr more ↦
        elim (Bool-cases (contains seen next_oid || ltb max_reap_lists (length seen + 1))) [
          | inl guarded ↦ cc (rw (more, guarded) at h)
          | inr free ↦
              let run = rw (more, free) at h in
              let (paddr, _, run') = >>=-eq-ok (list_paddr mappings next_oid) _ run in
              let (list, _, run'') = >>=-eq-ok (read_obj_block reader paddr block_size) _ run' in
              reap_loop-ne-stuck fuel (le_u64 list nrl_next) (next_oid ∷ seen)
                (out ++ read_entries reader mappings block_size list) (ground arith) (omega arith)
                run''
        ]
  ]

-- On every device and for every set of mappings, cyclic chains included, the walk over the reap
-- lists comes to an end within 4097 rounds: it returns the pending objects or an error.
pub pending_objects-ne-stuck :
    (reader : Reader) (mappings : List CheckpointMapping) (block_size reaper_paddr : ℕ)
    → pending_objects reader mappings block_size reaper_paddr ≢ ok none
unfolding pending_objects
pending_objects-ne-stuck reader mappings block_size reaper_paddr h =
    let (reaper, _, run) = >>=-eq-ok (read_obj_block reader reaper_paddr block_size) _ h in
    reap_loop-ne-stuck reader mappings block_size (max_reap_lists + 1) (le_u64 reaper nr_head) []
      (in_progress reaper) (omega arith) (omega arith) run
