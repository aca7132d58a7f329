-- ===== src/Reaper/Chain.antt =====
-- src/reaper.rs, `pending_objects`: the result on a chain of reap lists that a device stores.
use newtua_apfs.Prelude.{
  ℕ, zero, suc, ◌+◌, ◌-◌, ◌≤◌, ◌<◌, ◌≡◌, ◌≢◌, ap, ◌∙◌, arith, List, [], ◌∷◌, ◌++◌, Option, true,
  false, ltb, ◌==◌, length,
}
use newtua_apfs.Bytes.{Bytes, le_u64}
use newtua_apfs.Error.{Result, ok, err, cycle_guard}
use newtua_apfs.Reader.{Reader}
use newtua_apfs.Btree.Walk.{contains}
use newtua_apfs.Checkpoint.{CheckpointMapping}
use newtua_apfs.Spaceman.{read_obj_block}
use newtua_apfs.Reaper.{
  ReapPending, list_paddr, read_entries, reap_loop, pending_objects, max_reap_lists, nrl_next,
  nr_head, in_progress,
}
use mathlib.Core.List.{append_assoc, append-nil}

-- A reap list: its ephemeral oid and its block.
pub record ReapList : Type 0 where
  pub oid : ℕ
  pub block : Bytes

module _ (reader : Reader) (mappings : List CheckpointMapping) (block_size : ℕ) where
  -- The lists are those that the chain from `oid` runs through, and it goes on at `last`.
  abbrev pub ChainTo : ℕ → List ReapList → ℕ → Type 0
  ChainTo oid [] last = oid ≡ last
  ChainTo oid (l ∷ ls) last =
      (l.oid ≡ oid)
      × (oid ≢ 0)
      × ((paddr : ℕ) × (list_paddr mappings oid ≡ ok paddr)
          × (read_obj_block reader paddr block_size ≡ ok l.block))
      × ChainTo (le_u64 l.block nrl_next) ls last

  abbrev pub all_entries : List ReapList → List ReapPending
  all_entries [] = []
  all_entries (l ∷ ls) = read_entries reader mappings block_size l.block ++ all_entries ls

  abbrev pub seen_after : List ReapList → List ℕ → List ℕ
  seen_after [] seen = seen
  seen_after (l ∷ ls) seen = seen_after ls (l.oid ∷ seen)

  -- No oid of the chain was seen before.
  abbrev pub AreNew : List ReapList → List ℕ → Type 0
  AreNew [] seen = Unit
  AreNew (l ∷ ls) seen = (contains seen l.oid ≡ false) × AreNew ls (l.oid ∷ seen)

  abbrev go : ℕ → ℕ → List ℕ → List ReapPending → Result (Option (List ReapPending))
  go = reap_loop reader mappings block_size

  reap_loop-round :
      (fuel oid : ℕ) (seen : List ℕ) (out : List ReapPending) (paddr : ℕ) (block : Bytes)
      → oid ≢ 0
      → contains seen oid ≡ false
      → length seen < max_reap_lists
      → list_paddr mappings oid ≡ ok paddr
      → read_obj_block reader paddr block_size ≡ ok block
      → go (suc fuel) oid seen out
        ≡ go fuel
            (le_u64 block nrl_next)
            (oid ∷ seen)
            (out ++ read_entries reader mappings block_size block)
  unfolding reap_loop
  reap_loop-round fuel oid seen out paddr block some_oid new room mapped read =
      let running : (oid == 0) ≡ false = ground arith in
      let below : ltb max_reap_lists (length seen + 1) ≡ false = ground arith in
      rw (running, new, below, mapped, read)

  reap_loop-ChainTo :
      (ls : List ReapList) (fuel k oid last : ℕ) (seen : List ℕ) (out : List ReapPending)
      → fuel ≡ length ls + k
      → ChainTo oid ls last
      → AreNew ls seen
      → length seen + length ls ≤ max_reap_lists
      → go fuel oid seen out ≡ go k last (seen_after ls seen) (out ++ all_entries ls)
  reap_loop-ChainTo [] fuel k oid last seen out e chain new room =
      let e' : fuel ≡ k = omega arith in rw (e', chain, append-nil)
  reap_loop-ChainTo (l ∷ ls) zero k oid last seen out e chain new room = absurd (omega arith)
  reap_loop-ChainTo (l ∷ ls) (suc fuel) k oid last seen out e chain new room =
      let (paddr, mapped, read) = chain.2 in
      rw (← chain.0) (
        reap_loop-round fuel l.oid seen out paddr l.block (rw chain.0 chain.1) new.0 (omega arith)
          (rw chain.0 mapped) read
        ∙ reap_loop-ChainTo ls fuel k (le_u64 l.block nrl_next) last (l.oid ∷ seen)
            (out ++ read_entries reader mappings block_size l.block) (omega arith) chain.3 new.1
            (omega arith)
        ∙ ap (go k last (seen_after ls (l.oid ∷ seen)))
            (append_assoc out (read_entries reader mappings block_size l.block) (all_entries ls)))

  reap_loop-repeat :
      (k oid : ℕ) (seen : List ℕ) (out : List ReapPending)
      → oid ≢ 0
      → contains seen oid ≡ true
      → go (suc k) oid seen out ≡ err (cycle_guard max_reap_lists)
  unfolding reap_loop
  reap_loop-repeat k oid seen out some_oid old =
      let running : (oid == 0) ≡ false = ground arith in rw (running, old)

pending_objects-walked :
    (reader : Reader) (mappings : List CheckpointMapping) (block_size reaper_paddr : ℕ)
    (reaper : Bytes) (ls : List ReapList) (last : ℕ)
    → read_obj_block reader reaper_paddr block_size ≡ ok reaper
    → ChainTo reader mappings block_size (le_u64 reaper nr_head) ls last
    → AreNew reader mappings block_size ls []
    → length ls ≤ max_reap_lists
    → pending_objects reader mappings block_size reaper_paddr
      ≡ reap_loop reader mappings block_size
          (suc (max_reap_lists - length ls))
          last
          (seen_after reader mappings block_size ls [])
          (in_progress reaper ++ all_entries reader mappings block_size ls)
unfolding pending_objects
pending_objects-walked reader mappings block_size reaper_paddr reaper ls last read chain new room =
    let k = suc (max_reap_lists - length ls) in
    rw (read, pending_objects)
      (reap_loop-ChainTo reader mappings block_size ls (max_reap_lists + 1) k
        (le_u64 reaper nr_head) last [] (in_progress reaper) (omega arith) chain new (omega arith))

-- On a reaper whose chain of at most 4096 stored and mapped lists leads back to one of its lists,
-- the walk is refused by the cycle guard.
pub pending_objects-cycle :
    (reader : Reader) (mappings : List CheckpointMapping) (block_size reaper_paddr : ℕ)
    (reaper : Bytes) (ls : List ReapList) (last : ℕ)
    → read_obj_block reader reaper_paddr block_size ≡ ok reaper
    → ChainTo reader mappings block_size (le_u64 reaper nr_head) ls last
    → AreNew reader mappings block_size ls []
    → length ls ≤ max_reap_lists
    → last ≢ 0
    → contains (seen_after reader mappings block_size ls []) last ≡ true
    → pending_objects reader mappings block_size reaper_paddr ≡ err (cycle_guard max_reap_lists)
pending_objects-cycle reader mappings block_size reaper_paddr reaper ls last read chain new room
      some_oid old =
    pending_objects-walked reader mappings block_size reaper_paddr reaper ls last read chain new
      room
    ∙ reap_loop-repeat reader mappings block_size (max_reap_lists - length ls) last
        (seen_after reader mappings block_size ls [])
        (in_progress reaper ++ all_entries reader mappings block_size ls) some_oid old
