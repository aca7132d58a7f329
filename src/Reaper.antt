-- ===== src/Reaper.antt =====
-- src/reaper.rs: the objects that are queued for deletion, through the chain of reap lists.
pub mod Fuel
pub mod Chain
mod Tests
use newtua_apfs.Prelude.{
  ℕ, zero, suc, ◌+◌, ◌-◌, ◌*◌, ◌/◌, min, List, [], ◌∷◌, ◌++◌, Option, none, some, ◌||◌, ltb, ◌==◌,
  length, if◌then◌else◌,
}
use newtua_apfs.Bytes.{Bytes, le_u32, le_u64}
use newtua_apfs.Error.{Result, ok, err, ◌>>=◌, ok_or, cycle_guard, omap_unresolved}
use newtua_apfs.Reader.{Reader}
use newtua_apfs.Btree.Walk.{contains}
use newtua_apfs.Checkpoint.{CheckpointMapping}
use newtua_apfs.Spaceman.{read_obj_block}

pub record ReapPending : Type 0 where
  pub oid : ℕ
  pub obj_type : ℕ

abbrev pub nr_head : ℕ
nr_head = 48

abbrev pub nr_type : ℕ
nr_type = 72

abbrev pub nr_oid : ℕ
nr_oid = 88

abbrev pub nrl_next : ℕ
nrl_next = 32

abbrev pub nrl_count : ℕ
nrl_count = 48

abbrev pub nrl_entries : ℕ
nrl_entries = 64

abbrev pub nrle_len : ℕ
nrle_len = 40

abbrev pub nrle_type : ℕ
nrle_type = 8

abbrev pub nrle_oid : ℕ
nrle_oid = 24

abbrev pub max_reap_lists : ℕ
max_reap_lists = 4096

-- `mappings.iter().find(|m| m.oid == oid).map(|m| m.paddr)`
unfoldable pub find_mapping : List CheckpointMapping → ℕ → Option ℕ
find_mapping [] oid = none
find_mapping (m ∷ ms) oid = if m.oid == oid then some m.paddr else find_mapping ms oid

-- `for i in 0..count`, with the rounds that are left: the entries that are pushed.
unfoldable pub list_entries : Bytes → ℕ → ℕ → List ReapPending
list_entries list zero i = []
list_entries list (suc n) i =
    let e = nrl_entries + i * nrle_len in
    let oid = le_u64 list (e + nrle_oid) in
    let rest = list_entries list n (i + 1) in
    if oid == 0 then rest else record { oid = oid; obj_type = le_u32 list (e + nrle_type) } ∷ rest

-- The object whose reaping is in progress, if any.
unfoldable pub in_progress : Bytes → List ReapPending
in_progress reaper =
    let oid = le_u64 reaper nr_oid in
    if oid == 0 then [] else record { oid = oid; obj_type = le_u32 reaper nr_type } ∷ []

-- The mapping's address; the error of an oid that no mapping resolves.
unfoldable pub list_paddr : List CheckpointMapping → ℕ → Result ℕ
unfolding find_mapping
list_paddr mappings oid = ok_or (find_mapping mappings oid) (omap_unresolved oid 0)

module _ (reader : Reader) (mappings : List CheckpointMapping) (block_size : ℕ) where
  abbrev pub max_entries : ℕ
  max_entries = (block_size - nrl_entries) / nrle_len

  -- The entries of one list, as many as it counts and a block can hold.
  unfoldable pub read_entries : Bytes → List ReapPending
  unfolding list_entries
  read_entries list = list_entries list (min (le_u32 list nrl_count) max_entries) 0

  -- `while next_oid != 0`, on fuel; `ok none` says that the fuel ran out. The set is taken before
  -- `insert`, so `seen.len()` behind it is one more.
  unfoldable pub reap_loop : ℕ → ℕ → List ℕ → List ReapPending → Result (Option (List ReapPending))
  reap_loop zero next_oid seen out = if next_oid == 0 then ok (some out) else ok none
  reap_loop (suc fuel) next_oid seen out =
      let more : Result (Option (List ReapPending)) = list_paddr mappings next_oid >>= λ paddr.
      read_obj_block reader paddr block_size >>= λ list.
      reap_loop fuel (le_u64 list nrl_next) (next_oid ∷ seen) (out ++ read_entries list) in
      if next_oid == 0
      then ok (some out)
      else if contains seen next_oid || ltb max_reap_lists (length seen + 1)
      then err (cycle_guard max_reap_lists)
      else more

  -- Each round adds an oid to the set, and a set of more than `MAX_REAP_LISTS` ends the loop.
  unfoldable pub pending_objects : ℕ → Result (Option (List ReapPending))
  pending_objects reaper_paddr = read_obj_block reader reaper_paddr block_size >>= λ reaper.
      reap_loop (max_reap_lists + 1) (le_u64 reaper nr_head) [] (in_progress reaper)
