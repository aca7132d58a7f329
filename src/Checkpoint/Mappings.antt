-- ===== src/Checkpoint/Mappings.antt =====
-- src/checkpoint.rs, the second loop of `resolve_live_checkpoint`: where the mappings come from.
use newtua_apfs.Prelude.{
  ℕ, zero, suc, ◌+◌, ◌*◌, ◌≤◌, ◌<◌, ◌≡◌, refl, subst, arith, min, List, [], ◌∷◌, ◌++◌, Option, none,
  some, not, ◌||◌, ◌==◌, inl, inr, Bool-cases, Option-cases,
}
use newtua_apfs.Bytes.{Bytes, le_u32, le_u64}
use newtua_apfs.Error.{ok, >>=-eq-ok, ok-injective}
use newtua_apfs.Reader.{Reader}
use newtua_apfs.Object.{ObjPhys, parse_obj_phys, obj_type, fletcher64_stored, fletcher64_checksum}
use newtua_apfs.Container.{NxSuperblock}
use newtua_apfs.Checkpoint.{
  CheckpointMapping, LiveCheckpoint, Scan, object_type_checkpoint_map, cpm_count_off, cpm_map_off,
  checkpoint_mapping_len, max_cpm_count, read_block, desc_paddr, mappings_loop, block_mappings,
  collect_loop, finish_best, resolve_live_checkpoint,
}
use newtua_apfs.Checkpoint.Live.{scan_ring-eq-ok, resolve_live_checkpoint-scan_ring, checkpoint}

-- A block that the second loop takes for a checkpoint map of transaction `xid`.
pub record IsMapBlock (buf : Bytes) (xid : ℕ) : Type 0 where
  pub hdr : ObjPhys
  pub headed : parse_obj_phys buf ≡ some hdr
  pub typed : obj_type hdr ≡ object_type_checkpoint_map
  pub stamped : hdr.xid ≡ xid
  pub sealed : fletcher64_stored buf ≡ fletcher64_checksum buf

-- The mapping is the entry of the block at index `m`, below the count and the cap.
pub record IsEntryOf (buf : Bytes) (mapping : CheckpointMapping) : Type 0 where
  pub m : ℕ
  pub counted : m < min (le_u32 buf cpm_count_off) max_cpm_count
  pub oid : mapping.oid ≡ le_u64 buf (cpm_map_off + m * checkpoint_mapping_len + 24)
  pub paddr : mapping.paddr ≡ le_u64 buf (cpm_map_off + m * checkpoint_mapping_len + 32)
  pub typed : mapping.obj_type ≡ le_u32 buf (cpm_map_off + m * checkpoint_mapping_len)
  pub subtyped : mapping.subtype ≡ le_u32 buf (cpm_map_off + m * checkpoint_mapping_len + 4)

abbrev pub AllMappings : (CheckpointMapping → Type 0) → List CheckpointMapping → Type 0
AllMappings P [] = Unit
AllMappings P (m ∷ ms) = P m × AllMappings P ms

AllMappings-append :
    (P : CheckpointMapping → Type 0) (xs ys : List CheckpointMapping)
    → AllMappings P xs
    → AllMappings P ys
    → AllMappings P (xs ++ ys)
AllMappings-append P [] ys a b = b
AllMappings-append P (x ∷ xs) ys a b = (a.0, AllMappings-append P xs ys a.1 b)

AllMappings-map :
    (P Q : CheckpointMapping → Type 0) (xs : List CheckpointMapping)
    → ((x : CheckpointMapping) → P x → Q x)
    → AllMappings P xs
    → AllMappings Q xs
AllMappings-map P Q [] f a = tt
AllMappings-map P Q (x ∷ xs) f a = (f x a.0, AllMappings-map P Q xs f a.1)

mappings_loop-IsEntryOf :
    (buf : Bytes) (n m : ℕ)
    → n + m ≤ min (le_u32 buf cpm_count_off) max_cpm_count
    → AllMappings (IsEntryOf buf) (mappings_loop buf n m)
unfolding mappings_loop
mappings_loop-IsEntryOf buf zero m h = tt
mappings_loop-IsEntryOf buf (suc n) m h = (
  record { m = m; counted = omega arith; oid = refl; paddr = refl; typed = refl; subtyped = refl },
  mappings_loop-IsEntryOf buf n (m + 1) (omega arith),
)

block_mappings-IsEntryOf :
    (buf : Bytes) (xid : ℕ)
    → AllMappings (λ x. IsMapBlock buf xid × IsEntryOf buf x) (block_mappings xid buf)
unfolding block_mappings
block_mappings-IsEntryOf buf xid = elim (Option-cases (parse_obj_phys buf)) [
  | inl e ↦ rw (e, block_mappings) tt
  | inr (hdr, e) ↦
      elim (Bool-cases (not (obj_type hdr == object_type_checkpoint_map) || not (hdr.xid == xid))) [
        | inl other ↦ rw (e, block_mappings, other) tt
        | inr same ↦ elim (Bool-cases (not (fletcher64_stored buf == fletcher64_checksum buf))) [
          | inl torn ↦ rw (e, block_mappings, same, torn) tt
          | inr whole ↦
              rw (e, block_mappings, same, whole)
                (AllMappings-map (IsEntryOf buf) (λ x. IsMapBlock buf xid × IsEntryOf buf x)
                  (mappings_loop buf (min (le_u32 buf cpm_count_off) max_cpm_count) 0)
                  (λ x is. (
                    record {
                      hdr = hdr;
                      headed = e;
                      typed = ground arith;
                      stamped = ground arith;
                      sealed = ground arith;
                    },
                    is,
                  ))
                  (mappings_loop-IsEntryOf buf (min (le_u32 buf cpm_count_off) max_cpm_count) 0
                    (omega arith)))
        ]
      ]
]

module _ (reader : Reader) (desc_base block_size blocks xid : ℕ) where
  -- The mapping is an entry of a checkpoint map of the ring.
  pub record IsMapped (mapping : CheckpointMapping) : Type 0 where
    pub slot : ℕ
    pub buf : Bytes
    pub early : slot < blocks
    pub readable :
        read_block reader (desc_paddr reader desc_base block_size slot) block_size ≡ ok (some buf)
    pub is_map : IsMapBlock buf xid
    pub is_entry : IsEntryOf buf mapping

  abbrev more : Option Bytes → List CheckpointMapping → List CheckpointMapping
  more block out = elim block [ none ↦ out | some buf ↦ out ++ block_mappings xid buf ]

  more-IsMapped :
      (i : ℕ) (block : Option Bytes) (out : List CheckpointMapping)
      → i < blocks
      → read_block reader (desc_paddr reader desc_base block_size i) block_size ≡ ok block
      → AllMappings IsMapped out
      → AllMappings IsMapped (more block out)
  more-IsMapped i none out early e all = all
  more-IsMapped i (some buf) out early e all =
      AllMappings-append IsMapped out (block_mappings xid buf) all (
        AllMappings-map (λ x. IsMapBlock buf xid × IsEntryOf buf x) IsMapped
          (block_mappings xid buf)
          (λ x is. record {
            slot = i;
            buf = buf;
            early = early;
            readable = e;
            is_map = is.0;
            is_entry = is.1;
          })
          (block_mappings-IsEntryOf buf xid))

  collect_loop-IsMapped :
      (n i : ℕ) (out all : List CheckpointMapping)
      → n + i ≤ blocks
      → collect_loop reader desc_base block_size xid n i out ≡ ok all
      → AllMappings IsMapped out
      → AllMappings IsMapped all
  unfolding collect_loop
  collect_loop-IsMapped zero i out all room run mapped =
      let same : out ≡ all = cc (run) in rw (← same) mapped
  collect_loop-IsMapped (suc n) i out all room run mapped =
      let (block, e, rest) =
        >>=-eq-ok (read_block reader (desc_paddr reader desc_base block_size i) block_size) _ run in
      collect_loop-IsMapped n (i + 1) (more block out) all (omega arith) rest
        (more-IsMapped i block out (omega arith) e mapped)

finish_best-IsMapped :
    (reader : Reader) (bootstrap : NxSuperblock) (s : Scan) (best : Option (ℕ × ℕ))
    (live : LiveCheckpoint)
    → finish_best reader bootstrap s best ≡ ok live
    → AllMappings
        (IsMapped reader bootstrap.xp_desc_base bootstrap.block_size bootstrap.xp_desc_blocks
          live.xid)
        live.mappings
finish_best-IsMapped reader bootstrap s none live h = cc (h)
finish_best-IsMapped reader bootstrap s (some (xid, paddr)) live h =
    let (all, collected, same) =
      >>=-eq-ok
        (collect_loop reader bootstrap.xp_desc_base bootstrap.block_size xid
          bootstrap.xp_desc_blocks 0 [])
        (λ mappings. ok (checkpoint xid paddr mappings)) h in
    let built : checkpoint xid paddr all ≡ live = ok-injective same in
    let blocks = bootstrap.xp_desc_blocks in
    let base = bootstrap.xp_desc_base in
    let size = bootstrap.block_size in
    subst (λ (l : LiveCheckpoint). AllMappings (IsMapped reader base size blocks l.xid) l.mappings)
      built
      (collect_loop-IsMapped reader base size blocks xid blocks 0 [] all (omega arith) collected tt)

-- Every mapping of a checkpoint that is resolved is an entry, within the count and the cap of 4096,
-- of a checkpoint map in the ring that passes its checksum and has the live transaction's id.
pub resolve_live_checkpoint-IsMapped :
    (reader : Reader) (bootstrap : NxSuperblock) (live : LiveCheckpoint)
    → resolve_live_checkpoint reader bootstrap ≡ ok live
    → AllMappings
        (IsMapped reader bootstrap.xp_desc_base bootstrap.block_size bootstrap.xp_desc_blocks
          live.xid)
        live.mappings
resolve_live_checkpoint-IsMapped reader bootstrap live h =
    let (s, scanned, finished) =
      scan_ring-eq-ok reader bootstrap live
        (resolve_live_checkpoint-scan_ring reader bootstrap live h) in
    finish_best-IsMapped reader bootstrap s s.best live finished
