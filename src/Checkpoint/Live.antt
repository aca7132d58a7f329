-- ===== src/Checkpoint/Live.antt =====
-- src/checkpoint.rs, `resolve_live_checkpoint`: the live superblock among those of the ring.
use newtua_apfs.Prelude.{
  ℕ, zero, suc, ◌+◌, ◌≤◌, ◌≡◌, ◌≢◌, refl, ap, subst, ◌∙◌, arith, List, [], Option, none, some,
  false, inl, inr, Option-cases,
}
use newtua_apfs.Bytes.{Bytes}
use newtua_apfs.Error.{ok, err, ◌>>=◌, >>=-eq-ok, IoError, unexpected_eof, other_kind}
use newtua_apfs.Reader.{Reader, filled, failed, checked_mul}
use newtua_apfs.Container.{NxSuperblock, nx_minimum_block_size, nx_maximum_block_size}
use newtua_apfs.Checkpoint.{
  Scan, scan_loop, read_block, desc_paddr, start_scan, LiveCheckpoint, finish_checkpoint,
  resolve_live_checkpoint, scan_ring, finish_best, read_result, collect_loop, CheckpointMapping,
}
use newtua_apfs.Checkpoint.Ring.{InRing, scan_loop-IsLatest}
use newtua_apfs.Checkpoint.RingScan.{IsLatest}

-- The reader never fails but by the end of the source.
abbrev pub EndsOnly : Reader → Type 0
EndsOnly reader = (offset len : ℕ) (e : IoError) → reader offset len ≡ failed e → e ≡ unexpected_eof

read_block-total :
    (reader : Reader) (paddr block_size : ℕ)
    → EndsOnly reader
    → (block : Option Bytes) × (read_block reader paddr block_size ≡ ok block)
unfolding read_block
read_block-total reader paddr block_size ends = elim (Option-cases (checked_mul paddr block_size)) [
  | inl e ↦ (none, rw (read_block, e) refl)
  | inr (offset, e) ↦
      rw (read_block, e)
        ((elim (reader offset block_size)
            as (λ r.
              reader offset block_size ≡ r → (block : Option Bytes) × (read_result r ≡ ok block)) [
                | filled buf ↦ λ h. (some buf, refl)
                | failed unexpected_eof ↦ λ h. (none, refl)
                | failed (other_kind k) ↦ λ h. cc (ends offset block_size (other_kind k) h)
              ])
          refl)
]

module _ (reader : Reader) (desc_base block_size : ℕ) (ends : EndsOnly reader) where
  scan_loop-total :
      (n i : ℕ) (s : Scan) → (s' : Scan) × (scan_loop reader desc_base block_size n i s ≡ ok s')
  unfolding scan_loop
  scan_loop-total zero i s = (s, refl)
  scan_loop-total (suc n) i s =
      let (block, e) =
        read_block-total reader (desc_paddr reader desc_base block_size i) block_size ends in
      rw (e) (scan_loop-total n (i + 1) _)

  collect_loop-total :
      (xid n i : ℕ) (out : List CheckpointMapping)
      → (out' : List CheckpointMapping) × (collect_loop reader desc_base block_size xid n i out
          ≡ ok out')
  unfolding collect_loop
  collect_loop-total xid zero i out = (out, refl)
  collect_loop-total xid (suc n) i out =
      let (block, e) =
        read_block-total reader (desc_paddr reader desc_base block_size i) block_size ends in
      rw (e) (collect_loop-total xid n (i + 1) _)

-- The superblocks of the ring that `bootstrap` describes.
abbrev pub Superblocks : Reader → NxSuperblock → ℕ → ℕ → Type 0
Superblocks reader bootstrap =
    InRing reader bootstrap.xp_desc_base bootstrap.block_size bootstrap.xp_desc_blocks

scanned-IsLatest :
    (reader : Reader) (bootstrap : NxSuperblock) (s : Scan)
    → scan_loop reader bootstrap.xp_desc_base bootstrap.block_size bootstrap.xp_desc_blocks 0
        start_scan
      ≡ ok s
    → IsLatest (Superblocks reader bootstrap) s.best
scanned-IsLatest reader bootstrap s e =
    let base = bootstrap.xp_desc_base in
    let size = bootstrap.block_size in
    let blocks = bootstrap.xp_desc_blocks in
    let sum : blocks + 0 ≡ blocks = omega arith in
    let late : IsLatest (InRing reader base size (blocks + 0)) s.best =
      scan_loop-IsLatest reader base size blocks 0 start_scan s e
        (λ x p r. let early = r.early in omega arith) in
    rw (← sum) late

abbrev pub checkpoint : ℕ → ℕ → List CheckpointMapping → LiveCheckpoint
checkpoint xid paddr mappings = record { superblock_paddr = paddr; xid = xid; mappings = mappings }

finish_best-eq-ok :
    (reader : Reader) (bootstrap : NxSuperblock) (s : Scan) (best : Option (ℕ × ℕ))
    (live : LiveCheckpoint)
    → finish_best reader bootstrap s best ≡ ok live
    → best ≡ some (live.xid, live.superblock_paddr)
finish_best-eq-ok reader bootstrap s none live h = cc (h)
finish_best-eq-ok reader bootstrap s (some (xid, paddr)) live h =
    let (mappings, e, same) =
      >>=-eq-ok
        (collect_loop reader bootstrap.xp_desc_base bootstrap.block_size xid
          bootstrap.xp_desc_blocks 0 [])
        (λ mappings. ok (checkpoint xid paddr mappings)) h in
    ap (λ r. elim r [ ok l ↦ some (l.xid, l.superblock_paddr) | err e ↦ none ]) same

pub scan_ring-eq-ok :
    (reader : Reader) (bootstrap : NxSuperblock) (live : LiveCheckpoint)
    → scan_ring reader bootstrap ≡ ok live
    → (s : Scan) × (scan_loop reader bootstrap.xp_desc_base bootstrap.block_size
          bootstrap.xp_desc_blocks 0 start_scan
        ≡ ok s)
      × (finish_best reader bootstrap s s.best ≡ ok live)
unfolding scan_ring finish_checkpoint
scan_ring-eq-ok reader bootstrap live h = >>=-eq-ok _ _ h

pub resolve_live_checkpoint-scan_ring :
    (reader : Reader) (bootstrap : NxSuperblock) (live : LiveCheckpoint)
    → resolve_live_checkpoint reader bootstrap ≡ ok live
    → scan_ring reader bootstrap ≡ ok live
unfolding resolve_live_checkpoint
resolve_live_checkpoint-scan_ring reader bootstrap live h = ground arith

-- A checkpoint that is resolved names a superblock of the ring, at its block and with its
-- transaction id, and no superblock of the ring has a larger transaction id.
pub resolve_live_checkpoint-IsLatest :
    (reader : Reader) (bootstrap : NxSuperblock) (live : LiveCheckpoint)
    → resolve_live_checkpoint reader bootstrap ≡ ok live
    → IsLatest (Superblocks reader bootstrap) (some (live.xid, live.superblock_paddr))
unfolding resolve_live_checkpoint
resolve_live_checkpoint-IsLatest reader bootstrap live h =
    let ring = resolve_live_checkpoint-scan_ring reader bootstrap live h in
    let (s, scanned, finished) = scan_ring-eq-ok reader bootstrap live ring in
    let best = finish_best-eq-ok reader bootstrap s s.best live finished in
    let latest : IsLatest (Superblocks reader bootstrap) (some (live.xid, live.superblock_paddr)) =
      subst (IsLatest (Superblocks reader bootstrap)) best
        (scanned-IsLatest reader bootstrap s scanned) in
    latest

scan_ring-ok :
    (reader : Reader) (bootstrap : NxSuperblock) (s : Scan) (xid paddr : ℕ)
    (mappings : List CheckpointMapping)
    → scan_loop reader bootstrap.xp_desc_base bootstrap.block_size bootstrap.xp_desc_blocks 0
        start_scan
      ≡ ok s
    → s.best ≡ some (xid, paddr)
    → collect_loop reader bootstrap.xp_desc_base bootstrap.block_size xid bootstrap.xp_desc_blocks 0
        []
      ≡ ok mappings
    → scan_ring reader bootstrap ≡ ok (checkpoint xid paddr mappings)
unfolding scan_ring finish_checkpoint
scan_ring-ok reader bootstrap s xid paddr mappings scanned best collected =
    ap (λ m. m >>= finish_checkpoint reader bootstrap) scanned
    ∙ ap (finish_best reader bootstrap s) best
    ∙ ap (λ m. m >>= λ mappings. ok (checkpoint xid paddr mappings)) collected

found_best :
    (Seen : ℕ → ℕ → Type 0) (best : Option (ℕ × ℕ)) (xid paddr : ℕ)
    → IsLatest Seen best
    → Seen xid paddr
    → (x : ℕ) × (p : ℕ) × (best ≡ some (x, p))
found_best Seen none xid paddr latest seen = absurd (latest xid paddr seen)
found_best Seen (some (x, p)) xid paddr latest seen = (x, p, refl)

-- A ring that is a contiguous run of blocks of a legal size and that holds a superblock resolves to
-- a checkpoint, when no read fails but past the end of the source.
pub resolve_live_checkpoint-found :
    (reader : Reader) (bootstrap : NxSuperblock) (xid paddr : ℕ)
    → EndsOnly reader
    → bootstrap.xp_desc_is_tree ≡ false
    → nx_minimum_block_size ≤ bootstrap.block_size
    → bootstrap.block_size ≤ nx_maximum_block_size
    → Superblocks reader bootstrap xid paddr
    → (live : LiveCheckpoint) × (resolve_live_checkpoint reader bootstrap ≡ ok live)
unfolding resolve_live_checkpoint
resolve_live_checkpoint-found reader bootstrap xid paddr ends plain large small held =
    let base = bootstrap.xp_desc_base in
    let size = bootstrap.block_size in
    let blocks = bootstrap.xp_desc_blocks in
    let (s, scanned) = scan_loop-total reader base size ends blocks 0 start_scan in
    let latest = scanned-IsLatest reader bootstrap s scanned in
    let (x, p, best) = found_best (Superblocks reader bootstrap) s.best xid paddr latest held in
    let (mappings, collected) = collect_loop-total reader base size ends x blocks 0 [] in
    let ring = scan_ring-ok reader bootstrap s x p mappings scanned best collected in
    (checkpoint x p mappings, accepted _ ring)
  where
    accepted :
        (live : LiveCheckpoint)
        → scan_ring reader bootstrap ≡ ok live
        → resolve_live_checkpoint reader bootstrap ≡ ok live
    accepted live ring = ground arith

-- With no superblock in the ring, no checkpoint is resolved.
pub resolve_live_checkpoint-none :
    (reader : Reader) (bootstrap : NxSuperblock)
    → ((xid paddr : ℕ) → ¬ Superblocks reader bootstrap xid paddr)
    → (live : LiveCheckpoint) → resolve_live_checkpoint reader bootstrap ≢ ok live
resolve_live_checkpoint-none reader bootstrap none_held live h =
    none_held live.xid live.superblock_paddr
      (resolve_live_checkpoint-IsLatest reader bootstrap live h).0
