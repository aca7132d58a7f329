-- ===== src/Checkpoint/Ring.antt =====
-- src/checkpoint.rs, the first loop of `resolve_live_checkpoint`: the ring's superblocks, block by block.
use newtua_apfs.Prelude.{
  ℕ, zero, suc, ◌+◌, ◌<◌, ◌≡◌, refl, arith, Option, none, some, ◌⊎◌, inl, inr,
}
use newtua_apfs.Bytes.{Bytes}
use native.Mathlib.Decide.{ℕ_discrete}
use newtua_apfs.Error.{ok, >>=-eq-ok}
use newtua_apfs.Reader.{Reader}
use newtua_apfs.Checkpoint.{Scan, scan_read, scan_loop, read_block, desc_paddr}
use newtua_apfs.Checkpoint.RingScan.{
  IsSuperblock, IsLatest, IsLatest-mono, choose-IsLatest, Weighed, scan_block-Weighed, Weighed,
  IsSuperblock-unique,
}

module _ (reader : Reader) (desc_base block_size : ℕ) where
  -- A superblock of transaction `xid` stands in one of the first `i` blocks of the ring.
  pub record InRing (i xid paddr : ℕ) : Type 0 where
    pub slot : ℕ
    pub buf : Bytes
    pub early : slot < i
    pub readable :
        read_block reader (desc_paddr reader desc_base block_size slot) block_size ≡ ok (some buf)
    pub superblock : IsSuperblock buf xid
    pub placed : paddr ≡ desc_paddr reader desc_base block_size slot

  InRing-later : (i xid paddr : ℕ) → InRing i xid paddr → InRing (i + 1) xid paddr
  InRing-later i xid paddr r = record {
    slot = r.slot;
    buf = r.buf;
    early = let e = r.early in omega arith;
    readable = r.readable;
    superblock = r.superblock;
    placed = r.placed;
  }

  InRing-split :
      (i xid paddr : ℕ)
      → (block : Option Bytes)
      → read_block reader (desc_paddr reader desc_base block_size i) block_size ≡ ok block
      → InRing (i + 1) xid paddr
      → InRing i xid paddr
        ⊎ ((buf : Bytes) × (block ≡ some buf)
            × IsSuperblock buf xid
            × (paddr ≡ desc_paddr reader desc_base block_size i))
  InRing-split i xid paddr block e r = elim (ℕ_discrete r.slot i) [
    | yes same ↦ inr (r.buf, landed same, r.superblock, placed same)
    | no other ↦ inl (record {
      slot = r.slot;
      buf = r.buf;
      early = let e = r.early in omega arith;
      readable = r.readable;
      superblock = r.superblock;
      placed = r.placed;
    })
  ]
    where
      landed : r.slot ≡ i → block ≡ some r.buf
      landed same =
          let here : read_block reader (desc_paddr reader desc_base block_size i) block_size
              ≡ ok (some r.buf) =
            rw (← same) r.readable in
          cc (e, here)

      placed : r.slot ≡ i → paddr ≡ desc_paddr reader desc_base block_size i
      placed same = rw (← same) r.placed

  -- One round of the first loop.
  scan_round :
      (i : ℕ) (s : Scan) (block : Option Bytes)
      → read_block reader (desc_paddr reader desc_base block_size i) block_size ≡ ok block
      → IsLatest (InRing i) s.best
      → IsLatest
          (InRing (i + 1))
          (scan_read (desc_paddr reader desc_base block_size i) block s).best
  unfolding Weighed
  scan_round i s none e h =
      IsLatest-mono (InRing i) (InRing (i + 1)) s.best (InRing-later i)
        (λ x p r. elim (InRing-split i x p none e r) [ inl early ↦ early | inr late ↦ cc (late.1) ])
        h
  scan_round i s (some buf) e h =
      elim (scan_block-Weighed (desc_paddr reader desc_base block_size i) buf s) [
        | inl (xid, is, chosen) ↦ rw (chosen) (
            choose-IsLatest (InRing i) (InRing (i + 1)) s.best xid
              (desc_paddr reader desc_base block_size i) (InRing-later i)
              (λ x p r. elim (InRing-split i x p (some buf) e r) [
                | inl early ↦ inl early
                | inr late ↦ inr (owner xid is x late.0 late.1 late.2, late.3)
              ])
              (new_superblock xid is) h)
        | inr (isnt, kept) ↦ rw (kept) (
            IsLatest-mono (InRing i) (InRing (i + 1)) s.best (InRing-later i)
              (λ x p r. elim (InRing-split i x p (some buf) e r) [
                | inl early ↦ early
                | inr late ↦ absurd (isnt x (same late.0 late.1 x late.2))
              ])
              h)
      ]
    where
      new_superblock :
          (xid : ℕ)
          → IsSuperblock buf xid
          → InRing (i + 1) xid (desc_paddr reader desc_base block_size i)
      new_superblock xid is = record {
        slot = i;
        buf = buf;
        early = omega arith;
        readable = e;
        superblock = is;
        placed = refl;
      }

      same : (b : Bytes) → some buf ≡ some b → (x : ℕ) → IsSuperblock b x → IsSuperblock buf x
      same b h x is = let e : buf ≡ b = cc (h) in rw (e) is

      owner :
          (xid : ℕ)
          → IsSuperblock buf xid
          → (x : ℕ) → (b : Bytes) → some buf ≡ some b
          → IsSuperblock b x
          → x ≡ xid
      owner xid is x b h is' = IsSuperblock-unique buf x xid (same b h x is') is

  pub scan_loop-IsLatest :
      (n i : ℕ) (s s' : Scan)
      → scan_loop reader desc_base block_size n i s ≡ ok s'
      → IsLatest (InRing i) s.best
      → IsLatest (InRing (n + i)) s'.best
  unfolding scan_loop
  scan_loop-IsLatest zero i s s' run h =
      let same : s ≡ s' = cc (run) in let sum : 0 + i ≡ i = omega arith in rw (sum, ← same) h
  scan_loop-IsLatest (suc n) i s s' run h =
      let (block, e, rest) = >>=-eq-ok _ _ run in
      let late = scan_loop-IsLatest n (i + 1) _ s' rest (scan_round i s block e h) in
      let sum : n + (i + 1) ≡ suc n + i = omega arith in rw (← sum) late
