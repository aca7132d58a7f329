-- ===== src/Apfs/Open.antt =====
-- src/lib.rs, `ApfsContainer::open`: the state that an open container is in.
use newtua_apfs.Prelude.{ℕ, ◌≡◌, refl, sym, ap, ◌∙◌, arith, none, some, false}
use newtua_apfs.Bytes.{Bytes, le_u64}
use newtua_apfs.Error.{
  ok, >>=-eq-ok, ok-injective, reject_if-eq-ok, unexpected_eof, other_kind, unsupported_fusion,
}
use newtua_apfs.Reader.{
  Reader, ReadResult, filled, failed, checked_mul, saturating_mul, read_exact_at,
}
use newtua_apfs.Object.{ObjPhys, parse_obj_phys}
use newtua_apfs.Container.{NxSuperblock, parse_nx_superblock, nx_minimum_block_size}
use newtua_apfs.Container.Parse.{parse_nx_superblock-eq-ok}
use newtua_apfs.Fusion.{is_fusion}
use newtua_apfs.Checkpoint.{LiveCheckpoint, resolve_live_checkpoint, read_block, read_result}
use newtua_apfs.Checkpoint.RingScan.{IsLatest}
use newtua_apfs.Checkpoint.Live.{Superblocks, resolve_live_checkpoint-IsLatest}
use newtua_apfs.Apfs.{ApfsContainer, open_container, open_bootstrap, reread, block_zero_result}

-- The ring's read and the re-read of one block give the same bytes.
saturating-checked_mul :
    (a b offset : ℕ) → checked_mul a b ≡ some offset → saturating_mul a b ≡ offset
unfolding checked_mul saturating_mul
saturating-checked_mul a b offset h = ground arith

filled-of : (r : ReadResult) (buf : Bytes) → read_result r ≡ ok (some buf) → r ≡ filled buf
filled-of (filled b) buf h = let same : b ≡ buf = cc (h) in ap (λ b. filled b) same
filled-of (failed unexpected_eof) buf h = cc (h)
filled-of (failed (other_kind k)) buf h = cc (h)

read_block-filled :
    (reader : Reader) (paddr block_size : ℕ) (buf : Bytes)
    → read_block reader paddr block_size ≡ ok (some buf)
    → reader (saturating_mul paddr block_size) block_size ≡ filled buf
unfolding read_block
read_block-filled reader paddr block_size buf h =
    (elim (checked_mul paddr block_size)
        as (λ o.
          checked_mul paddr block_size ≡ o
          → (elim o [ none ↦ ok none | some offset ↦ read_result (reader offset block_size) ])
            ≡ ok (some buf)
          → reader (saturating_mul paddr block_size) block_size ≡ filled buf) [
            | none ↦ λ e h. cc (h)
            | some offset ↦ λ e h.
                rw (saturating-checked_mul paddr block_size offset e)
                  (filled-of (reader offset block_size) buf h)
          ])
      refl h

-- The ring's read and the re-read of one block give the same bytes.
read_block-read_exact_at :
    (reader : Reader) (paddr block_size : ℕ) (buf : Bytes)
    → read_block reader paddr block_size ≡ ok (some buf)
    → read_exact_at reader (saturating_mul paddr block_size) block_size ≡ ok buf
unfolding read_exact_at
read_block-read_exact_at reader paddr block_size buf h =
    rw (read_exact_at, read_block-filled reader paddr block_size buf h) refl

parsed_xid : (buf : Bytes) (hdr : ObjPhys) → parse_obj_phys buf ≡ some hdr → hdr.xid ≡ le_u64 buf 16
unfolding parse_obj_phys
parsed_xid buf hdr h = ground arith

-- What the re-read keeps of the live checkpoint that the ring named.
record IsReread (reader : Reader) (block_size : ℕ) (live : LiveCheckpoint) (c : ApfsContainer)
    : Type 0 where
  buf : Bytes
  read : read_exact_at reader (saturating_mul live.superblock_paddr block_size) block_size ≡ ok buf
  parsed : parse_nx_superblock buf ≡ ok c.superblock
  placed : c.live_superblock_paddr ≡ live.superblock_paddr

reread-eq-ok :
    (reader : Reader) (block_size : ℕ) (live : LiveCheckpoint) (c : ApfsContainer)
    → reread reader block_size live ≡ ok c
    → IsReread reader block_size live c
unfolding reread
reread-eq-ok reader block_size live c h =
    let (buf, read, h') =
      >>=-eq-ok (read_exact_at reader (saturating_mul live.superblock_paddr block_size) block_size)
        _ h in
    let (sb, parsed, h'') = >>=-eq-ok (parse_nx_superblock buf) _ h' in
    let same = ok-injective h'' in
    record {
      buf = buf;
      read = read;
      parsed = parsed ∙ ap (λ (c : ApfsContainer). ok c.superblock) same;
      placed = sym (ap (λ (c : ApfsContainer). c.live_superblock_paddr) same);
    }

-- The superblock that is re-read has the transaction id that the ring's scan saw.
reread-xid :
    (reader : Reader) (bootstrap : NxSuperblock) (live : LiveCheckpoint) (c : ApfsContainer)
    → Superblocks reader bootstrap live.xid live.superblock_paddr
    → IsReread reader bootstrap.block_size live c
    → c.superblock.xid ≡ live.xid
reread-xid reader bootstrap live c seen again =
    let there : read_block reader live.superblock_paddr bootstrap.block_size ≡ ok (some seen.buf) =
      rw (seen.placed) seen.readable in
    let read =
      read_block-read_exact_at reader live.superblock_paddr bootstrap.block_size seen.buf there in
    let same : again.buf ≡ seen.buf = ok-injective (sym again.read ∙ read) in
    let is = seen.superblock in
    ap (λ (sb : NxSuperblock). sb.xid)
      ((parse_nx_superblock-eq-ok again.buf c.superblock).0 again.parsed).1
    ∙ ap (λ b. le_u64 b 16) same
    ∙ sym (parsed_xid seen.buf is.hdr is.headed)
    ∙ is.stamped

-- What block zero holds.
pub record IsBootstrap (reader : Reader) (bootstrap : NxSuperblock) : Type 0 where
  pub block0 : Bytes
  pub read : reader 0 nx_minimum_block_size ≡ filled block0
  pub parsed : parse_nx_superblock block0 ≡ ok bootstrap

block_zero-filled :
    (r : ReadResult) (block0 : Bytes) → block_zero_result r ≡ ok block0 → r ≡ filled block0
block_zero-filled (filled b) buf h = ap (λ b. filled b) (ok-injective h)
block_zero-filled (failed unexpected_eof) buf h = cc (h)
block_zero-filled (failed (other_kind k)) buf h = cc (h)

-- An open container stands on a bootstrap superblock, valid and not of a Fusion container, in block
-- zero; the transaction id of its own superblock and the address that is kept for it are those of a
-- valid superblock of the ring that the bootstrap describes; and no valid superblock of the ring has
-- a larger transaction id.
pub open_container-IsLatest :
    (reader : Reader) (c : ApfsContainer)
    → open_container reader ≡ ok c
    → (bootstrap : NxSuperblock) × IsBootstrap reader bootstrap
      × (is_fusion bootstrap ≡ false)
      × IsLatest (Superblocks reader bootstrap) (some (c.superblock.xid, c.live_superblock_paddr))
unfolding open_container open_bootstrap
open_container-IsLatest reader c h =
    let (block0, read, h1) = >>=-eq-ok (block_zero_result (reader 0 nx_minimum_block_size)) _ h in
    let (bootstrap, parsed, h2) = >>=-eq-ok (parse_nx_superblock block0) _ h1 in
    let (solid, h3) = reject_if-eq-ok (is_fusion bootstrap) unsupported_fusion _ h2 in
    let (live, found, again) = >>=-eq-ok (resolve_live_checkpoint reader bootstrap) _ h3 in
    let (seen, newest) = resolve_live_checkpoint-IsLatest reader bootstrap live found in
    let kept = reread-eq-ok reader bootstrap.block_size live c again in
    let same : c.superblock.xid ≡ live.xid = reread-xid reader bootstrap live c seen kept in
    (
      bootstrap,
      record {
        block0 = block0;
        read = block_zero-filled (reader 0 nx_minimum_block_size) block0 read;
        parsed = parsed;
      },
      solid,
      (
        rw (same, kept.placed) seen,
        λ xid paddr other. let below = newest xid paddr other in omega arith,
      ),
    )
