-- ===== src/Checkpoint/RingScan.antt =====
-- src/checkpoint.rs, the first loop of `resolve_live_checkpoint`: the best superblock of the ring.
use newtua_apfs.Prelude.{
  ℕ, ◌+◌, ◌≤◌, ◌≡◌, ◌≢◌, refl, ◌∙◌, arith, Option, none, some, true, false, ltb, ◌==◌,
  if◌then◌else◌, ◌⊎◌, inl, inr, Bool-cases, Option-cases,
}
use newtua_apfs.Bytes.{Bytes, le_u32}
use native.Mathlib.Decide.{ℕ_discrete}
use newtua_apfs.Object.{ObjPhys, parse_obj_phys, obj_type, fletcher64_stored, fletcher64_checksum}
use newtua_apfs.Container.{nx_magic}
use newtua_apfs.Checkpoint.{Scan, is_newer, scan_superblock, scan_block, object_type_nx_superblock}

-- A block that the first loop takes for a superblock of transaction `xid`.
pub record IsSuperblock (buf : Bytes) (xid : ℕ) : Type 0 where
  pub hdr : ObjPhys
  pub headed : parse_obj_phys buf ≡ some hdr
  pub typed : obj_type hdr ≡ object_type_nx_superblock
  pub magic : le_u32 buf 32 ≡ nx_magic
  pub sealed : fletcher64_stored buf ≡ fletcher64_checksum buf
  pub stamped : hdr.xid ≡ xid

pub IsSuperblock-unique : (buf : Bytes) (x y : ℕ) → IsSuperblock buf x → IsSuperblock buf y → x ≡ y
IsSuperblock-unique buf x y a b =
    let same : a.hdr ≡ b.hdr = cc (a.headed, b.headed) in cc (same, a.stamped, b.stamped)

-- The choice between what is best so far and a new superblock.
abbrev pub choose : Option (ℕ × ℕ) → ℕ → ℕ → Option (ℕ × ℕ)
choose best xid paddr = if is_newer best xid then some (xid, paddr) else best

scan_superblock-best :
    (paddr : ℕ) (buf : Bytes) (hdr : ObjPhys) (s : Scan)
    → le_u32 buf 32 ≡ nx_magic
    → fletcher64_stored buf ≡ fletcher64_checksum buf
    → (scan_superblock paddr buf hdr s).best ≡ choose s.best hdr.xid paddr
unfolding scan_superblock
scan_superblock-best paddr buf hdr s magic sealed = ground arith

scan_superblock-other :
    (paddr : ℕ) (buf : Bytes) (hdr : ObjPhys) (s : Scan)
    → ((le_u32 buf 32 ≢ nx_magic) ⊎ (fletcher64_stored buf ≢ fletcher64_checksum buf))
    → (scan_superblock paddr buf hdr s).best ≡ s.best
unfolding scan_superblock
scan_superblock-other paddr buf hdr s other = ground arith

module _ (paddr : ℕ) (buf : Bytes) (s : Scan) where
  abbrev counted : Scan
  counted = record s { checked = s.checked + 1 }

  scan_block-headless : parse_obj_phys buf ≡ none → (scan_block paddr buf s).best ≡ s.best
  unfolding scan_block
  scan_block-headless e = rw (e, scan_block)

  scan_block-typed :
      (hdr : ObjPhys)
      → parse_obj_phys buf ≡ some hdr
      → (obj_type hdr == object_type_nx_superblock) ≡ true
      → (scan_block paddr buf s).best ≡ (scan_superblock paddr buf hdr counted).best
  unfolding scan_block
  scan_block-typed hdr e t = rw (e, t, scan_block)

  scan_block-untyped :
      (hdr : ObjPhys)
      → parse_obj_phys buf ≡ some hdr
      → (obj_type hdr == object_type_nx_superblock) ≡ false
      → (scan_block paddr buf s).best ≡ s.best
  unfolding scan_block
  scan_block-untyped hdr e t = rw (e, t, scan_block)

  -- A superblock of the block is read from its one header.
  IsSuperblock-refuted :
      (hdr : ObjPhys)
      → parse_obj_phys buf ≡ some hdr
      → ((obj_type hdr ≢ object_type_nx_superblock)
          ⊎ (le_u32 buf 32 ≢ nx_magic)
          ⊎ (fletcher64_stored buf ≢ fletcher64_checksum buf))
      → (xid : ℕ) → ¬ IsSuperblock buf xid
  IsSuperblock-refuted hdr e why xid is =
      let same : is.hdr ≡ hdr = cc (is.headed, e) in
      elim why [
        | inl untyped ↦ untyped (rw (← same) is.typed)
        | inr (inl unmagic) ↦ unmagic is.magic
        | inr (inr unsealed) ↦ unsealed is.sealed
      ]

  unfoldable pub Weighed : Type 0
  Weighed =
      ((xid : ℕ) × IsSuperblock buf xid × ((scan_block paddr buf s).best ≡ choose s.best xid paddr))
      ⊎ (((xid : ℕ) → ¬ IsSuperblock buf xid) × ((scan_block paddr buf s).best ≡ s.best))

  weigh-typed :
      (hdr : ObjPhys)
      → parse_obj_phys buf ≡ some hdr
      → (obj_type hdr == object_type_nx_superblock) ≡ true
      → Weighed
  unfolding Weighed
  weigh-typed hdr e t =
      let entered = scan_block-typed hdr e t in
      elim (ℕ_discrete (le_u32 buf 32) nx_magic) [
        | no unmagic ↦ inr (
          IsSuperblock-refuted hdr e (inr (inl unmagic)),
          entered ∙ scan_superblock-other paddr buf hdr counted (inl unmagic),
        )
        | yes magic ↦ elim (ℕ_discrete (fletcher64_stored buf) (fletcher64_checksum buf)) [
          | no unsealed ↦ inr (
            IsSuperblock-refuted hdr e (inr (inr unsealed)),
            entered ∙ scan_superblock-other paddr buf hdr counted (inr unsealed),
          )
          | yes sealed ↦ inl (
            hdr.xid,
            record {
              hdr = hdr;
              headed = e;
              typed = ground arith;
              magic = magic;
              sealed = sealed;
              stamped = refl;
            },
            entered ∙ scan_superblock-best paddr buf hdr counted magic sealed,
          )
        ]
      ]

  -- A block either is a superblock, and is weighed against the best, or leaves the best alone.
  pub scan_block-Weighed : Weighed
  unfolding Weighed
  scan_block-Weighed = elim (Option-cases (parse_obj_phys buf)) [
    | inl e ↦ inr (λ xid is. cc (e, is.headed), scan_block-headless e)
    | inr (hdr, e) ↦ elim (Bool-cases (obj_type hdr == object_type_nx_superblock)) [
      | inl t ↦ weigh-typed hdr e t
      | inr t ↦ inr (IsSuperblock-refuted hdr e (inl (ground arith)), scan_block-untyped hdr e t)
    ]
  ]

-- The most recent superblock that `Seen` holds of, or none if it holds of none.
abbrev pub IsLatest : (ℕ → ℕ → Type 0) → Option (ℕ × ℕ) → Type 0
IsLatest Seen none = (xid paddr : ℕ) → ¬ Seen xid paddr
IsLatest Seen (some (xid, paddr)) =
    Seen xid paddr × ((xid' paddr' : ℕ) → Seen xid' paddr' → xid' ≤ xid)

pub IsLatest-mono :
    (Seen More : ℕ → ℕ → Type 0) (best : Option (ℕ × ℕ))
    → ((x p : ℕ) → Seen x p → More x p)
    → ((x p : ℕ) → More x p → Seen x p)
    → IsLatest Seen best
    → IsLatest More best
IsLatest-mono Seen More none up down h = λ x p m. h x p (down x p m)
IsLatest-mono Seen More (some (x, p)) up down h = (up x p h.0, λ x' p' m. h.1 x' p' (down x' p' m))

-- One more superblock.
pub choose-IsLatest :
    (Seen More : ℕ → ℕ → Type 0) (best : Option (ℕ × ℕ)) (xid paddr : ℕ)
    → ((x p : ℕ) → Seen x p → More x p)
    → ((x p : ℕ) → More x p → Seen x p ⊎ ((x ≡ xid) × (p ≡ paddr)))
    → More xid paddr
    → IsLatest Seen best
    → IsLatest More (choose best xid paddr)
choose-IsLatest Seen More none xid paddr up split here h =
    (here, λ x p m. elim (split x p m) [ inl seen ↦ absurd (h x p seen) | inr e ↦ omega arith ])
choose-IsLatest Seen More (some (bx, bp)) xid paddr up split here h =
    elim (Bool-cases (ltb bx xid)) [
      | inl newer ↦ rw (newer) (
        here,
        λ x p m. elim (split x p m) [ inl seen ↦ newest x p seen newer | inr e ↦ omega arith ],
      )
      | inr older ↦ rw (older) (
        up bx bp h.0,
        λ x p m. elim (split x p m) [ inl seen ↦ h.1 x p seen | inr e ↦ passed x e.0 older ],
      )
    ]
  where
    newest : (x p : ℕ) → Seen x p → ltb bx xid ≡ true → x ≤ xid
    newest x p seen newer = let below : x ≤ bx = h.1 x p seen in ground arith

    passed : (x : ℕ) → x ≡ xid → ltb bx xid ≡ false → x ≤ bx
    passed x e older = ground arith
