-- ===== src/Omap/Best.antt =====
-- src/omap.rs, `ObjectMap::resolve`: what the visitor leaves behind, over any list of entries.
use newtua_apfs.Prelude.{
  ℕ, ◌≤◌, ◌≡◌, refl, arith, List, [], ◌∷◌, Option, none, some, Bool, true, false, ltb, ◌==◌, not,
  ◌||◌, foldl, ◌⊎◌, inl, inr, Bool-cases, subst,
}
use newtua_apfs.Bytes.{le_u64}
use newtua_apfs.Btree.Node.{Entry}
use newtua_apfs.Btree.Order.{Among}
use newtua_apfs.Omap.{OmapEntry, omap_entry, is_newer, keep_best}

module _ (oid xid : ℕ) (best : Option OmapEntry) (x : Entry) where
  abbrev is_other : Bool
  is_other = not (le_u64 x.key 0 == oid) || ltb xid (le_u64 x.key 8)

  keep_best-skip : is_other ≡ true → keep_best oid xid best x ≡ best
  unfolding keep_best
  keep_best-skip other = rw other

  keep_best-take :
      is_other ≡ false
      → is_newer best (le_u64 x.key 8) ≡ true
      → keep_best oid xid best x ≡ some (omap_entry x)
  unfolding keep_best
  keep_best-take same newer = rw (same, newer)

  keep_best-keep :
      is_other ≡ false → is_newer best (le_u64 x.key 8) ≡ false → keep_best oid xid best x ≡ best
  unfolding keep_best
  keep_best-keep same older = rw (same, older)

module _ (oid xid : ℕ) where
  -- A mapping of the oid, made at or before the transaction.
  abbrev pub Matches : Entry → Type 0
  Matches e = (le_u64 e.key 0 ≡ oid) × (le_u64 e.key 8 ≤ xid)

  -- Among the entries that `Seen` holds of: none of them matches, or the entry is that of a
  -- matching one, and no other match is more recent.
  abbrev pub IsBest : (Entry → Type 0) → Option OmapEntry → Type 0
  IsBest Seen none = (e : Entry) → Seen e → ¬ Matches e
  IsBest Seen (some b) =
      ((e : Entry) × Seen e × Matches e × (b ≡ omap_entry e))
      × ((e : Entry) → Seen e → Matches e → le_u64 e.key 8 ≤ b.xid)

  pub IsBest-mono :
      (Seen More : Entry → Type 0) (best : Option OmapEntry)
      → ((e : Entry) → Seen e → More e)
      → ((e : Entry) → More e → Seen e)
      → IsBest Seen best
      → IsBest More best
  IsBest-mono Seen More none up down h = λ e m. h e (down e m)
  IsBest-mono Seen More (some b) up down h =
      ((h.0.0, up h.0.0 h.0.1, h.0.2, h.0.3), λ e m. h.1 e (down e m))

  module _ (Seen : Entry → Type 0) (x : Entry) where
    abbrev More : Entry → Type 0
    More e = Seen e ⊎ (e ≡ x)

    IsBest-skip : (best : Option OmapEntry) → ¬ Matches x → IsBest Seen best → IsBest More best
    IsBest-skip none no_match h =
        λ e m hit. elim m [ inl seen ↦ h e seen hit | inr same ↦ no_match (subst Matches same hit) ]
    IsBest-skip (some b) no_match h = (
      (h.0.0, inl h.0.1, h.0.2, h.0.3),
      λ e m hit. elim m [
        | inl seen ↦ h.1 e seen hit
        | inr same ↦ absurd (no_match (subst Matches same hit))
      ],
    )

    IsBest-keep :
        (b : OmapEntry) → le_u64 x.key 8 ≤ b.xid → IsBest Seen (some b) → IsBest More (some b)
    IsBest-keep b le h = (
      (h.0.0, inl h.0.1, h.0.2, h.0.3),
      λ e m hit. elim m [ inl seen ↦ h.1 e seen hit | inr same ↦ rw same le ],
    )

    IsBest-take :
        Matches x
        → ((e : Entry) → Seen e → Matches e → le_u64 e.key 8 ≤ le_u64 x.key 8)
        → IsBest More (some (omap_entry x))
    unfolding omap_entry
    IsBest-take hit newest = (
      (x, inr refl, hit, refl),
      λ e m match. elim m [ inl seen ↦ newest e seen match | inr same ↦ rw same (omega arith) ],
    )

    newer-newest :
        (best : Option OmapEntry)
        → is_newer best (le_u64 x.key 8) ≡ true
        → IsBest Seen best
        → (e : Entry) → Seen e
        → Matches e
        → le_u64 e.key 8 ≤ le_u64 x.key 8
    newer-newest none newer h e seen hit = absurd (h e seen hit)
    newer-newest (some b) newer h e seen hit = ground (arith, h.1 e seen hit)

    IsBest-older :
        (best : Option OmapEntry)
        → is_newer best (le_u64 x.key 8) ≡ false
        → IsBest Seen best
        → IsBest More best
    IsBest-older none older h = absurd (cc older)
    IsBest-older (some b) older h = IsBest-keep b (ground arith) h

    keep_best-IsBest :
        (best : Option OmapEntry) → IsBest Seen best → IsBest More (keep_best oid xid best x)
    keep_best-IsBest best h =
        elim (Bool-cases (not (le_u64 x.key 0 == oid) || ltb xid (le_u64 x.key 8))) [
          | inl other ↦
              rw (keep_best-skip oid xid best x other) (IsBest-skip best (λ hit. ground arith) h)
          | inr same ↦ elim (Bool-cases (is_newer best (le_u64 x.key 8))) [
            | inl newer ↦
                rw (keep_best-take oid xid best x same newer)
                  (IsBest-take (ground arith) (newer-newest best newer h))
            | inr older ↦ rw (keep_best-keep oid xid best x same older) (IsBest-older best older h)
          ]
        ]

  foldl-IsBest :
      (es : List Entry) (Seen : Entry → Type 0) (best : Option OmapEntry)
      → IsBest Seen best
      → IsBest (λ e. Seen e ⊎ Among e es) (foldl (keep_best oid xid) best es)
  foldl-IsBest [] Seen best h =
      IsBest-mono Seen (λ e. Seen e ⊎ ⊥) best (λ e s. inl s)
        (λ e m. elim m [ inl s ↦ s | inr no_place ↦ absurd no_place ]) h
  foldl-IsBest (x ∷ es) Seen best h =
      let rest =
        foldl-IsBest es (λ e. Seen e ⊎ (e ≡ x)) (keep_best oid xid best x)
          (keep_best-IsBest Seen x best h) in
      IsBest-mono (λ e. (Seen e ⊎ (e ≡ x)) ⊎ Among e es) (λ e. Seen e ⊎ ((e ≡ x) ⊎ Among e es))
        (foldl (keep_best oid xid) (keep_best oid xid best x) es) (λ e m. ground arith)
        (λ e m. ground arith) rest

  -- After any list of entries the visitor of `resolve` holds the most recent match of the list, or
  -- nothing if the list has no match.
  pub keep_best-IsBest_all :
      (es : List Entry) → IsBest (λ e. Among e es) (foldl (keep_best oid xid) none es)
  keep_best-IsBest_all es =
      IsBest-mono (λ e. ⊥ ⊎ Among e es) (λ e. Among e es) (foldl (keep_best oid xid) none es)
        (λ e m. elim m [ inl no_place ↦ absurd no_place | inr a ↦ a ]) (λ e a. inr a)
        (foldl-IsBest es (λ e. ⊥) none (λ e m. absurd m))
