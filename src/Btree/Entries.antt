-- ===== src/Btree/Entries.antt =====
-- src/btree.rs, `node_entries`: what the loop over the table of contents returns, on any block.
use newtua_apfs.Prelude.{
  ℕ, zero, suc, ◌+◌, ◌-◌, ◌*◌, ◌/◌, ◌^◌, ◌≤◌, ◌<◌, ◌≡◌, refl, sym, ap, ◌∙◌, arith, List, [], ◌∷◌,
  none, some, Bool, true, false, ltb, ◌||◌, length, min, inl, inr, Bool-cases, if◌then◌else◌,
}
use newtua_apfs.Bytes.{Bytes, le_u32}
use native.Mathlib.Decide.{dec_lt}
use newtua_apfs.Btree.Node.{
  BTreeSubtype, Entry, Layout, entries_loop, node_entries, parse_node_header,
}
use newtua_apfs.Btree.Toc.{
  layout_of, described, record_len, toc_entry-described, node_layout-layout_of,
}

module _ (block : Bytes) (l : Layout) where
  -- Whether the loop goes on at TOC index `i`.
  abbrev stops : ℕ → Bool
  stops i =
      let e = l.toc_start + i * record_len l in
      ltb l.key_area (e + record_len l) || ltb (length block) (e + record_len l)

  -- The TOC entries that lie both before the key area and in the block.
  abbrev pub toc_capacity : ℕ
  toc_capacity = (min l.key_area (length block) - l.toc_start) / record_len l

  -- `n` TOC entries from index `i` on, without the entries that are passed over.
  abbrev pub decode_toc : ℕ → ℕ → List Entry
  decode_toc zero i = []
  decode_toc (suc n) i = elim (described block l (l.toc_start + i * record_len l)) [
    | none ↦ decode_toc n (i + 1)
    | some x ↦ x ∷ decode_toc n (i + 1)
  ]

  stops-at : (i : ℕ) → toc_capacity ≤ i → stops i ≡ true
  stops-at i h = ground arith

  goes_on-at : (i : ℕ) → i < toc_capacity → stops i ≡ false
  goes_on-at i h = ground arith

  entries_loop-step :
      (n i : ℕ)
      → stops i ≡ false
      → entries_loop block l (suc n) i ≡ elim (described block l (l.toc_start + i * record_len l)) [
        | none ↦ entries_loop block l n (i + 1)
        | some x ↦ x ∷ entries_loop block l n (i + 1)
      ]
  unfolding entries_loop
  entries_loop-step n i h =
      rw (h, toc_entry-described block l (l.toc_start + i * record_len l)) refl

  entries_loop-stop : (n i : ℕ) → stops i ≡ true → entries_loop block l n i ≡ []
  unfolding entries_loop
  entries_loop-stop zero i h = refl
  entries_loop-stop (suc n) i h = rw h

  decode_toc-none_left : (m i : ℕ) → m ≡ 0 → [] ≡ decode_toc m i
  decode_toc-none_left m i e = rw e

  -- One more round in front of the rounds that follow it.
  abbrev with_entry : ℕ → List Entry → List Entry
  with_entry i rest = elim (described block l (l.toc_start + i * record_len l)) [
    | none ↦ rest
    | some x ↦ x ∷ rest
  ]

  decode_toc-suc : (m n i : ℕ) → m ≡ suc n → decode_toc m i ≡ with_entry i (decode_toc n (i + 1))
  decode_toc-suc m n i e = rw e

  entries_loop-decode_toc :
      (n i : ℕ) → entries_loop block l n i ≡ decode_toc (min n (toc_capacity - i)) i
  unfolding entries_loop
  entries_loop-decode_toc zero i = decode_toc-none_left (min 0 (toc_capacity - i)) i (omega arith)
  entries_loop-decode_toc (suc n) i = elim (dec_lt i toc_capacity) [
    | no h ↦
        entries_loop-stop (suc n) i (stops-at i (omega arith))
        ∙ decode_toc-none_left (min (suc n) (toc_capacity - i)) i (omega arith)
    | yes h ↦
        entries_loop-step n i (goes_on-at i h)
        ∙ ap (with_entry i) (entries_loop-decode_toc n (i + 1))
        ∙ sym (
            decode_toc-suc (min (suc n) (toc_capacity - i)) (min n (toc_capacity - (i + 1))) i
              (omega arith))
  ]

module _ (block : Bytes) (subtype : BTreeSubtype) where
  -- The entries of a node, the empty list of a block of fewer than 56 bytes, are those that the
  -- leading records of its table describe, as many as the header counts (at most 2 ^ 20), the table
  -- holds and the block holds, less those whose key or value does not lie in the block: keys
  -- behind the table, values so many bytes before the end or, in a root, before its footer.
  pub node_entries-decode_toc :
      let l = layout_of block subtype in
      node_entries block subtype ≡ (
        if ltb (length block) 56
        then []
        else decode_toc block l (min (min (le_u32 block 36) (2 ^ 20)) (toc_capacity block l)) 0)
  unfolding node_entries parse_node_header
  node_entries-decode_toc = elim (Bool-cases (ltb (length block) 56)) [
    | inl short ↦ rw (node_entries, parse_node_header, short) refl
    | inr long ↦
        let n = min (le_u32 block 36) (2 ^ 20) in
        rw (node_entries, parse_node_header, long)
          (ap (λ l. entries_loop block l n 0) (node_layout-layout_of block subtype)
            ∙ whole_toc (layout_of block subtype) n)
  ]
    where
      whole_toc :
          (l : Layout) (n : ℕ)
          → entries_loop block l n 0 ≡ decode_toc block l (min n (toc_capacity block l)) 0
      whole_toc l n =
          let all : min n (toc_capacity block l - 0) ≡ min n (toc_capacity block l) = omega arith in
          entries_loop-decode_toc block l n 0 ∙ ap (λ m. decode_toc block l m 0) all
