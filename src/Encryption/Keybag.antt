-- ===== src/Encryption/Keybag.antt =====
-- src/encryption.rs, `read_keybag`: what it reports of the entries in the data.
use newtua_apfs.Prelude.{
  append-nil, bit_and, ◌*◌, ◌^◌, ◌<◌, ◌-◌, ◌||◌, ap, sym, ◌∙◌, ◌/◌, ℕ, zero, suc, ◌+◌, ◌≡◌, refl,
  arith, min, List, [], ◌∷◌, ◌++◌, ltb, length, Bool-cases, inl, inr,
}
use mathlib.Core.Bool.{or_assoc}
use newtua_apfs.Prelude.Bits.{bit_and_high_bits}
use newtua_apfs.Bytes.{Bytes, AllBytes, le_u16}
use newtua_apfs.Bytes.Reads.{le_reads_fit}
use newtua_apfs.Error.{ok}
use newtua_apfs.Encryption.{
  KeybagTag, unknown, wrapping_key, volume_key, volume_unlock_records, volume_passphrase_hint,
  user_payload, contains, EncryptionState, Tags, add_entry, entry_step, keybag_loop, any_key,
  read_keybag, ke_header_len,
}
use newtua_apfs.Encryption.TagLists.{
  IsDistinct, stands_for, headers, any_for, unknown_among, contains-add_entry,
  unknown_tags-add_entry, IsDistinct-add_entry,
}

-- An entry's size in the code's words, and in units.
entry_step-units : (keylen : ℕ) → keylen < 2 ^ 16 → entry_step keylen ≡ (keylen + 39) / 16 * 16
unfolding entry_step
entry_step-units keylen small =
    let size = ke_header_len + keylen + 15 in
    let masked : bit_and size (2 ^ 64 - 1 - 15) ≡ size / 16 * 16 =
      bit_and_high_bits 4 60 size (omega arith) in
    omega (arith, masked)

-- What the loop makes of the lists, from the entries that it meets.
record IsReport (es : List (ℕ × ℕ)) (s result : Tags) : Type 0 where
  pub distinct : IsDistinct s.tags_present → IsDistinct result.tags_present
  pub tags :
      (t : KeybagTag) → contains result.tags_present t ≡ (contains s.tags_present t || any_for t es)
  pub unknowns : result.unknown_tags ≡ s.unknown_tags ++ unknown_among es

nothing-IsReport : (s : Tags) → IsReport [] s s
nothing-IsReport s = record {
  distinct = λ d. d;
  tags = λ t. ground arith;
  unknowns = sym (append-nil s.unknown_tags);
}

add_entry-IsReport :
    (buf : Bytes) (off : ℕ) (s result : Tags) (es : List (ℕ × ℕ))
    → IsReport es (add_entry buf off s) result
    → IsReport ((le_u16 buf (off + 16), off) ∷ es) s result
add_entry-IsReport buf off s result es rest = record {
  distinct = λ d. rest.distinct (IsDistinct-add_entry buf off s d);
  tags = λ t.
      rest.tags t
      ∙ ap (λ b. b || any_for t es) (contains-add_entry buf off s t)
      ∙ or_assoc (contains s.tags_present t) (stands_for t (le_u16 buf (off + 16))) (any_for t es);
  unknowns = rest.unknowns ∙ unknown_tags-add_entry buf off s es;
}

keybag_loop-IsReport :
    (buf : Bytes) (n off : ℕ) (s : Tags)
    → AllBytes buf
    → IsReport (headers buf off n) s (keybag_loop buf n off s)
unfolding keybag_loop
keybag_loop-IsReport buf zero off s all = nothing-IsReport s
keybag_loop-IsReport buf (suc n) off s all = elim (Bool-cases (ltb (length buf) (off + 24))) [
  | inl e ↦ rw e (nothing-IsReport s)
  | inr e ↦
      let keylen = le_u16 buf (off + 18) in
      let units = entry_step-units keylen (le_reads_fit buf (off + 18) all).0 in
      rw (e, units)
        (add_entry-IsReport buf off s _ _
          (keybag_loop-IsReport buf n (off + (keylen + 39) / 16 * 16) (add_entry buf off s) all))
]

any_key-contains :
    (ts : List KeybagTag)
    → any_key ts
      ≡ (contains ts wrapping_key || contains ts volume_key || contains ts volume_unlock_records)
unfolding any_key contains
any_key-contains [] = refl
any_key-contains (wrapping_key ∷ ts) = ground arith
any_key-contains (volume_key ∷ ts) = ground arith
any_key-contains (volume_unlock_records ∷ ts) = ground arith
any_key-contains (unknown ∷ ts) = any_key-contains ts
any_key-contains (volume_passphrase_hint ∷ ts) = any_key-contains ts
any_key-contains (user_payload ∷ ts) = any_key-contains ts

-- Of any bytes, `read_keybag` reports the entries that their headers name, at most as many as the
-- keybag counts and 4096, up to the first whose header leaves the data: it lists each tag once, and
-- exactly the tags that some entry has; it reports every entry with an unknown tag, in order, by
-- its raw tag and offset; the volume is encrypted exactly where some entry is a wrapping key, a
-- volume key or the unlock records, and has a hint exactly where some entry is one.
pub read_keybag-headers :
    (buf : Bytes)
    → AllBytes buf
    → let es = headers buf 16 (min (le_u16 buf 2) 4096) in
      (state : EncryptionState) × (read_keybag buf ≡ ok state)
      × IsDistinct state.tags_present
      × ((t : KeybagTag) → contains state.tags_present t ≡ any_for t es)
      × (state.unknown_tags ≡ unknown_among es)
      × (state.encrypted
          ≡ (any_for wrapping_key es || any_for volume_key es || any_for volume_unlock_records es))
      × (state.has_passphrase_hint ≡ any_for volume_passphrase_hint es)
unfolding read_keybag contains
read_keybag-headers buf all =
    let none_yet : Tags = record { tags_present = []; unknown_tags = [] } in
    let n = min (le_u16 buf 2) 4096 in
    let result = keybag_loop buf n 16 none_yet in
    let report = keybag_loop-IsReport buf n 16 none_yet all in
    (
      _,
      refl,
      report.distinct tt,
      report.tags,
      report.unknowns,
      rw
          (
            any_key-contains result.tags_present,
            report.tags wrapping_key,
            report.tags volume_key,
            report.tags volume_unlock_records,
          )
          refl,
      report.tags volume_passphrase_hint,
    )
