-- ===== src/Encryption/TagLists.antt =====
-- src/encryption.rs, the tags of a keybag: what one entry adds to the lists of `read_keybag`.
use newtua_apfs.Prelude.{
  append_assoc, ◌*◌, ◌||◌, not, Bool, ap, sym, ◌∙◌, ◌/◌, if◌then◌else◌, ℕ, zero, suc, ◌+◌, ◌≡◌,
  refl, arith, List, [], ◌∷◌, ◌++◌, true, false, ltb, ◌==◌, length, Bool-cases, inl, inr,
}
use newtua_apfs.Bytes.{Bytes, le_u16}
use newtua_apfs.Encryption.{
  KeybagTag, unknown, wrapping_key, volume_key, volume_unlock_records, volume_passphrase_hint,
  user_payload, discriminant, from_u16, contains, Tags, add_entry,
}

-- No tag is listed twice.
abbrev pub IsDistinct : List KeybagTag → Type 0
IsDistinct [] = Unit
IsDistinct (t ∷ ts) = (contains ts t ≡ false) × IsDistinct ts

contains-push :
    (ts : List KeybagTag) (t u : KeybagTag)
    → contains ts t ≡ false
    → (discriminant u == discriminant t) ≡ false
    → contains (ts ++ u ∷ []) t ≡ false
unfolding contains
contains-push [] t u h d = ground arith
contains-push (s ∷ ts) t u h d = elim (Bool-cases (discriminant s == discriminant t)) [
  | inl e ↦ let h' : true ≡ false = rw (← h, e) refl in cc (h')
  | inr e ↦ let h' : contains ts t ≡ false = rw (← h, e) refl in rw (e) (contains-push ts t u h' d)
]

push-IsDistinct :
    (ts : List KeybagTag) (u : KeybagTag)
    → contains ts u ≡ false
    → IsDistinct ts
    → IsDistinct (ts ++ u ∷ [])
unfolding contains
push-IsDistinct [] u h d = (refl, tt)
push-IsDistinct (t ∷ ts) u h d = elim (Bool-cases (discriminant t == discriminant u)) [
  | inl e ↦ let h' : true ≡ false = rw (← h, e) refl in cc (h')
  | inr e ↦
      let h' : contains ts u ≡ false = rw (← h, e) refl in
      (contains-push ts t u d.0 (ground arith), push-IsDistinct ts u h' d.1)
]

-- The tag that a raw number stands for, for each tag.
abbrev pub stands_for : KeybagTag → ℕ → Bool
stands_for wrapping_key raw = raw == 1
stands_for volume_key raw = raw == 2
stands_for volume_unlock_records raw = raw == 3
stands_for volume_passphrase_hint raw = raw == 4
stands_for user_payload raw = raw == 0xf8
stands_for unknown raw = not (raw == 1 || raw == 2 || raw == 3 || raw == 4 || raw == 0xf8)

-- The raw tags and the offsets of at most `n` entries from `off` on: each entry has a header of 24
-- bytes, which must lie in the data, and takes up the header and its key in units of 16 bytes.
abbrev pub headers : Bytes → ℕ → ℕ → List (ℕ × ℕ)
headers buf off zero = []
headers buf off (suc n) =
    let next = off + (le_u16 buf (off + 18) + 39) / 16 * 16 in
    let rest = headers buf next n in
    let here : List (ℕ × ℕ) = (le_u16 buf (off + 16), off) ∷ rest in
    if ltb (length buf) (off + 24) then [] else here

abbrev pub any_for : KeybagTag → List (ℕ × ℕ) → Bool
any_for t [] = false
any_for t (e ∷ es) = stands_for t e.0 || any_for t es

abbrev pub unknown_among : List (ℕ × ℕ) → List (ℕ × ℕ)
unknown_among [] = []
unknown_among (e ∷ es) =
    let rest = unknown_among es in if stands_for unknown e.0 then e ∷ rest else rest

from_u16-stands_for :
    (t : KeybagTag) (raw : ℕ) → (discriminant (from_u16 raw) == discriminant t) ≡ stands_for t raw
unfolding from_u16
from_u16-stands_for unknown raw = ground arith
from_u16-stands_for wrapping_key raw = ground arith
from_u16-stands_for volume_key raw = ground arith
from_u16-stands_for volume_unlock_records raw = ground arith
from_u16-stands_for volume_passphrase_hint raw = ground arith
from_u16-stands_for user_payload raw = ground arith

contains-append :
    (ts : List KeybagTag) (u t : KeybagTag)
    → contains (ts ++ u ∷ []) t ≡ (contains ts t || (discriminant u == discriminant t))
unfolding contains
contains-append [] u t = ground arith
contains-append (s ∷ ts) u t = elim (Bool-cases (discriminant s == discriminant t)) [
  | inl e ↦ rw e refl
  | inr e ↦ rw e (contains-append ts u t)
]

contains-same :
    (ts : List KeybagTag) (u t : KeybagTag)
    → discriminant u ≡ discriminant t
    → contains ts u ≡ contains ts t
unfolding contains
contains-same [] u t e = refl
contains-same (s ∷ ts) u t e = rw (e, contains-same ts u t e) refl

-- Whether or not the tag of an entry was new, it is listed afterwards.
pub contains-add_entry :
    (buf : Bytes) (off : ℕ) (s : Tags) (t : KeybagTag)
    → contains (add_entry buf off s).tags_present t
      ≡ (contains s.tags_present t || stands_for t (le_u16 buf (off + 16)))
unfolding add_entry
contains-add_entry buf off s t =
    let raw = le_u16 buf (off + 16) in
    let tag = from_u16 raw in
    let names = from_u16-stands_for t raw in
    elim (Bool-cases (contains s.tags_present tag)) [
      | inr e ↦
          rw e
            (contains-append s.tags_present tag t ∙ ap (λ b. contains s.tags_present t || b) names)
      | inl e ↦ rw e (elim (Bool-cases (discriminant tag == discriminant t)) [
        | inl same ↦
            let listed = sym (contains-same s.tags_present tag t (ground arith)) ∙ e in
            rw (listed) refl
        | inr other ↦ rw (sym names ∙ other) (ground arith)
      ])
    ]

-- The list of unknown tags grows by an unknown tag.
pub unknown_tags-add_entry :
    (buf : Bytes) (off : ℕ) (s : Tags) (es : List (ℕ × ℕ))
    → (add_entry buf off s).unknown_tags ++ unknown_among es
      ≡ s.unknown_tags ++ unknown_among ((le_u16 buf (off + 16), off) ∷ es)
unfolding add_entry
unknown_tags-add_entry buf off s es =
    let raw = le_u16 buf (off + 16) in
    let names = from_u16-stands_for unknown raw in
    elim (Bool-cases (stands_for unknown raw)) [
      | inl e ↦ rw (names, e) (append_assoc s.unknown_tags ((raw, off) ∷ []) (unknown_among es))
      | inr e ↦ rw (names, e) refl
    ]

pub IsDistinct-add_entry :
    (buf : Bytes) (off : ℕ) (s : Tags)
    → IsDistinct s.tags_present
    → IsDistinct (add_entry buf off s).tags_present
unfolding add_entry
IsDistinct-add_entry buf off s distinct =
    let tag = from_u16 (le_u16 buf (off + 16)) in
    elim (Bool-cases (contains s.tags_present tag)) [
      | inl e ↦ rw e distinct
      | inr e ↦ rw e (push-IsDistinct s.tags_present tag e distinct)
    ]
