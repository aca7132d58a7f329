-- ===== src/Encryption.antt =====
-- src/encryption.rs: what a keybag shows of a volume's encryption.
pub mod TagLists
pub mod Keybag
mod Tests
use newtua_apfs.Prelude.{
  ℕ, zero, suc, ◌+◌, ◌-◌, ◌^◌, min, max, bit_and, List, [], ◌∷◌, ◌++◌, Bool, true, false, ◌||◌, ltb,
  ◌==◌, length, if◌then◌else◌,
}
use newtua_apfs.Bytes.{Bytes, le_u16}
use newtua_apfs.Error.{Result, ok}

pub data KeybagTag : Type 0 where
  unknown : KeybagTag
  wrapping_key : KeybagTag
  volume_key : KeybagTag
  volume_unlock_records : KeybagTag
  volume_passphrase_hint : KeybagTag
  user_payload : KeybagTag

-- The discriminants, which the derived `==` compares.
abbrev pub discriminant : KeybagTag → ℕ
discriminant unknown = 0x00
discriminant wrapping_key = 0x01
discriminant volume_key = 0x02
discriminant volume_unlock_records = 0x03
discriminant volume_passphrase_hint = 0x04
discriminant user_payload = 0xf8

-- `KeybagTag::from_u16`.
unfoldable pub from_u16 : ℕ → KeybagTag
from_u16 tag =
    if tag == 0x01
    then wrapping_key
    else if tag == 0x02
    then volume_key
    else if tag == 0x03
    then volume_unlock_records
    else if tag == 0x04
    then volume_passphrase_hint
    else if tag == 0xf8
    then user_payload
    else unknown

-- `tags_present.contains(&tag)`.
unfoldable pub contains : List KeybagTag → KeybagTag → Bool
contains [] tag = false
contains (t ∷ ts) tag = (discriminant t == discriminant tag) || contains ts tag

pub record EncryptionState : Type 0 where
  pub encrypted : Bool
  pub tags_present : List KeybagTag
  pub has_passphrase_hint : Bool
  pub unknown_tags : List (ℕ × ℕ)

abbrev pub kl_nkeys : ℕ
kl_nkeys = 2

abbrev pub kl_entries_off : ℕ
kl_entries_off = 16

abbrev pub ke_tag : ℕ
ke_tag = 16

abbrev pub ke_keylen : ℕ
ke_keylen = 18

abbrev pub ke_header_len : ℕ
ke_header_len = 24

abbrev pub max_keybag_entries : ℕ
max_keybag_entries = 4096

-- The two lists that the loop fills.
pub record Tags : Type 0 where
  pub tags_present : List KeybagTag
  pub unknown_tags : List (ℕ × ℕ)

-- What one entry adds to them.
unfoldable pub add_entry : Bytes → ℕ → Tags → Tags
unfolding contains from_u16
add_entry buf off s =
    let raw_tag = le_u16 buf (off + ke_tag) in
    let tag = from_u16 raw_tag in
    record {
      tags_present =
          if contains s.tags_present tag then s.tags_present else s.tags_present ++ tag ∷ [];
      unknown_tags =
          if discriminant tag == discriminant unknown
          then s.unknown_tags ++ (raw_tag, off) ∷ []
          else s.unknown_tags;
    }

-- `((KE_HEADER_LEN + keylen + 15) & !15).max(16)`, on usize.
unfoldable pub entry_step : ℕ → ℕ
entry_step keylen = max (bit_and (ke_header_len + keylen + 15) (2 ^ 64 - 1 - 15)) 16

-- `for _ in 0..nkeys`, with the rounds that are left.
unfoldable pub keybag_loop : Bytes → ℕ → ℕ → Tags → Tags
unfolding add_entry entry_step
keybag_loop buf zero off s = s
keybag_loop buf (suc n) off s =
    let rest =
      keybag_loop buf n (off + entry_step (le_u16 buf (off + ke_keylen))) (add_entry buf off s) in
    if ltb (length buf) (off + ke_header_len) then s else rest

abbrev pub is_key : KeybagTag → Bool
is_key wrapping_key = true
is_key volume_key = true
is_key volume_unlock_records = true
is_key unknown = false
is_key volume_passphrase_hint = false
is_key user_payload = false

unfoldable pub any_key : List KeybagTag → Bool
any_key [] = false
any_key (t ∷ ts) = is_key t || any_key ts

unfoldable pub read_keybag : Bytes → Result EncryptionState
unfolding keybag_loop any_key contains
read_keybag buf =
    let nkeys = min (le_u16 buf kl_nkeys) max_keybag_entries in
    let s =
      keybag_loop buf nkeys kl_entries_off (record { tags_present = []; unknown_tags = [] }) in
    ok (record {
      encrypted = any_key s.tags_present;
      tags_present = s.tags_present;
      has_passphrase_hint = contains s.tags_present volume_passphrase_hint;
      unknown_tags = s.unknown_tags;
    })
