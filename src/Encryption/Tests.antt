-- ===== src/Encryption/Tests.antt =====
-- src/encryption.rs on a keybag of three entries.
use newtua_apfs.Prelude.{min, ◌||◌, arith, ◌≡◌, refl, [], ◌∷◌, ◌++◌, replicate, true}
use newtua_apfs.Bytes.{Bytes, AllBytes, slice, from_le_bytes, le_u16, to_le_bytes}
use newtua_apfs.Error.{ok}
use newtua_apfs.Encryption.{
  KeybagTag, EncryptionState, wrapping_key, volume_unlock_records, volume_key,
  volume_passphrase_hint, unknown, read_keybag, keybag_loop, add_entry, entry_step, contains,
  any_key, from_u16,
}
use newtua_apfs.Encryption.TagLists.{IsDistinct, headers, any_for, unknown_among}
use newtua_apfs.Encryption.Keybag.{read_keybag-headers}
use newtua_apfs.Samples.{u16}

-- A volume key, an unknown tag and a passphrase hint, of 8, 4 and 8 bytes.
unfoldable keybag : Bytes
unfolding u16
keybag =
    u16 1
    ++ u16 3
    ++ replicate 12 0
    ++ replicate 16 0
    ++ u16 2
    ++ u16 8
    ++ replicate 12 9
    ++ replicate 16 0
    ++ u16 0x55
    ++ u16 4
    ++ replicate 12 9
    ++ replicate 16 0
    ++ u16 4
    ++ u16 8
    ++ replicate 12 9

keybag-AllBytes : AllBytes keybag
unfolding keybag u16 to_le_bytes
keybag-AllBytes = omega arith

read_keybag-headers_example :
    let es = headers keybag 16 (min (le_u16 keybag 2) 4096) in
    (state : EncryptionState) × (read_keybag keybag ≡ ok state)
    × IsDistinct state.tags_present
    × ((t : KeybagTag) → contains state.tags_present t ≡ any_for t es)
    × (state.unknown_tags ≡ unknown_among es)
    × (state.encrypted
        ≡ (any_for wrapping_key es || any_for volume_key es || any_for volume_unlock_records es))
    × (state.has_passphrase_hint ≡ any_for volume_passphrase_hint es)
read_keybag-headers_example = read_keybag-headers keybag keybag-AllBytes

keybag-reads :
    read_keybag keybag
    ≡ ok (record {
      encrypted = true;
      tags_present = volume_key ∷ unknown ∷ volume_passphrase_hint ∷ [];
      has_passphrase_hint = true;
      unknown_tags = (0x55, 48) ∷ [];
    })
unfolding keybag u16 to_le_bytes read_keybag keybag_loop add_entry entry_step contains any_key
    from_u16 le_u16 slice from_le_bytes
keybag-reads = refl
