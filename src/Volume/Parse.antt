-- ===== src/Volume/Parse.antt =====
-- src/volume.rs, `ApfsVolume::parse`: what the checks admit, and the name that is kept.
use newtua_apfs.Prelude.{
  ◌%◌, ◌^◌, ◌<◌, ◌≤◌, ◌≡◌, ◌↔◌, refl, sym, ap, ◌∙◌, arith, false, take, drop, [], ◌∷◌, ◌++◌, ◌==◌,
  length, ◌⊎◌, inl, inr, Bool-cases,
}
use newtua_apfs.Prelude.Bits.{bit_and_low_bits}
use newtua_apfs.Bytes.{Bytes, arr, le_u32, le_u64}
use newtua_apfs.Bytes.Slices.{slice_in}
use newtua_apfs.Error.{ok}
use newtua_apfs.Object.{parse_obj_phys, obj_type, fletcher64_stored, fletcher64_checksum}
use newtua_apfs.Volume.{ApfsVolume, parse_volume, parse_typed, volume_of, until_nul, decode_volname}

-- A block long enough, of the volume type, with the volume's magic number, whose stored checksum
-- is its own.
pub record IsApsbBlock (block : Bytes) : Type 0 where
  pub long : 960 ≤ length block
  pub typed : le_u32 block 24 % 2 ^ 16 ≡ 0xd
  pub magic : le_u32 block 32 ≡ 0x4253_5041
  pub sealed : fletcher64_stored block ≡ fletcher64_checksum block

abbrev pub HasNoNul : Bytes → Type 0
HasNoNul [] = Unit
HasNoNul (b ∷ bs) = (0 < b) × HasNoNul bs

-- The bytes of a name are those of its field before the first zero byte, or the whole field if it
-- has none.
pub until_nul-split :
    (field : Bytes)
    → HasNoNul (until_nul field)
      × ((until_nul field ≡ field) ⊎ ((rest : Bytes) × (field ≡ until_nul field ++ 0 ∷ rest)))
unfolding until_nul
until_nul-split [] = (tt, inl refl)
until_nul-split (b ∷ bs) =
    let (clean, whole) = until_nul-split bs in
    elim (Bool-cases (b == 0)) [
      | inl e ↦ rw (e) (tt, inr (bs, ground arith))
      | inr e ↦ rw (e) (
        (ground arith, clean),
        elim whole [
          | inl same ↦ inl (ap (λ t. b ∷ t) same)
          | inr (rest, same) ↦ inr (rest, ap (λ t. b ∷ t) same)
        ],
      )
    ]

-- `name` is what a zero byte ends in the field, or the whole field.
abbrev pub IsName : Bytes → Bytes → Type 0
IsName field name = HasNoNul name × ((name ≡ field) ⊎ ((rest : Bytes) × (field ≡ name ++ 0 ∷ rest)))

until_nul-HasNoNul : (name : Bytes) → HasNoNul name → until_nul name ≡ name
unfolding until_nul
until_nul-HasNoNul [] clean = refl
until_nul-HasNoNul (b ∷ bs) (here, clean) =
    let go_on : (b == 0) ≡ false = ground arith in
    rw go_on (ap (λ t. b ∷ t) (until_nul-HasNoNul bs clean))

until_nul-append : (name rest : Bytes) → HasNoNul name → until_nul (name ++ 0 ∷ rest) ≡ name
unfolding until_nul
until_nul-append [] rest clean = refl
until_nul-append (b ∷ bs) rest (here, clean) =
    let go_on : (b == 0) ≡ false = ground arith in
    rw go_on (ap (λ t. b ∷ t) (until_nul-append bs rest clean))

-- A field has one name.
IsName-until_nul : (field name : Bytes) → IsName field name → name ≡ until_nul field
IsName-until_nul field name (clean, inl whole) =
    sym (ap until_nul (sym whole) ∙ until_nul-HasNoNul name clean)
IsName-until_nul field name (clean, inr (rest, cut)) =
    sym (ap until_nul cut ∙ until_nul-append name rest clean)

-- The name's field, and the fields of a volume superblock at their places in the block.
abbrev pub name_field : Bytes → Bytes
name_field block = take 256 (drop 704 block)

abbrev pub fields_of : {Text : Type 0} → Bytes → Text → ApfsVolume Text
fields_of block name = record {
  oid = le_u64 block 8;
  xid = le_u64 block 16;
  fs_index = le_u32 block 36;
  features = le_u64 block 40;
  readonly_compatible_features = le_u64 block 48;
  incompatible_features = le_u64 block 56;
  root_tree_type = le_u32 block 116;
  omap_oid = le_u64 block 128;
  root_tree_oid = le_u64 block 136;
  extentref_tree_oid = le_u64 block 144;
  snap_meta_tree_oid = le_u64 block 152;
  uuid = arr 16 block 240;
  fs_flags = le_u64 block 256;
  name = name;
}

module _ {Text : Type 0} (from_utf8_lossy : Bytes → Text) where
  parse_volume-volume_of :
      (block : Bytes) (v : ApfsVolume Text)
      → (parse_volume from_utf8_lossy block ≡ ok v)
        ↔ (IsApsbBlock block × (v ≡ volume_of from_utf8_lossy block))
  unfolding parse_volume parse_typed parse_obj_phys obj_type volume_of
  parse_volume-volume_of block v =
      let low = bit_and_low_bits 16 (le_u32 block 24) in
      (
        λ h. (
          record {
            long = ground arith;
            typed = ground arith;
            magic = ground arith;
            sealed = ground arith;
          },
          ground arith,
        ),
        λ h. ground arith,
      )

  decode_volname-name_field :
      (block : Bytes)
      → 960 ≤ length block
      → decode_volname from_utf8_lossy block 704 256
        ≡ from_utf8_lossy (until_nul (name_field block))
  unfolding decode_volname
  decode_volname-name_field block long =
      rw (decode_volname, slice_in block 704 960 (omega arith) long) refl

  volume_of-fields_of :
      (block : Bytes)
      → 960 ≤ length block
      → volume_of from_utf8_lossy block
        ≡ fields_of block (from_utf8_lossy (until_nul (name_field block)))
  unfolding volume_of
  volume_of-fields_of block long = ap (fields_of block) (decode_volname-name_field block long)

  -- `ApfsVolume::parse` succeeds exactly on a block of at least 960 bytes whose type is the volume
  -- type, which holds the magic number and whose stored checksum is the computed one, and then
  -- returns the fields that stand at their places in the block, with the name as the lossy
  -- conversion gives it from the bytes of its field before the first zero byte, or from all 256
  -- where there is none.
  pub parse_volume-eq-ok :
      (block : Bytes) (v : ApfsVolume Text)
      → (parse_volume from_utf8_lossy block ≡ ok v) ↔ (
          IsApsbBlock block
          × ((name : Bytes) × IsName (name_field block) name
              × (v ≡ fields_of block (from_utf8_lossy name))))
  parse_volume-eq-ok block v =
      let parses = parse_volume-volume_of block v in
      let field = name_field block in
      (
        λ h.
            let (is, same) = parses.0 h in
            (
              is,
              (until_nul field, until_nul-split field, same ∙ volume_of-fields_of block is.long),
            ),
        λ (is, (name, named, same)). parses.1 (
          is,
          same
              ∙ ap (λ n. fields_of block (from_utf8_lossy n)) (IsName-until_nul field name named)
              ∙ sym (volume_of-fields_of block is.long),
        ),
      )
