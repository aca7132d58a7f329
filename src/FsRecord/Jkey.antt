-- ===== src/FsRecord/Jkey.antt =====
-- src/fsrecord.rs, `decode_jkey`: the object id and the record type packed in one word.
use newtua_apfs.Prelude.{
  ℕ, ◌+◌, ◌*◌, ◌/◌, ◌%◌, ◌^◌, ◌<◌, ◌≤◌, ◌≡◌, refl, sym, ap, ◌∙◌, arith, bit_or, Option, some,
}
use newtua_apfs.Prelude.Bits.{bit_and_low_bits, bit_or_shifted}
use newtua_apfs.FsRecord.{RecordType, from_u4, to_u4, decode_jkey, obj_type_shift}

pub from_u4-to_u4 : (t : RecordType) → from_u4 (to_u4 t) ≡ some t
unfolding from_u4 to_u4
from_u4-to_u4 RecordType.snap_metadata = refl
from_u4-to_u4 _ = refl

pub to_u4_range : (t : RecordType) → (1 ≤ to_u4 t) × (to_u4 t ≤ 13)
unfolding to_u4
to_u4_range RecordType.snap_metadata = omega arith
to_u4_range _ = omega arith

pub to_u4-from_u4 : (v : ℕ) (t : RecordType) → from_u4 v ≡ some t → to_u4 t ≡ v
unfolding from_u4 to_u4
to_u4-from_u4 v t h = ground arith

decode_jkey-parts : (w : ℕ) → w < 2 ^ 64 → decode_jkey w ≡ (w % 2 ^ 60, from_u4 (w / 2 ^ 60))
unfolding decode_jkey
decode_jkey-parts w h = ground (arith, bit_and_low_bits 60 w, bit_and_low_bits 4 (w / 2 ^ 60))

-- A key header `(type << 60) | oid` whose oid fits 60 bits decodes to that oid and that type.
pub decode_jkey-pack :
    (oid : ℕ) (t : RecordType)
    → oid < 2 ^ 60
    → decode_jkey (bit_or (to_u4 t * 2 ^ obj_type_shift) oid) ≡ (oid, some t)
decode_jkey-pack oid t h =
    let range = to_u4_range t in
    let packed = bit_or_shifted 60 (to_u4 t) oid h in
    let high : (to_u4 t * 2 ^ 60 + oid) / 2 ^ 60 ≡ to_u4 t = omega arith in
    let low : (to_u4 t * 2 ^ 60 + oid) % 2 ^ 60 ≡ oid = omega arith in
    rw packed
      (decode_jkey-parts (to_u4 t * 2 ^ 60 + oid) (omega arith) ∙ rw (high, low, from_u4-to_u4 t))

-- Two key headers that decode to the same oid and the same known type are the same word.
pub decode_jkey-injective :
    (v w : ℕ) (oid : ℕ) (t : RecordType)
    → v < 2 ^ 64
    → w < 2 ^ 64
    → decode_jkey v ≡ (oid, some t)
    → decode_jkey w ≡ (oid, some t)
    → v ≡ w
decode_jkey-injective v w oid t hv hw dv dw =
    let pv = sym (decode_jkey-parts v hv) ∙ dv in
    let pw = sym (decode_jkey-parts w hw) ∙ dw in
    let tv = to_u4-from_u4 (v / 2 ^ 60) t (ap (λ p. p.1) pv) in
    let tw = to_u4-from_u4 (w / 2 ^ 60) t (ap (λ p. p.1) pw) in
    omega (
      arith,
      ap (λ (p : ℕ × Option RecordType). p.0) pv,
      ap (λ (p : ℕ × Option RecordType). p.0) pw,
    )
