-- ===== src/Object.antt =====
-- src/object.rs: the object header and the Fletcher-64 checksum.
pub mod Fletcher
pub mod Checksum
mod Tests
use newtua_apfs.Prelude.{
  ℕ, zero, suc, ◌+◌, ◌-◌, ◌*◌, ◌%◌, ◌^◌, bit_and, bit_or, List, [], ◌∷◌, ◌++◌, drop, Option, none,
  some, ltb, length, if◌then◌else◌,
}
use newtua_apfs.Bytes.{Bytes, from_le_bytes, to_le_bytes, le_u32, le_u64}

abbrev pub obj_phys_len : ℕ
obj_phys_len = 32

unfoldable pub fletcher64_stored : Bytes → ℕ
fletcher64_stored block = le_u64 block 0

pub record ObjPhys : Type 0 where
  pub cksum : ℕ
  pub oid : ℕ
  pub xid : ℕ
  pub obj_type_raw : ℕ
  pub subtype : ℕ

-- `ObjPhys::parse`.
unfoldable pub parse_obj_phys : Bytes → Option ObjPhys
parse_obj_phys block =
    if ltb (length block) obj_phys_len
    then none
    else some (record {
      cksum = le_u64 block 0;
      oid = le_u64 block 8;
      xid = le_u64 block 16;
      obj_type_raw = le_u32 block 24;
      subtype = le_u32 block 28;
    })

-- `ObjPhys::obj_type`: the cast to u16 keeps the low 16 bits.
unfoldable pub obj_type : ObjPhys → ℕ
obj_type h = bit_and h.obj_type_raw 0xffff % 2 ^ 16

abbrev pub fletcher_mod : ℕ
fletcher_mod = 0xffff_ffff

-- `block.chunks_exact(4)`, each chunk read as a little-endian word; a partial chunk is dropped.
unfoldable pub words : Bytes → List ℕ
words (a ∷ b ∷ c ∷ d ∷ rest) = from_le_bytes (a ∷ b ∷ c ∷ d ∷ []) ∷ words rest
words _ = []

pub record Sums : Type 0 where
  pub sum_lo : ℕ
  pub sum_hi : ℕ

-- One round of the loop: both sums stay below 2 ^ 32, so no u64 addition wraps.
unfoldable pub fletcher_step : ℕ → ℕ → Sums → Sums
fletcher_step i word s =
    let v = if ltb i 2 then 0 else word in
    let lo = (s.sum_lo + v) % fletcher_mod in
    record { sum_lo = lo; sum_hi = (s.sum_hi + lo) % fletcher_mod }

unfoldable pub fletcher_loop : ℕ → List ℕ → Sums → Sums
fletcher_loop i [] s = s
fletcher_loop i (w ∷ ws) s = fletcher_loop (i + 1) ws (fletcher_step i w s)

-- `(check_hi << 32) | check_lo` over the two sums.
unfoldable pub fletcher_finish : Sums → ℕ
fletcher_finish s =
    let check_lo = fletcher_mod - (s.sum_lo + s.sum_hi) % fletcher_mod in
    let check_hi = fletcher_mod - (s.sum_lo + check_lo) % fletcher_mod in
    bit_or (check_hi * 2 ^ 32 % 2 ^ 64) check_lo

unfoldable pub fletcher64_checksum : Bytes → ℕ
unfolding words fletcher_loop fletcher_step fletcher_finish
fletcher64_checksum block =
    fletcher_finish (fletcher_loop 0 (words block) (record { sum_lo = 0; sum_hi = 0 }))

-- The block with its own checksum stored in its first eight bytes, as a writer of the format does.
unfoldable pub stamp : Bytes → Bytes
stamp block = to_le_bytes 8 (fletcher64_checksum block) ++ drop 8 block
