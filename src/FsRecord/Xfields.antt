-- ===== src/FsRecord/Xfields.antt =====
-- src/fsrecord.rs, `parse_xfields`, on an area of extended fields that was written: the count, the
-- descriptors, then the values, each from a multiple of eight bytes behind the descriptors on.
use newtua_apfs.Prelude.{
  ℕ, ◌+◌, ◌-◌, ◌*◌, ◌/◌, ◌^◌, ◌≤◌, ◌<◌, ◌≡◌, refl, sym, ap, ◌∙◌, arith, List, [], ◌∷◌, ◌++◌,
  append_assoc, map, some, false, length, length-append, length-replicate, min, ltb, get_or,
  replicate,
}
use newtua_apfs.Prelude.Bits.{bit_and_high_bits}
use newtua_apfs.Bytes.{Bytes, slice, le_u16, to_le_bytes}
use newtua_apfs.Bytes.Slices.{slice-append}
use newtua_apfs.Bytes.Reads.{length-to_le_bytes, le_u16-to_le_bytes}
use newtua_apfs.FsRecord.{align8, xfields_loop, parse_xfields}

-- An extended field as it is written.
pub record Xfield : Type 0 where
  pub x_type : ℕ
  pub x_flags : ℕ
  pub value : Bytes

unfoldable pub descriptors_of : List Xfield → Bytes
descriptors_of [] = []
descriptors_of (f ∷ fs) =
    (f.x_type ∷ f.x_flags ∷ to_le_bytes 2 (length f.value)) ++ descriptors_of fs

-- What fills a value of `n` bytes up to a multiple of eight.
abbrev pub padding_of : ℕ → ℕ
padding_of n = (n + 7) / 8 * 8 - n

unfoldable pub values_of : List Xfield → Bytes
values_of [] = []
values_of (f ∷ fs) = f.value ++ (replicate (padding_of (length f.value)) 0 ++ values_of fs)

unfoldable pub xfields_blob : List Xfield → Bytes → Bytes → Bytes
unfolding descriptors_of values_of
xfields_blob fs used tail =
    to_le_bytes 2 (length fs) ++ (used ++ (descriptors_of fs ++ (values_of fs ++ tail)))

-- Each value's size fits its descriptor.
abbrev pub AreFields : List Xfield → Type 0
AreFields [] = Unit
AreFields (f ∷ fs) = (length f.value < 2 ^ 16) × AreFields fs

abbrev pub parsed_as : Xfield → ℕ × Bytes
parsed_as f = (f.x_type, f.value)

align8-units : (n : ℕ) → n < 2 ^ 16 → align8 n ≡ (n + 7) / 8 * 8
unfolding align8
align8-units n small = bit_and_high_bits 3 61 (n + 7) (omega arith)

get_or-append : (front back : Bytes) (x : ℕ) → get_or (front ++ x ∷ back) (length front) 0 ≡ x
get_or-append [] back x = refl
get_or-append (b ∷ front) back x = get_or-append front back x

module _ (blob : Bytes) where
  xfields_loop-written :
      (fs : List Xfield) (front before later tail : Bytes) (i off : ℕ)
      → blob ≡ front ++ (descriptors_of fs ++ later)
      → length front ≡ 4 + i * 4
      → blob ≡ before ++ (values_of fs ++ tail)
      → length before ≡ off
      → AreFields fs
      → xfields_loop blob (length fs) i off ≡ map parsed_as fs
  unfolding xfields_loop descriptors_of values_of
  xfields_loop-written [] front before later tail i off table at_entry values at_value are = refl
  xfields_loop-written (f ∷ fs) front before later tail i off table at_entry values at_value
        (small, are) =
      let n = length f.value in
      let size = to_le_bytes 2 n in
      let two : Bytes = f.x_type ∷ f.x_flags ∷ [] in
      let four : Bytes = f.x_type ∷ f.x_flags ∷ size in
      let rest = descriptors_of fs ++ later in
      let pad : Bytes = replicate (padding_of n) 0 in
      let sizes = length-to_le_bytes 2 n in
      let padded = length-replicate {A = ℕ} (padding_of n) 0 in
      let entry : blob ≡ front ++ (four ++ rest) =
        table ∙ ap (λ t. front ++ t) (append_assoc four (descriptors_of fs) later) in
      let value : blob ≡ before ++ (f.value ++ (pad ++ (values_of fs ++ tail))) =
        values
        ∙ ap (λ t. before ++ t)
            (append_assoc f.value (pad ++ values_of fs) tail
              ∙ ap (λ t. f.value ++ t) (append_assoc pad (values_of fs) tail)) in
      let typed : get_or blob (4 + i * 4) 0 ≡ f.x_type =
        rw (entry, sym at_entry) (get_or-append front (f.x_flags ∷ (size ++ rest)) f.x_type) in
      let behind : length (front ++ two) ≡ 4 + i * 4 + 2 =
        omega (arith, length-append front two, at_entry) in
      let sized : le_u16 blob (4 + i * 4 + 2) ≡ n =
        rw (entry ∙ sym (append_assoc front two (size ++ rest)), sym behind)
          (le_u16-to_le_bytes (front ++ two) rest n small) in
      let cut : slice blob off (off + n) ≡ some f.value =
        rw (value, sym at_value) (slice-append before f.value (pad ++ (values_of fs ++ tail))) in
      let next = (n + 7) / 8 * 8 in
      let later_fields =
        xfields_loop-written fs (front ++ four) (before ++ (f.value ++ pad)) later tail (i + 1)
          (off + next) (entry ∙ sym (append_assoc front four rest))
          (omega (arith, length-append front four, sizes, at_entry))
          (value
            ∙ ap (λ t. before ++ t) (sym (append_assoc f.value pad (values_of fs ++ tail)))
            ∙ sym (append_assoc before (f.value ++ pad) (values_of fs ++ tail)))
          (omega (
            arith,
            length-append before (f.value ++ pad),
            length-append f.value pad,
            padded,
            at_value,
          ))
          are in
      rw (xfields_loop, sized, cut, sized, align8-units n small, typed)
        (ap (λ fields. parsed_as f ∷ fields) later_fields)

length-descriptors_of : (fs : List Xfield) → length (descriptors_of fs) ≡ length fs * 4
unfolding descriptors_of
length-descriptors_of [] = refl
length-descriptors_of (f ∷ fs) =
    let size = to_le_bytes 2 (length f.value) in
    let four : Bytes = f.x_type ∷ f.x_flags ∷ size in
    omega (
      arith,
      length-append four (descriptors_of fs),
      length-to_le_bytes 2 (length f.value),
      length-descriptors_of fs,
    )

-- At most 4096 extended fields, with values of fewer than 2^16 bytes, that were written behind
-- their count, two bytes and their descriptors, each value filled up to a multiple of eight bytes,
-- parse to these fields, by type and value, in order, whatever follows them.
pub parse_xfields-xfields_blob :
    (fs : List Xfield) (used tail : Bytes)
    → AreFields fs
    → length fs ≤ 4096
    → length used ≡ 2
    → parse_xfields (xfields_blob fs used tail) ≡ map parsed_as fs
unfolding parse_xfields xfields_blob
parse_xfields-xfields_blob fs used tail are few two =
    let blob = xfields_blob fs used tail in
    let count = to_le_bytes 2 (length fs) in
    let table = descriptors_of fs in
    let values = values_of fs ++ tail in
    let before = count ++ (used ++ table) in
    let counted = length-to_le_bytes 2 (length fs) in
    let described = length-descriptors_of fs in
    let behind : length before ≡ length fs * 4 + 4 = omega (
      arith,
      length-append count (used ++ table),
      length-append used table,
      counted,
      two,
      described,
    ) in
    let laid_out : blob ≡ before ++ values =
      ap (λ t. count ++ t) (sym (append_assoc used table values))
      ∙ sym (append_assoc count (used ++ table) values) in
    let sized : length blob ≡ length fs * 4 + 4 + length values =
      ap length laid_out ∙ omega (arith, length-append before values, behind) in
    let read : le_u16 blob 0 ≡ length fs =
      le_u16-to_le_bytes [] (used ++ (table ++ values)) (length fs) (omega arith) in
    let headed : ltb (length blob) 4 ≡ false = ground (arith, sized) in
    let fits : ltb (length blob) (length fs * 4 + 4) ≡ false = ground (arith, sized) in
    let capped : min (length fs) 4096 ≡ length fs = omega arith in
    rw (read, capped, headed, fits)
      (xfields_loop-written blob fs (count ++ used) before values tail 0 (length fs * 4 + 4)
        (sym (append_assoc count used (table ++ values)))
        (omega (arith, length-append count used, counted, two)) laid_out behind are)
