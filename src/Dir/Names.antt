-- ===== src/Dir/Names.antt =====
-- src/dir.rs, `decode_drec_name`: both layouts of a directory record's key read back the name that
-- was written in them.
use newtua_apfs.Prelude.{
  ℕ, ◌+◌, ◌*◌, ◌/◌, ◌%◌, ◌^◌, ◌<◌, ◌≡◌, refl, ◌∙◌, ap, subst, arith, [], ◌∷◌, ◌++◌, none, some,
  length, length-append, append_assoc, append-nil,
}
use newtua_apfs.Prelude.Bits.{bit_and_low_bits}
use newtua_apfs.Bytes.{Bytes, Str, slice, from_le_bytes, to_le_bytes, le_u16, le_u32}
use newtua_apfs.Bytes.Slices.{slice-append, slice_out}
use newtua_apfs.Bytes.Reads.{le_u16-to_le_bytes, le_u32-to_le_bytes, length-to_le_bytes}
use newtua_apfs.Volume.{until_nul}
use newtua_apfs.Volume.Parse.{HasNoNul}
use newtua_apfs.Dir.{hashed_name, unhashed_name, decode_cstr, decode_drec_name}

pub until_nul-terminated : (name : Bytes) → HasNoNul name → until_nul (name ++ (0 ∷ [])) ≡ name
unfolding until_nul
until_nul-terminated [] h = refl
until_nul-terminated (b ∷ bs) h = rw (until_nul-terminated bs h.1) (ground arith)

-- A key ends in the name and its terminator, which stand at `n` if `n` bytes are before them.
pub slice_tail :
    (hdr word field : Bytes) (n m : ℕ)
    → length hdr + length word ≡ n
    → length field ≡ m
    → slice (hdr ++ (word ++ field)) n (n + m) ≡ some field
slice_tail hdr word field n m before size =
    let here = slice-append (hdr ++ word) field [] in
    let whole = ap (λ f. (hdr ++ word) ++ f) (append-nil field) ∙ append_assoc hdr word field in
    subst (λ k. slice (hdr ++ (word ++ field)) k (k + m) ≡ some field)
      (length-append hdr word ∙ before)
      (subst
        (λ k.
          slice (hdr ++ (word ++ field)) (length (hdr ++ word)) (length (hdr ++ word) + k)
          ≡ some field)
        size
        (subst
          (λ buf.
            slice buf (length (hdr ++ word)) (length (hdr ++ word) + length field) ≡ some field)
          whole here))

hashed_name-slice :
    (key : Bytes) (len : ℕ)
    → 0 < len
    → le_u32 key 8 % 2 ^ 10 ≡ len
    → hashed_name key ≡ slice key 12 (12 + len)
unfolding hashed_name
hashed_name-slice key len some_bytes word = ground (arith, bit_and_low_bits 10 (le_u32 key 8))

unhashed_name-slice :
    (key : Bytes) (len : ℕ)
    → 0 < len
    → le_u16 key 8 ≡ len
    → unhashed_name key ≡ slice key 10 (10 + len)
unfolding unhashed_name
unhashed_name-slice key len some_bytes word = ground arith

-- The 32-bit word at a key's 16-bit length has that length as its low bits.
le_u32_over :
    (hdr : Bytes) (len c d : ℕ) (rest : Bytes)
    → length hdr ≡ 8
    → len < 2 ^ 10
    → le_u32 (hdr ++ (to_le_bytes 2 len ++ (c ∷ d ∷ rest))) 8 % 2 ^ 10 ≡ len
unfolding le_u32 to_le_bytes from_le_bytes
le_u32_over hdr len c d rest eight short =
    let b0 = len % 256 in
    let b1 = len / 256 % 256 in
    let here = rw eight at (slice-append hdr (b0 ∷ b1 ∷ c ∷ d ∷ []) rest) in rw here (omega arith)

hashed_name_short : (key : Bytes) → length key < 12 → hashed_name key ≡ none
unfolding hashed_name le_u32 from_le_bytes
hashed_name_short key h =
    let word : le_u32 key 8 ≡ 0 = rw (slice_out key 8 12 h) refl in rw word refl

-- The hashed reading of an unhashed key runs past its end.
hashed_name-none :
    (hdr field : Bytes)
    → length hdr ≡ 8
    → 0 < length field
    → length field < 2 ^ 10
    → hashed_name (hdr ++ (to_le_bytes 2 (length field) ++ field)) ≡ none
hashed_name-none hdr [] eight some_bytes short = absurd (omega arith)
hashed_name-none hdr (c ∷ []) eight some_bytes short =
    hashed_name_short (hdr ++ (to_le_bytes 2 1 ++ (c ∷ []))) (
      omega (
        arith,
        length-append hdr (to_le_bytes 2 1 ++ (c ∷ [])),
        length-append (to_le_bytes 2 1) (c ∷ []),
        length-to_le_bytes 2 1,
      ))
hashed_name-none hdr (c ∷ d ∷ rest) eight some_bytes short =
    let len = length (c ∷ d ∷ rest) in
    let key = hdr ++ (to_le_bytes 2 len ++ (c ∷ d ∷ rest)) in
    hashed_name-slice key len some_bytes (le_u32_over hdr len c d rest eight short)
    ∙ slice_out key 12 (12 + len) (
        omega (
          arith,
          length-append hdr (to_le_bytes 2 len ++ (c ∷ d ∷ rest)),
          length-append (to_le_bytes 2 len) (c ∷ d ∷ rest),
          length-to_le_bytes 2 len,
        ))

module _ (from_utf8_lossy : Bytes → Str) (key : Bytes) {n : Bytes} where
  decode_drec_name_hashed :
      hashed_name key ≡ some n
      → decode_drec_name from_utf8_lossy key ≡ some (from_utf8_lossy (until_nul n))
  unfolding decode_drec_name decode_cstr
  decode_drec_name_hashed e = rw (decode_drec_name, e) refl

  decode_drec_name_unhashed :
      hashed_name key ≡ none
      → unhashed_name key ≡ some n
      → decode_drec_name from_utf8_lossy key ≡ some (from_utf8_lossy (until_nul n))
  unfolding decode_drec_name decode_cstr
  decode_drec_name_unhashed e e' = rw (decode_drec_name, e, e') refl

abbrev pub terminated : Bytes → Bytes
terminated name = name ++ (0 ∷ [])

-- `j_drec_hashed_key_t`, from its header on: the name's hash and length, and the name.
abbrev pub hashed_key : Bytes → Bytes → ℕ → Bytes
hashed_key hdr name hash =
    hdr ++ (to_le_bytes 4 (hash * 2 ^ 10 + (length name + 1)) ++ terminated name)

-- `j_drec_key_t`, from its header on: the name's length, and the name.
abbrev pub unhashed_key : Bytes → Bytes → Bytes
unhashed_key hdr name = hdr ++ (to_le_bytes 2 (length name + 1) ++ terminated name)

module _ (from_utf8_lossy : Bytes → Str) (hdr name : Bytes) (eight : length hdr ≡ 8)
    (clean : HasNoNul name) where
  hashed_name-hashed_key :
      (hash : ℕ)
      → hash < 2 ^ 22
      → length name + 1 < 2 ^ 10
      → hashed_name (hashed_key hdr name hash) ≡ some (terminated name)
  unfolding hashed_name
  hashed_name-hashed_key hash h short =
      let word = hash * 2 ^ 10 + (length name + 1) in
      let read = rw eight at (le_u32-to_le_bytes hdr (terminated name) word (omega arith)) in
      hashed_name-slice (hashed_key hdr name hash) (length name + 1) (omega arith) (omega arith)
      ∙ slice_tail hdr (to_le_bytes 4 word) (terminated name) 12 (length name + 1)
          (omega (arith, length-to_le_bytes 4 word)) (length-append name (0 ∷ []))

  pub unhashed_name-unhashed_key :
      length name + 1 < 2 ^ 16 → unhashed_name (unhashed_key hdr name) ≡ some (terminated name)
  unfolding unhashed_name
  unhashed_name-unhashed_key short =
      let len = length name + 1 in
      let read = rw eight at (le_u16-to_le_bytes hdr (terminated name) len (omega arith)) in
      unhashed_name-slice (unhashed_key hdr name) len (omega arith) read
      ∙ slice_tail hdr (to_le_bytes 2 len) (terminated name) 10 len
          (omega (arith, length-to_le_bytes 2 len)) (length-append name (0 ∷ []))

  hashed_name-unhashed_key : length name + 1 < 2 ^ 10 → hashed_name (unhashed_key hdr name) ≡ none
  unfolding hashed_name
  hashed_name-unhashed_key short =
      let size = length-append name (0 ∷ []) in
      subst (λ n. hashed_name (hdr ++ (to_le_bytes 2 n ++ (terminated name))) ≡ none) size
        (hashed_name-none hdr (terminated name) eight (omega arith) (omega arith))

  -- A key in either layout, whose name has at most 1022 bytes, none of them zero, and is written
  -- with its terminator behind the length that counts it, decodes to that name, as the lossy
  -- conversion of its bytes gives it.
  pub decode_drec_name-written :
      (hash : ℕ)
      → hash < 2 ^ 22
      → length name + 1 < 2 ^ 10
      → (decode_drec_name from_utf8_lossy (hashed_key hdr name hash) ≡ some (from_utf8_lossy name))
        × (decode_drec_name from_utf8_lossy (unhashed_key hdr name) ≡ some (from_utf8_lossy name))
  decode_drec_name-written hash h short = (
    decode_drec_name_hashed from_utf8_lossy (hashed_key hdr name hash)
          (hashed_name-hashed_key hash h short)
        ∙ ap (λ n. some (from_utf8_lossy n)) (until_nul-terminated name clean),
    decode_drec_name_unhashed from_utf8_lossy (unhashed_key hdr name)
          (hashed_name-unhashed_key short) (unhashed_name-unhashed_key (omega arith))
        ∙ ap (λ n. some (from_utf8_lossy n)) (until_nul-terminated name clean),
  )
