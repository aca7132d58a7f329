-- ===== src/Xattr/Written.antt =====
-- src/xattr.rs, `parse_xattr`: an attribute that was written to a record is read back from it.
use newtua_apfs.Prelude.{ℕ, ◌+◌, ◌*◌, ◌%◌, ◌^◌, ◌<◌, ◌≡◌, refl, ◌∙◌, arith, [], ◌++◌, some, length}
use newtua_apfs.Prelude.Bits.{bit_and_low_bits}
use newtua_apfs.Bytes.{Bytes, Str, slice, to_le_bytes, le_u16}
use newtua_apfs.Bytes.Reads.{le_u16-to_le_bytes, le_u64-to_le_bytes, length-to_le_bytes}
use newtua_apfs.Volume.Parse.{HasNoNul}
use newtua_apfs.Dir.{unhashed_name}
use newtua_apfs.Dir.Names.{
  unhashed_key, slice_tail, until_nul-terminated, unhashed_name-unhashed_key,
}
use newtua_apfs.Xattr.{
  embedded, stream, xattr_name_bytes, xdata_of, xattr_value_of, decode_cstr, parse_xattr,
  xattr_data_stream,
}

-- `j_xattr_val_t`: the flags, the data's length and the data.
abbrev pub value_bytes : ℕ → Bytes → Bytes
value_bytes flags bytes = to_le_bytes 2 flags ++ (to_le_bytes 2 (length bytes) ++ bytes)

-- `j_xattr_dstream_t`: the stream's id and size, and the rest of its description.
abbrev pub dstream : ℕ → ℕ → Bytes → Bytes
dstream oid size rest = to_le_bytes 8 oid ++ (to_le_bytes 8 size ++ rest)

xattr_name_bytes-unhashed_name : (key : Bytes) → xattr_name_bytes key ≡ unhashed_name key
unfolding xattr_name_bytes unhashed_name
xattr_name_bytes-unhashed_name key = ground arith

xdata_of-written :
    (flags : ℕ) (bytes : Bytes) → length bytes < 2 ^ 16 → xdata_of (value_bytes flags bytes) ≡ bytes
unfolding xdata_of
xdata_of-written flags bytes short =
    let len = length bytes in
    let read : le_u16 (value_bytes flags bytes) 2 ≡ len =
      rw (length-to_le_bytes 2 flags) at
        (le_u16-to_le_bytes (to_le_bytes 2 flags) bytes len (omega arith)) in
    let here : slice (value_bytes flags bytes) 4 (4 + len) ≡ some bytes =
      slice_tail (to_le_bytes 2 flags) (to_le_bytes 2 len) bytes 4 len
        (omega (arith, length-to_le_bytes 2 flags, length-to_le_bytes 2 len)) refl in
    rw (xdata_of, read, here) refl

xattr_value_of_embedded :
    (flags : ℕ) (bytes : Bytes) → flags % 2 ≡ 0 → xattr_value_of flags bytes ≡ embedded bytes
unfolding xattr_value_of
xattr_value_of_embedded flags bytes even = ground (arith, bit_and_low_bits 1 flags)

xattr_value_of_stream :
    (flags oid size : ℕ) (rest : Bytes)
    → flags % 2 ≡ 1
    → oid < 2 ^ 64
    → size < 2 ^ 64
    → xattr_value_of flags (dstream oid size rest) ≡ stream oid size
unfolding xattr_value_of
xattr_value_of_stream flags oid size rest odd h k =
    let first = le_u64-to_le_bytes [] (to_le_bytes 8 size ++ rest) oid h in
    let second =
      rw (length-to_le_bytes 8 oid) at (le_u64-to_le_bytes (to_le_bytes 8 oid) rest size k) in
    ground (arith, bit_and_low_bits 1 flags, first, second)

module _ (from_utf8_lossy : Bytes → Str) where
  parse_xattr_record :
      (hdr name : Bytes) (flags : ℕ) (bytes : Bytes)
      → length hdr ≡ 8
      → HasNoNul name
      → length name + 1 < 2 ^ 16
      → flags < 2 ^ 16
      → length bytes < 2 ^ 16
      → parse_xattr from_utf8_lossy (unhashed_key hdr name) (value_bytes flags bytes)
        ≡ some (record {
          name = from_utf8_lossy name;
          flags = flags;
          value = xattr_value_of flags bytes;
        })
  unfolding parse_xattr decode_cstr
  parse_xattr_record hdr name flags bytes eight clean short word fits =
      let named =
        xattr_name_bytes-unhashed_name (unhashed_key hdr name)
        ∙ unhashed_name-unhashed_key from_utf8_lossy hdr name eight clean short in
      let flag =
        le_u16-to_le_bytes [] (to_le_bytes 2 (length bytes) ++ bytes) flags (omega arith) in
      rw
        (
          parse_xattr,
          named,
          flag,
          xdata_of-written flags bytes fits,
          decode_cstr,
          until_nul-terminated name clean,
        )
        refl

  -- A record of an attribute, whose name is terminated and whose data is at most 65535 bytes long,
  -- parses to that attribute: with the stream flag clear to the data itself, with it set to the id
  -- and the size of the stream that the data describes.
  pub parse_xattr-written :
      (hdr name bytes rest : Bytes) (other_flags oid size : ℕ)
      → length hdr ≡ 8
      → HasNoNul name
      → length name + 1 < 2 ^ 16
      → other_flags < 2 ^ 15
      → length bytes < 2 ^ 16
      → length (dstream oid size rest) < 2 ^ 16
      → oid < 2 ^ 64
      → size < 2 ^ 64
      → (parse_xattr from_utf8_lossy (unhashed_key hdr name) (value_bytes (2 * other_flags) bytes)
          ≡ some (record {
            name = from_utf8_lossy name;
            flags = 2 * other_flags;
            value = embedded bytes;
          }))
        × (parse_xattr from_utf8_lossy
              (unhashed_key hdr name)
              (value_bytes (2 * other_flags + xattr_data_stream) (dstream oid size rest))
            ≡ some (record {
              name = from_utf8_lossy name;
              flags = 2 * other_flags + xattr_data_stream;
              value = stream oid size;
            }))
  parse_xattr-written hdr name bytes rest f oid size eight clean short word fits fits' h k = (
    rw (xattr_value_of_embedded (2 * f) bytes (omega arith)) at
        (parse_xattr_record hdr name (2 * f) bytes eight clean short (omega arith) fits),
    rw (xattr_value_of_stream (2 * f + 1) oid size rest (omega arith) h k) at (
        parse_xattr_record hdr name (2 * f + 1) (dstream oid size rest) eight clean short
          (omega arith) fits'),
  )
