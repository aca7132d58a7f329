-- ===== src/FsRecord/Tests.antt =====
-- src/fsrecord.rs on a key header and a blob of two fields.
use newtua_apfs.Prelude.{
  List, map, [], ◌+◌, ◌*◌, ◌^◌, ◌≡◌, refl, arith, bit_or, ◌∷◌, ◌++◌, some, replicate,
}
use newtua_apfs.Bytes.{Bytes, slice, from_le_bytes, le_u16}
use newtua_apfs.FsRecord.{
  inode, xattr, from_u4, to_u4, decode_jkey, parse_xfields, xfields_loop, align8, obj_type_shift,
}
use newtua_apfs.FsRecord.Jkey.{decode_jkey-pack}
use newtua_apfs.FsRecord.Xfields.{Xfield, xfields_blob, parsed_as, parse_xfields-xfields_blob}

decode_jkey-pack_example :
    decode_jkey (bit_or (to_u4 inode * 2 ^ obj_type_shift) 1234) ≡ (1234, some inode)
decode_jkey-pack_example = decode_jkey-pack 1234 inode (omega arith)

decoded : decode_jkey (4 * 2 ^ 60 + 16) ≡ (16, some xattr)
unfolding decode_jkey from_u4
decoded = refl

-- Two fields, of 3 and 8 bytes.
abbrev two_fields : List Xfield
two_fields =
    record { x_type = 4; x_flags = 2; value = 97 ∷ 98 ∷ 0 ∷ [] }
    ∷ record { x_type = 8; x_flags = 32; value = replicate 8 1 }
    ∷ []

parse_xfields-xfields_blob_example :
    parse_xfields (xfields_blob two_fields (16 ∷ 0 ∷ []) (9 ∷ [])) ≡ map parsed_as two_fields
parse_xfields-xfields_blob_example =
    parse_xfields-xfields_blob two_fields (16 ∷ 0 ∷ []) (9 ∷ []) (omega arith, (omega arith, tt))
      (omega arith) refl

-- The same fields as bytes: the second value begins at a multiple of eight behind the descriptors.
abbrev blob : Bytes
blob =
    2 ∷ 0 ∷ 16 ∷ 0 ∷ 4 ∷ 2 ∷ 3 ∷ 0 ∷ 8 ∷ 32 ∷ 8 ∷ 0 ∷ 97 ∷ 98 ∷ 0 ∷ replicate 5 0 ++ replicate 8 1

blob-parses : parse_xfields blob ≡ map parsed_as two_fields
unfolding parse_xfields xfields_loop align8 slice le_u16 from_le_bytes
blob-parses = refl
