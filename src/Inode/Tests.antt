-- ===== src/Inode/Tests.antt =====
-- src/inode.rs on an inode with a name and a data stream.
use newtua_apfs.Prelude.{◌≡◌, refl, [], ◌∷◌, ◌++◌, none, some, replicate}
use newtua_apfs.Bytes.{Bytes, slice, from_le_bytes, le_u16, le_u64}
use newtua_apfs.Error.{ok}
use newtua_apfs.FsRecord.{parse_xfields, xfields_loop, align8}
use newtua_apfs.Volume.{until_nul}
use newtua_apfs.Inode.{
  Inode, decode_cstr, found_in, take_xfields, take_xfield, parse_inode, ino_ext_type_name,
  ino_ext_type_dstream,
}
use newtua_apfs.Inode.Fields.{last_of, xfields_of, apply, parse_inode-last_of}

-- The fixed prefix, then a name of 3 bytes and a data stream of size 300.
abbrev value : Bytes
value =
    replicate 92 1
    ++ 2 ∷ 0 ∷ 16 ∷ 0 ∷ 4 ∷ 2 ∷ 3 ∷ 0 ∷ 8 ∷ 32 ∷ 8 ∷ 0 ∷ 97 ∷ 98 ∷ 0 ∷ replicate 5 0
    ++ 44 ∷ 1 ∷ replicate 6 0

abbrev kept : Bytes → Bytes
kept bytes = bytes

parse_inode-last_of_example :
    (inode : Inode Bytes) × (parse_inode kept 20 value ≡ ok inode)
    × (inode.name ≡ apply (decode_cstr kept) (last_of ino_ext_type_name (xfields_of value)) none)
    × (inode.size ≡ apply (λ b. le_u64 b 0) (last_of ino_ext_type_dstream (xfields_of value)) none)
parse_inode-last_of_example = parse_inode-last_of kept 20 value

found_both :
    ((found_in kept value).name ≡ some (97 ∷ 98 ∷ [])) × ((found_in kept value).size ≡ some 300)
unfolding found_in take_xfields take_xfield decode_cstr until_nul parse_xfields xfields_loop align8
    slice le_u16 le_u64 from_le_bytes
found_both = (refl, refl)
