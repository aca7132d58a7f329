-- ===== src/FsRecord.antt =====
-- src/fsrecord.rs: the header of a file-system key, and extended fields.
pub mod Jkey
pub mod Xfields
mod Tests
use newtua_apfs.Prelude.{
  ℕ, zero, suc, ◌+◌, ◌-◌, ◌*◌, ◌/◌, ◌%◌, ◌^◌, min, bit_and, List, [], ◌∷◌, Option, none, some, Bool,
  false, ltb, ◌==◌, length, if◌then◌else◌, get_or,
}
use newtua_apfs.Bytes.{Bytes, slice, le_u16}

pub data RecordType : Type 0 where
  snap_metadata extent inode xattr sibling_link dstream_id crypto_state file_extent : RecordType
  dir_rec dir_stats snap_name sibling_map file_info : RecordType

unfoldable pub from_u4 : ℕ → Option RecordType
from_u4 value =
    if value == 1
    then some snap_metadata
    else if value == 2
    then some extent
    else if value == 3
    then some inode
    else if value == 4
    then some xattr
    else if value == 5
    then some sibling_link
    else if value == 6
    then some dstream_id
    else if value == 7
    then some crypto_state
    else if value == 8
    then some file_extent
    else if value == 9
    then some dir_rec
    else if value == 10
    then some dir_stats
    else if value == 11
    then some snap_name
    else if value == 12
    then some sibling_map
    else if value == 13
    then some file_info
    else none

-- The discriminants of the enum, `RecordType::X as u8`.
unfoldable pub to_u4 : RecordType → ℕ
to_u4 snap_metadata = 1
to_u4 extent = 2
to_u4 inode = 3
to_u4 xattr = 4
to_u4 sibling_link = 5
to_u4 dstream_id = 6
to_u4 crypto_state = 7
to_u4 file_extent = 8
to_u4 dir_rec = 9
to_u4 dir_stats = 10
to_u4 snap_name = 11
to_u4 sibling_map = 12
to_u4 file_info = 13

-- `ty == Some(t)`.
unfoldable pub is_some_type : RecordType → Option RecordType → Bool
unfolding to_u4
is_some_type t none = false
is_some_type t (some u) = to_u4 u == to_u4 t

abbrev pub obj_type_shift : ℕ
obj_type_shift = 60

abbrev pub obj_id_mask : ℕ
obj_id_mask = 0x0fff_ffff_ffff_ffff

unfoldable pub decode_jkey : ℕ → ℕ × Option RecordType
unfolding from_u4
decode_jkey obj_id_and_type = (
  bit_and obj_id_and_type obj_id_mask,
  from_u4 (bit_and (obj_id_and_type / 2 ^ obj_type_shift) 0xf % 2 ^ 8),
)

abbrev pub off_xf_num_exts : ℕ
off_xf_num_exts = 0

abbrev pub xf_desc_off : ℕ
xf_desc_off = 4

abbrev pub xf_desc_len : ℕ
xf_desc_len = 4

abbrev pub max_xf_num_exts : ℕ
max_xf_num_exts = 4096

-- `(x_size + 7) & !7`, on usize.
unfoldable pub align8 : ℕ → ℕ
align8 n = bit_and (n + 7) (2 ^ 64 - 1 - 7)

-- `for i in 0..num`, with the rounds that are left and the offset of the next value.
unfoldable pub xfields_loop : Bytes → ℕ → ℕ → ℕ → List (ℕ × Bytes)
unfolding align8
xfields_loop blob zero i value_off = []
xfields_loop blob (suc n) i value_off =
    let d = xf_desc_off + i * xf_desc_len in
    let x_size = le_u16 blob (d + 2) in
    let rest = xfields_loop blob n (i + 1) (value_off + align8 x_size) in
    elim (slice blob value_off (value_off + x_size)) [
      | none ↦ []
      | some value ↦ (get_or blob d 0, value) ∷ rest
    ]

unfoldable pub parse_xfields : Bytes → List (ℕ × Bytes)
unfolding xfields_loop
parse_xfields blob =
    let num = min (le_u16 blob off_xf_num_exts) max_xf_num_exts in
    let desc_end = num * xf_desc_len + xf_desc_off in
    if ltb (length blob) xf_desc_off
    then []
    else if ltb (length blob) desc_end
    then []
    else xfields_loop blob num 0 desc_end
