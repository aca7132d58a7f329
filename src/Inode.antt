-- ===== src/Inode.antt =====
-- src/inode.rs: the inode record. `String::from_utf8_lossy` (the standard library's) and
-- `DateTime::from_timestamp` (chrono's) are parameters, as are the types of their results.
pub mod Fields
mod Tests
use newtua_apfs.Prelude.{
  ℕ, ◌+◌, ◌-◌, ◌/◌, ◌%◌, ◌^◌, List, [], ◌∷◌, Option, none, some, ltb, leb, ◌==◌, length, drop,
  if◌then◌else◌,
}
use newtua_apfs.Bytes.{Bytes, le_u16, le_u32, le_u64}
use newtua_apfs.Error.{Result, ok}
use newtua_apfs.FsRecord.{parse_xfields}
use newtua_apfs.Volume.{until_nul}

abbrev pub off_parent_id : ℕ
off_parent_id = 0

abbrev pub off_private_id : ℕ
off_private_id = 8

abbrev pub off_create_time : ℕ
off_create_time = 16

abbrev pub off_mod_time : ℕ
off_mod_time = 24

abbrev pub off_change_time : ℕ
off_change_time = 32

abbrev pub off_access_time : ℕ
off_access_time = 40

abbrev pub off_internal_flags : ℕ
off_internal_flags = 48

abbrev pub off_nchildren : ℕ
off_nchildren = 56

abbrev pub off_bsd_flags : ℕ
off_bsd_flags = 68

abbrev pub off_owner : ℕ
off_owner = 72

abbrev pub off_group : ℕ
off_group = 76

abbrev pub off_mode : ℕ
off_mode = 80

abbrev pub off_xfields : ℕ
off_xfields = 92

abbrev pub ino_ext_type_name : ℕ
ino_ext_type_name = 4

abbrev pub ino_ext_type_dstream : ℕ
ino_ext_type_dstream = 8

abbrev pub ns_per_sec : ℕ
ns_per_sec = 1_000_000_000

-- A signed integer: `negsuc n` is -(n + 1).
pub data ℤ : Type 0 where
  pos : ℕ → ℤ
  negsuc : ℕ → ℤ

-- The cast of an unsigned word of `w` bits to the signed type of that width.
unfoldable pub as_signed : ℕ → ℕ → ℤ
as_signed w n = if ltb n (2 ^ (w - 1)) then pos n else negsuc (2 ^ w - 1 - n)

pub record Inode (Text : Type 0) : Type 0 where
  pub oid : ℕ
  pub parent_id : ℕ
  pub private_id : ℕ
  pub create_time : ℕ
  pub mod_time : ℕ
  pub change_time : ℕ
  pub access_time : ℕ
  pub internal_flags : ℕ
  pub nlink_or_nchildren : ℤ
  pub bsd_flags : ℕ
  pub uid : ℕ
  pub gid : ℕ
  pub mode : ℕ
  pub name : Option Text
  pub size : Option ℕ

module _ {Text : Type 0} (from_utf8_lossy : Bytes → Text) where
  unfoldable pub decode_cstr : Bytes → Text
  unfolding until_nul
  decode_cstr bytes = from_utf8_lossy (until_nul bytes)

  -- The two variables that the loop assigns.
  pub record Found : Type 0 where
    pub name : Option Text
    pub size : Option ℕ

  -- The loop's body, for one extended field.
  unfoldable pub take_xfield : ℕ × Bytes → Found → Found
  unfolding decode_cstr
  take_xfield (x_type, bytes) s =
      if x_type == ino_ext_type_name
      then record s { name = some (decode_cstr bytes) }
      else if x_type == ino_ext_type_dstream
      then record s { size = some (le_u64 bytes 0) }
      else s

  unfoldable pub take_xfields : List (ℕ × Bytes) → Found → Found
  unfolding take_xfield
  take_xfields [] s = s
  take_xfields (x ∷ xs) s = take_xfields xs (take_xfield x s)

  -- `if value.len() > OFF_XFIELDS { for … }`
  unfoldable pub found_in : Bytes → Found
  unfolding take_xfields
  found_in value =
      let nothing : Found = record { name = none; size = none } in
      if leb (length value) off_xfields
      then nothing
      else take_xfields (parse_xfields (drop off_xfields value)) nothing

  -- `Inode::parse`.
  unfoldable pub parse_inode : ℕ → Bytes → Result (Inode Text)
  unfolding found_in as_signed
  parse_inode oid value = ok (record {
    oid = oid;
    parent_id = le_u64 value off_parent_id;
    private_id = le_u64 value off_private_id;
    create_time = le_u64 value off_create_time;
    mod_time = le_u64 value off_mod_time;
    change_time = le_u64 value off_change_time;
    access_time = le_u64 value off_access_time;
    internal_flags = le_u64 value off_internal_flags;
    nlink_or_nchildren = as_signed 32 (le_u32 value off_nchildren);
    bsd_flags = le_u32 value off_bsd_flags;
    uid = le_u32 value off_owner;
    gid = le_u32 value off_group;
    mode = le_u16 value off_mode;
    name = (found_in value).name;
    size = (found_in value).size;
  })

-- `ns_to_datetime`: whole seconds as i64, and the nanoseconds that are left as u32.
unfoldable pub ns_to_datetime :
    {DateTime : Type 0} → (ℤ → ℕ → Option DateTime) → ℕ → Option DateTime
unfolding as_signed
ns_to_datetime from_timestamp ns =
    from_timestamp (as_signed 64 (ns / ns_per_sec)) (ns % ns_per_sec % 2 ^ 32)
