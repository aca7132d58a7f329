-- ===== src/Inode/Fields.antt =====
-- src/inode.rs: which extended fields an inode's name and size come from, and its timestamps.
use newtua_apfs.Prelude.{
  ℕ, ◌+◌, ◌*◌, ◌/◌, ◌%◌, ◌^◌, ◌<◌, ◌≡◌, refl, ◌∙◌, arith, List, [], ◌∷◌, Option, none, some, true,
  false, ltb, leb, ◌==◌, length, drop, if◌then◌else◌, inl, inr, Bool-cases,
}
use newtua_apfs.Bytes.{Bytes, le_u64}
use newtua_apfs.Error.{ok}
use newtua_apfs.FsRecord.{parse_xfields}
use newtua_apfs.Inode.{
  Inode, ℤ, pos, as_signed, decode_cstr, Found, take_xfield, take_xfields, found_in, parse_inode,
  ns_to_datetime, ns_per_sec, off_xfields, ino_ext_type_name, ino_ext_type_dstream,
}

-- The value of the last field of a type.
abbrev pub last_of : ℕ → List (ℕ × Bytes) → Option Bytes
last_of ty [] = none
last_of ty ((x_type, bytes) ∷ xs) = elim (last_of ty xs) [
  | none ↦ if x_type == ty then some bytes else none
  | some later ↦ some later
]

-- The fields of a value that is long enough to have any.
abbrev pub xfields_of : Bytes → List (ℕ × Bytes)
xfields_of value =
    if leb (length value) off_xfields then [] else parse_xfields (drop off_xfields value)

abbrev pub apply {ℓ κ} : {A : Type ℓ} {B : Type κ} → (A → B) → Option A → Option B → Option B
apply f none default = default
apply f (some a) default = some (f a)

module _ {Text : Type 0} (from_utf8_lossy : Bytes → Text) where
  name_of : Option Bytes → Option Text → Option Text
  name_of = apply (decode_cstr from_utf8_lossy)

  step_name :
      (later : Option Bytes) (x_type : ℕ) (bytes : Bytes) (s : Found from_utf8_lossy)
      → name_of later (take_xfield from_utf8_lossy (x_type, bytes) s).name
        ≡ name_of
            (elim later [
              | none ↦ if x_type == ino_ext_type_name then some bytes else none
              | some later ↦ some later
            ])
            s.name
  unfolding take_xfield name_of
  step_name (some later) x_type bytes s = refl
  step_name none x_type bytes s = elim (Bool-cases (x_type == ino_ext_type_name)) [
    | inl e ↦ rw (e) refl
    | inr e ↦ elim (Bool-cases (x_type == ino_ext_type_dstream)) [
      | inl d ↦ rw (e, d) refl
      | inr d ↦ rw (e, d) refl
    ]
  ]

  size_of : Option Bytes → Option ℕ → Option ℕ
  size_of = apply (λ b. le_u64 b 0)

  step_size :
      (later : Option Bytes) (x_type : ℕ) (bytes : Bytes) (s : Found from_utf8_lossy)
      → size_of later (take_xfield from_utf8_lossy (x_type, bytes) s).size
        ≡ size_of
            (elim later [
              | none ↦ if x_type == ino_ext_type_dstream then some bytes else none
              | some later ↦ some later
            ])
            s.size
  unfolding take_xfield size_of
  step_size (some later) x_type bytes s = refl
  step_size none x_type bytes s = elim (Bool-cases (x_type == ino_ext_type_name)) [
    | inl e ↦ let d : (x_type == ino_ext_type_dstream) ≡ false = ground arith in rw (e, d) refl
    | inr e ↦ elim (Bool-cases (x_type == ino_ext_type_dstream)) [
      | inl d ↦ rw (e, d) refl
      | inr d ↦ rw (e, d) refl
    ]
  ]

  take_xfields-last_of :
      (xs : List (ℕ × Bytes)) (s : Found from_utf8_lossy)
      → ((take_xfields from_utf8_lossy xs s).name
          ≡ apply (decode_cstr from_utf8_lossy) (last_of ino_ext_type_name xs) s.name)
        × ((take_xfields from_utf8_lossy xs s).size
            ≡ apply (λ b. le_u64 b 0) (last_of ino_ext_type_dstream xs) s.size)
  unfolding take_xfields name_of size_of
  take_xfields-last_of [] s = (refl, refl)
  take_xfields-last_of ((x_type, bytes) ∷ xs) s =
      let rest = take_xfields-last_of xs (take_xfield from_utf8_lossy (x_type, bytes) s) in
      (
        rest.0 ∙ step_name (last_of ino_ext_type_name xs) x_type bytes s,
        rest.1 ∙ step_size (last_of ino_ext_type_dstream xs) x_type bytes s,
      )

  found_in-last_of :
      (value : Bytes)
      → ((found_in from_utf8_lossy value).name
          ≡ apply (decode_cstr from_utf8_lossy) (last_of ino_ext_type_name (xfields_of value)) none)
        × ((found_in from_utf8_lossy value).size
            ≡ apply (λ b. le_u64 b 0) (last_of ino_ext_type_dstream (xfields_of value)) none)
  unfolding found_in
  found_in-last_of value = elim (Bool-cases (leb (length value) off_xfields)) [
    | inl short ↦ rw (short) (refl, refl)
    | inr long ↦ rw (long) (
        take_xfields-last_of (parse_xfields (drop off_xfields value))
          (record { name = none; size = none }))
  ]

  -- Parsing never fails; the name is decoded from the value's last extended field of the name type
  -- and the size read from the last one of the data-stream type, and each is absent where the value
  -- has no such field, a value of at most 92 bytes having none.
  pub parse_inode-last_of :
      (oid : ℕ) (value : Bytes)
      → (inode : Inode Text) × (parse_inode from_utf8_lossy oid value ≡ ok inode)
        × (inode.name
            ≡ apply
                (decode_cstr from_utf8_lossy)
                (last_of ino_ext_type_name (xfields_of value))
                none)
        × (inode.size
            ≡ apply (λ b. le_u64 b 0) (last_of ino_ext_type_dstream (xfields_of value)) none)
  unfolding parse_inode
  parse_inode-last_of oid value =
      let (named, sized) = found_in-last_of value in (_, refl, named, sized)

-- A timestamp is handed on as whole seconds, not negative, and nanoseconds below one second, which
-- together are the timestamp.
pub ns_to_datetime-split :
    {DateTime : Type 0} (from_timestamp : ℤ → ℕ → Option DateTime) (ns : ℕ)
    → ns < 2 ^ 64
    → (secs : ℕ) × (nanos : ℕ) × (ns_to_datetime from_timestamp ns
        ≡ from_timestamp (pos secs) nanos)
      × (nanos < ns_per_sec)
      × (secs * ns_per_sec + nanos ≡ ns)
unfolding ns_to_datetime as_signed
ns_to_datetime-split from_timestamp ns h =
    let secs = ns / ns_per_sec in
    let nanos = ns % ns_per_sec in
    let small : ltb secs (2 ^ 63) ≡ true = ground arith in
    let whole : nanos % 2 ^ 32 ≡ nanos = omega arith in
    (secs, nanos, rw (small, whole) refl, omega arith, omega arith)
