-- ===== src/Reader.antt =====
-- The `Read + Seek` source that every parser takes (std::io, a parameter of the model). The source
-- only ever uses it by a `seek(SeekFrom::Start(offset))` followed by one `read_exact` of a whole
-- buffer, so a reader is what that pair returns at an offset and a length. The bytes under a
-- reader do not change while an operation runs.
use newtua_apfs.Prelude.{
  ℕ, ◌+◌, ◌*◌, ◌-◌, ◌^◌, ◌≡◌, ◌⊎◌, inl, inr, refl, [], Option, none, some, ltb, ◌==◌, Bool-cases,
  if◌then◌else◌, min, length, arith,
}
use newtua_apfs.Bytes.{Bytes, AllBytes, slice}
use newtua_apfs.Bytes.Slices.{length-slice, slice-AllBytes}
use newtua_apfs.Error.{IoError, unexpected_eof, Result, ok, err, io}

-- `read_exact` fills its buffer or fails.
pub data ReadResult : Type 0 where
  filled : Bytes → ReadResult
  failed : IoError → ReadResult

abbrev pub Reader : Type 0
Reader = ℕ → ℕ → ReadResult

-- The documented behaviour of `read_exact` that the source relies on: a filled buffer has the
-- length that was asked for, and holds bytes.
pub record IsReader (r : Reader) : Type 0 where
  pub fills :
      (offset len : ℕ) (buf : Bytes) → r offset len ≡ filled buf → (length buf ≡ len) × AllBytes buf

-- `reader.seek(SeekFrom::Start(offset))?; reader.read_exact(&mut buf)?`
unfoldable pub read_exact_at : Reader → ℕ → ℕ → Result Bytes
read_exact_at r offset len = elim (r offset len) [ filled buf ↦ ok buf | failed e ↦ err (io e) ]

-- `std::io::Cursor` over an image: a reader that meets `IsReader`. A read of nothing succeeds
-- wherever it is.
unfoldable pub cursor : Bytes → Reader
cursor image offset len = if len == 0 then filled [] else elim (slice image offset (offset + len)) [
  | some s ↦ filled s
  | none ↦ failed unexpected_eof
]

cursor-eq-filled :
    (image : Bytes) (offset len : ℕ) (buf : Bytes)
    → cursor image offset len ≡ filled buf
    → ((len ≡ 0) × (buf ≡ [])) ⊎ (slice image offset (offset + len) ≡ some buf)
unfolding cursor
cursor-eq-filled image offset len buf h = elim (Bool-cases (len == 0)) [
  | inl none_asked ↦ inl (ground arith)
  | inr asked ↦ inr (ground arith)
]

pub cursor-IsReader : (image : Bytes) → AllBytes image → IsReader (cursor image)
cursor-IsReader image all = record {
  fills = λ offset len buf h. elim (cursor-eq-filled image offset len buf h) [
    | inl (nothing, empty) ↦ rw (nothing, empty) (refl, tt)
    | inr s ↦ (
      omega (arith, length-slice image offset (offset + len) s),
      slice-AllBytes image offset (offset + len) all s,
    )
  ];
}

-- `u64::checked_mul` and `u64::saturating_mul`.
unfoldable pub checked_mul : ℕ → ℕ → Option ℕ
checked_mul a b = if ltb (a * b) (2 ^ 64) then some (a * b) else none

unfoldable pub saturating_mul : ℕ → ℕ → ℕ
saturating_mul a b = min (a * b) (2 ^ 64 - 1)

-- `usize::checked_add` and `usize::checked_sub`.
unfoldable pub checked_add : ℕ → ℕ → Option ℕ
checked_add a b = if ltb (a + b) (2 ^ 64) then some (a + b) else none

unfoldable pub checked_sub : ℕ → ℕ → Option ℕ
checked_sub a b = if ltb a b then none else some (a - b)

pub read_exact_at-eq-ok :
    (r : Reader) (offset len : ℕ) {buf : Bytes}
    → IsReader r
    → read_exact_at r offset len ≡ ok buf
    → (length buf ≡ len) × AllBytes buf
unfolding read_exact_at
read_exact_at-eq-ok r offset len {buf} is h = is.fills offset len buf (ground arith)
