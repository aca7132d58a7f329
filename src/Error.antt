-- ===== src/Error.antt =====
-- src/lib.rs: `ApfsError` and the crate's `Result`, with the operations that `?` and `ok_or` stand
-- for. The payloads of the variants are kept; a `usize`, `u32` or `u64` is a number.
use newtua_apfs.Prelude.{ℕ, ◌≡◌, refl, ap, Bool, true, false, Option, none, some, String}

-- `std::io::ErrorKind`, as far as the source tells the kinds apart.
pub data IoError : Type 0 where
  unexpected_eof : IoError
  other_kind : ℕ → IoError

pub data ApfsError : Type 0 where
  io : IoError → ApfsError
  no_valid_superblock : (checked last_magic : ℕ) → ApfsError
  checksum_mismatch : (block stored computed : ℕ) → ApfsError
  omap_unresolved : (oid xid : ℕ) → ApfsError
  unexpected_object_type : (structure : String) (expected found : ℕ) → ApfsError
  unsupported_fusion : ApfsError
  unsupported_spaceman_cab : (count : ℕ) → ApfsError
  field_out_of_range : (structure field : String) (value cap : ℕ) → ApfsError
  cycle_guard : (cap : ℕ) → ApfsError
  checkpoint_tree_unsupported : (area : String) → ApfsError
  snapshot_not_found : (xid : ℕ) → ApfsError
  decmpfs : String → ApfsError

pub data Result {ℓ} (A : Type ℓ) : Type ℓ where
  ok : A → Result A
  err : ApfsError → Result A

-- An early `return Err(e)` under the test `b`.
abbrev pub reject_if : Bool → ApfsError → Result (Unit {0})
reject_if true why = err why
reject_if false why = ok tt

-- `Option::ok_or`.
abbrev pub ok_or {ℓ} : {A : Type ℓ} → Option A → ApfsError → Result A
ok_or none e = err e
ok_or (some a) e = ok a

-- `let x = m?; next(x)`.
infixl 5 ◌>>=◌
abbrev pub ◌>>=◌ {ℓ κ} : {T : Type ℓ} {U : Type κ} → Result T → (T → Result U) → Result U
err why >>= next = err why
ok x >>= next = next x

-- `m?; rest`.
infixl 5 ◌>>◌
abbrev pub ◌>>◌ {κ} : {U : Type κ} → Result (Unit {0}) → Result U → Result U
m >> rest = m >>= λ _. rest

-- What a successful chain says of its first step.
pub >>=-eq-ok {ℓ κ} :
    {T : Type ℓ} {U : Type κ} (m : Result T) (next : T → Result U) {y : U}
    → (m >>= next) ≡ ok y
    → (x : T) × (m ≡ ok x) × (next x ≡ ok y)
>>=-eq-ok (err why) next h = cc
>>=-eq-ok (ok x) next h = (x, refl, h)

-- What a successful chain says of the guard that it starts with.
pub reject_if-eq-ok {ℓ} :
    {B : Type ℓ} (b : Bool) (e : ApfsError) (k : Result B) {x : B}
    → (reject_if b e >> k) ≡ ok x
    → (b ≡ false) × (k ≡ ok x)
reject_if-eq-ok true e k h = cc
reject_if-eq-ok false e k h = (refl, h)

pub ok-injective {ℓ} : {A : Type ℓ} {a b : A} → ok a ≡ ok b → a ≡ b
ok-injective {A} {a} h = ap (λ r. elim r [ ok x ↦ x | err e ↦ a ]) h
