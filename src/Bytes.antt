-- ===== src/Bytes.antt =====
-- src/bytes.rs: little-endian reads that yield zeros past the end of the data.
-- A byte slice is the list of its bytes; `IsByte` is the range of one.
pub mod Slices
pub mod Reads
use newtua_apfs.Prelude.{
  ℕ, zero, suc, ◌+◌, ◌-◌, ◌*◌, ◌/◌, ◌%◌, ◌<◌, List, [], ◌∷◌, Option, none, some, Bool, true, false,
  leb, ◌==◌, ◌&&◌, length, take, drop, replicate, if◌then◌else◌,
}

abbrev pub Bytes : Type 0
Bytes = List ℕ

abbrev pub IsByte : ℕ → Type 0
IsByte b = b < 256

abbrev pub AllBytes : Bytes → Type 0
AllBytes [] = Unit
AllBytes (b ∷ bs) = IsByte b × AllBytes bs

-- `data.get(from..to)`.
unfoldable pub slice : Bytes → ℕ → ℕ → Option Bytes
slice buf from to =
    if leb from to && leb to (length buf) then some (take (to - from) (drop from buf)) else none

-- `uN::from_le_bytes`.
unfoldable pub from_le_bytes : Bytes → ℕ
from_le_bytes [] = 0
from_le_bytes (b ∷ bs) = b + 256 * from_le_bytes bs

-- `arr::<N>`: the bytes at `offset`, or `n` zeros where they run past the data.
unfoldable pub arr : ℕ → Bytes → ℕ → Bytes
arr n buf offset = elim (slice buf offset (offset + n)) [ none ↦ replicate n 0 | some s ↦ s ]

unfoldable pub le_u16 : Bytes → ℕ → ℕ
le_u16 buf offset =
    from_le_bytes (elim (slice buf offset (offset + 2)) [ none ↦ replicate 2 0 | some s ↦ s ])

unfoldable pub le_u32 : Bytes → ℕ → ℕ
le_u32 buf offset =
    from_le_bytes (elim (slice buf offset (offset + 4)) [ none ↦ replicate 4 0 | some s ↦ s ])

unfoldable pub le_u64 : Bytes → ℕ → ℕ
le_u64 buf offset =
    from_le_bytes (elim (slice buf offset (offset + 8)) [ none ↦ replicate 8 0 | some s ↦ s ])

-- `v.to_le_bytes()` for a word of `n` bytes, which the reads undo.
unfoldable pub to_le_bytes : ℕ → ℕ → Bytes
to_le_bytes zero v = []
to_le_bytes (suc n) v = (v % 256) ∷ to_le_bytes n (v / 256)

-- `a == b` on byte slices; a `str` is the bytes of its UTF-8, and is compared as those.
unfoldable pub eq_bytes : Bytes → Bytes → Bool
eq_bytes [] [] = true
eq_bytes (b ∷ bs) (c ∷ cs) = b == c && eq_bytes bs cs
eq_bytes _ _ = false

-- A Rust string.
abbrev pub Str : Type 0
Str = Bytes
