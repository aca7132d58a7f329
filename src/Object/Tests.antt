-- ===== src/Object/Tests.antt =====
-- src/object.rs on blocks of a few words.
use newtua_apfs.Prelude.{
  ℕ, ◌*◌, ◌+◌, ◌^◌, ◌<◌, ◌≤◌, ◌≡◌, ◌≢◌, refl, arith, [], ◌∷◌, ◌++◌, length, replicate,
}
use newtua_apfs.Bytes.{Bytes, from_le_bytes}
use newtua_apfs.Object.{words, fletcher64_checksum, fletcher_loop}
use newtua_apfs.Object.Checksum.{zero_sums}
use newtua_apfs.Object.Checksum.{fletcher64_checksum_closes, fletcher64_checksum_detects}

-- Blocks of four words that differ in the last.
abbrev quiet : Bytes
quiet = replicate 12 0 ++ 7 ∷ 0 ∷ 0 ∷ 0 ∷ []

abbrev loud : Bytes
loud = replicate 12 0 ++ 7 ∷ 0 ∷ 0 ∷ 1 ∷ []

quiet-words :
    (words quiet ≡ (0 ∷ 0 ∷ 0 ∷ []) ++ (7 ∷ []))
    × (words loud ≡ (0 ∷ 0 ∷ 0 ∷ []) ++ (16777223 ∷ []))
unfolding words from_le_bytes
quiet-words = (refl, refl)

enough : 2 ≤ length (words quiet)
unfolding words from_le_bytes
enough = omega arith

fletcher64_checksum_closes_example :
    (lo : ℕ) × (hi : ℕ) × (lo < 2 ^ 32)
    × (hi < 2 ^ 32)
    × (fletcher64_checksum quiet ≡ hi * 2 ^ 32 + lo)
    × (fletcher_loop 0 (words quiet ++ (lo ∷ hi ∷ [])) zero_sums ≡ zero_sums)
fletcher64_checksum_closes_example = fletcher64_checksum_closes quiet enough

fletcher64_checksum_detects_example : fletcher64_checksum quiet ≢ fletcher64_checksum loud
fletcher64_checksum_detects_example =
    fletcher64_checksum_detects quiet loud (0 ∷ 0 ∷ 0 ∷ []) [] 7 16777223 quiet-words.0
      quiet-words.1 (omega arith) (omega arith)
