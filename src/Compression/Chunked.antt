-- ===== src/Compression/Chunked.antt =====
-- src/compression.rs, `decode_chunked_resource_fork`, on a fork that a compressor wrote: the header
-- with its end-offsets and spare slots, then the chunks.
use newtua_apfs.Prelude.{
  ℕ, zero, suc, ◌+◌, ◌*◌, ◌-◌, ◌/◌, ◌^◌, ◌<◌, ◌≤◌, ◌≡◌, refl, sym, ap, ◌∙◌, arith, min, List, [],
  ◌∷◌, ◌++◌, append_assoc, append-nil, length, length-append, true, false, ltb, leb, replicate,
  length-replicate,
}
use newtua_apfs.Bytes.{Bytes, to_le_bytes}
use newtua_apfs.Bytes.Reads.{length-to_le_bytes}
use newtua_apfs.Error.{ok}
use newtua_apfs.Reader.{checked_sub}
use newtua_apfs.Compression.Reads.{checked_le_u32-written, slice-written}
use newtua_apfs.Compression.{
  Decmpfs, Algorithm, decode_chunk, chunk_at, chunk_loop, decode_chunked_resource_fork,
}

-- A chunk as it lies in the fork, and the bytes that it stands for.
pub record Chunk : Type 0 where
  pub stored : Bytes
  pub content : Bytes

unfoldable pub stored_of : List Chunk → Bytes
stored_of [] = []
stored_of (c ∷ cs) = c.stored ++ stored_of cs

unfoldable pub contents_of : List Chunk → Bytes
contents_of [] = []
contents_of (c ∷ cs) = c.content ++ contents_of cs

-- The end-offsets of chunks that begin at `src`.
unfoldable pub ends_of : ℕ → List Chunk → Bytes
ends_of src [] = []
ends_of src (c ∷ cs) = to_le_bytes 4 (src + length c.stored) ++ ends_of (src + length c.stored) cs

-- The header's size with room for the chunks and `spare` slots more.
abbrev pub header_size_of : List Chunk → ℕ → ℕ
header_size_of cs spare = 4 * (1 + length cs + spare)

unfoldable pub chunked_fork : List Chunk → ℕ → Bytes → Bytes
unfolding ends_of stored_of
chunked_fork cs spare tail =
    to_le_bytes 4 (header_size_of cs spare)
    ++ (ends_of (header_size_of cs spare) cs ++ (replicate (4 * spare) 0 ++ (stored_of cs ++ tail)))

-- From `done` bytes on, each chunk is wanted, decodes to its content under the length that the code
-- asks for, and the last one completes `size` bytes.
unfoldable pub AreChunks : Decmpfs → Algorithm → ℕ → ℕ → List Chunk → Type 0
AreChunks d algorithm size done [] = done ≡ size
AreChunks d algorithm size done (c ∷ cs) =
    (done < size)
    × (decode_chunk d algorithm c.stored (min (size - done) d.chunk_size) ≡ ok c.content)
    × AreChunks d algorithm size (done + length c.content) cs

module _ (d : Decmpfs) (algorithm : Algorithm) (fork : Bytes) (size : ℕ) where
  chunk_at-written :
      (c : Chunk) (front before ends back : Bytes) (i src done : ℕ)
      → fork ≡ front ++ (to_le_bytes 4 (src + length c.stored) ++ ends)
      → length front ≡ 4 + i * 4
      → fork ≡ before ++ (c.stored ++ back)
      → length before ≡ src
      → src + length c.stored < 2 ^ 32
      → 4 + i * 4 ≤ src
      → done < size
      → decode_chunk d algorithm c.stored (min (size - done) d.chunk_size) ≡ ok c.content
      → chunk_at d algorithm fork size i src done ≡ ok (src + length c.stored, c.content)
  unfolding chunk_at checked_sub
  chunk_at-written c front before ends back i src done table at_slot chunks at_src small low more
        decodes =
      let read =
        checked_le_u32-written fork front ends (4 + i * 4) (src + length c.stored) table at_slot
          small (omega arith) in
      let forward : ltb (src + length c.stored) src ≡ false = ground arith in
      let cut = slice-written fork before c.stored back src chunks at_src in
      let left : ltb size done ≡ false = ground arith in rw (read, forward, cut, left, decodes) refl

  -- In `n` rounds, which are enough for the chunks.
  chunk_loop-written :
      (cs : List Chunk) (n : ℕ) (front before rest tail out : Bytes) (i src : ℕ)
      → length cs ≤ n
      → fork ≡ front ++ (ends_of src cs ++ rest)
      → length front ≡ 4 + i * 4
      → fork ≡ before ++ (stored_of cs ++ tail)
      → length before ≡ src
      → src + length (stored_of cs) < 2 ^ 32
      → 4 + (i + length cs) * 4 ≤ src
      → AreChunks d algorithm size (length out) cs
      → chunk_loop d algorithm fork size n i src out ≡ ok (out ++ contents_of cs)
  unfolding chunk_loop ends_of stored_of contents_of AreChunks
  chunk_loop-written [] zero front before rest tail out i src enough table at_slot chunks at_src
        small low complete =
      ap ok (sym (append-nil out))
  chunk_loop-written [] (suc n) front before rest tail out i src enough table at_slot chunks at_src
        small low complete =
      let full : leb size (length out) ≡ true = ground arith in
      rw full (ap ok (sym (append-nil out)))
  chunk_loop-written (c ∷ cs) zero front before rest tail out i src enough table at_slot chunks
        at_src small low are =
      ground arith
  chunk_loop-written (c ∷ cs) (suc n) front before rest tail out i src enough table at_slot chunks
        at_src small low (more, decodes, are) =
      let end = src + length c.stored in
      let sizes = length-append c.stored (stored_of cs) in
      let wanted : leb size (length out) ≡ false = ground arith in
      let slot : fork ≡ front ++ (to_le_bytes 4 end ++ (ends_of end cs ++ rest)) =
        table ∙ ap (λ t. front ++ t) (append_assoc (to_le_bytes 4 end) (ends_of end cs) rest) in
      let chunk : fork ≡ before ++ (c.stored ++ (stored_of cs ++ tail)) =
        chunks ∙ ap (λ t. before ++ t) (append_assoc c.stored (stored_of cs) tail) in
      let here =
        chunk_at-written c front before (ends_of end cs ++ rest) (stored_of cs ++ tail) i src
          (length out) slot at_slot chunk at_src (omega (arith, small, sizes)) (omega (arith, low))
          more decodes in
      let later =
        chunk_loop-written cs n (front ++ to_le_bytes 4 end) (before ++ c.stored) rest tail
          (out ++ c.content) (i + 1) end (omega (arith, enough))
          (slot ∙ sym (append_assoc front (to_le_bytes 4 end) (ends_of end cs ++ rest)))
          (omega
            (arith, length-append front (to_le_bytes 4 end), length-to_le_bytes 4 end, at_slot))
          (chunk ∙ sym (append_assoc before c.stored (stored_of cs ++ tail)))
          (length-append before c.stored ∙ ap (λ k. k + length c.stored) at_src)
          (omega (arith, small, sizes)) (omega (arith, low))
          (rw (length-append out c.content) are) in
      rw (wanted, here) (later ∙ ap ok (append_assoc out c.content (contents_of cs)))

length-ends_of : (src : ℕ) (cs : List Chunk) → length (ends_of src cs) ≡ 4 * length cs
unfolding ends_of
length-ends_of src [] = refl
length-ends_of src (c ∷ cs) =
    let end = src + length c.stored in
    omega (
      arith,
      length-append (to_le_bytes 4 end) (ends_of end cs),
      length-to_le_bytes 4 end,
      length-ends_of end cs,
    )

-- A fork that holds the chunks of a file, with any number of spare slots in its header and anything
-- behind the chunks, and whose chunks end below 2^32, decodes to what the chunks stand for, in
-- order.
pub decode_chunked_resource_fork-chunked_fork :
    (d : Decmpfs) (algorithm : Algorithm) (cs : List Chunk) (spare size : ℕ) (tail : Bytes)
    → AreChunks d algorithm size 0 cs
    → header_size_of cs spare + length (stored_of cs) < 2 ^ 32
    → decode_chunked_resource_fork d algorithm (chunked_fork cs spare tail) size
      ≡ ok (contents_of cs)
unfolding decode_chunked_resource_fork chunked_fork checked_sub
decode_chunked_resource_fork-chunked_fork d algorithm cs spare size tail are small =
    let h = header_size_of cs spare in
    let rest = replicate (4 * spare) 0 ++ (stored_of cs ++ tail) in
    let front = to_le_bytes 4 h in
    let table = ends_of h cs in
    let before = front ++ (table ++ replicate (4 * spare) 0) in
    let four = length-to_le_bytes 4 h in
    let read =
      checked_le_u32-written (chunked_fork cs spare tail) [] (table ++ rest) 0 h refl refl
        (omega (arith, small)) (omega arith) in
    let slots : ltb (h / 4) 1 ≡ false = ground arith in
    let behind : length before ≡ h = omega (
      arith,
      length-append front (table ++ replicate (4 * spare) 0),
      length-append table (replicate (4 * spare) 0),
      length-replicate {A = ℕ} (4 * spare) 0,
      length-ends_of h cs,
      four,
    ) in
    let chunks : chunked_fork cs spare tail ≡ before ++ (stored_of cs ++ tail) =
      ap (λ t. front ++ t)
        (sym (append_assoc table (replicate (4 * spare) 0) (stored_of cs ++ tail)))
      ∙ sym (append_assoc front (table ++ replicate (4 * spare) 0) (stored_of cs ++ tail)) in
    rw (read, slots)
      (chunk_loop-written d algorithm (chunked_fork cs spare tail) size cs (h / 4 - 1) front before
        rest tail [] 0 h (omega arith) refl four chunks behind small (omega arith) are)
