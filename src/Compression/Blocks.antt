-- ===== src/Compression/Blocks.antt =====
-- src/compression.rs, `decode_zlib_resource_fork`, on a fork that a compressor wrote: a header, the
-- block table with the place of each block from the table, then the blocks.
use newtua_apfs.Prelude.{
  ℕ, ◌+◌, ◌*◌, ◌^◌, ◌<◌, ◌≡◌, refl, sym, ap, ◌∙◌, arith, List, [], ◌∷◌, ◌++◌, append_assoc,
  append-nil, length, length-append, some,
}
use newtua_apfs.Bytes.{Bytes, slice, to_le_bytes}
use newtua_apfs.Bytes.Reads.{length-to_le_bytes}
use newtua_apfs.Error.{ok}
use newtua_apfs.Reader.{checked_add, checked_mul}
use newtua_apfs.Compression.{
  Decmpfs, from_be_bytes, checked_bytes, checked_be_u32, entry_offset, inflate, zlib_block,
  zlib_loop, decode_zlib_resource_fork,
}
use newtua_apfs.Compression.Reads.{checked_le_u32-written, slice-written}
use newtua_apfs.Compression.Chunked.{Chunk, stored_of, contents_of}

-- The table's entries for blocks of which the first begins `offset` bytes behind its start.
unfoldable pub entries_of : ℕ → List Chunk → Bytes
entries_of offset [] = []
entries_of offset (b ∷ bs) =
    to_le_bytes 4 offset
    ++ (to_le_bytes 4 (length b.stored) ++ entries_of (offset + length b.stored) bs)

-- The header and the table's length field are `front`; the table follows, then the blocks.
unfoldable pub zlib_fork : Bytes → List Chunk → Bytes → Bytes
unfolding entries_of stored_of
zlib_fork front bs tail =
    front
    ++ (to_le_bytes 4 (length bs) ++ (entries_of (4 + length bs * 8) bs ++ (stored_of bs ++ tail)))

-- Each block inflates to its content.
unfoldable pub AreBlocks : Decmpfs → List Chunk → Type 0
AreBlocks d [] = Unit
AreBlocks d (b ∷ bs) = (d.zlib_read_to_end b.stored ≡ some b.content) × AreBlocks d bs

checked_add-fits : (a b : ℕ) → a + b < 2 ^ 64 → checked_add a b ≡ some (a + b)
unfolding checked_add
checked_add-fits a b h = ground arith

checked_mul-fits : (a b : ℕ) → a * b < 2 ^ 64 → checked_mul a b ≡ some (a * b)
unfolding checked_mul
checked_mul-fits a b h = ground arith

entry_offset-fits :
    (table i : ℕ) → table + 4 + i * 8 < 2 ^ 33 → entry_offset table i ≡ some (table + 4 + i * 8)
unfolding entry_offset
entry_offset-fits table i low =
    rw
      (
        entry_offset,
        checked_add-fits table 4 (omega (arith, low)),
        checked_mul-fits i 8 (omega (arith, low)),
        checked_add-fits (table + 4) (i * 8) (omega (arith, low)),
      )
      refl

module _ (d : Decmpfs) (fork : Bytes) (table : ℕ) where
  zlib_block-written :
      (b : Chunk) (front before later back : Bytes) (i offset : ℕ)
      → fork ≡ front ++ (to_le_bytes 4 offset ++ (to_le_bytes 4 (length b.stored) ++ later))
      → length front ≡ table + 4 + i * 8
      → fork ≡ before ++ (b.stored ++ back)
      → length before ≡ table + offset
      → table + 4 + i * 8 < 2 ^ 33
      → table + offset + length b.stored < 2 ^ 32
      → d.zlib_read_to_end b.stored ≡ some b.content
      → zlib_block d fork table i ≡ ok b.content
  unfolding zlib_block inflate
  zlib_block-written b front before later back i offset entry at_entry block at_block low small
        inflates =
      let word = to_le_bytes 4 offset in
      let len = length b.stored in
      let four = length-to_le_bytes 4 offset in
      let here = entry_offset-fits table i low in
      let starts = checked_add-fits table offset (omega (arith, small)) in
      let ends = checked_add-fits (table + offset) len (omega (arith, small)) in
      let first =
        checked_le_u32-written fork front (to_le_bytes 4 len ++ later) (table + 4 + i * 8) offset
          entry at_entry (omega (arith, small)) (omega (arith, low)) in
      let second =
        checked_le_u32-written fork (front ++ word) later (table + 4 + i * 8 + 4) len
          (entry ∙ sym (append_assoc front word (to_le_bytes 4 len ++ later)))
          (omega (arith, length-append front word, four, at_entry)) (omega (arith, small))
          (omega (arith, low)) in
      let cut = slice-written fork before b.stored back (table + offset) block at_block in
      rw (here, first, second, starts, ends, cut, inflates) refl

  zlib_loop-written :
      (bs : List Chunk) (front before later tail out : Bytes) (i offset : ℕ)
      → fork ≡ front ++ (entries_of offset bs ++ later)
      → length front ≡ table + 4 + i * 8
      → fork ≡ before ++ (stored_of bs ++ tail)
      → length before ≡ table + offset
      → table + 4 + (i + length bs) * 8 < 2 ^ 33
      → table + offset + length (stored_of bs) < 2 ^ 32
      → AreBlocks d bs
      → zlib_loop d fork table (length bs) i out ≡ ok (out ++ contents_of bs)
  unfolding zlib_loop entries_of stored_of contents_of AreBlocks
  zlib_loop-written [] front before later tail out i offset entries at_entry blocks at_block low
        small are =
      ap ok (sym (append-nil out))
  zlib_loop-written (b ∷ bs) front before later tail out i offset entries at_entry blocks at_block
        low small (inflates, are) =
      let len = length b.stored in
      let sizes = length-append b.stored (stored_of bs) in
      let pair = to_le_bytes 4 offset ++ to_le_bytes 4 len in
      let rest = entries_of (offset + len) bs in
      let entry : fork ≡ front ++ (to_le_bytes 4 offset ++ (to_le_bytes 4 len ++ (rest ++ later))) =
        entries
        ∙ ap (λ t. front ++ t)
            (append_assoc (to_le_bytes 4 offset) (to_le_bytes 4 len ++ rest) later
              ∙ ap (λ t. to_le_bytes 4 offset ++ t)
                  (append_assoc (to_le_bytes 4 len) rest later)) in
      let block : fork ≡ before ++ (b.stored ++ (stored_of bs ++ tail)) =
        blocks ∙ ap (λ t. before ++ t) (append_assoc b.stored (stored_of bs) tail) in
      let here =
        zlib_block-written b front before (rest ++ later) (stored_of bs ++ tail) i offset entry
          at_entry block at_block (omega (arith, low)) (omega (arith, small, sizes)) inflates in
      let behind =
        zlib_loop-written bs (front ++ pair) (before ++ b.stored) later tail (out ++ b.content)
          (i + 1) (offset + len)
          (entry
            ∙ ap (λ t. front ++ t)
                (sym (append_assoc (to_le_bytes 4 offset) (to_le_bytes 4 len) (rest ++ later)))
            ∙ sym (append_assoc front pair (rest ++ later)))
          (omega (
            arith,
            length-append front pair,
            length-append (to_le_bytes 4 offset) (to_le_bytes 4 len),
            length-to_le_bytes 4 offset,
            length-to_le_bytes 4 len,
            at_entry,
          ))
          (block ∙ sym (append_assoc before b.stored (stored_of bs ++ tail)))
          (omega (arith, length-append before b.stored, at_block)) (omega (arith, low))
          (omega (arith, small, sizes)) are in
      rw here (behind ∙ ap ok (append_assoc out b.content (contents_of bs)))

length-entries_of : (offset : ℕ) (bs : List Chunk) → length (entries_of offset bs) ≡ length bs * 8
unfolding entries_of
length-entries_of offset [] = refl
length-entries_of offset (b ∷ bs) =
    let len = length b.stored in
    let rest = entries_of (offset + len) bs in
    omega (
      arith,
      length-append (to_le_bytes 4 offset) (to_le_bytes 4 len ++ rest),
      length-append (to_le_bytes 4 len) rest,
      length-to_le_bytes 4 offset,
      length-to_le_bytes 4 len,
      length-entries_of (offset + len) bs,
    )

-- A zlib fork, whose header begins with its size in big-endian order and is followed by four bytes
-- and the table, and whose blocks end below 2^32, decodes to what its blocks inflate to, in order.
pub decode_zlib_resource_fork-zlib_fork :
    (d : Decmpfs) (bs : List Chunk) (word rest tail : Bytes)
    → AreBlocks d bs
    → length word ≡ 4
    → length rest ≡ from_be_bytes word
    → 4 + length rest + (4 + length bs * 8) + length (stored_of bs) < 2 ^ 32
    → decode_zlib_resource_fork d (zlib_fork (word ++ rest) bs tail) ≡ ok (contents_of bs)
unfolding decode_zlib_resource_fork zlib_fork checked_be_u32 checked_bytes
decode_zlib_resource_fork-zlib_fork d bs word rest tail are four sized small =
    let fork = zlib_fork (word ++ rest) bs tail in
    let h = from_be_bytes word in
    let n = to_le_bytes 4 (length bs) in
    let entries = entries_of (4 + length bs * 8) bs in
    let blocks = stored_of bs ++ tail in
    let front = word ++ rest in
    let before = front ++ (n ++ entries) in
    let table_at : length front ≡ h + 4 = omega (arith, length-append word rest, four, sized) in
    let counted = length-to_le_bytes 4 (length bs) in
    let word_read : slice fork 0 4 ≡ some word = rw four at (
      slice-written fork [] word (rest ++ (n ++ (entries ++ blocks))) 0
        (append_assoc word rest (n ++ (entries ++ blocks))) refl) in
    let count =
      checked_le_u32-written fork front (entries ++ blocks) (h + 4) (length bs) refl table_at
        (omega (arith, small)) (omega (arith, small, sized)) in
    let loops =
      zlib_loop-written d fork (h + 4) bs (front ++ n) before blocks tail [] 0 (4 + length bs * 8)
        (sym (append_assoc front n (entries ++ blocks)))
        (omega (arith, length-append front n, counted, table_at))
        (ap (λ t. front ++ t) (sym (append_assoc n entries blocks))
          ∙ sym (append_assoc front (n ++ entries) blocks))
        (omega (
          arith,
          length-append front (n ++ entries),
          length-append n entries,
          counted,
          length-entries_of (4 + length bs * 8) bs,
          table_at,
        ))
        (omega (arith, small, sized)) (omega (arith, small, sized)) are in
    rw
      (
        checked_add-fits 0 4 (omega arith),
        word_read,
        checked_add-fits h 4 (omega (arith, small, sized)),
        count,
      )
      loops
