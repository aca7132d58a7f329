-- ===== src/Compression/RoundTrip.antt =====
-- src/compression.rs, `decompress_decmpfs`, on the attribute and the fork of a file that was
-- compressed, in chunks or as a zlib fork.
use newtua_apfs.Prelude.{
  ℕ, ◌+◌, ◌*◌, ◌^◌, ◌<◌, ◌≡◌, refl, sym, ◌∙◌, arith, List, [], ◌∷◌, ◌++◌, append_assoc, length,
  length-append, some, false, not, ltb, ◌==◌, ◌⊎◌, inl, inr,
}
use newtua_apfs.Bytes.{Bytes, to_le_bytes}
use newtua_apfs.Bytes.Reads.{length-to_le_bytes}
use newtua_apfs.Error.{ok}
use newtua_apfs.Compression.{
  Decmpfs, Algorithm, from_be_bytes, uncompressed, zlib, lzvn, lzfse, resource_fork, checked_le_u32,
  uncompressed_size, is_lz_bitmap, decode_payload, decode_resource_fork,
  decode_chunked_resource_fork, decompress_decmpfs,
}
use newtua_apfs.Compression.Reads.{checked_le_u32-written, checked_le_u64-written}
use newtua_apfs.Compression.Blocks.{AreBlocks, zlib_fork, decode_zlib_resource_fork-zlib_fork}
use newtua_apfs.Compression.Chunked.{
  Chunk, AreChunks, contents_of, stored_of, header_size_of, chunked_fork,
  decode_chunked_resource_fork-chunked_fork,
}

-- What the code relies on of the vendored constants: the layout of the header.
pub record IsLayout (d : Decmpfs) : Type 0 where
  pub magic_fits : d.magic < 2 ^ 32
  pub header_len : d.header_len ≡ 16
  pub type_offset : d.compression_type_offset ≡ 4
  pub size_offset : d.uncompressed_size_offset ≡ 8

-- The attribute's header, with anything behind it.
unfoldable pub header_of : Decmpfs → ℕ → ℕ → Bytes → Bytes
header_of d compression_type size more =
    to_le_bytes 4 d.magic ++ (to_le_bytes 4 compression_type ++ (to_le_bytes 8 size ++ more))

-- The algorithms whose forks are chunked.
abbrev pub IsChunked : Algorithm → Type 0
IsChunked algorithm = (algorithm ≡ uncompressed) ⊎ (algorithm ≡ lzvn) ⊎ (algorithm ≡ lzfse)

length-contents_of :
    (d : Decmpfs) (algorithm : Algorithm) (size done : ℕ) (cs : List Chunk)
    → AreChunks d algorithm size done cs
    → done + length (contents_of cs) ≡ size
unfolding AreChunks contents_of
length-contents_of d algorithm size done [] complete = omega (arith, complete)
length-contents_of d algorithm size done (c ∷ cs) (more, decodes, are) = omega (
  arith,
  length-append c.content (contents_of cs),
  length-contents_of d algorithm size (done + length c.content) cs are,
)

decode_resource_fork-IsChunked :
    (d : Decmpfs) (algorithm : Algorithm) (fork : Bytes) (size : ℕ)
    → IsChunked algorithm
    → (decode_resource_fork d algorithm fork size
        ≡ decode_chunked_resource_fork d algorithm fork size)
      × (is_lz_bitmap algorithm ≡ false)
unfolding decode_resource_fork is_lz_bitmap
decode_resource_fork-IsChunked d algorithm fork size (inl e) = rw e (refl, refl)
decode_resource_fork-IsChunked d algorithm fork size (inr (inl e)) = rw e (refl, refl)
decode_resource_fork-IsChunked d algorithm fork size (inr (inr e)) = rw e (refl, refl)

module _ (d : Decmpfs) (is : IsLayout d) (compression_type size : ℕ) (more : Bytes) where
  uncompressed_size-header_of :
      size < 2 ^ 64 → uncompressed_size d (header_of d compression_type size more) ≡ ok size
  unfolding uncompressed_size header_of
  uncompressed_size-header_of small =
      let header = header_of d compression_type size more in
      let behind = to_le_bytes 8 size ++ more in
      let start = to_le_bytes 4 d.magic ++ to_le_bytes 4 compression_type in
      let long : ltb (length header) d.header_len ≡ false = ground (
        arith,
        is.header_len,
        length-append (to_le_bytes 4 d.magic) (to_le_bytes 4 compression_type ++ behind),
        length-append (to_le_bytes 4 compression_type) behind,
        length-append (to_le_bytes 8 size) more,
        length-to_le_bytes 4 d.magic,
        length-to_le_bytes 4 compression_type,
        length-to_le_bytes 8 size,
      ) in
      let magic =
        checked_le_u32-written header [] (to_le_bytes 4 compression_type ++ behind) 0 d.magic refl
          refl is.magic_fits (omega arith) in
      let known : not (d.magic == d.magic) ≡ false = ground arith in
      let sized =
        checked_le_u64-written header start more d.uncompressed_size_offset size
          (sym (append_assoc (to_le_bytes 4 d.magic) (to_le_bytes 4 compression_type) behind))
          (omega (
            arith,
            is.size_offset,
            length-append (to_le_bytes 4 d.magic) (to_le_bytes 4 compression_type),
            length-to_le_bytes 4 d.magic,
            length-to_le_bytes 4 compression_type,
          ))
          small (omega (arith, is.size_offset)) in
      rw (long, magic, known) sized

  checked_le_u32-header_of :
      compression_type < 2 ^ 32
      → checked_le_u32 (header_of d compression_type size more) d.compression_type_offset
        ≡ ok compression_type
  unfolding header_of
  checked_le_u32-header_of small =
      checked_le_u32-written (header_of d compression_type size more) (to_le_bytes 4 d.magic)
        (to_le_bytes 8 size ++ more) d.compression_type_offset compression_type refl
        (length-to_le_bytes 4 d.magic ∙ sym is.type_offset) small (omega (arith, is.type_offset))

  -- From a fork that decodes to as many bytes as the header declares, these are returned.
  decompress_decmpfs-header_of :
      (algorithm : Algorithm) (fork out : Bytes)
      → compression_type < 2 ^ 32
      → length out < 2 ^ 64
      → size ≡ length out
      → d.classify compression_type
        ≡ some (record { algorithm = algorithm; storage = resource_fork })
      → is_lz_bitmap algorithm ≡ false
      → decode_resource_fork d algorithm fork size ≡ ok out
      → decompress_decmpfs d (header_of d compression_type size more) (some fork) ≡ ok out
  unfolding decompress_decmpfs decode_payload
  decompress_decmpfs-header_of algorithm fork out small_type small_size complete known real
        decoded =
      let sized = uncompressed_size-header_of (omega (arith, small_size, complete)) in
      let typed = checked_le_u32-header_of small_type in
      let whole : not (length out == size) ≡ false = ground (arith, complete) in
      rw (sized, typed, known, real, decoded, whole) refl

-- A file that was compressed in chunks comes back: from a header with the magic, a 32-bit type that
-- the table maps to an algorithm with a chunked fork, and the 64-bit size of the file, and from a
-- fork of its chunks, which end below 2^32 and each of which is needed and decodes to its part of
-- the file, `decompress_decmpfs` gives the parts, in order, whatever lies behind the header and the
-- fork.
pub decompress_decmpfs-chunked_fork :
    (d : Decmpfs) (compression_type size : ℕ) (algorithm : Algorithm) (cs : List Chunk) (spare : ℕ)
    (more tail : Bytes)
    → IsLayout d
    → compression_type < 2 ^ 32
    → size < 2 ^ 64
    → d.classify compression_type ≡ some (record { algorithm = algorithm; storage = resource_fork })
    → IsChunked algorithm
    → AreChunks d algorithm size 0 cs
    → header_size_of cs spare + length (stored_of cs) < 2 ^ 32
    → decompress_decmpfs d
        (header_of d compression_type size more)
        (some (chunked_fork cs spare tail))
      ≡ ok (contents_of cs)
decompress_decmpfs-chunked_fork d compression_type size algorithm cs spare more tail is small_type
      small_size known chunked are small =
    let (routed, real) =
      decode_resource_fork-IsChunked d algorithm (chunked_fork cs spare tail) size chunked in
    let complete = length-contents_of d algorithm size 0 cs are in
    decompress_decmpfs-header_of d is compression_type size more algorithm
      (chunked_fork cs spare tail) (contents_of cs) small_type (omega (arith, small_size, complete))
      (omega (arith, complete)) known real
      (routed ∙ decode_chunked_resource_fork-chunked_fork d algorithm cs spare size tail are small)

-- A file that was compressed as a zlib fork comes back: from a header with the magic, a 32-bit type
-- that the table maps to zlib in the fork, and the 64-bit size of the file, and from a fork whose
-- header begins with its size in big-endian order and whose blocks end below 2^32 and each inflate
-- to their part of the file, `decompress_decmpfs` gives the parts, in order, whatever lies behind
-- the header and the fork.
pub decompress_decmpfs-zlib_fork :
    (d : Decmpfs) (compression_type : ℕ) (bs : List Chunk) (word rest more tail : Bytes)
    → IsLayout d
    → compression_type < 2 ^ 32
    → length (contents_of bs) < 2 ^ 64
    → d.classify compression_type ≡ some (record { algorithm = zlib; storage = resource_fork })
    → AreBlocks d bs
    → length word ≡ 4
    → length rest ≡ from_be_bytes word
    → 4 + length rest + (4 + length bs * 8) + length (stored_of bs) < 2 ^ 32
    → decompress_decmpfs d
        (header_of d compression_type (length (contents_of bs)) more)
        (some (zlib_fork (word ++ rest) bs tail))
      ≡ ok (contents_of bs)
unfolding decode_resource_fork is_lz_bitmap
decompress_decmpfs-zlib_fork d compression_type bs word rest more tail is small_type small_size
      known are four sized small =
    decompress_decmpfs-header_of d is compression_type (length (contents_of bs)) more zlib
      (zlib_fork (word ++ rest) bs tail) (contents_of bs) small_type small_size refl known refl
      (decode_zlib_resource_fork-zlib_fork d bs word rest tail are four sized small)
