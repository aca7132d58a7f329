-- ===== src/Compression/Tests.antt =====
-- src/compression.rs on a file of six bytes in two chunks, under a codec that doubles its input.
use newtua_apfs.Prelude.{◌≡◌, refl, arith, List, [], ◌∷◌, ◌++◌, length, inl, inr, none, some}
use newtua_apfs.Error.{ok}
use newtua_apfs.Compression.{
  Decmpfs, lzvn, zlib, resource_fork, from_be_bytes, lzvn_decode, decode_chunk, decompress_decmpfs,
}
use newtua_apfs.Compression.Chunked.{Chunk, AreChunks, chunked_fork, contents_of, stored_of}
use newtua_apfs.Compression.RoundTrip.{
  IsLayout, header_of, decompress_decmpfs-chunked_fork, decompress_decmpfs-zlib_fork,
}
use newtua_apfs.Compression.Blocks.{AreBlocks, zlib_fork}

abbrev doubling : Decmpfs
doubling = record {
  magic = 0x636d_7066;
  header_len = 16;
  compression_type_offset = 4;
  uncompressed_size_offset = 8;
  chunk_size = 4;
  classify = λ compression_type. some (record { algorithm = lzvn; storage = resource_fork });
  zlib_read_to_end = λ bytes. none;
  lzvn_decode_bytes = λ chunk len. some (chunk ++ chunk);
  lzfse_decode_bytes = λ stream. none;
}

-- The same table for zlib, whose codec puts a zero before its input.
abbrev zeroing : Decmpfs
zeroing = record {
  magic = 0x636d_7066;
  header_len = 16;
  compression_type_offset = 4;
  uncompressed_size_offset = 8;
  chunk_size = 4;
  classify = λ compression_type. some (record { algorithm = zlib; storage = resource_fork });
  zlib_read_to_end = λ bytes. some (0 ∷ bytes);
  lzvn_decode_bytes = λ chunk len. none;
  lzfse_decode_bytes = λ stream. none;
}

doubling-IsLayout : IsLayout doubling
doubling-IsLayout = record {
  magic_fits = omega arith;
  header_len = refl;
  type_offset = refl;
  size_offset = refl;
}

zeroing-IsLayout : IsLayout zeroing
zeroing-IsLayout = record {
  magic_fits = omega arith;
  header_len = refl;
  type_offset = refl;
  size_offset = refl;
}

abbrev two_chunks : List Chunk
two_chunks =
    record { stored = 1 ∷ 2 ∷ []; content = 1 ∷ 2 ∷ 1 ∷ 2 ∷ [] }
    ∷ record { stored = 7 ∷ []; content = 7 ∷ 7 ∷ [] }
    ∷ []

two_chunks-AreChunks : AreChunks doubling lzvn 6 0 two_chunks
unfolding AreChunks decode_chunk lzvn_decode
two_chunks-AreChunks = (omega arith, refl, (omega arith, refl, refl))

decompress_decmpfs-chunked_fork_example :
    decompress_decmpfs doubling
      (header_of doubling 8 6 [])
      (some (chunked_fork two_chunks 3 (0 ∷ 0 ∷ [])))
    ≡ ok (contents_of two_chunks)
unfolding stored_of
decompress_decmpfs-chunked_fork_example =
    decompress_decmpfs-chunked_fork doubling 8 6 lzvn two_chunks 3 [] (0 ∷ 0 ∷ []) doubling-IsLayout
      (omega arith) (omega arith) refl (inr (inl refl)) two_chunks-AreChunks (omega arith)

abbrev two_blocks : List Chunk
two_blocks =
    record { stored = 1 ∷ 2 ∷ []; content = 0 ∷ 1 ∷ 2 ∷ [] }
    ∷ record { stored = 7 ∷ []; content = 0 ∷ 7 ∷ [] }
    ∷ []

two_blocks-AreBlocks : AreBlocks zeroing two_blocks
unfolding AreBlocks
two_blocks-AreBlocks = (refl, (refl, tt))

-- The header has eight bytes.
decompress_decmpfs-zlib_fork_example :
    decompress_decmpfs zeroing (header_of zeroing 4 (length (contents_of two_blocks)) []) (
      some (
        zlib_fork
          ((0 ∷ 0 ∷ 0 ∷ 8 ∷ []) ++ (0 ∷ 0 ∷ 0 ∷ 0 ∷ 0 ∷ 0 ∷ 0 ∷ 0 ∷ []))
          two_blocks
          (9 ∷ [])))
    ≡ ok (contents_of two_blocks)
unfolding stored_of contents_of from_be_bytes
decompress_decmpfs-zlib_fork_example =
    decompress_decmpfs-zlib_fork zeroing 4 two_blocks (0 ∷ 0 ∷ 0 ∷ 8 ∷ [])
      (0 ∷ 0 ∷ 0 ∷ 0 ∷ 0 ∷ 0 ∷ 0 ∷ 0 ∷ []) [] (9 ∷ []) zeroing-IsLayout (omega arith) (omega arith)
      refl two_blocks-AreBlocks refl refl (omega arith)
