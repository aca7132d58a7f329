-- ===== src/Extent/Assembly.antt =====
-- src/extent.rs, `read_stream`: the bytes that a list of extents is assembled to.
use newtua_apfs.Prelude.{
  ℕ, zero, suc, ◌+◌, ◌-◌, ◌*◌, ◌^◌, ◌≤◌, ◌<◌, ◌≡◌, ◌⊎◌, refl, ap, ◌∙◌, arith, min, List, [], ◌∷◌,
  Bool, true, false, not, ◌&&◌, ◌||◌, leb, ltb, ◌==◌, length, take, drop, replicate, get_or, foldl,
  if◌then◌else◌, length-take, length-drop, length-replicate, inl, inr, Bool-cases, tests,
}
use newtua_apfs.Bytes.{Bytes}
use newtua_apfs.Bytes.Slices.{slice_in}
use newtua_apfs.Error.{ok}
use newtua_apfs.Reader.{cursor, checked_mul, read_exact_at}
use newtua_apfs.Volume.{ApfsVolume}
use newtua_apfs.Extent.Writes.{
  at_index, get_or-take, get_or-drop, length-write_at, write_at_before, write_at_within,
  write_at_after,
}
use newtua_apfs.Extent.{
  FileExtent, write_at, extent_offset, fill_extent, fill_extents, list_extents, read_stream,
  max_file_bytes,
}

-- The extent holds byte `i` of the file, and it is not a hole.
abbrev pub covers : ℕ → FileExtent → Bool
covers i ext =
    not (ext.phys_block_num == 0)
    && (leb ext.logical_offset i && ltb i (ext.logical_offset + ext.len))

-- Byte `i` of a file over an image: the byte that the last extent holding it has there, and zero
-- where none does.
abbrev pub byte_in : Bytes → ℕ → ℕ → ℕ → FileExtent → ℕ
byte_in image block_size i byte ext =
    if covers i ext
    then get_or image (ext.phys_block_num * block_size + (i - ext.logical_offset)) 0
    else byte

abbrev pub file_byte : Bytes → ℕ → List FileExtent → ℕ → ℕ
file_byte image block_size exts i = foldl (byte_in image block_size i) 0 exts

-- The part of the extent below the file's size is a hole or empty, or lies in the image.
abbrev pub IsInside : Bytes → ℕ → ℕ → FileExtent → Type 0
IsInside image block_size size ext =
    (ext.phys_block_num ≡ 0)
    ⊎ ((size ≤ ext.logical_offset)
        ⊎ ((ext.phys_block_num * block_size < 2 ^ 64)
            × (ext.phys_block_num * block_size + min ext.len (size - ext.logical_offset)
                ≤ length image)))

abbrev pub AllInside : Bytes → ℕ → ℕ → List FileExtent → Type 0
AllInside image block_size size [] = Unit
AllInside image block_size size (ext ∷ exts) =
    IsInside image block_size size ext × AllInside image block_size size exts

extent_offset_small :
    (ext : FileExtent) (block_size : ℕ)
    → ext.phys_block_num * block_size < 2 ^ 64
    → extent_offset block_size ext ≡ ok (ext.phys_block_num * block_size)
unfolding extent_offset checked_mul
extent_offset_small ext block_size h = ground arith

module _ (image : Bytes) (block_size size : ℕ) where
  -- The device's bytes of a range that lies in the image.
  read_image :
      (off n : ℕ)
      → off + n ≤ length image
      → read_exact_at (cursor image) off n ≡ ok (take n (drop off image))
  unfolding read_exact_at cursor
  read_image off zero h = refl
  read_image off (suc n) h =
      let asked : (suc n == 0) ≡ false = ground arith in
      let taken : off + suc n - off ≡ suc n = omega arith in
      rw (read_exact_at, cursor, asked, slice_in image off (off + suc n) (omega arith) h)
        (ap (λ k. ok (take k (drop off image))) taken)

  -- `new` is the buffer `old` after one extent.
  abbrev IsStep : FileExtent → Bytes → Bytes → Type 0
  IsStep ext old new =
      (length new ≡ size)
      × ((i : ℕ) → i < size → get_or new i 0 ≡ byte_in image block_size i (get_or old i 0) ext)

  skip-IsStep :
      (ext : FileExtent) (out : Bytes)
      → (leb size ext.logical_offset || ext.phys_block_num == 0) ≡ true
      → length out ≡ size
      → (fill_extent (cursor image) block_size size ext out ≡ ok out) × IsStep ext out out
  unfolding fill_extent
  skip-IsStep ext out guard sized = (rw guard refl, (sized, λ i h. ground arith))

  module _ (ext : FileExtent) (out : Bytes) (live : ext.logical_offset < size)
      (sized : length out ≡ size) where
    abbrev start : ℕ
    start = ext.logical_offset

    abbrev off : ℕ
    off = ext.phys_block_num * block_size

    abbrev copied : ℕ
    copied = min ext.len (size - start)

    abbrev bytes : Bytes
    bytes = take copied (drop off image)

    length-bytes : off + copied ≤ length image → length bytes ≡ copied
    length-bytes h = omega (arith, length-take copied (drop off image), length-drop off image)

    module _ (h : off + copied ≤ length image) where
      inside : start + length bytes ≤ length out
      inside = omega (arith, length-bytes h)

      -- A byte that the extent holds, in the buffer and on the device.
      byte_within :
          (i : ℕ)
          → start ≤ i
          → i < start + copied
          → get_or (write_at out start bytes) i 0 ≡ get_or image (off + (i - start)) 0
      byte_within i lo hi =
          at_index (write_at out start bytes) {j = start + (i - start)} (omega arith)
          ∙ write_at_within out start bytes inside (i - start) (omega (arith, length-bytes h))
          ∙ get_or-take copied (drop off image) (i - start) (omega arith)
          ∙ get_or-drop off image (i - start)

      byte_beyond :
          (i : ℕ) → start + copied ≤ i → get_or (write_at out start bytes) i 0 ≡ get_or out i 0
      byte_beyond i hi =
          let k = i - (start + length bytes) in
          at_index (write_at out start bytes) {j = start + length bytes + k}
            (omega (arith, length-bytes h))
          ∙ write_at_after out start bytes inside k
          ∙ at_index out (omega (arith, length-bytes h))

      written_byte :
          0 < ext.phys_block_num
          → (i : ℕ) → i < size
          → get_or (write_at out start bytes) i 0 ≡ byte_in image block_size i (get_or out i 0) ext
      written_byte real i below = elim (Bool-cases (ltb i start)) [
        | inl before ↦ ground (arith, write_at_before out start bytes inside i (omega tests))
        | inr from ↦ elim (Bool-cases (ltb i (start + copied))) [
          | inl within ↦ ground (arith, byte_within i (ground arith) (omega tests))
          | inr beyond ↦ ground (arith, byte_beyond i (ground arith))
        ]
      ]

      live-IsStep :
          off < 2 ^ 64
          → 0 < ext.phys_block_num
          → (fill_extent (cursor image) block_size size ext out ≡ ok (write_at out start bytes))
            × IsStep ext out (write_at out start bytes)
      unfolding fill_extent
      live-IsStep small real =
          let guard : (leb size start || ext.phys_block_num == 0) ≡ false = ground arith in
          (
            rw (guard, extent_offset_small ext block_size small, read_image off copied h) refl,
            (length-write_at out start bytes inside ∙ sized, written_byte real),
          )

  one-IsStep :
      (ext : FileExtent) (out : Bytes)
      → IsInside image block_size size ext
      → length out ≡ size
      → (new : Bytes) × (fill_extent (cursor image) block_size size ext out ≡ ok new)
        × IsStep ext out new
  one-IsStep ext out within sized =
      elim (Bool-cases (leb size ext.logical_offset || ext.phys_block_num == 0)) [
        | inl guard ↦ let (runs, is) = skip-IsStep ext out guard sized in (out, runs, is)
        | inr live ↦ elim within [
          | inl hole ↦ absurd (ground arith)
          | inr (inl past) ↦ absurd (ground arith)
          | inr (inr (small, h)) ↦
              let below : ext.logical_offset < size = ground arith in
              let (runs, is) = live-IsStep ext out below sized h small (ground arith) in
              (write_at out ext.logical_offset (bytes ext out below sized), runs, is)
        ]
      ]

  filled :
      (exts : List FileExtent) (out : Bytes)
      → AllInside image block_size size exts
      → length out ≡ size
      → (new : Bytes) × (fill_extents (cursor image) block_size size exts out ≡ ok new)
        × (length new ≡ size)
        × ((i : ℕ)
            → i < size
            → get_or new i 0 ≡ foldl (byte_in image block_size i) (get_or out i 0) exts)
  unfolding fill_extents
  filled [] out inside sized = (out, refl, sized, λ i h. refl)
  filled (ext ∷ exts) out inside sized =
      let (mid, here, (sized', bytes')) = one-IsStep ext out inside.0 sized in
      let (new, there, sized'', rest) = filled exts mid inside.1 sized' in
      (
        new,
        rw here there,
        sized'',
        λ i h. rest i h ∙ ap (λ b. foldl (byte_in image block_size i) b exts) (bytes' i h),
      )

get_or-replicate : (n i : ℕ) → get_or {A = ℕ} (replicate n 0) i 0 ≡ 0
get_or-replicate zero i = refl
get_or-replicate (suc n) zero = refl
get_or-replicate (suc n) (suc i) = get_or-replicate n i

-- Over an image, of a stream of at most 2^34 bytes whose extents are listed and lie inside the
-- image below the stream's size, `read_stream` returns exactly that many bytes; byte `i` is what
-- the last listed extent that holds it has on the device, and zero in a hole or where no extent is.
pub read_stream-file_byte :
    {Text : Type 0} (image : Bytes) (volume : ApfsVolume Text)
    (stream_oid logical_size block_size : ℕ) (exts : List FileExtent)
    → logical_size ≤ max_file_bytes
    → list_extents (cursor image) volume stream_oid block_size ≡ ok exts
    → AllInside image block_size logical_size exts
    → (out : Bytes) × (read_stream (cursor image) volume stream_oid logical_size block_size
        ≡ ok out)
      × (length out ≡ logical_size)
      × ((i : ℕ) → i < logical_size → get_or out i 0 ≡ file_byte image block_size exts i)
unfolding read_stream
read_stream-file_byte image volume stream_oid logical_size block_size exts small listed inside =
    let (out, runs, sized, bytes) =
      filled image block_size logical_size exts (replicate logical_size 0) inside
        (length-replicate logical_size 0) in
    let capped : ltb max_file_bytes logical_size ≡ false = ground arith in
    (
      out,
      rw (capped, listed, runs) refl,
      sized,
      λ i h.
          bytes i h
          ∙ ap (λ b. foldl (byte_in image block_size i) b exts) (get_or-replicate logical_size i),
    )
