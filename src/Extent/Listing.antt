-- ===== src/Extent/Listing.antt =====
-- src/extent.rs, `list_extents`: which extents it lists, and in which order.
use mathlib.Core.List.{Perm}
use mathlib.Core.List.Perm
use newtua_apfs.Prelude.{
  ℕ, ◌≤◌, ◌≡◌, ◌≢◌, refl, arith, List, [], ◌∷◌, none, leb, filter_map, Bool-cases, inl, inr,
}
use newtua_apfs.Error.{ok}
use newtua_apfs.Reader.{Reader}
use newtua_apfs.Btree.Node.{Entry}
use newtua_apfs.Btree.Tree.{Tree, entries_of}
use newtua_apfs.FsRecord.{RecordType}
use newtua_apfs.Volume.{ApfsVolume}
use newtua_apfs.FsTree.{oid_of}
use newtua_apfs.FsTree.Stored.{IsFsTree}
use newtua_apfs.FsTree.Collect.{is_record_other, collected-IsFsTree}
use newtua_apfs.Extent.{FileExtent, extent_of, insert_extent, sort_by_logical_offset, list_extents}

-- The offsets ascend, from `lo` on.
abbrev pub AreSorted : ℕ → List FileExtent → Type 0
AreSorted lo [] = Unit
AreSorted lo (x ∷ xs) = (lo ≤ x.logical_offset) × AreSorted x.logical_offset xs

insert_extent-AreSorted :
    (lo : ℕ) (x : FileExtent) (xs : List FileExtent)
    → lo ≤ x.logical_offset
    → AreSorted lo xs
    → AreSorted lo (insert_extent x xs)
unfolding insert_extent
insert_extent-AreSorted lo x [] h sorted = (h, tt)
insert_extent-AreSorted lo x (y ∷ ys) h (le, sorted) =
    elim (Bool-cases (leb x.logical_offset y.logical_offset)) [
      | inl b ↦ rw b (h, (ground arith, sorted))
      | inr b ↦ rw b (le, insert_extent-AreSorted y.logical_offset x ys (ground arith) sorted)
    ]

insert_extent-Perm : (x : FileExtent) (xs : List FileExtent) → Perm (insert_extent x xs) (x ∷ xs)
unfolding insert_extent
insert_extent-Perm x [] = Perm.rfl
insert_extent-Perm x (y ∷ ys) = elim (Bool-cases (leb x.logical_offset y.logical_offset)) [
  | inl b ↦ rw b Perm.rfl
  | inr b ↦ rw b (Perm.trans (Perm.cons y (insert_extent-Perm x ys)) (Perm.swap x y ys))
]

sort-AreSorted : (xs : List FileExtent) → AreSorted 0 (sort_by_logical_offset xs)
unfolding sort_by_logical_offset
sort-AreSorted [] = tt
sort-AreSorted (x ∷ xs) =
    insert_extent-AreSorted 0 x (sort_by_logical_offset xs) (omega arith) (sort-AreSorted xs)

sort-Perm : (xs : List FileExtent) → Perm (sort_by_logical_offset xs) xs
unfolding sort_by_logical_offset
sort-Perm [] = Perm.rfl
sort-Perm (x ∷ xs) =
    Perm.trans (insert_extent-Perm x (sort_by_logical_offset xs)) (Perm.cons x (sort-Perm xs))

extent_of_other : (oid : ℕ) (e : Entry) → oid_of e.key ≢ oid → extent_of oid e ≡ none
unfolding extent_of
extent_of_other oid e other =
    rw (extent_of, is_record_other RecordType.file_extent oid e other) refl

module _ {Text : Type 0} (reader : Reader) (volume : ApfsVolume Text) (stream_oid block_size : ℕ)
    (t : Tree) (tree : IsFsTree reader volume block_size t) where
  pub list_extents-sorted :
      list_extents reader volume stream_oid block_size
      ≡ ok (sort_by_logical_offset (filter_map (extent_of stream_oid) (entries_of t)))
  unfolding list_extents
  list_extents-sorted =
      rw
        (collected-IsFsTree (extent_of stream_oid) reader volume block_size stream_oid t tree
          (extent_of_other stream_oid))
        refl

-- On a stored file-system tree `list_extents` gives the extents that the stream's records hold,
-- each as often as it is recorded, in the order of their logical offsets.
pub list_extents-IsFsTree :
    {Text : Type 0} (reader : Reader) (volume : ApfsVolume Text) (stream_oid block_size : ℕ)
    (t : Tree)
    → IsFsTree reader volume block_size t
    → (exts : List FileExtent) × (list_extents reader volume stream_oid block_size ≡ ok exts)
      × Perm exts (filter_map (extent_of stream_oid) (entries_of t))
      × AreSorted 0 exts
list_extents-IsFsTree reader volume stream_oid block_size t tree =
    let found = filter_map (extent_of stream_oid) (entries_of t) in
    (
      sort_by_logical_offset found,
      list_extents-sorted reader volume stream_oid block_size t tree,
      sort-Perm found,
      sort-AreSorted found,
    )
