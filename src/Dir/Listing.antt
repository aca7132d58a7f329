-- ===== src/Dir/Listing.antt =====
-- src/dir.rs: `list_dir`, `lookup_child` and `load_inode` against the records of the tree.
use newtua_apfs.Prelude.{
  ℕ, ◌≡◌, ◌≢◌, refl, List, [], ◌∷◌, ◌++◌, Option, none, some, foldl, if◌then◌else◌, Bool-cases,
  Option-cases, inl, inr, filter_map,
}
use newtua_apfs.Bytes.{Bytes, Str, eq_bytes}
use newtua_apfs.Error.{ok, ◌>>=◌, ok_or, omap_unresolved}
use newtua_apfs.Reader.{Reader}
use newtua_apfs.Btree.Node.{Entry}
use newtua_apfs.Btree.Tree.{Tree, entries_of}
use newtua_apfs.FsRecord.{RecordType}
use newtua_apfs.Volume.{ApfsVolume}
use newtua_apfs.Inode.{parse_inode}
use newtua_apfs.FsTree.{oid_of, is_record, push_some}
use newtua_apfs.FsTree.Stored.{IsFsTree}
use newtua_apfs.FsTree.Keyed.{Ignores, for_each_fs_record_for_oid-IsFsTree}
use newtua_apfs.FsTree.Collect.{is_record_other, collected-IsFsTree}
use newtua_apfs.FsTree.Fusion.{map_ok, for_each_fs_record_for_oid-image}
use newtua_apfs.Dir.{
  DirEntry, entry_under, push_entry, keep_child, keep_inode, list_dir, lookup_child, load_inode,
}

keep_inode_other : (oid : ℕ) → Ignores oid (keep_inode oid)
unfolding keep_inode
keep_inode_other oid none e other = rw (is_record_other RecordType.inode oid e other) refl
keep_inode_other oid (some v) e other = refl

-- The value of the first inode record of the object.
abbrev pub inode_value : ℕ → List Entry → Option Bytes
inode_value oid [] = none
inode_value oid (e ∷ es) =
    if is_record RecordType.inode oid e then some e.value else inode_value oid es

-- The inode of the first entry of that name.
abbrev pub find_name : Str → List DirEntry → Option ℕ
find_name name [] = none
find_name name (d ∷ ds) = if eq_bytes d.name name then some d.file_id else find_name name ds

-- `foldl` with a visitor that keeps its first find.
foldl-kept {ℓ} :
    {A : Type ℓ} (keep : Option A → Entry → Option A) (es : List Entry) (a : A)
    → ((a : A) (e : Entry) → keep (some a) e ≡ some a)
    → foldl keep (some a) es ≡ some a
foldl-kept keep [] a kept = refl
foldl-kept keep (e ∷ es) a kept = rw (kept a e) (foldl-kept keep es a kept)

foldl-keep_inode : (oid : ℕ) (es : List Entry) → foldl (keep_inode oid) none es ≡ inode_value oid es
unfolding keep_inode
foldl-keep_inode oid [] = refl
foldl-keep_inode oid (e ∷ es) = elim (Bool-cases (is_record RecordType.inode oid e)) [
  | inl b ↦ rw b (foldl-kept (keep_inode oid) es e.value (λ a x. refl))
  | inr b ↦ rw b (foldl-keep_inode oid es)
]

find_name-append :
    (name : Str) (ds : List DirEntry) (d : DirEntry)
    → find_name name (ds ++ (d ∷ [])) ≡ elim (find_name name ds) [
      | some id ↦ some id
      | none ↦ if eq_bytes d.name name then some d.file_id else none
    ]
find_name-append name [] d = refl
find_name-append name (x ∷ ds) d = elim (Bool-cases (eq_bytes x.name name)) [
  | inl b ↦ rw b refl
  | inr b ↦ rw b (find_name-append name ds d)
]

module _ (from_utf8_lossy : Bytes → Str) where
  -- The directory entries among the records, in order.
  abbrev pub dir_entries : ℕ → List Entry → List DirEntry
  dir_entries parent = filter_map (entry_under from_utf8_lossy parent)

  entry_under_other :
      (parent : ℕ) (e : Entry) → oid_of e.key ≢ parent → entry_under from_utf8_lossy parent e ≡ none
  unfolding entry_under
  entry_under_other parent e other = rw (is_record_other RecordType.dir_rec parent e other) refl

  -- `lookup_child` keeps what the name has in the listing so far.
  keep_child-find_name :
      (parent : ℕ) (name : Str) (out : List DirEntry) (e : Entry)
      → keep_child from_utf8_lossy parent name (find_name name out) e
        ≡ find_name name (push_entry from_utf8_lossy parent out e)
  unfolding keep_child push_some
  keep_child-find_name parent name out e =
      elim (Option-cases (entry_under from_utf8_lossy parent e)) [
        | inl p ↦
            rw (push_some, p)
              (elim (Option-cases (find_name name out)) [
                | inl q ↦ rw (q, keep_child, p) refl
                | inr (id, q) ↦ rw q refl
              ])
        | inr (d, p) ↦
            rw (push_some, p, find_name-append name out d)
              (elim (Option-cases (find_name name out)) [
                | inl q ↦ rw (q, keep_child, p) refl
                | inr (id, q) ↦ rw q refl
              ])
      ]

  module _ (reader : Reader) (volume : ApfsVolume Str) (block_size : ℕ) where
    -- On a stored tree `list_dir` gives the directory entries of the parent, in the order of the
    -- tree's records.
    pub list_dir-IsFsTree :
        (parent : ℕ) (t : Tree)
        → IsFsTree reader volume block_size t
        → list_dir from_utf8_lossy reader volume block_size parent
          ≡ ok (dir_entries parent (entries_of t))
    unfolding list_dir
    list_dir-IsFsTree parent t tree =
        collected-IsFsTree (entry_under from_utf8_lossy parent) reader volume block_size parent t
          tree (entry_under_other parent)

    -- `lookup_child` gives the inode of the first entry of that name in what `list_dir` gives, and
    -- fails as it does.
    pub lookup_child-list_dir :
        (parent : ℕ) (name : Str)
        → lookup_child from_utf8_lossy reader volume block_size parent name
          ≡ map_ok (find_name name) (list_dir from_utf8_lossy reader volume block_size parent)
    unfolding lookup_child list_dir
    lookup_child-list_dir parent name =
        for_each_fs_record_for_oid-image (find_name name) (push_entry from_utf8_lossy parent)
          (keep_child from_utf8_lossy parent name) (keep_child-find_name parent name) reader volume
          block_size parent []

    pub load_inode-IsFsTree :
        (oid : ℕ) (t : Tree)
        → IsFsTree reader volume block_size t
        → load_inode from_utf8_lossy reader volume block_size oid ≡ (
            ok_or (inode_value oid (entries_of t)) (omap_unresolved oid volume.xid)
            >>= parse_inode from_utf8_lossy oid)
    unfolding load_inode
    load_inode-IsFsTree oid t tree =
        rw
          (
            for_each_fs_record_for_oid-IsFsTree reader volume block_size t tree (keep_inode oid)
                none oid (keep_inode_other oid),
            foldl-keep_inode oid (entries_of t),
          )
          refl
