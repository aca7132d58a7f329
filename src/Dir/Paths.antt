-- ===== src/Dir/Paths.antt =====
-- src/dir.rs: `open_path`, its components, and the names that it follows through the tree.
use newtua_apfs.Prelude.{
  ℕ, ◌≡◌, ◌≢◌, refl, sym, ◌∙◌, ap, arith, List, [], ◌∷◌, ◌++◌, Option, none, some, ◌⊎◌, inl, inr,
  Bool-cases, Option-cases, ◌==◌, append-nil,
}
use newtua_apfs.Bytes.{Bytes, Str}
use newtua_apfs.Error.{Result, ok, err, ◌>>=◌, ok_or, omap_unresolved}
use newtua_apfs.Reader.{Reader}
use newtua_apfs.Btree.Tree.{Tree, entries_of}
use newtua_apfs.Volume.{ApfsVolume}
use newtua_apfs.Inode.{Inode, parse_inode}
use newtua_apfs.FsTree.Stored.{IsFsTree}
use newtua_apfs.FsTree.Fusion.{map_ok}
use newtua_apfs.Dir.{
  extend_first, split_on, drop_empty, components, slash, root_dir_ino_num, lookup_child, load_inode,
  follow_components, open_path,
}
use newtua_apfs.Dir.Listing.{
  find_name, dir_entries, inode_value, list_dir-IsFsTree, lookup_child-list_dir,
  load_inode-IsFsTree,
}

split_on-cons :
    (sep : ℕ) (s : Str) → (part : Str) × (parts : List Str) × (split_on sep s ≡ part ∷ parts)
unfolding split_on extend_first
split_on-cons sep [] = ([], [], refl)
split_on-cons sep (b ∷ bs) = elim (Bool-cases (b == sep)) [
  | inl e ↦ ([], split_on sep bs, rw e refl)
  | inr e ↦ let (part, parts, p) = split_on-cons sep bs in (b ∷ part, parts, rw (e, p) refl)
]

-- Splitting at a separator is splitting both sides.
split_on-append :
    (sep : ℕ) (p q : Str) → split_on sep (p ++ (sep ∷ q)) ≡ split_on sep p ++ split_on sep q
unfolding split_on extend_first
split_on-append sep [] q = ground arith
split_on-append sep (b ∷ p) q = elim (Bool-cases (b == sep)) [
  | inl e ↦ rw e (ap (λ parts. [] ∷ parts) (split_on-append sep p q))
  | inr e ↦ let (part, parts, s) = split_on-cons sep p in rw (e, split_on-append sep p q, s) refl
]

drop_empty-append : (xs ys : List Str) → drop_empty (xs ++ ys) ≡ drop_empty xs ++ drop_empty ys
unfolding drop_empty
drop_empty-append [] ys = refl
drop_empty-append ([] ∷ xs) ys = drop_empty-append xs ys
drop_empty-append ((b ∷ bs) ∷ xs) ys = ap (λ parts. (b ∷ bs) ∷ parts) (drop_empty-append xs ys)

pub components-append : (p q : Str) → components (p ++ (slash ∷ q)) ≡ components p ++ components q
unfolding components
components-append p q =
    rw (split_on-append slash p q) (drop_empty-append (split_on slash p) (split_on slash q))

-- A name that a path can spell: not empty, and without a slash.
abbrev pub HasNoSlash : Str → Type 0
HasNoSlash [] = Unit
HasNoSlash (b ∷ bs) = (b ≢ slash) × HasNoSlash bs

abbrev pub AreNames : List Str → Type 0
AreNames [] = Unit
AreNames (c ∷ cs) = (c ≢ []) × HasNoSlash c × AreNames cs

-- `/a/b/c`.
abbrev pub join : List Str → Str
join [] = []
join (c ∷ cs) = slash ∷ (c ++ join cs)

split_on-name : (c : Str) → HasNoSlash c → split_on slash c ≡ c ∷ []
unfolding split_on extend_first
split_on-name [] h = refl
split_on-name (b ∷ bs) h = rw (split_on-name bs h.1) (ground arith)

components-name : (c : Str) → c ≢ [] → HasNoSlash c → components c ≡ c ∷ []
unfolding components drop_empty
components-name [] ne h = absurd (ne refl)
components-name (b ∷ bs) ne h = rw (split_on-name (b ∷ bs) h) refl

components-slash : (q : Str) → components (slash ∷ q) ≡ components q
unfolding components split_on drop_empty
components-slash q = refl

components-append-join :
    (c : Str) (cs : List Str) → components (c ++ join cs) ≡ components c ++ components (join cs)
unfolding components split_on drop_empty
components-append-join c [] = ap components (append-nil c) ∙ sym (append-nil (components c))
components-append-join c (d ∷ ds) = components-append c (d ++ join ds)

-- The path that spells a list of names, none of which is empty or holds a slash, has exactly these
-- components.
pub components-join : (cs : List Str) → AreNames cs → components (join cs) ≡ cs
unfolding components split_on drop_empty
components-join [] h = refl
components-join (c ∷ cs) h =
    components-slash (c ++ join cs)
    ∙ components-append-join c cs
    ∙ rw (components-name c h.0 h.1, components-join cs h.2) refl

-- What a path leads to, by the name lookup of an abstract directory tree: the inode it reaches, or
-- the inode at which it is stuck.
abbrev pub follow : (ℕ → Str → Option ℕ) → ℕ → List Str → ℕ ⊎ ℕ
follow child current [] = inr current
follow child current (c ∷ cs) = elim (child current c) [
  | none ↦ inl current
  | some next ↦ follow child next cs
]

module _ (from_utf8_lossy : Bytes → Str) where
  -- The tree's entry of that name under that parent, the first where there are several.
  abbrev pub child_in : Tree → ℕ → Str → Option ℕ
  child_in t parent name = find_name name (dir_entries from_utf8_lossy parent (entries_of t))

  -- The inode that the tree's records give, at the transaction.
  abbrev pub inode_in : Tree → ℕ → ℕ → Result (Inode Str)
  inode_in t xid oid =
      ok_or (inode_value oid (entries_of t)) (omap_unresolved oid xid)
      >>= parse_inode from_utf8_lossy oid

  module _ (reader : Reader) (volume : ApfsVolume Str) (block_size : ℕ) where
    lookup_child-IsFsTree :
        (parent : ℕ) (name : Str) (t : Tree)
        → IsFsTree reader volume block_size t
        → lookup_child from_utf8_lossy reader volume block_size parent name
          ≡ ok (child_in t parent name)
    lookup_child-IsFsTree parent name t tree =
        lookup_child-list_dir from_utf8_lossy reader volume block_size parent name
        ∙ ap (map_ok (find_name name))
            (list_dir-IsFsTree from_utf8_lossy reader volume block_size parent t tree)

    follow_components-IsFsTree :
        (current : ℕ) (cs : List Str) (t : Tree)
        → IsFsTree reader volume block_size t
        → follow_components from_utf8_lossy reader volume block_size current cs
          ≡ elim (follow (child_in t) current cs) [
            | inl stuck ↦ err (omap_unresolved stuck volume.xid)
            | inr oid ↦ ok oid
          ]
    unfolding follow_components
    follow_components-IsFsTree current [] t tree = refl
    follow_components-IsFsTree current (c ∷ cs) t tree =
        rw (lookup_child-IsFsTree current c t tree) (elim (Option-cases (child_in t current c)) [
          | inl p ↦ rw p refl
          | inr (next, p) ↦ rw p (follow_components-IsFsTree next cs t tree)
        ])

  -- On a stored file-system tree `open_path` refines name lookup in an abstract directory tree: it
  -- follows the path's components from the root directory by the first directory entry of each
  -- name, and gives the inode reached; where a component has no entry, or the inode reached has no
  -- record, it fails with the inode at which the path is stuck.
  pub open_path-follow :
      (reader : Reader) (volume : ApfsVolume Str) (block_size : ℕ) (path : Str) (t : Tree)
      → IsFsTree reader volume block_size t
      → open_path from_utf8_lossy reader volume block_size path
        ≡ elim (follow (child_in t) root_dir_ino_num (components path)) [
          | inl stuck ↦ err (omap_unresolved stuck volume.xid)
          | inr oid ↦ inode_in t volume.xid oid
        ]
  unfolding open_path
  open_path-follow reader volume block_size path t tree =
      rw
        (follow_components-IsFsTree reader volume block_size root_dir_ino_num (components path) t
          tree)
        (elim (follow (child_in t) root_dir_ino_num (components path))
          as (λ r.
            ((elim r [ inl stuck ↦ err (omap_unresolved stuck volume.xid) | inr oid ↦ ok oid ])
              >>= load_inode from_utf8_lossy reader volume block_size)
            ≡ elim r [
              | inl stuck ↦ err (omap_unresolved stuck volume.xid)
              | inr oid ↦ inode_in t volume.xid oid
            ]) [
              | inl stuck ↦ refl
              | inr oid ↦ load_inode-IsFsTree from_utf8_lossy reader volume block_size oid t tree
            ])
