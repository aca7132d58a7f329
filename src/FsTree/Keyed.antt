-- ===== src/FsTree/Keyed.antt =====
-- src/dir.rs: the walk keyed to one object id against the walk over the whole file-system tree.
use newtua_apfs.Prelude.{
  ℕ, ◌≤◌, ◌≡◌, ◌≢◌, refl, sym, ◌∙◌, arith, List, [], ◌∷◌, Option, none, some, false, foldl, ap,
  Bool-cases, inl, inr,
}
use newtua_apfs.Error.{ok}
use newtua_apfs.Reader.{Reader}
use newtua_apfs.Btree.Node.{Entry}
use newtua_apfs.Btree.Walk.{Walk, Visitor}
use newtua_apfs.Btree.Tree.{Tree, Forest, leaf, index, nil, cons, entries_of, entries_in}
use newtua_apfs.Btree.FullWalk.{foldl-append}
use newtua_apfs.Btree.Order.{Among}
use newtua_apfs.Volume.{ApfsVolume}
use newtua_apfs.FsTree.{
  oid_of, child_may_contain_oid, read_virtual_node, max_fstree_depth, walk_fs_tree,
  for_each_fs_record_for_oid,
}
use newtua_apfs.FsTree.Stored.{IsFsTree, IsUpTo, IsSeparated, AreSeparated, first_oid}
use newtua_apfs.FsTree.Walks.{admits, landed, landed_in, descend_virtual-IsStored}

-- The visitor does nothing on the records of other objects.
abbrev pub Ignores : {S : Type 0} → ℕ → Visitor S → Type 0
Ignores {S} oid visit = (s : S) (e : Entry) → oid_of e.key ≢ oid → visit s e ≡ s

-- A child that is passed over holds no record of the object.
child_may_contain_oid_complete :
    (sep : ℕ) (next : Option ℕ) (target oid : ℕ)
    → child_may_contain_oid sep next target ≡ false
    → sep ≤ oid
    → IsUpTo next oid
    → oid ≢ target
unfolding child_may_contain_oid
child_may_contain_oid_complete sep none target oid past lo hi = ground arith
child_may_contain_oid_complete sep (some next) target oid past lo hi = ground arith

mutual
  landed-none : (t : Tree) → landed none t ≡ entries_of t
  landed-none (leaf p es) = refl
  landed-none (index p f) = landed_in-none f

  pub landed_in-none : (f : Forest) → landed_in none f ≡ entries_in f
  landed_in-none nil = refl
  landed_in-none (cons sep t f) = rw (landed-none t, landed_in-none f)

module _ {S : Type 0} (target : ℕ) (visit : Visitor S) (ignores : Ignores target visit) where
  foldl-ignored :
      (es : List Entry) (s : S)
      → ((e : Entry) → Among e es → oid_of e.key ≢ target)
      → foldl visit s es ≡ s
  foldl-ignored [] s others = refl
  foldl-ignored (e ∷ es) s others =
      rw (ignores s e (others e (inl refl))) (foldl-ignored es s (λ x m. others x (inr m)))

  mutual
    -- What the keyed walk passes over, the visitor would have ignored.
    foldl-landed :
        (t : Tree) (s : S)
        → IsSeparated t
        → foldl visit s (landed (some target) t) ≡ foldl visit s (entries_of t)
    foldl-landed (leaf p es) s sep = refl
    foldl-landed (index p f) s sep = foldl-landed_in f s sep

    foldl-landed_in :
        (f : Forest) (s : S)
        → AreSeparated f
        → foldl visit s (landed_in (some target) f) ≡ foldl visit s (entries_in f)
    foldl-landed_in nil s sep = refl
    foldl-landed_in (cons k t f) s (within, st, sf) = elim (Bool-cases (admits (some target) k f)) [
      | inl into ↦
          rw
            (
              into,
              foldl-append visit s (landed (some target) t) (landed_in (some target) f),
              foldl-append visit s (entries_of t) (entries_in f),
              foldl-landed t s st,
            )
            (foldl-landed_in f (foldl visit s (entries_of t)) sf)
      | inr past ↦
          rw
            (
              past,
              foldl-append visit s (entries_of t) (entries_in f),
              foldl-ignored (entries_of t) s (λ e m.
                  child_may_contain_oid_complete (oid_of k) (first_oid f) target (oid_of e.key) past
                    (within e m).0 (within e m).1),
            )
            (foldl-landed_in f s sf)
    ]

module _ {Text : Type 0} {S : Type 0} (reader : Reader) (volume : ApfsVolume Text) (block_size : ℕ)
    (t : Tree) (tree : IsFsTree reader volume block_size t) (visit : Visitor S) (s : S) where
  pub walk_fs_tree-IsFsTree :
      (target : Option ℕ)
      → walk_fs_tree reader volume block_size target visit s ≡ ok (foldl visit s (landed target t))
  unfolding walk_fs_tree
  walk_fs_tree-IsFsTree target =
      let start : Walk S = record { visited = []; state = s } in
      let (v, runs, meets) =
        descend_virtual-IsStored target visit
          (λ oid. read_virtual_node reader tree.om oid volume.xid block_size) t max_fstree_depth
          start [] tree.stored tree.fits tree.fresh (λ q out. out) in
      rw (tree.mapped, tree.root, runs)

  -- On a stored file-system tree the walk keyed to an object succeeds, and a visitor that ignores
  -- the records of other objects ends as if it had been handed every leaf record, in order.
  pub for_each_fs_record_for_oid-IsFsTree :
      (target : ℕ)
      → Ignores target visit
      → for_each_fs_record_for_oid reader volume block_size target visit s
        ≡ ok (foldl visit s (entries_of t))
  unfolding for_each_fs_record_for_oid
  for_each_fs_record_for_oid-IsFsTree target ignores =
      walk_fs_tree-IsFsTree (some target)
      ∙ ap ok (foldl-landed target visit ignores t s tree.separated)

-- On a file-system tree that is stored under a volume's object map, at most 64 levels deep, with no
-- oid twice, and whose separators bound the object ids below them, the walk keyed to one object id
-- gives, for a visitor that ignores the records of other objects, what the walk over the whole tree
-- gives.
pub for_each_fs_record_for_oid-full_walk :
    {Text : Type 0} {S : Type 0} (reader : Reader) (volume : ApfsVolume Text)
    (block_size target : ℕ) (t : Tree) (visit : Visitor S) (s : S)
    → IsFsTree reader volume block_size t
    → Ignores target visit
    → for_each_fs_record_for_oid reader volume block_size target visit s
      ≡ walk_fs_tree reader volume block_size none visit s
for_each_fs_record_for_oid-full_walk reader volume block_size target t visit s tree ignores =
    for_each_fs_record_for_oid-IsFsTree reader volume block_size t tree visit s target ignores
    ∙ sym (
        walk_fs_tree-IsFsTree reader volume block_size t tree visit s none
        ∙ ap (λ es. ok (foldl visit s es)) (landed-none t))
