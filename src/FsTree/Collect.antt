-- ===== src/FsTree/Collect.antt =====
-- src/dir.rs: the visitors that push what they make of a record on a vector, as `list_dir` and the
-- listings of src/extent.rs and src/xattr.rs do.
use newtua_apfs.Prelude.{
  ℕ, ◌≡◌, ◌≢◌, arith, false, refl, sym, ◌∙◌, ap, List, [], ◌∷◌, ◌++◌, Option, none, foldl,
  filter_map, Option-cases, inl, inr, append_assoc, append-nil,
}
use newtua_apfs.Error.{ok}
use newtua_apfs.Reader.{Reader}
use newtua_apfs.Btree.Node.{Entry}
use newtua_apfs.Btree.Tree.{Tree, entries_of}
use newtua_apfs.FsRecord.{RecordType}
use newtua_apfs.Volume.{ApfsVolume}
use newtua_apfs.FsTree.{is_record, oid_of, push_some, for_each_fs_record_for_oid}
use newtua_apfs.FsTree.Stored.{IsFsTree}
use newtua_apfs.FsTree.Keyed.{Ignores, for_each_fs_record_for_oid-IsFsTree}

-- A record of another object is not a record of this one.
pub is_record_other :
    (t : RecordType) (oid : ℕ) (e : Entry) → oid_of e.key ≢ oid → is_record t oid e ≡ false
unfolding is_record oid_of
is_record_other t oid e other = ground arith

module _ {A : Type 0} (make : Entry → Option A) where
  pub foldl-push_some :
      (es : List Entry) (out : List A) → foldl (push_some make) out es ≡ out ++ filter_map make es
  unfolding filter_map push_some
  foldl-push_some [] out = sym (append-nil out)
  foldl-push_some (e ∷ es) out = elim (Option-cases (make e)) [
    | inl p ↦ rw (push_some, p) (foldl-push_some es out)
    | inr (a, p) ↦
        rw (push_some, p)
          (foldl-push_some es (out ++ (a ∷ [])) ∙ append_assoc out (a ∷ []) (filter_map make es))
  ]

  pub push_some-Ignores :
      (oid : ℕ) → ((e : Entry) → oid_of e.key ≢ oid → make e ≡ none) → Ignores oid (push_some make)
  unfolding push_some
  push_some-Ignores oid others s e other = rw (push_some, others e other) refl

  -- On a stored tree the vector holds what is made of the object's records, in order.
  pub collected-IsFsTree :
      {Text : Type 0} (reader : Reader) (volume : ApfsVolume Text) (block_size oid : ℕ) (t : Tree)
      → IsFsTree reader volume block_size t
      → ((e : Entry) → oid_of e.key ≢ oid → make e ≡ none)
      → for_each_fs_record_for_oid reader volume block_size oid (push_some make) []
        ≡ ok (filter_map make (entries_of t))
  collected-IsFsTree reader volume block_size oid t tree others =
      for_each_fs_record_for_oid-IsFsTree reader volume block_size t tree (push_some make) [] oid
        (push_some-Ignores oid others)
      ∙ ap ok (foldl-push_some (entries_of t) [])
