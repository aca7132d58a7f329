-- ===== src/FsTree/Stored.antt =====
-- src/dir.rs: the file-system tree that a volume stores. It has the shape of any other B-tree of
-- the image, with virtual oids in the place of block numbers.
use newtua_apfs.Prelude.{ℕ, ◌≤◌, ◌≡◌, List, [], Option, none, some, Bool, true, false}
use newtua_apfs.Bytes.{Bytes}
use newtua_apfs.Error.{Result, ok}
use newtua_apfs.Reader.{Reader}
use newtua_apfs.Btree.Node.{
  BTreeNodeHeader, Entry, fs_tree, parse_node_header, is_leaf, node_entries,
}
use newtua_apfs.Btree.Tree.{
  Tree, Forest, leaf, index, nil, cons, paddr_of, entries_of, depth, IsFresh, Names,
}
use newtua_apfs.Btree.Order.{Among}
use newtua_apfs.Omap.{ObjectMap}
use newtua_apfs.Volume.{ApfsVolume}
use newtua_apfs.FsTree.{oid_of, read_virtual_node, volume_omap, max_fstree_depth}

module _ (read : ℕ → Result Bytes) where
  -- The node that `read` gives for an oid, with these entries.
  pub record VirtualNode (oid : ℕ) (leafness : Bool) (es : List Entry) : Type 0 where
    pub buf : Bytes
    pub hdr : BTreeNodeHeader
    pub verified : read oid ≡ ok buf
    pub headed : parse_node_header buf ≡ some hdr
    pub kind : is_leaf hdr ≡ leafness
    pub holds : node_entries buf fs_tree ≡ es

  abbrev mutual
    pub IsStored : Tree → Type 0
    IsStored (leaf p es) = VirtualNode p true es
    IsStored (index p f) = ((es : List Entry) × VirtualNode p false es × Names es f) × AreStored f

    pub AreStored : Forest → Type 0
    AreStored nil = Unit
    AreStored (cons sep t f) = IsStored t × AreStored f

-- The oid of a forest's first separator.
abbrev pub first_oid : Forest → Option ℕ
first_oid nil = none
first_oid (cons sep t f) = some (oid_of sep)

abbrev pub IsUpTo : Option ℕ → ℕ → Type 0
IsUpTo none oid = Unit
IsUpTo (some next) oid = oid ≤ next

-- The records below a separator have oids from its own up to the next separator's.
abbrev mutual
  pub IsSeparated : Tree → Type 0
  IsSeparated (leaf p es) = Unit
  IsSeparated (index p f) = AreSeparated f

  pub AreSeparated : Forest → Type 0
  AreSeparated nil = Unit
  AreSeparated (cons sep t f) =
      ((e : Entry)
        → Among e (entries_of t)
        → (oid_of sep ≤ oid_of e.key) × IsUpTo (first_oid f) (oid_of e.key))
      × IsSeparated t
      × AreSeparated f

-- The volume's file-system tree is `t`: found through its object map, at most 64 levels deep, and
-- with no oid twice.
pub record IsFsTree {Text : Type 0} (reader : Reader) (volume : ApfsVolume Text) (block_size : ℕ)
    (t : Tree) : Type 0 where
  pub om : ObjectMap
  pub mapped : volume_omap reader volume block_size ≡ ok om
  pub root : volume.root_tree_oid ≡ paddr_of t
  pub stored : IsStored (λ oid. read_virtual_node reader om oid volume.xid block_size) t
  pub fits : depth t ≤ max_fstree_depth
  pub fresh : IsFresh t []
  pub separated : IsSeparated t
