-- ===== src/Btree/Tree.antt =====
-- The tree that a device stores for src/btree.rs to walk: the abstract view of its index nodes and
-- leaves, and what it is for a reader to store one.
use newtua_apfs.Prelude.{ℕ, suc, ◌≡◌, List, [], ◌∷◌, ◌++◌, some, Bool, true, false, max}
use newtua_apfs.Bytes.{Bytes, le_u64}
use newtua_apfs.Error.{ok}
use newtua_apfs.Reader.{Reader}
use newtua_apfs.Btree.Node.{
  BTreeSubtype, BTreeNodeHeader, Entry, is_leaf, parse_node_header, node_entries,
  read_verified_node,
}
use newtua_apfs.Btree.Walk.{contains}

mutual
  -- A node and the block that holds it; an index node has a separator key before each child.
  pub data Tree : Type 0 where
    leaf : ℕ → List Entry → Tree
    index : ℕ → Forest → Tree

  pub data Forest : Type 0 where
    nil : Forest
    cons : Bytes → Tree → Forest → Forest

abbrev pub paddr_of : Tree → ℕ
paddr_of (leaf p es) = p
paddr_of (index p f) = p

abbrev mutual
  -- The entries of all leaves, from left to right.
  pub entries_of : Tree → List Entry
  entries_of (leaf p es) = es
  entries_of (index p f) = entries_in f

  pub entries_in : Forest → List Entry
  entries_in nil = []
  entries_in (cons sep t f) = entries_of t ++ entries_in f

abbrev mutual
  -- The number of levels of nodes.
  pub depth : Tree → ℕ
  depth (leaf p es) = 1
  depth (index p f) = suc (depth_all f)

  pub depth_all : Forest → ℕ
  depth_all nil = 0
  depth_all (cons sep t f) = max (depth t) (depth_all f)

abbrev mutual
  -- The blocks that a walk in preorder has met once it has passed the tree.
  pub met : Tree → List ℕ → List ℕ
  met (leaf p es) seen = p ∷ seen
  met (index p f) seen = met_all f (p ∷ seen)

  pub met_all : Forest → List ℕ → List ℕ
  met_all nil seen = seen
  met_all (cons sep t f) seen = met_all f (met t seen)

abbrev mutual
  -- No block of the tree was met before, and none occurs twice in it.
  pub IsFresh : Tree → List ℕ → Type 0
  IsFresh (leaf p es) seen = contains seen p ≡ false
  IsFresh (index p f) seen = (contains seen p ≡ false) × AreFresh f (p ∷ seen)

  pub AreFresh : Forest → List ℕ → Type 0
  AreFresh nil seen = Unit
  AreFresh (cons sep t f) seen = IsFresh t seen × AreFresh f (met t seen)

-- The entries of an index node name the children of the forest, in order.
abbrev pub Names : List Entry → Forest → Type 0
Names [] nil = Unit
Names (e ∷ es) (cons sep t f) = (e.key ≡ sep) × (le_u64 e.value 0 ≡ paddr_of t) × Names es f
Names _ _ = ⊥

module _ (reader : Reader) (block_size : ℕ) (subtype : BTreeSubtype) where
  -- The block at `paddr` is a node that passes its checksum, with these entries.
  pub record NodeAt (paddr : ℕ) (leafness : Bool) (es : List Entry) : Type 0 where
    pub buf : Bytes
    pub hdr : BTreeNodeHeader
    pub verified : read_verified_node reader paddr block_size ≡ ok (some buf)
    pub headed : parse_node_header buf ≡ some hdr
    pub kind : is_leaf hdr ≡ leafness
    pub holds : node_entries buf subtype ≡ es

  abbrev mutual
    pub Stored : Tree → Type 0
    Stored (leaf p es) = NodeAt p true es
    Stored (index p f) = ((es : List Entry) × NodeAt p false es × Names es f) × AllStored f

    pub AllStored : Forest → Type 0
    AllStored nil = Unit
    AllStored (cons sep t f) = Stored t × AllStored f
