-- ===== src/Xattr/Listing.antt =====
-- src/xattr.rs, `list_xattrs` and `get_xattr` against the records of the tree.
use newtua_apfs.Prelude.{ℕ, ◌≡◌, ◌≢◌, refl, List, none, filter_map}
use newtua_apfs.Bytes.{Bytes, Str}
use newtua_apfs.Error.{ok}
use newtua_apfs.Reader.{Reader}
use newtua_apfs.Btree.Node.{Entry}
use newtua_apfs.Btree.Tree.{Tree, entries_of}
use newtua_apfs.FsRecord.{RecordType}
use newtua_apfs.Volume.{ApfsVolume}
use newtua_apfs.FsTree.{oid_of}
use newtua_apfs.FsTree.Stored.{IsFsTree}
use newtua_apfs.FsTree.Collect.{is_record_other, collected-IsFsTree}
use newtua_apfs.Xattr.{Xattr, xattr_of, find_xattr, list_xattrs, get_xattr}

module _ (from_utf8_lossy : Bytes → Str) where
  -- The attributes that the records give an inode, in order.
  abbrev pub xattrs_in : ℕ → List Entry → List Xattr
  xattrs_in inode_oid = filter_map (xattr_of from_utf8_lossy inode_oid)

  xattr_of_other :
      (oid : ℕ) (e : Entry) → oid_of e.key ≢ oid → xattr_of from_utf8_lossy oid e ≡ none
  unfolding xattr_of
  xattr_of_other oid e other = rw (xattr_of, is_record_other RecordType.xattr oid e other) refl

  module _ (reader : Reader) (volume : ApfsVolume Str) where
    pub list_xattrs-IsFsTree :
        (inode_oid block_size : ℕ) (t : Tree)
        → IsFsTree reader volume block_size t
        → list_xattrs from_utf8_lossy reader volume inode_oid block_size
          ≡ ok (xattrs_in inode_oid (entries_of t))
    unfolding list_xattrs
    list_xattrs-IsFsTree inode_oid block_size t tree =
        collected-IsFsTree (xattr_of from_utf8_lossy inode_oid) reader volume block_size inode_oid t
          tree (xattr_of_other inode_oid)

    -- On a stored file-system tree `get_xattr` gives the value of the inode's first attribute of
    -- that name in the order of the tree's records, and nothing where it has none.
    pub get_xattr-IsFsTree :
        (inode_oid : ℕ) (name : Str) (block_size : ℕ) (t : Tree)
        → IsFsTree reader volume block_size t
        → get_xattr from_utf8_lossy reader volume inode_oid name block_size
          ≡ ok (find_xattr name (xattrs_in inode_oid (entries_of t)))
    unfolding get_xattr
    get_xattr-IsFsTree inode_oid name block_size t tree =
        rw (list_xattrs-IsFsTree inode_oid block_size t tree) refl
