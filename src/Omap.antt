-- ===== src/Omap.antt =====
-- src/omap.rs: the object map's header and the resolution of a virtual oid at a transaction.
pub mod Best
pub mod Resolve
pub mod FullWalk
pub mod Parse
pub mod Tests
use newtua_apfs.Prelude.{
  ℕ, ◌+◌, ◌-◌, List, [], ◌∷◌, Option, none, some, Bool, true, not, ◌||◌, ltb, ◌==◌, length,
  if◌then◌else◌, Ordering, compare,
}
use newtua_apfs.Bytes.{Bytes, le_u32, le_u64}
use newtua_apfs.Error.{
  Result, ok, err, ◌>>=◌, ◌>>◌, reject_if, ok_or, checksum_mismatch, omap_unresolved,
  unexpected_object_type,
}
use newtua_apfs.Reader.{Reader}
use newtua_apfs.Object.{ObjPhys, parse_obj_phys, obj_type, fletcher64_stored, fletcher64_checksum}
use newtua_apfs.Btree.Node.{Entry, omap}
use newtua_apfs.Btree.Walk.{find_leaf}

abbrev pub object_type_omap : ℕ
object_type_omap = 0xb

abbrev pub off_om_flags : ℕ
off_om_flags = 32

abbrev pub off_om_tree_type : ℕ
off_om_tree_type = 40

abbrev pub off_om_tree_oid : ℕ
off_om_tree_oid = 48

abbrev pub off_om_snapshot_tree_oid : ℕ
off_om_snapshot_tree_oid = 56

abbrev pub omap_phys_min_len : ℕ
omap_phys_min_len = off_om_tree_oid + 8

pub record OmapEntry : Type 0 where
  pub oid : ℕ
  pub xid : ℕ
  pub paddr : ℕ
  pub size : ℕ
  pub flags : ℕ

-- The fields are read through the accessors of their names.
pub record ObjectMap : Type 0 where
  pub flags : ℕ
  pub tree_type : ℕ
  pub tree_oid : ℕ
  pub snapshot_tree_oid : ℕ

-- `ObjectMap::parse` behind the two length checks.
unfoldable pub parse_typed : Bytes → ObjPhys → Result ObjectMap
parse_typed block hdr =
    reject_if (not (obj_type hdr == object_type_omap))
      (unexpected_object_type "omap_phys" object_type_omap hdr.obj_type_raw)
    >> reject_if (not (fletcher64_stored block == fletcher64_checksum block))
        (checksum_mismatch hdr.oid (fletcher64_stored block) (fletcher64_checksum block))
    >> ok (record {
      flags = le_u32 block off_om_flags;
      tree_type = le_u32 block off_om_tree_type;
      tree_oid = le_u64 block off_om_tree_oid;
      snapshot_tree_oid = le_u64 block off_om_snapshot_tree_oid;
    })

-- `ObjectMap::parse`.
unfoldable pub parse_object_map : Bytes → Result ObjectMap
unfolding parse_typed
parse_object_map block =
    reject_if (ltb (length block) omap_phys_min_len)
      (unexpected_object_type "omap_phys" object_type_omap 0)
    >> (ok_or (parse_obj_phys block) (unexpected_object_type "omap_phys" object_type_omap 0)
        >>= parse_typed block)

-- `(k_oid, k_xid).cmp(&(oid, xid))` for the key's two words.
unfoldable pub cmp_key : ℕ → ℕ → Bytes → Ordering
cmp_key oid xid key = elim (compare (le_u64 key 0) oid) [
  | Ordering.lt ↦ Ordering.lt
  | Ordering.gt ↦ Ordering.gt
  | Ordering.eq ↦ compare (le_u64 key 8) xid
]

-- The entry that the visitor makes of a leaf's key and value.
unfoldable pub omap_entry : Entry → OmapEntry
omap_entry e = record {
  oid = le_u64 e.key 0;
  xid = le_u64 e.key 8;
  paddr = le_u64 e.value 8;
  size = le_u32 e.value 4;
  flags = le_u32 e.value 0;
}

-- `best.is_none_or(|b| k_xid > b.xid)`.
abbrev pub is_newer : Option OmapEntry → ℕ → Bool
is_newer none xid = true
is_newer (some b) xid = ltb b.xid xid

-- The visitor of `resolve`, on the best candidate so far.
unfoldable pub keep_best : ℕ → ℕ → Option OmapEntry → Entry → Option OmapEntry
unfolding omap_entry
keep_best oid xid best e =
    if not (le_u64 e.key 0 == oid) || ltb xid (le_u64 e.key 8)
    then best
    else if is_newer best (le_u64 e.key 8)
    then some (omap_entry e)
    else best

-- `ObjectMap::resolve`.
unfoldable pub resolve : ObjectMap → Reader → ℕ → ℕ → ℕ → Result OmapEntry
unfolding cmp_key keep_best
resolve om reader oid xid block_size =
    find_leaf reader block_size omap (cmp_key oid xid) (keep_best oid xid) om.tree_oid none
    >>= λ best. ok_or best (omap_unresolved oid xid)
