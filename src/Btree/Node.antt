-- ===== src/Btree/Node.antt =====
-- src/btree.rs: a node's header, its entries, and a node read with its checksum verified.
use newtua_apfs.Prelude.{
  ℕ, zero, suc, ◌+◌, ◌-◌, ◌*◌, ◌^◌, min, bit_and, List, [], ◌∷◌, Option, none, some, Bool, not,
  ◌||◌, ltb, ◌==◌, length, if◌then◌else◌,
}
use newtua_apfs.Bytes.{Bytes, slice, le_u16, le_u32}
use newtua_apfs.Error.{Result, ok, err, ◌>>=◌, checksum_mismatch}
use newtua_apfs.Reader.{Reader, read_exact_at, checked_mul}
use newtua_apfs.Object.{parse_obj_phys, fletcher64_stored, fletcher64_checksum}

abbrev pub btnode_fixed_kv_size : ℕ
btnode_fixed_kv_size = 0x4

abbrev pub btnode_root : ℕ
btnode_root = 0x1

abbrev pub btnode_leaf : ℕ
btnode_leaf = 0x2

abbrev pub off_btn_flags : ℕ
off_btn_flags = 32

abbrev pub off_btn_level : ℕ
off_btn_level = 34

abbrev pub off_btn_nkeys : ℕ
off_btn_nkeys = 36

abbrev pub off_btn_table_space : ℕ
off_btn_table_space = 40

abbrev pub btn_data_off : ℕ
btn_data_off = 56

abbrev pub btree_node_min_len : ℕ
btree_node_min_len = btn_data_off

abbrev pub btree_info_len : ℕ
btree_info_len = 40

abbrev pub toc_fixed_len : ℕ
toc_fixed_len = 4

abbrev pub toc_var_len : ℕ
toc_var_len = 8

abbrev pub max_btn_nkeys : ℕ
max_btn_nkeys = 2 ^ 20

pub data BTreeSubtype : Type 0 where
  omap fs_tree : BTreeSubtype

unfoldable pub fixed_key_len : BTreeSubtype → ℕ
fixed_key_len omap = 16
fixed_key_len fs_tree = 0

unfoldable pub fixed_leaf_val_len : BTreeSubtype → ℕ
fixed_leaf_val_len omap = 16
fixed_leaf_val_len fs_tree = 0

unfoldable pub fixed_branch_val_len : BTreeSubtype → ℕ
fixed_branch_val_len omap = 8
fixed_branch_val_len fs_tree = 8

pub record BTreeNodeHeader : Type 0 where
  pub flags : ℕ
  pub level : ℕ
  pub nkeys : ℕ

unfoldable pub is_leaf : BTreeNodeHeader → Bool
is_leaf h = not (bit_and h.flags btnode_leaf == 0) || h.level == 0

unfoldable pub is_root : BTreeNodeHeader → Bool
is_root h = not (bit_and h.flags btnode_root == 0)

unfoldable pub is_fixed_kv : BTreeNodeHeader → Bool
is_fixed_kv h = not (bit_and h.flags btnode_fixed_kv_size == 0)

pub record Entry : Type 0 where
  pub key : Bytes
  pub value : Bytes

unfoldable pub parse_node_header : Bytes → Option BTreeNodeHeader
parse_node_header block =
    if ltb (length block) btree_node_min_len
    then none
    else some (record {
      flags = le_u16 block off_btn_flags;
      level = le_u16 block off_btn_level;
      nkeys = le_u32 block off_btn_nkeys;
    })

-- The locals of `node_entries` that its loop only reads.
pub record Layout : Type 0 where
  pub toc_start : ℕ
  pub key_area : ℕ
  pub val_base : ℕ
  pub fixed : Bool
  pub key_len : ℕ
  pub val_len : ℕ

unfoldable pub node_layout : Bytes → BTreeSubtype → BTreeNodeHeader → Layout
unfolding is_root is_fixed_kv is_leaf fixed_key_len fixed_leaf_val_len fixed_branch_val_len
node_layout block subtype hdr =
    let toc_off = le_u16 block off_btn_table_space in
    let toc_len = le_u16 block (off_btn_table_space + 2) in
    let start = btn_data_off + toc_off in
    record {
      toc_start = start;
      key_area = start + toc_len;
      val_base = if is_root hdr then length block - btree_info_len else length block;
      fixed = is_fixed_kv hdr;
      key_len = fixed_key_len subtype;
      val_len = if is_leaf hdr then fixed_leaf_val_len subtype else fixed_branch_val_len subtype;
    }

abbrev pub entry_len : Layout → ℕ
entry_len l = if l.fixed then toc_fixed_len else toc_var_len

-- The locals of the loop's body, for the TOC entry at byte `e`.
abbrev pub toc_voff : Bytes → Layout → ℕ → ℕ
toc_voff block l e = if l.fixed then le_u16 block (e + 2) else le_u16 block (e + 4)

abbrev pub toc_key_len : Bytes → Layout → ℕ → ℕ
toc_key_len block l e = if l.fixed then l.key_len else le_u16 block (e + 2)

abbrev pub toc_val_len : Bytes → Layout → ℕ → ℕ
toc_val_len block l e = if l.fixed then l.val_len else le_u16 block (e + 6)

abbrev pub make_entry : Option Bytes → Option Bytes → Option Entry
make_entry (some key) (some value) = some (record { key = key; value = value })
make_entry _ _ = none

-- The loop's body behind the bounds test; `none` is a `continue`.
unfoldable pub toc_entry : Bytes → Layout → ℕ → Option Entry
toc_entry block l e =
    let voff = toc_voff block l e in
    let kstart = l.key_area + le_u16 block e in
    let vstart = l.val_base - voff in
    if ltb l.val_base voff
    then none
    else make_entry (slice block kstart (kstart + toc_key_len block l e))
        (slice block vstart (vstart + toc_val_len block l e))

-- `for i in 0..nkeys`, with the rounds that are left and the next index.
unfoldable pub entries_loop : Bytes → Layout → ℕ → ℕ → List Entry
entries_loop block l zero i = []
entries_loop block l (suc n) i =
    let e = l.toc_start + i * entry_len l in
    let rest = entries_loop block l n (i + 1) in
    let here : List Entry = elim (toc_entry block l e) [ none ↦ rest | some x ↦ x ∷ rest ] in
    if ltb l.key_area (e + entry_len l) || ltb (length block) (e + entry_len l) then [] else here

unfoldable pub node_entries : Bytes → BTreeSubtype → List Entry
node_entries block subtype = elim (parse_node_header block) [
  | none ↦ []
  | some hdr ↦ entries_loop block (node_layout block subtype hdr) (min hdr.nkeys max_btn_nkeys) 0
]

abbrev pub max_btree_depth : ℕ
max_btree_depth = 64

-- The error of a node whose checksum fails.
abbrev pub mismatch {ℓ} : {A : Type ℓ} → Bytes → ℕ → Result A
mismatch buf paddr = err (
    checksum_mismatch (elim (parse_obj_phys buf) [ none ↦ paddr | some h ↦ h.oid ])
      (fletcher64_stored buf) (fletcher64_checksum buf))

unfoldable pub read_verified_node : Reader → ℕ → ℕ → Result (Option Bytes)
read_verified_node reader paddr block_size = elim (checked_mul paddr block_size) [
  | none ↦ ok none
  | some offset ↦ read_exact_at reader offset block_size >>= λ buf.
      if fletcher64_stored buf == fletcher64_checksum buf then ok (some buf) else mismatch buf paddr
]
