-- ===== src/Btree/Toc.antt =====
-- src/btree.rs, the records of a node's table of contents: what each describes, by its place in the
-- block.
use newtua_apfs.Prelude.{
  ℕ, ◌+◌, ◌-◌, ◌/◌, ◌%◌, ◌^◌, ◌≡◌, refl, sym, arith, Option, none, some, Bool, true, false, not,
  ltb, leb, ◌==◌, ◌||◌, length, take, drop, bit_and, inl, inr, Bool-cases, if◌then◌else◌,
}
use newtua_apfs.Prelude.Bits.{bit_and_flag, two_pow-pos}
use newtua_apfs.Bytes.{Bytes, slice, le_u16, le_u32}
use newtua_apfs.Bytes.Slices.{slice_in, slice_out}
use newtua_apfs.Btree.Node.{
  BTreeSubtype, omap, fs_tree, BTreeNodeHeader, Entry, Layout, toc_entry, node_layout, make_entry,
  is_root, is_leaf, is_fixed_kv, fixed_key_len, fixed_leaf_val_len, fixed_branch_val_len,
}

-- `n` bytes of the block from `from` on, where it has them.
abbrev pub part : Bytes → ℕ → ℕ → Option Bytes
part block from n = if leb (from + n) (length block) then some (take n (drop from block)) else none

-- `n` bytes from `back` bytes before `base` on.
abbrev pub part_before : Bytes → ℕ → ℕ → ℕ → Option Bytes
part_before block base back n = if leb back base then part block (base - back) n else none

abbrev pub both : Option Bytes → Option Bytes → Option Entry
both (some key) (some value) = some (record { key = key; value = value })
both (some key) none = none
both none v = none

-- Bit `k` of a node's flags.
abbrev pub has_flag : Bytes → ℕ → Bool
has_flag block k = le_u16 block 32 / 2 ^ k % 2 == 1

-- The sizes that a node of fixed sizes leaves out of its table.
abbrev pub fixed_sizes : BTreeSubtype → Bool → ℕ × ℕ
fixed_sizes omap true = (16, 16)
fixed_sizes omap false = (16, 8)
fixed_sizes fs_tree true = (0, 0)
fixed_sizes fs_tree false = (0, 8)

-- Where a node keeps what: the table behind the header and a gap, the keys behind the table, and
-- the values before the end or, in a root, before its footer of 40 bytes.
abbrev pub layout_of : Bytes → BTreeSubtype → Layout
layout_of block subtype =
    let sizes = fixed_sizes subtype (has_flag block 1 || le_u16 block 34 == 0) in
    record {
      toc_start = 56 + le_u16 block 40;
      key_area = 56 + le_u16 block 40 + le_u16 block 42;
      val_base = if has_flag block 0 then length block - 40 else length block;
      fixed = has_flag block 2;
      key_len = sizes.0;
      val_len = sizes.1;
    }

-- The entry that the table's record at `e` describes, where its key and its value lie in the block.
abbrev pub described : Bytes → Layout → ℕ → Option Entry
described block l e =
    let key_at = l.key_area + le_u16 block e in
    if l.fixed
    then both (part block key_at l.key_len)
        (part_before block l.val_base (le_u16 block (e + 2)) l.val_len)
    else both (part block key_at (le_u16 block (e + 2)))
        (part_before block l.val_base (le_u16 block (e + 4)) (le_u16 block (e + 6)))

abbrev pub record_len : Layout → ℕ
record_len l = if l.fixed then 4 else 8

slice-part : (block : Bytes) (from n : ℕ) → slice block from (from + n) ≡ part block from n
slice-part block from n = elim (Bool-cases (leb (from + n) (length block))) [
  | inl inside ↦
      let taken : from + n - from ≡ n = omega arith in
      rw (inside, slice_in block from (from + n) (omega arith) (ground arith), taken) refl
  | inr outside ↦ rw (outside, slice_out block from (from + n) (ground arith)) refl
]

make_entry-both : (a b : Option Bytes) → make_entry a b ≡ both a b
make_entry-both none b = refl
make_entry-both (some k) none = refl
make_entry-both (some k) (some v) = refl

both-none : (a : Option Bytes) → both a none ≡ none
both-none none = refl
both-none (some k) = refl

module _ (block : Bytes) (l : Layout) where
  described-sizes :
      (e key_len back val_len : ℕ)
      → (if ltb l.val_base back
          then none
          else make_entry
              (slice block (l.key_area + le_u16 block e) (l.key_area + le_u16 block e + key_len))
              (slice block (l.val_base - back) (l.val_base - back + val_len)))
        ≡ both
            (part block (l.key_area + le_u16 block e) key_len)
            (part_before block l.val_base back val_len)
  described-sizes e key_len back val_len =
      let key_at = l.key_area + le_u16 block e in
      let key = part block key_at key_len in
      elim (Bool-cases (ltb l.val_base back)) [
        | inl outside ↦
            let too_far : leb back l.val_base ≡ false = ground arith in
            rw (outside, too_far) (sym (both-none key))
        | inr inside ↦
            let near : leb back l.val_base ≡ true = ground arith in
            rw
              (
                inside,
                near,
                slice-part block key_at key_len,
                slice-part block (l.val_base - back) val_len,
              )
              (make_entry-both key (part block (l.val_base - back) val_len))
      ]

  pub toc_entry-described : (e : ℕ) → toc_entry block l e ≡ described block l e
  unfolding toc_entry
  toc_entry-described e = elim (Bool-cases l.fixed) [
    | inl fixed ↦ rw fixed (described-sizes e l.key_len (le_u16 block (e + 2)) l.val_len)
    | inr variable ↦
        rw variable
          (described-sizes e (le_u16 block (e + 2)) (le_u16 block (e + 4)) (le_u16 block (e + 6)))
  ]

node_flag : (k flags : ℕ) → not (bit_and flags (2 ^ k) == 0) ≡ (flags / 2 ^ k % 2 == 1)
node_flag k flags = ground (arith, bit_and_flag k flags, two_pow-pos k)

abbrev pub header_of : Bytes → BTreeNodeHeader
header_of block = record {
  flags = le_u16 block 32;
  level = le_u16 block 34;
  nkeys = le_u32 block 36;
}

value_size :
    (subtype : BTreeSubtype) (leaf : Bool)
    → (if leaf then fixed_leaf_val_len subtype else fixed_branch_val_len subtype)
      ≡ (fixed_sizes subtype leaf).1
unfolding fixed_leaf_val_len fixed_branch_val_len
value_size omap true = refl
value_size omap false = refl
value_size fs_tree true = refl
value_size fs_tree false = refl

key_size :
    (subtype : BTreeSubtype) (leaf : Bool) → fixed_key_len subtype ≡ (fixed_sizes subtype leaf).0
unfolding fixed_key_len
key_size omap true = refl
key_size omap false = refl
key_size fs_tree true = refl
key_size fs_tree false = refl

pub node_layout-layout_of :
    (block : Bytes) (subtype : BTreeSubtype)
    → node_layout block subtype (header_of block) ≡ layout_of block subtype
unfolding node_layout is_root is_leaf is_fixed_kv
node_layout-layout_of block subtype =
    let flags = le_u16 block 32 in
    let leaf = has_flag block 1 || le_u16 block 34 == 0 in
    rw
      (
        node_flag 0 flags,
        node_flag 1 flags,
        node_flag 2 flags,
        value_size subtype leaf,
        key_size subtype leaf,
      )
      refl
