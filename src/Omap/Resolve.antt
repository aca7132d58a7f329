-- ===== src/Omap/Resolve.antt =====
-- src/omap.rs, `ObjectMap::resolve` over a stored and ordered object map.
use newtua_apfs.Prelude.{
  ℕ, ◌+◌, ◌*◌, ◌^◌, ◌≤◌, ◌<◌, ◌≡◌, arith, List, [], Option, none, some, foldl, inl, inr, compare,
  Ordering,
}
use newtua_apfs.Bytes.{Bytes, AllBytes, le_u64}
use newtua_apfs.Bytes.Reads.{le_reads_fit}
use newtua_apfs.Error.{ok_or, omap_unresolved}
use newtua_apfs.Reader.{Reader}
use newtua_apfs.Btree.Node.{Entry, omap, max_btree_depth}
use newtua_apfs.Btree.Tree.{Tree, paddr_of, entries_of, depth, Stored}
use newtua_apfs.Btree.Descent.{landing, IsAcyclic, find_leaf-Stored}
use newtua_apfs.Btree.Order.{Among, IsOrdered, ordered-bounds}
use newtua_apfs.Btree.Reach.{landing-Reaches, Among-landing}
use newtua_apfs.Omap.{ObjectMap, OmapEntry, cmp_key, keep_best, resolve}
use newtua_apfs.Omap.Best.{Matches, IsBest, keep_best-IsBest_all}

-- The place of a key (ok_oid, ok_xid) in the order of keys.
abbrev pub rank : Bytes → ℕ
rank key = le_u64 key 0 * 2 ^ 64 + le_u64 key 8

lexicographic :
    (x y o z : ℕ)
    → y < 2 ^ 64
    → z < 2 ^ 64
    → elim (compare x o) [
      | Ordering.lt ↦ Ordering.lt
      | Ordering.gt ↦ Ordering.gt
      | Ordering.eq ↦ compare y z
    ]
      ≡ compare (x * 2 ^ 64 + y) (o * 2 ^ 64 + z)
lexicographic x y o z hy hz = ground arith

cmp_key-rank :
    (oid xid : ℕ) (key : Bytes)
    → xid < 2 ^ 64
    → AllBytes key
    → cmp_key oid xid key ≡ compare (rank key) (oid * 2 ^ 64 + xid)
unfolding cmp_key
cmp_key-rank oid xid key h all =
    lexicographic (le_u64 key 0) (le_u64 key 8) oid xid (le_reads_fit key 8 all).2 h

-- What a lookup owes: the outcome over the entries of a tree.
abbrev pub IsAnswer : ℕ → ℕ → List Entry → Option OmapEntry → Type 0
IsAnswer oid xid es best = IsBest oid xid (λ e. Among e es) best

module _ (oid xid lo hi : ℕ) (t : Tree) (fits : xid < 2 ^ 64)
    (ordered : IsOrdered rank lo hi t) where
  abbrev target : ℕ
  target = oid * 2 ^ 64 + xid

  -- A match of the tree that is not in the landing leaf is below another match that is.
  match-landing :
      (e : Entry)
      → Among e (entries_of t)
      → Matches oid xid e
      → (e' : Entry) × Among e' (landing (cmp_key oid xid) t)
        × Matches oid xid e'
        × (le_u64 e.key 8 ≤ le_u64 e'.key 8)
  match-landing e m hit =
      elim (landing-Reaches rank (cmp_key oid xid) target (λ k all. cmp_key-rank oid xid k fits all)
        lo hi t e ordered m (omega arith)) [
          | inl here ↦ (e, here, hit, omega arith)
          | inr (e', there, above, below) ↦
              let all =
                (ordered-bounds rank lo hi t e' ordered
                  (Among-landing (cmp_key oid xid) t e' there)).2 in
              let all_e = (ordered-bounds rank lo hi t e ordered m).2 in
              let small = (le_reads_fit e'.key 8 all).2 in
              let small_e = (le_reads_fit e.key 8 all_e).2 in (e', there, omega arith, omega arith)
        ]

  -- What the landing leaf answers, the whole tree answers.
  landing-IsAnswer :
      (best : Option OmapEntry)
      → IsAnswer oid xid (landing (cmp_key oid xid) t) best
      → IsAnswer oid xid (entries_of t) best
  landing-IsAnswer none h =
      λ e m hit. let (e', there, hit', le) = match-landing e m hit in h e' there hit'
  landing-IsAnswer (some b) h = (
    (h.0.0, Among-landing (cmp_key oid xid) t h.0.0 h.0.1, h.0.2, h.0.3),
    λ e m hit.
        let (e', there, hit', le) = match-landing e m hit in omega (arith, h.1 e' there hit'),
  )

-- On an object map whose tree is stored, at most 64 levels deep, free of cycles and ordered by
-- (oid, xid), each separator the smallest key below it, `resolve` returns the most recent mapping
-- of the oid at or before the transaction among all entries of the tree, and the unresolved error if and only if there is none.
pub resolve-IsAnswer :
    (om : ObjectMap) (reader : Reader) (oid xid block_size lo hi : ℕ) (t : Tree)
    → om.tree_oid ≡ paddr_of t
    → xid < 2 ^ 64
    → Stored reader block_size omap t
    → depth t ≤ max_btree_depth
    → IsAcyclic t []
    → IsOrdered rank lo hi t
    → (best : Option OmapEntry) × (resolve om reader oid xid block_size
        ≡ ok_or best (omap_unresolved oid xid))
      × IsAnswer oid xid (entries_of t) best
unfolding resolve
resolve-IsAnswer om reader oid xid block_size lo hi t root fits st deep ac ordered =
    let leaf_entries = landing (cmp_key oid xid) t in
    (
      foldl (keep_best oid xid) none leaf_entries,
      rw (
        root,
        find_leaf-Stored reader block_size omap (cmp_key oid xid) (keep_best oid xid) t none st deep
            ac,
      ),
      landing-IsAnswer oid xid lo hi t fits ordered (foldl (keep_best oid xid) none leaf_entries)
          (keep_best-IsBest_all oid xid leaf_entries),
    )
