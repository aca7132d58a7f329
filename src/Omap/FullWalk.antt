-- ===== src/Omap/FullWalk.antt =====
-- src/omap.rs: the keyed descent of `resolve` against the walk over every leaf of the map.
use newtua_apfs.Prelude.{
  ℕ, ◌^◌, ◌≤◌, ◌<◌, ◌≡◌, refl, sym, ap, ◌∙◌, arith, [], Option, none, some, foldl,
}
use newtua_apfs.Error.{◌>>=◌, ok_or, omap_unresolved}
use newtua_apfs.Reader.{Reader}
use newtua_apfs.Btree.Node.{omap, max_btree_depth}
use newtua_apfs.Btree.Walk.{for_each_leaf_entry}
use newtua_apfs.Btree.Tree.{Tree, paddr_of, entries_of, depth, Stored, IsFresh}
use newtua_apfs.Btree.FullWalk.{for_each_leaf_entry-Stored}
use newtua_apfs.Btree.Acyclic.{IsFresh-IsAcyclic}
use newtua_apfs.Btree.Order.{IsOrdered, ordered_unique}
use newtua_apfs.Omap.{ObjectMap, OmapEntry, omap_entry, keep_best, resolve}
use newtua_apfs.Omap.Best.{keep_best-IsBest_all}
use newtua_apfs.Omap.Resolve.{rank, IsAnswer, resolve-IsAnswer}

module _ (oid xid lo hi : ℕ) (t : Tree) (ordered : IsOrdered rank lo hi t) where
  -- The most recent match of an ordered map is unique.
  answer_unique :
      (a b : Option OmapEntry)
      → IsAnswer oid xid (entries_of t) a
      → IsAnswer oid xid (entries_of t) b
      → a ≡ b
  unfolding omap_entry
  answer_unique none none h k = refl
  answer_unique none (some b) h k = absurd (h k.0.0 k.0.1 k.0.2)
  answer_unique (some a) none h k = absurd (k h.0.0 h.0.1 h.0.2)
  answer_unique (some a) (some b) h k =
      let (e, there, hit, is_a) = h.0 in
      let (e', there', hit', is_b) = k.0 in
      let below = h.1 e' there' hit' in
      let above = k.1 e there hit in
      let xid_a = ap (λ (x : OmapEntry). x.xid) is_a in
      let xid_b = ap (λ (x : OmapEntry). x.xid) is_b in
      let one = ordered_unique rank lo hi t e e' ordered there there' (omega arith) in
      cc (is_a, is_b, ap omap_entry one)

-- On an object map whose tree is stored in distinct blocks, at most 64 levels deep and ordered by
-- (oid, xid), each separator the smallest key below it, the one-path descent of `resolve` gives
-- what the same visitor gives on a walk over every leaf entry of the map.
pub resolve-full_walk :
    (om : ObjectMap) (reader : Reader) (oid xid block_size lo hi : ℕ) (t : Tree)
    → om.tree_oid ≡ paddr_of t
    → xid < 2 ^ 64
    → Stored reader block_size omap t
    → depth t ≤ max_btree_depth
    → IsFresh t []
    → IsOrdered rank lo hi t
    → resolve om reader oid xid block_size ≡ (
        for_each_leaf_entry reader block_size omap (keep_best oid xid) om.tree_oid none >>= λ best.
        ok_or best (omap_unresolved oid xid))
resolve-full_walk om reader oid xid block_size lo hi t root fits st deep fresh ordered =
    let (best, keyed, answers) =
      resolve-IsAnswer om reader oid xid block_size lo hi t root fits st deep
        (IsFresh-IsAcyclic t fresh) ordered in
    let full = foldl (keep_best oid xid) none (entries_of t) in
    let one =
      answer_unique oid xid lo hi t ordered best full answers
        (keep_best-IsBest_all oid xid (entries_of t)) in
    let walked : (for_each_leaf_entry reader block_size omap (keep_best oid xid) om.tree_oid none
          >>= λ b. ok_or b (omap_unresolved oid xid))
        ≡ ok_or full (omap_unresolved oid xid) =
      rw (
        root,
        for_each_leaf_entry-Stored reader block_size omap (keep_best oid xid) t none st deep fresh,
      ) in
    keyed ∙ ap (λ b. ok_or b (omap_unresolved oid xid)) one ∙ sym walked
