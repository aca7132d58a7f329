-- ===== src/Apfs/Volumes.antt =====
-- src/lib.rs, `volume_superblock_addrs`: the volume superblocks that the container names.
use newtua_apfs.Prelude.{
  ℕ, ◌≤◌, ◌<◌, ◌≡◌, ◌^◌, refl, ap, ◌∙◌, arith, List, [], ◌∷◌, Option, none, some, ◌⊎◌, inl, inr,
}
use newtua_apfs.Error.{Result, ok, err, ◌>>=◌, ok_or, omap_unresolved, ApfsError}
use newtua_apfs.Reader.{Reader}
use newtua_apfs.Btree.Node.{max_btree_depth, omap}
use newtua_apfs.Btree.Tree.{Tree, entries_of, depth, paddr_of, Stored}
use newtua_apfs.Btree.Descent.{IsAcyclic}
use newtua_apfs.Btree.Order.{IsOrdered}
use newtua_apfs.Container.{nx_minimum_block_size, nx_maximum_block_size}
use newtua_apfs.Omap.{ObjectMap, OmapEntry, resolve}
use newtua_apfs.Omap.Resolve.{IsAnswer, rank, resolve-IsAnswer}
use newtua_apfs.Apfs.{ApfsContainer, volume_superblock_addrs, container_omap, addrs_loop}

module _ (om : ObjectMap) (reader : Reader) (xid block_size lo hi : ℕ) (t : Tree) where
  -- Each address is that of the most recent mapping of its oid at or before the transaction.
  unfoldable pub AreResolved : List ℕ → List ℕ → Type 0
  AreResolved [] [] = Unit
  AreResolved [] (a ∷ rest) = ⊥
  AreResolved (o ∷ os) [] = ⊥
  AreResolved (o ∷ os) (a ∷ rest) =
      ((e : OmapEntry) × IsAnswer o xid (entries_of t) (some e) × (e.paddr ≡ a))
      × AreResolved os rest

  -- `oid` is one of the oids and has no mapping at or before the transaction.
  unfoldable pub IsUnmapped : List ℕ → ℕ → Type 0
  IsUnmapped [] oid = ⊥
  IsUnmapped (o ∷ os) oid = ((o ≡ oid) × IsAnswer o xid (entries_of t) none) ⊎ IsUnmapped os oid

  -- What the loop answers for a list of oids.
  abbrev pub Outcome : List ℕ → Result (List ℕ) → Type 0
  Outcome oids r =
      ((addrs : List ℕ) × (r ≡ ok addrs) × AreResolved oids addrs)
      ⊎ ((oid : ℕ) × (r ≡ err (omap_unresolved oid xid)) × IsUnmapped oids oid)

  step_ok :
      (o : ℕ) (os addrs : List ℕ) (e : OmapEntry)
      → resolve om reader o xid block_size ≡ ok e
      → addrs_loop om reader xid block_size os ≡ ok addrs
      → addrs_loop om reader xid block_size (o ∷ os) ≡ ok (e.paddr ∷ addrs)
  unfolding addrs_loop
  step_ok o os addrs e here there =
      ap
        (λ m. m >>= λ entry.
          addrs_loop om reader xid block_size os >>= λ addrs. ok (entry.paddr ∷ addrs))
        here
      ∙ ap (λ m. m >>= λ addrs. ok (e.paddr ∷ addrs)) there

  step_later :
      (o : ℕ) (os : List ℕ) (e : OmapEntry) (why : ApfsError)
      → resolve om reader o xid block_size ≡ ok e
      → addrs_loop om reader xid block_size os ≡ err why
      → addrs_loop om reader xid block_size (o ∷ os) ≡ err why
  unfolding addrs_loop
  step_later o os e why here there =
      ap
        (λ m. m >>= λ entry.
          addrs_loop om reader xid block_size os >>= λ addrs. ok (entry.paddr ∷ addrs))
        here
      ∙ ap (λ m. m >>= λ addrs. ok (e.paddr ∷ addrs)) there

  step_err :
      (o : ℕ) (os : List ℕ) (why : ApfsError)
      → resolve om reader o xid block_size ≡ err why
      → addrs_loop om reader xid block_size (o ∷ os) ≡ err why
  unfolding addrs_loop
  step_err o os why here =
      ap
        (λ m. m >>= λ entry.
          addrs_loop om reader xid block_size os >>= λ addrs. ok (entry.paddr ∷ addrs))
        here

  extend :
      (o : ℕ) (os : List ℕ) (best : Option OmapEntry)
      → resolve om reader o xid block_size ≡ ok_or best (omap_unresolved o xid)
      → IsAnswer o xid (entries_of t) best
      → Outcome os (addrs_loop om reader xid block_size os)
      → Outcome (o ∷ os) (addrs_loop om reader xid block_size (o ∷ os))
  unfolding IsUnmapped AreResolved
  extend o os none here answer rest =
      inr (o, step_err o os (omap_unresolved o xid) here, inl (refl, answer))
  extend o os (some e) here answer (inl (addrs, there, all)) =
      inl (e.paddr ∷ addrs, step_ok o os addrs e here there, ((e, answer, refl), all))
  extend o os (some e) here answer (inr (oid, there, unmapped)) =
      inr (oid, step_later o os e (omap_unresolved oid xid) here there, inr unmapped)

  module _ (root : om.tree_oid ≡ paddr_of t) (fits : xid < 2 ^ 64)
      (st : Stored reader block_size omap t) (deep : depth t ≤ max_btree_depth)
      (ac : IsAcyclic t []) (ordered : IsOrdered rank lo hi t) where
    pub addrs_loop-Outcome :
        (oids : List ℕ) → Outcome oids (addrs_loop om reader xid block_size oids)
    unfolding addrs_loop AreResolved
    addrs_loop-Outcome [] = inl ([], refl, tt)
    addrs_loop-Outcome (o ∷ os) =
        let (best, e, answer) =
          resolve-IsAnswer om reader o xid block_size lo hi t root fits st deep ac ordered in
        extend o os best e answer (addrs_loop-Outcome os)

-- `volume_superblock_addrs`, for a container whose block size is legal and whose object map is
-- stored as in `resolve-IsAnswer`: it returns, in order, the address of the most recent mapping of
-- each volume oid at or before the superblock's transaction, or the unresolved error of a volume
-- oid that has none.
pub volume_superblock_addrs-Outcome :
    (c : ApfsContainer) (om : ObjectMap) (lo hi : ℕ) (t : Tree)
    → nx_minimum_block_size ≤ c.superblock.block_size
    → c.superblock.block_size ≤ nx_maximum_block_size
    → container_omap c ≡ ok om
    → om.tree_oid ≡ paddr_of t
    → c.superblock.xid < 2 ^ 64
    → Stored c.reader c.superblock.block_size omap t
    → depth t ≤ max_btree_depth
    → IsAcyclic t []
    → IsOrdered rank lo hi t
    → Outcome om c.reader c.superblock.xid c.superblock.block_size lo hi t c.superblock.fs_oids
        (volume_superblock_addrs c)
unfolding volume_superblock_addrs
volume_superblock_addrs-Outcome c om lo hi t large small mapped root fits st deep ac ordered =
    let loop =
      addrs_loop-Outcome om c.reader c.superblock.xid c.superblock.block_size lo hi t root fits st
        deep ac ordered c.superblock.fs_oids in
    let same : volume_superblock_addrs c
        ≡ addrs_loop om c.reader c.superblock.xid c.superblock.block_size c.superblock.fs_oids =
      ground arith in
    rw (same) loop
