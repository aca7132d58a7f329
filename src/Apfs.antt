-- ===== src/Apfs.antt =====
-- src/lib.rs: the open container.
pub mod Open
pub mod Volumes
mod Tests
use newtua_apfs.Prelude.{ℕ, List, [], ◌∷◌, Option, none, some, Bool, ltb, ◌||◌}
use newtua_apfs.Bytes.{Bytes}
use newtua_apfs.Error.{
  Result, ok, err, ◌>>=◌, ◌>>◌, reject_if, io, unexpected_eof, other_kind, no_valid_superblock,
  field_out_of_range, unsupported_fusion,
}
use newtua_apfs.Reader.{Reader, ReadResult, filled, failed, read_exact_at, saturating_mul}
use newtua_apfs.Container.{
  NxSuperblock, parse_nx_superblock, nx_minimum_block_size, nx_maximum_block_size,
}
use newtua_apfs.Fusion.{is_fusion}
use newtua_apfs.Checkpoint.{CheckpointMapping, LiveCheckpoint, resolve_live_checkpoint}
use newtua_apfs.Omap.{ObjectMap, OmapEntry, parse_object_map, resolve}
use newtua_apfs.Reaper.{find_mapping}

pub record ApfsContainer : Type 0 where
  pub reader : Reader
  pub superblock : NxSuperblock
  pub live_superblock_paddr : ℕ
  pub checkpoint_mappings : List CheckpointMapping

-- A source that ends within block zero holds no superblock.
abbrev pub block_zero_result : ReadResult → Result Bytes
block_zero_result (filled block0) = ok block0
block_zero_result (failed unexpected_eof) = err (no_valid_superblock 0 0)
block_zero_result (failed (other_kind k)) = err (io (other_kind k))

-- The re-read of the superblock that the ring named.
unfoldable pub reread : Reader → ℕ → LiveCheckpoint → Result ApfsContainer
reread reader block_size live =
    read_exact_at reader (saturating_mul live.superblock_paddr block_size) block_size >>= λ buf.
    parse_nx_superblock buf >>= λ superblock. ok (record {
      reader = reader;
      superblock = superblock;
      live_superblock_paddr = live.superblock_paddr;
      checkpoint_mappings = live.mappings;
    })

-- `open`, from the bootstrap superblock on.
unfoldable pub open_bootstrap : Reader → NxSuperblock → Result ApfsContainer
unfolding reread
open_bootstrap reader bootstrap =
    reject_if (is_fusion bootstrap) unsupported_fusion
    >> (resolve_live_checkpoint reader bootstrap >>= reread reader bootstrap.block_size)

-- `ApfsContainer::open`.
unfoldable pub open_container : Reader → Result ApfsContainer
unfolding open_bootstrap
open_container reader = block_zero_result (reader 0 nx_minimum_block_size) >>= λ block0.
    parse_nx_superblock block0 >>= open_bootstrap reader

-- `checkpoint_mappings.iter().find(|m| m.oid == oid).map(|m| m.paddr)`.
unfoldable pub resolve_ephemeral : ApfsContainer → ℕ → Option ℕ
unfolding find_mapping
resolve_ephemeral c oid = find_mapping c.checkpoint_mappings oid

unfoldable pub spaceman_paddr : ApfsContainer → Option ℕ
unfolding resolve_ephemeral
spaceman_paddr c = resolve_ephemeral c c.superblock.spaceman_oid

unfoldable pub reaper_paddr : ApfsContainer → Option ℕ
unfolding resolve_ephemeral
reaper_paddr c = resolve_ephemeral c c.superblock.reaper_oid

-- `for &fs_oid in &self.superblock.fs_oids`.
unfoldable pub addrs_loop : ObjectMap → Reader → ℕ → ℕ → List ℕ → Result (List ℕ)
unfolding resolve
addrs_loop om reader xid block_size [] = ok []
addrs_loop om reader xid block_size (fs_oid ∷ fs_oids) =
    resolve om reader fs_oid xid block_size >>= λ entry.
    addrs_loop om reader xid block_size fs_oids >>= λ addrs. ok (entry.paddr ∷ addrs)

-- The container's object map, at the block that `nx_omap_oid` names.
unfoldable pub container_omap : ApfsContainer → Result ObjectMap
container_omap c =
    read_exact_at c.reader (saturating_mul c.superblock.omap_oid c.superblock.block_size)
      c.superblock.block_size
    >>= parse_object_map

-- `volume_superblock_addrs`.
unfoldable pub volume_superblock_addrs : ApfsContainer → Result (List ℕ)
unfolding addrs_loop container_omap
volume_superblock_addrs c =
    reject_if
      (ltb c.superblock.block_size nx_minimum_block_size
        || ltb nx_maximum_block_size c.superblock.block_size)
      (field_out_of_range "nx_superblock" "nx_block_size" c.superblock.block_size
        nx_maximum_block_size)
    >> (container_omap c >>= λ om.
        addrs_loop om c.reader c.superblock.xid c.superblock.block_size c.superblock.fs_oids)
