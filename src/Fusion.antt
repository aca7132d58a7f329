-- ===== src/Fusion.antt =====
-- src/fusion.rs: Fusion containers are detected, and their addresses are refused.
use newtua_apfs.Prelude.{ℕ, Bool, not, bit_and, ◌==◌}
use newtua_apfs.Error.{Result, err, unsupported_fusion}
use newtua_apfs.Container.{NxSuperblock, nx_incompat_fusion}

unfoldable pub is_fusion : NxSuperblock → Bool
is_fusion superblock = not (bit_and superblock.incompatible_features nx_incompat_fusion == 0)

unfoldable pub translate_address : ℕ → Result ℕ
translate_address paddr = err unsupported_fusion
