-- ===== src/Btree.antt =====
-- src/btree.rs: the generic B-tree node walker. `Node` is a single node, `Walk` the two walks over
-- a stored tree, `Tree` the abstract tree that a device stores, `Toc` what a node's table describes;
-- the other modules are proofs.
pub mod Node
pub mod Walk
pub mod Tree
pub mod FullWalk
pub mod Descent
pub mod Order
pub mod Reach
pub mod Acyclic
pub mod Toc
pub mod Entries
pub mod Tests
