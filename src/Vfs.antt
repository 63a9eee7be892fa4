-- ===== src/Vfs.antt =====
-- kernel/src/vfs: the paths (Path), the tree of nodes (Tree) and the pool that nodes come from (Pool).
pub mod Path
pub mod Tree
mod Tests
