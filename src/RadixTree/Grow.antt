-- ===== src/RadixTree/Grow.antt =====
-- radix_tree/radix-tree.c: insertions in a tree of any height.
pub mod Branch
pub mod Walk
pub mod Store
pub mod Raise
pub mod Extend
pub mod Insert
