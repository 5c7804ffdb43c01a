-- ===== src/RadixTree/Shed.antt =====
-- radix_tree/radix-tree.c: deletions in a tree of any height.
pub mod Take
pub mod Prune
pub mod Lower
pub mod Shrunk
pub mod Delete
