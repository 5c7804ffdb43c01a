-- ===== src/RadixTree/Visit.antt =====
-- radix_tree/radix-tree.c: `radix_tree_next_chunk` in a tree of any height.
pub mod Blocks
pub mod Hole
pub mod Ahead
pub mod Round
pub mod Chunk
pub mod Next
pub mod Slots
pub mod Each
