-- ===== src/RadixTree.antt =====
-- radix_tree/: the radix tree.
pub mod Entry
pub mod State
pub mod Create
pub mod Lookup
pub mod Remove
pub mod Iterate
pub mod Shift
pub mod Leaf
pub mod Absent
pub mod Shape
pub mod Grow
pub mod Shed
pub mod Start
pub mod Reach
pub mod Visit
