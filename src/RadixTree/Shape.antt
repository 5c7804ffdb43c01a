-- ===== src/RadixTree/Shape.antt =====
-- radix_tree/: the shape of a tree of any height, and the search in it.
pub mod Digits
pub mod Place
pub mod Frame
pub mod Clear
pub mod Search
