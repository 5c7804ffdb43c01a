-- ===== src/DoubleList.antt =====
-- chaining_hash/list.h: the circular doubly linked lists.
pub mod Links
pub mod Path
pub mod Add
pub mod Del
pub mod Splice
pub mod Move
