-- ===== src/ChainHash.antt =====
-- chaining_hash/: the hash table of chains.
pub mod State
pub mod Table
pub mod Valid
pub mod Append
pub mod Found
pub mod Insert
