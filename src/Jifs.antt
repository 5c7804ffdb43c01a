-- ===== src/Jifs.antt =====
-- JIFS/: the file system of counter files, over calls of the kernel that are parameters.
pub mod State
pub mod File
pub mod Read
pub mod Options
pub mod Files
pub mod Super
pub mod Parse
pub mod Created
pub mod Mount
