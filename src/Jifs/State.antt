-- ===== src/Jifs/State.antt =====
-- JIFS/jifs.h, and what the kernel keeps of the file system: inodes, the names of the dentry cache, open
-- files, counters, the superblock and its information.
use jeopardy.Prelude.{ℕ, Option, List}
use jeopardy.Memory.{Ptr, Cells, read, write, M, checked, modify}

-- The file operations that an inode has.
pub data FileOps : Type 0 where
  jifs_file_ops simple_dir_operations : FileOps

-- The inode operations that an inode has.
pub data InodeOps : Type 0 where
  none_set simple_dir_inode_operations : InodeOps

pub record Inode : Type 0 where
  pub mode : ℕ
  pub time : ℕ
  pub fop : FileOps
  pub iop : InodeOps
  pub ino : ℕ
  pub nlink : ℕ
  pub private_data : Ptr

-- A name in the directory `parent`, with its inode when `d_add` has set it.
pub record Dentry : Type 0 where
  pub parent : Ptr
  pub name : List ℕ
  pub inode : Option Ptr

-- `struct jifs_sb_info`, the fields that are set.
pub record SbInfo : Type 0 where
  pub mount_mode : ℕ
  pub next_generation : ℕ
  pub mode : ℕ
  pub uid : ℕ
  pub gid : ℕ

-- `struct super_block`, the fields that are set.
pub record Super : Type 0 where
  pub magic : ℕ
  pub maxbytes : ℕ
  pub time_gran : ℕ
  pub fs_info : Ptr
  pub root : Ptr

-- `user` is what the buffer of the caller holds.
pub record State : Type 0 where
  pub inodes : Cells Inode
  pub dentries : Cells Dentry
  pub files : Cells Ptr
  pub counters : Cells ℕ
  pub infos : Cells SbInfo
  pub super : Super
  pub dbgmask : ℕ
  pub user : List ℕ

abbrev pub load_counter : Ptr → M State ℕ
load_counter p s = checked (read s.counters p) s

-- `atomic_set` and `atomic_inc`, on 32 bits.
abbrev pub set_counter : Ptr → ℕ → M State (Unit {0})
set_counter p v = modify λ s. record s { counters = write s.counters p v }

abbrev pub load_inode : Ptr → M State Inode
load_inode p s = checked (read s.inodes p) s

abbrev pub put_inode : Ptr → Inode → M State (Unit {0})
put_inode p v = modify λ s. record s { inodes = write s.inodes p v }

abbrev pub load_dentry : Ptr → M State Dentry
load_dentry p s = checked (read s.dentries p) s

abbrev pub put_dentry : Ptr → Dentry → M State (Unit {0})
put_dentry p v = modify λ s. record s { dentries = write s.dentries p v }

-- `filp->private_data`
abbrev pub load_private : Ptr → M State Ptr
load_private filp s = checked (read s.files filp) s
