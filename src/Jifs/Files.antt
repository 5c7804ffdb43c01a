-- ===== src/Jifs/Files.antt =====
-- JIFS/super.c: the inodes and names of the file system. What the kernel returns is a parameter; the
-- writes of `d_alloc_name`, `d_add` and `dput` are those that their documentation gives.
use jeopardy.Prelude.{ℕ, List, [], ◌∷◌, none, some, ◌==◌, if◌then◌else◌}
use jeopardy.Memory.{Ptr, null, erase, M, pure, asks, modify, ◌>>=◌, ◌>>◌}
use jeopardy.Jifs.State.{
  State, FileOps, jifs_file_ops, simple_dir_operations, none_set, simple_dir_inode_operations,
  set_counter, load_inode, put_inode, load_dentry, put_dentry,
}

-- What calls of the kernel return in a state; null for an allocation that fails.
pub record Kernel : Type 0 where
  pub new_inode : State → Ptr
  pub get_next_ino : State → ℕ
  pub current_time : State → ℕ
  pub d_alloc_name : State → Ptr
  pub d_make_root : State → Ptr
  pub kzalloc : State → Ptr
  pub random : State → ℕ
  pub current_fsuid : State → ℕ
  pub current_fsgid : State → ℕ

-- `static atomic_t counter, subcounter`
abbrev pub counter_cell : Ptr
counter_cell = 8

abbrev pub subcounter_cell : Ptr
subcounter_cell = 16

-- "counter", "subdir" and "subcounter"
abbrev pub counter_name : List ℕ
counter_name = 99 ∷ 111 ∷ 117 ∷ 110 ∷ 116 ∷ 101 ∷ 114 ∷ []

abbrev pub subdir_name : List ℕ
subdir_name = 115 ∷ 117 ∷ 98 ∷ 100 ∷ 105 ∷ 114 ∷ []

abbrev pub subcounter_name : List ℕ
subcounter_name = 115 ∷ 117 ∷ 98 ∷ counter_name

-- `S_IFREG | 0644`, `S_IFDIR | 0755` and `S_IFDIR`
abbrev pub file_mode : ℕ
file_mode = 33188

abbrev pub dir_mode : ℕ
dir_mode = 16877

abbrev pub s_ifdir : ℕ
s_ifdir = 16384

module _ (k : Kernel) where
  -- `jifs_make_inode`
  unfoldable pub make_inode : ℕ → FileOps → M State Ptr
  make_inode mode fops = do
    inode ← asks k.new_inode
    if inode == null then pure null else do
      now ← asks k.current_time
      ino ← asks k.get_next_ino
      put_inode inode (record {
        mode = mode;
        time = now;
        fop = fops;
        iop = none_set;
        ino = ino;
        nlink = 1;
        private_data = null;
      })
      pure inode

  -- `d_add`
  abbrev pub d_add : Ptr → Ptr → M State (Unit {0})
  d_add dentry inode = do
    d ← load_dentry dentry
    put_dentry dentry (record d { inode = some inode })

  -- `dput` of the last reference
  abbrev pub dput : Ptr → M State (Unit {0})
  dput dentry = modify λ s. record s { dentries = erase s.dentries dentry }

  -- `jifs_create_file`
  unfoldable pub create_file : Ptr → List ℕ → Ptr → M State Ptr
  unfolding make_inode
  create_file dir name counter = do
    dentry ← asks k.d_alloc_name
    if dentry == null then pure null else do
      put_dentry dentry (record { parent = dir; name = name; inode = none })
      inode ← make_inode file_mode jifs_file_ops
      if inode == null then (do dput dentry; pure null) else do
        i ← load_inode inode
        put_inode inode (record i { private_data = counter })
        d_add dentry inode
        pure dentry

  -- `jifs_create_dir`
  unfoldable pub create_dir : Ptr → List ℕ → M State Ptr
  unfolding make_inode
  create_dir parent name = do
    dentry ← asks k.d_alloc_name
    if dentry == null then pure null else do
      put_dentry dentry (record { parent = parent; name = name; inode = none })
      inode ← make_inode dir_mode simple_dir_operations
      if inode == null then (do dput dentry; pure null) else do
        i ← load_inode inode
        put_inode inode (record i { iop = simple_dir_inode_operations })
        d_add dentry inode
        pure dentry

  -- `jifs_create_files`
  unfoldable pub create_files : Ptr → M State (Unit {0})
  unfolding create_file create_dir
  create_files root = do
    set_counter counter_cell 0
    create_file root counter_name counter_cell
    set_counter subcounter_cell 0
    subdir ← create_dir root subdir_name
    if subdir == null
        then pure tt
        else (do create_file subdir subcounter_name subcounter_cell; pure tt)
