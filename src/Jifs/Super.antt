-- ===== src/Jifs/Super.antt =====
-- JIFS/super.c: `jifs_fill_super`, `jifs_put_super`, `jifs_nfs_get_inode`.
use jeopardy.Prelude.{ℕ, ◌-◌, ◌^◌, List, [], Option, some, ltb, ◌==◌, if◌then◌else◌, ℤ, pos, negsuc}
use jeopardy.Memory.{null, erase, M, pure, asks, modify, ◌>>=◌, ◌>>◌}
use jeopardy.Jifs.State.{
  State, Super, simple_dir_operations, simple_dir_inode_operations, load_inode, put_inode,
  put_dentry,
}
use jeopardy.Jifs.Options.{Token, load_info, put_info, parse_options}
use jeopardy.Jifs.Files.{Kernel, dir_mode, s_ifdir, make_inode, create_files}

-- `-ENOMEM` and `-ESTALE`
abbrev pub enomem : ℤ
enomem = negsuc 11

abbrev pub estale : ℤ
estale = negsuc 115

abbrev pub set_super : (Super → Super) → M State (Unit {0})
set_super f = modify λ s. record s { super = f s.super }

-- `jifs_max_size`; the argument is `MAX_LFS_FILESIZE`.
unfoldable pub max_size : ℕ → ℕ
max_size limit = if ltb limit (2 ^ 63 - 1) then limit else 2 ^ 63 - 1

module _ (k : Kernel) (match : List ℕ → Token) (limit : ℕ) where
  -- From the label `setup_sb` on.
  unfoldable pub setup_sb : M State ℤ
  unfolding max_size make_inode create_files
  setup_sb = do
    set_super (λ b. record b { magic = 12246187; maxbytes = max_size limit; time_gran = 1 })
    root_i ← make_inode k dir_mode simple_dir_operations
    if root_i == null then pure enomem else do
      i ← load_inode root_i
      put_inode root_i (record i { mode = s_ifdir; iop = simple_dir_inode_operations; nlink = 2 })
      root ← asks k.d_make_root
      set_super (λ b. record b { root = root })
      if root == null then pure enomem else do
        put_dentry root (record { parent = root; name = []; inode = some root_i })
        create_files k root
        pure (pos 0)

  -- `jifs_fill_super`
  unfoldable pub fill_super : Option (List ℕ) → M State ℤ
  unfolding parse_options setup_sb
  fill_super options = do
    sbi ← asks k.kzalloc
    if sbi == null then pure enomem else do
      put_info sbi (record { mount_mode = 0; next_generation = 0; mode = 0; uid = 0; gid = 0 })
      set_super (λ b. record b { fs_info = sbi })
      err ← parse_options match sbi options
      elim err [
        | negsuc e ↦ pure enomem
        | pos e ↦ do
          random ← asks k.random
          uid ← asks k.current_fsuid
          gid ← asks k.current_fsgid
          i ← load_info sbi
          put_info sbi (record i { next_generation = random; mode = 493; uid = uid; gid = gid })
          setup_sb
      ]

-- `jifs_put_super`
unfoldable pub put_super : M State (Unit {0})
put_super = do
  modify (λ s. record s { dbgmask = 0 })
  sbi ← asks (λ s. s.super.fs_info)
  modify (λ s. record s { infos = erase s.infos sbi })
  set_super (λ b. record b { fs_info = null })
