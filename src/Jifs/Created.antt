-- ===== src/Jifs/Created.antt =====
-- JIFS/super.c: what `jifs_create_file` leaves, with and without room.
use jeopardy.Prelude.{
  ℕ, ◌≡◌, ◌≢◌, refl, ◌⊎◌, inl, inr, List, some, none, false, arith, ◌==◌, Bool-cases, ◌∙◌, ==_iff,
}
use jeopardy.Memory.{
  Ptr, null, read, write, erase, read-write_self, read-write_ne, read-erase_ne, read-erase_self, ok,
}
use jeopardy.Jifs.State.{State, Inode, Dentry, jifs_file_ops, none_set}
use jeopardy.Jifs.Files.{Kernel, file_mode, make_inode, create_file}

module _ (k : Kernel) (dir : Ptr) (name : List ℕ) (counter : Ptr) (s : State) where
  abbrev dentry : Ptr
  dentry = k.d_alloc_name s

  abbrev unset : Dentry
  unset = record { parent = dir; name = name; inode = none }

  abbrev named : State
  named = record s { dentries = write s.dentries dentry unset }

  -- The inode that the kernel allocates, once the name is there, or NULL.
  abbrev pub inode : Ptr
  inode = k.new_inode named

  -- The file is there: a name in the directory with a new inode, whose data is the counter.
  pub record IsFile (s' : State) (d : Ptr) : Type 0 where
    pub node : Inode
    pub name_is :
        read s'.dentries d ≡ some (record { parent = dir; name = name; inode = some inode })
    pub inode_is : read s'.inodes inode ≡ some node
    pub counts : node.private_data ≡ counter
    pub opens : node.fop ≡ jifs_file_ops

  -- Other names and inodes are as they were.
  abbrev pub Others : State → Ptr → Type 0
  Others s' d = (q : Ptr) → q ≢ d → read s'.dentries q ≡ read s.dentries q

  -- `jifs_create_file` with room for the name leaves every other name as it was, and ends in one of two
  -- ways. Where the kernel allocates an inode, it returns the name, which is in the directory and has
  -- that inode, whose data is the counter and whose operations are those of counter files. Where it
  -- allocates none, it returns NULL and the name is gone again.
  pub create_file-outcome :
      dentry ≢ null
      → (s' : State) × (d : Ptr) × (create_file k dir name counter s ≡ ok d s')
        × Others s' dentry
        × (((inode ≢ null) × (d ≡ dentry) × IsFile s' d)
            ⊎ ((inode ≡ null) × (d ≡ null) × (read s'.dentries dentry ≡ none)))
  unfolding create_file make_inode
  create_file-outcome room =
      let there : (dentry == null) ≡ false = ground arith in
      elim (Bool-cases (inode == null)) [
        | inl no_inode ↦ (
          record named { dentries = erase named.dentries dentry },
          null,
          rw (there, no_inode) refl,
          λ q ne.
              read-erase_ne named.dentries dentry q ne ∙ read-write_ne s.dentries dentry q unset ne,
          inr ((==_iff inode null).0 no_inode, refl, read-erase_self named.dentries dentry),
        )
        | inr some_inode ↦
            let fresh : Inode = record {
              mode = file_mode;
              time = k.current_time named;
              fop = jifs_file_ops;
              iop = none_set;
              ino = k.get_next_ino named;
              nlink = 1;
              private_data = null;
            } in
            let counting = record fresh { private_data = counter } in
            let set = record unset { inode = some inode } in
            (
              record s {
                inodes = write (write s.inodes inode fresh) inode counting;
                dentries = write named.dentries dentry set;
              },
              dentry,
              rw
                  (
                    there,
                    some_inode,
                    some_inode,
                    read-write_self s.inodes inode fresh,
                    read-write_self s.dentries dentry unset,
                  )
                  refl,
              λ q ne.
                  read-write_ne named.dentries dentry q set ne
                  ∙ read-write_ne s.dentries dentry q unset ne,
              inl (
                (λ z. ground arith),
                refl,
                record {
                  node = counting;
                  name_is = read-write_self named.dentries dentry set;
                  inode_is = read-write_self (write s.inodes inode fresh) inode counting;
                  counts = refl;
                  opens = refl;
                },
              ),
            )
      ]
