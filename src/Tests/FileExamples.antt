-- ===== src/Tests/FileExamples.antt =====
-- The file system of counter files at a concrete state, and runs of it.
use jeopardy.Prelude.{
  ℕ, ◌%◌, ◌^◌, ◌≡◌, ◌≢◌, refl, ◌⊎◌, arith, List, [], ◌∷◌, none, some, pos, if◌then◌else◌, ◌==◌, ◌-◌,
}
use jeopardy.Memory.{Ptr, null, read, ok}
use jeopardy.Jifs.State.{State, SbInfo}
use jeopardy.Jifs.File.{text, digits, padded}
use jeopardy.Jifs.Read.{read_all, write_then_read, read_all-text, read_all-write_file}
use jeopardy.Jifs.Options.{Token, opt_mode, opt_dbgmask, opt_err, pieces, parse_options}
use jeopardy.Jifs.Parse.{Parsed, options, parse_options-last}
use jeopardy.Jifs.Files.{Kernel, counter_name, counter_cell, create_file}
use jeopardy.Jifs.Created.{inode, IsFile, Others, create_file-outcome}
use jeopardy.Jifs.Super.{fill_super, enomem}
use jeopardy.Jifs.Mount.{fill_super-bad_option}

-- A file open at 24 on the counter at 8, which is 41; the user's buffer holds "7".
abbrev opened : State
opened = record {
  inodes = [];
  dentries = [];
  files = (24, some 8) ∷ [];
  counters = (8, some 41) ∷ [];
  infos =
      (64, some (record { mount_mode = 0; next_generation = 0; mode = 0; uid = 0; gid = 0 })) ∷ [];
  super = record { magic = 0; maxbytes = 0; time_gran = 0; fs_info = 64; root = null };
  dbgmask = 3;
  user = 55 ∷ [];
}

abbrev copies_all : List ℕ → ℕ
copies_all b = 0

-- A number of one digit.
abbrev one_digit : List ℕ → ℕ
one_digit [] = 0
one_digit (c ∷ cs) = c % 48

negative_text : text (2 ^ 32 - 1) ≡ 45 ∷ 49 ∷ 10 ∷ []
unfolding text digits
negative_text = refl

read_all-text_example :
    (s' : State) × (read_all copies_all 9 24 2 0 opened ≡ ok (text 41) s')
    × (read s'.counters 8 ≡ some 42)
unfolding text digits read
read_all-text_example =
    read_all-text copies_all (λ b. refl) 24 8 41 2 (omega arith) 9 opened (omega arith)
      (omega arith) refl refl

read_all-write_file_example :
    (s' : State) × (write_then_read (λ n. 0) copies_all one_digit 24 1 2 9 opened
      ≡ ok (pos 1, text (one_digit (padded 1 (55 ∷ [])) % 2 ^ 32)) s')
unfolding text digits read padded
read_all-write_file_example =
    read_all-write_file (λ n. 0) copies_all one_digit 24 8 1 2 9 opened refl (λ b. refl)
      (omega arith) (omega arith) (omega arith) refl

-- "m", "d" and "!" for a mode of 448, a mask of 5 and a mode that is not readable.
abbrev letters : List ℕ → Token
letters [] = opt_err
letters (c ∷ cs) =
    if c == 109
    then opt_mode (some 448)
    else if c == 100
    then opt_dbgmask (some 5)
    else if c == 33
    then opt_mode none
    else opt_err

abbrev mount_text : List ℕ
mount_text = 109 ∷ 44 ∷ 44 ∷ 100 ∷ 44 ∷ 33 ∷ []

parse_options-last_example :
    Parsed letters 64
      (options letters 64 (some mount_text))
      (record { mount_mode = 493; next_generation = 0; mode = 0; uid = 0; gid = 0 })
      opened
      (parse_options letters 64 (some mount_text) opened)
unfolding read
parse_options-last_example =
    parse_options-last letters 64
      (record { mount_mode = 0; next_generation = 0; mode = 0; uid = 0; gid = 0 }) (some mount_text)
      opened refl

abbrev kernel : Kernel
kernel = record {
  new_inode = λ s. 1024;
  get_next_ino = λ s. 2;
  current_time = λ s. 0;
  d_alloc_name = λ s. 2048;
  d_make_root = λ s. 4096;
  kzalloc = λ s. 128;
  random = λ s. 4;
  current_fsuid = λ s. 0;
  current_fsgid = λ s. 0;
}

create_file-outcome_example :
    (s' : State) × (d : Ptr) × (create_file kernel 512 counter_name counter_cell opened ≡ ok d s')
    × Others kernel 512 counter_name counter_cell opened s' 2048
    × (((inode kernel 512 counter_name counter_cell opened ≢ null)
          × (d ≡ 2048)
          × IsFile kernel 512 counter_name counter_cell opened s' d)
        ⊎ ((inode kernel 512 counter_name counter_cell opened ≡ null)
            × (d ≡ null)
            × (read s'.dentries 2048 ≡ none)))
create_file-outcome_example =
    create_file-outcome kernel 512 counter_name counter_cell opened (omega arith)

fill_super-bad_option_example :
    (s' : State) × (fill_super kernel letters (2 ^ 63) (some mount_text) opened ≡ ok enomem s')
    × ((i : SbInfo) × (read s'.infos 128 ≡ some i))
    × (s'.super.fs_info ≡ 128)
    × (s'.super.root ≡ null)
unfolding pieces
fill_super-bad_option_example =
    fill_super-bad_option kernel letters (2 ^ 63) (some mount_text) opened (omega arith) refl
