-- ===== src/Jifs/Mount.antt =====
-- JIFS/super.c: `jifs_fill_super` with an option that cannot be read.
use jeopardy.Prelude.{ℕ, ◌≡◌, ◌≢◌, List, Option, false, some, refl, ap, arith, ◌==◌}
use jeopardy.Memory.{null, read, write, read-write_self, ok}
use jeopardy.Jifs.State.{State, SbInfo}
use jeopardy.Jifs.Options.{Token, parse_options}
use jeopardy.Jifs.Files.{Kernel}
use jeopardy.Jifs.File.{einval}
use jeopardy.Jifs.Super.{fill_super, enomem}
use jeopardy.Jifs.Parse.{options, all_readable, parse_options-last}

module _ (k : Kernel) (match : List ℕ → Token) (limit : ℕ) where
  -- Where there is memory for the superblock's information and the number of an option is not readable,
  -- `jifs_fill_super` returns -ENOMEM, and not the -EINVAL of `jifs_parse_options`. The information is
  -- still allocated and the superblock still points to it, while no root is set.
  pub fill_super-bad_option :
      (text : Option (List ℕ)) (s : State)
      → k.kzalloc s ≢ null
      → all_readable (options match (k.kzalloc s) text) ≡ false
      → (s' : State) × (fill_super k match limit text s ≡ ok enomem s')
        × ((i : SbInfo) × (read s'.infos (k.kzalloc s) ≡ some i))
        × (s'.super.fs_info ≡ k.kzalloc s)
        × (s'.super.root ≡ s.super.root)
  unfolding fill_super
  fill_super-bad_option text s room bad =
      let sbi = k.kzalloc s in
      let blank : SbInfo = record {
        mount_mode = 0;
        next_generation = 0;
        mode = 0;
        uid = 0;
        gid = 0;
      } in
      let s1 = record s {
        infos = write s.infos sbi blank;
        super = record s.super { fs_info = sbi };
      } in
      let p = parse_options-last match sbi blank text s1 (read-write_self s.infos sbi blank) in
      let there : (sbi == null) ≡ false = ground arith in
      let run : parse_options match sbi text s1 ≡ ok einval p.after = rw bad at p.runs in
      (
        p.after,
        rw (there, run) refl,
        (_, p.info),
        ap (λ b. b.fs_info) p.super_kept,
        ap (λ b. b.root) p.super_kept,
      )
