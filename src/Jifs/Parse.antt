-- ===== src/Jifs/Parse.antt =====
-- JIFS/super.c: what `jifs_parse_options` sets, against the list of the options.
use jeopardy.Prelude.{
  ℕ, ◌%◌, ◌≡◌, refl, List, [], ◌∷◌, Bool, true, false, Option, none, some, if◌then◌else◌, ℤ, pos,
}
use jeopardy.Memory.{Ptr, read, write, read-write_self, Run, ok}
use jeopardy.Jifs.State.{State, SbInfo}
use jeopardy.Jifs.File.{einval}
use jeopardy.Jifs.Options.{
  Token, opt_mode, opt_dbgmask, opt_err, pieces, parse_pieces, parse_options,
}

-- The options of a text: those of its pieces that are not empty.
abbrev pub tokens : (List ℕ → Token) → List (List ℕ) → List Token
tokens match [] = []
tokens match ([] ∷ ps) = tokens match ps
tokens match ((c ∷ p) ∷ ps) = match (c ∷ p) ∷ tokens match ps

-- Whether the number of an option is readable.
abbrev pub readable : Token → Bool
readable (opt_mode none) = false
readable (opt_mode (some v)) = true
readable (opt_dbgmask none) = false
readable (opt_dbgmask (some v)) = true
readable opt_err = true

abbrev pub all_readable : List Token → Bool
all_readable [] = true
all_readable (t ∷ ts) = let rest = all_readable ts in if readable t then rest else false

-- The options before the first whose number is not readable.
abbrev pub before_bad : List Token → List Token
before_bad [] = []
before_bad (t ∷ ts) = let rest = t ∷ before_bad ts in if readable t then rest else []

-- The last mode and the last mask in a list of options, or what was there.
abbrev pub last_mode : List Token → ℕ → ℕ
last_mode [] d = d
last_mode (opt_mode (some v) ∷ ts) d = last_mode ts (v % 4096)
last_mode (opt_mode none ∷ ts) d = last_mode ts d
last_mode (opt_dbgmask o ∷ ts) d = last_mode ts d
last_mode (opt_err ∷ ts) d = last_mode ts d

abbrev pub last_mask : List Token → ℕ → ℕ
last_mask [] d = d
last_mask (opt_dbgmask (some v) ∷ ts) d = last_mask ts v
last_mask (opt_dbgmask none ∷ ts) d = last_mask ts d
last_mask (opt_mode o ∷ ts) d = last_mask ts d
last_mask (opt_err ∷ ts) d = last_mask ts d

module _ (match : List ℕ → Token) (sbi : Ptr) where
  -- What a run of the loop ends with.
  pub record Parsed (ts : List Token) (i : SbInfo) (s : State) (run : Run State ℤ) : Type 0 where
    pub after : State
    pub runs : run ≡ ok (if all_readable ts then pos 0 else einval) after
    pub info :
        read after.infos sbi
        ≡ some (record i { mount_mode = last_mode (before_bad ts) i.mount_mode })
    pub mask : after.dbgmask ≡ last_mask (before_bad ts) s.dbgmask
    pub super_kept : after.super ≡ s.super

  parsed :
      (ps : List (List ℕ)) (i : SbInfo) (s : State)
      → read s.infos sbi ≡ some i
      → Parsed (tokens match ps) i s (parse_pieces match sbi ps s)
  unfolding parse_pieces
  parsed [] i s e = record { after = s; runs = refl; info = e; mask = refl; super_kept = refl }
  parsed ([] ∷ ps) i s e = parsed ps i s e
  parsed ((c ∷ p) ∷ ps) i s e = one (match (c ∷ p)) refl (parsed ps)
    where
      one :
          (t : Token)
          → match (c ∷ p) ≡ t
          → ((i : SbInfo) (s : State)
              → read s.infos sbi ≡ some i
              → Parsed (tokens match ps) i s (parse_pieces match sbi ps s))
          → Parsed (match (c ∷ p) ∷ tokens match ps) i s (parse_pieces match sbi ((c ∷ p) ∷ ps) s)
      one (opt_mode none) z rest = rw z (record {
        after = s;
        runs = rw (parse_pieces, z) refl;
        info = e;
        mask = refl;
        super_kept = refl;
      })
      one (opt_dbgmask none) z rest = rw z (record {
        after = s;
        runs = rw (parse_pieces, z) refl;
        info = e;
        mask = refl;
        super_kept = refl;
      })
      one (opt_mode (some v)) z rest =
          let j = record i { mount_mode = v % 4096 } in
          let r =
            rest j (record s { infos = write s.infos sbi j }) (read-write_self s.infos sbi j) in
          rw z (record {
            after = r.after;
            runs = rw (parse_pieces, z, e) r.runs;
            info = r.info;
            mask = r.mask;
            super_kept = r.super_kept;
          })
      one (opt_dbgmask (some v)) z rest =
          let r = rest i (record s { dbgmask = v }) e in
          rw z (record {
            after = r.after;
            runs = rw (parse_pieces, z) r.runs;
            info = r.info;
            mask = r.mask;
            super_kept = r.super_kept;
          })
      one opt_err z rest =
          let r = rest i s e in
          rw z (record {
            after = r.after;
            runs = rw (parse_pieces, z) r.runs;
            info = r.info;
            mask = r.mask;
            super_kept = r.super_kept;
          })

  -- The options of the text of a mount, none where there is no text.
  abbrev pub options : Option (List ℕ) → List Token
  options none = []
  options (some t) = tokens match (pieces t)

  -- For the superblock's information at its address, `jifs_parse_options` returns 0 where the number of
  -- every option is readable and -EINVAL otherwise. The mode of the mount is then that of the last
  -- option "mode" before the first unreadable one, cut to 12 bits, or 0755 where there is none; the
  -- debug mask is that of the last such option "dbgmask", or as it was. The superblock is as it was.
  pub parse_options-last :
      (i : SbInfo) (text : Option (List ℕ)) (s : State)
      → read s.infos sbi ≡ some i
      → Parsed (options text) (record i { mount_mode = 493 }) s (parse_options match sbi text s)
  unfolding parse_options
  parse_options-last i none s e =
      let j = record i { mount_mode = 493 } in
      record {
        after = record s { infos = write s.infos sbi j };
        runs = rw e refl;
        info = read-write_self s.infos sbi j;
        mask = refl;
        super_kept = refl;
      }
  parse_options-last i (some t) s e =
      let j = record i { mount_mode = 493 } in
      let r =
        parsed (pieces t) j (record s { infos = write s.infos sbi j })
          (read-write_self s.infos sbi j) in
      record {
        after = r.after;
        runs = rw e r.runs;
        info = r.info;
        mask = r.mask;
        super_kept = r.super_kept;
      }
