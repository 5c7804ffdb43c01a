-- ===== src/Jifs/Options.antt =====
-- JIFS/super.c: `jifs_parse_options`. `match_token` with `match_octal` and `match_int` is a parameter.
use jeopardy.Prelude.{ℕ, ◌%◌, List, [], ◌∷◌, Option, none, some, ◌==◌, if◌then◌else◌, ℤ, pos}
use jeopardy.Memory.{Ptr, read, write, M, pure, checked, modify, ◌>>=◌, ◌>>◌}
use jeopardy.Jifs.State.{State, SbInfo}
use jeopardy.Jifs.File.{einval}

-- The option that a piece of the text is, with its number, or nothing where that is not readable.
pub data Token : Type 0 where
  opt_mode : Option ℕ → Token
  opt_dbgmask : Option ℕ → Token
  opt_err : Token

abbrev pub load_info : Ptr → M State SbInfo
load_info p s = checked (read s.infos p) s

abbrev pub put_info : Ptr → SbInfo → M State (Unit {0})
put_info p v = modify λ s. record s { infos = write s.infos p v }

abbrev pub first_piece : ℕ → List (List ℕ) → List (List ℕ)
first_piece c [] = (c ∷ []) ∷ []
first_piece c (p ∷ ps) = (c ∷ p) ∷ ps

-- The pieces that `strsep(&data, ",")` returns one by one.
unfoldable pub pieces : List ℕ → List (List ℕ)
pieces [] = [] ∷ []
pieces (c ∷ cs) = let rest = pieces cs in if c == 44 then [] ∷ rest else first_piece c rest

module _ (match : List ℕ → Token) (sbi : Ptr) where
  -- The body of the loop; `opts` is in the superblock's information.
  unfoldable pub parse_pieces : List (List ℕ) → M State ℤ
  parse_pieces [] = pure (pos 0)
  parse_pieces ([] ∷ ps) = parse_pieces ps
  parse_pieces ((c ∷ p) ∷ ps) =
      let rest = parse_pieces ps in
      elim (match (c ∷ p)) [
        | opt_mode o ↦ elim o [
          | none ↦ pure einval
          | some v ↦ do i ← load_info sbi; put_info sbi (record i { mount_mode = v % 4096 }); rest
        ]
        | opt_dbgmask o ↦ elim o [
          | none ↦ pure einval
          | some v ↦ do modify (λ s. record s { dbgmask = v }); rest
        ]
        | opt_err ↦ rest
      ]

  -- `jifs_parse_options`; the default mode is 0755.
  unfoldable pub parse_options : Option (List ℕ) → M State ℤ
  parse_options text = do
    i ← load_info sbi
    put_info sbi (record i { mount_mode = 493 })
    elim text [ none ↦ pure (pos 0) | some t ↦ parse_pieces (pieces t) ]
