-- ===== src/Tests/FlagExamples.antt =====
-- The page flags of a number.
use jeopardy.Prelude.{◌≡◌, refl, arith, [], ◌∷◌, pos, negsuc}
use jeopardy.PageFlags.{interpret, mask, mask-interpret, pg_locked, pg_dirty}

mask-interpret_example : mask (interpret (pos 9)) ≡ 9
mask-interpret_example = mask-interpret 9 (omega arith)

interpret_runs : interpret (pos 9) ≡ pg_locked ∷ pg_dirty ∷ []
unfolding interpret
interpret_runs = refl

-- A negative number prints the flags of its absolute value.
interpret_negative_runs : interpret (negsuc 8) ≡ pg_locked ∷ pg_dirty ∷ []
unfolding interpret
interpret_negative_runs = refl
