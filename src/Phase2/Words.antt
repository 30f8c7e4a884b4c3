-- ===== src/Phase2/Words.antt =====
-- `parseline` of sp_prj2/phase2/myshell.c: its fuel, and the lines that it reads back.
use system_programming.Base.{
  ℕ, zero, suc, ◌<◌, ◌≡◌, refl, Option, none, some, All, List, [], ◌∷◌, ◌++◌, map, ltb,
  if◌then◌else◌, ap, arith, length,
}
use system_programming.Shell.Text.{Text, newline, cut_line, skip_space}
use system_programming.Shell.Find.{cut_line-newline}
use system_programming.Shell.Words.{read_arg}
use system_programming.Shell.Words.Total.{length-skip_space, length-read_arg}
use system_programming.Shell.Words.RoundTrip.{
  Arg, IsArg, value, show_args, behind, show_arg-first, read_arg-show_arg, skip_space-show_args,
  skip_space-behind, length-behind, contains-show_args,
}
use system_programming.Phase2.{parse_turn, parse_args, parseline, argv_of, max_args}

parse_turn-some :
    (next : Text → Option (List Text)) (p : Text)
    → ((r : Text) → length r < length p → (args : List Text) × (next r ≡ some args))
    → (args : List Text) × (parse_turn next p ≡ some args)
unfolding parse_turn
parse_turn-some next [] more = ([], refl)
parse_turn-some next (c ∷ q) more =
    let (args, e) = more (read_arg c q).1 (omega (arith, length-read_arg c q)) in
    ((read_arg c q).0 ∷ args, rw e)

pub parse_args-some :
    (k : ℕ) (p : Text) → length p < k → (args : List Text) × (parse_args k p ≡ some args)
unfolding parse_args
parse_args-some zero p h = absurd (omega arith)
parse_args-some (suc k) p h =
    parse_turn-some (parse_args k) (skip_space p)
      λ r le. parse_args-some k r (omega (arith, length-skip_space p))

-- The fuel that `parseline` gives its loop is enough for every text, and what the loop then
-- returns is the result.
pub parseline_ends :
    (buf : Text)
    → (args : List Text) × (parse_args (suc (length (cut_line buf))) (cut_line buf) ≡ some args)
      × (parseline buf ≡ args)
unfolding parseline
parseline_ends buf =
    let (args, e) = parse_args-some (suc (length (cut_line buf))) (cut_line buf) (omega arith) in
    (args, e, rw e)

parse_args-show_args :
    (k : ℕ) (xs : List Arg) (p : Text)
    → length p < k
    → All IsArg xs
    → skip_space p ≡ show_args xs
    → parse_args k p ≡ some (map value xs)
unfolding parse_args parse_turn
parse_args-show_args zero xs p fuel h e = absurd (omega arith)
parse_args-show_args (suc k) [] p fuel h e = rw e
parse_args-show_args (suc k) (a ∷ xs) p fuel h e = rw (
  e,
  show_arg-first a (32 ∷ show_args xs),
  read_arg-show_arg a (show_args xs) h.0,
  parse_args-show_args k xs (behind a (show_args xs))
      (omega (arith, length-behind a xs, ap length e, length-skip_space p)) h.1
      (skip_space-behind a xs h.1),
)

length-map : {A B : Type 0} (f : A → B) (xs : List A) → length (map f xs) ≡ length xs
length-map f [] = refl
length-map f (x ∷ xs) = ap suc (length-map f xs)

-- Arguments written out one after the other, each bare or in either kind of quotes and followed by
-- a blank, with the newline behind them, are read back as their values, in order, if `argv` has room
-- for them; and if there are more, the loop stores behind the array.
pub parseline-show_args_any :
    (xs : List Arg)
    → All IsArg xs
    → argv_of (show_args xs ++ newline ∷ [])
      ≡ (if ltb (length xs) max_args then some (map value xs) else none)
unfolding argv_of parseline
parseline-show_args_any xs h = rw (
  cut_line-newline (show_args xs) [] (contains-show_args xs h),
  parse_args-show_args (suc (length (show_args xs))) xs (show_args xs) (omega arith) h
      (skip_space-show_args xs h),
  length-map value xs,
)
