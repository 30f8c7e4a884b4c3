-- ===== src/Shell/Words/Total.antt =====
-- `parseline` of sp_prj2/phase3/myshell.c ends, and stays inside `argv[MAXARGS]`.
use system_programming.Base.{
  ℕ, zero, suc, ◌+◌, ◌≤◌, ◌<◌, ◌≡◌, refl, Bool, Option, some, List, [], ◌∷◌, arith, Bool-cases, inl,
  inr, leb, length, ◌==◌, ◌-◌,
}
use system_programming.Shell.Text.{Text, is_space, cut_line, skip_space}
use system_programming.Shell.Words.{
  max_args, drop_until, step_over, read_arg, parse_args, parseline, parse_turn,
}

pub length-skip_space : (s : Text) → length (skip_space s) ≤ length s
unfolding skip_space
length-skip_space [] = omega arith
length-skip_space (c ∷ s) = ground (arith, length-skip_space s)

length-drop_until : (f : ℕ → Bool) (s : Text) → length (drop_until f s) ≤ length s
unfolding drop_until
length-drop_until f [] = omega arith
length-drop_until f (c ∷ s) = ground (arith, length-drop_until f s)

length-step_over : (s : Text) → length (step_over s) ≤ length s
unfolding step_over
length-step_over [] = omega arith
length-step_over (c ∷ s) = omega arith

length-drop_first :
    (f : ℕ → Bool) (c : ℕ) (s : Text) → length (step_over (drop_until f (c ∷ s))) ≤ length s
unfolding drop_until step_over
length-drop_first f c s = ground (arith, length-drop_until f s, length-step_over (drop_until f s))

-- A turn leaves at most the bytes behind the one at which it started.
pub length-read_arg : (c : ℕ) (p : Text) → length (read_arg c p).1 ≤ length p
unfolding read_arg
length-read_arg c p = ground (
  arith,
  length-step_over (drop_until (λ (d : ℕ). d == c) p),
  length-drop_until (λ (d : ℕ). d == c) p,
  length-drop_first is_space c p,
)

-- The arguments that a parse returned are at most 127 with the `n` stored before.
abbrev Fits : ℕ → Option (List Text) → Type 0
Fits n r = (args : List Text) × (r ≡ some args) × (n + length args ≤ max_args - 1)

parse_turn-Fits :
    (n : ℕ) (next : Text → Option (List Text)) (p : Text)
    → n < max_args - 1
    → ((r : Text) → length r < length p → n + 1 < max_args - 1 → Fits (n + 1) (next r))
    → Fits n (parse_turn n next p)
unfolding parse_turn
parse_turn-Fits n next [] room more = ([], refl, omega arith)
parse_turn-Fits n next (c ∷ q) room more = elim (Bool-cases (leb (max_args - 1) (n + 1))) [
  | inl full ↦ rw full ((read_arg c q).0 ∷ [], refl, omega arith)
  | inr left ↦
      let (args, eq, le) =
        more (read_arg c q).1 (omega (arith, length-read_arg c q)) (ground arith) in
      rw (left, eq) ((read_arg c q).0 ∷ args, refl, omega arith)
]

parse_args-Fits : (k n : ℕ) (p : Text) → length p < k → n < max_args - 1 → Fits n (parse_args k n p)
unfolding parse_args
parse_args-Fits zero n p h room = absurd (omega arith)
parse_args-Fits (suc k) n p h room =
    parse_turn-Fits n (parse_args k (n + 1)) (skip_space p) room
      λ r le more. parse_args-Fits k (n + 1) r (omega (arith, length-skip_space p)) more

-- The fuel that `parseline` gives its loop is enough for every text, and what the loop then
-- returns is the result: at most `MAXARGS - 1` arguments, so that the NULL behind them still lies
-- inside `argv[MAXARGS]`.
pub parseline_total :
    (buf : Text)
    → (args : List Text) × (parse_args (suc (length (cut_line buf))) 0 (cut_line buf) ≡ some args)
      × (parseline buf ≡ args)
      × (length args ≤ max_args - 1)
unfolding parseline
parseline_total buf =
    let (args, eq, le) =
      parse_args-Fits (suc (length (cut_line buf))) 0 (cut_line buf) (omega arith) (omega arith) in
    (args, eq, rw eq, omega arith)
