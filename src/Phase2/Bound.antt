-- ===== src/Phase2/Bound.antt =====
-- `parseline` of sp_prj2/phase2/myshell.c against the one of sp_prj2/phase3/myshell.c, which bounds
-- the arguments.
use system_programming.Base.{
  ℕ, zero, suc, ◌+◌, ◌-◌, ◌<◌, ◌≡◌, refl, Option, some, List, [], ◌∷◌, arith, leb, length, take,
  Bool-cases, inl, inr,
}
use system_programming.Shell.Text.{Text, cut_line, skip_space}
use system_programming.Shell.Words as Words
use system_programming.Shell.Words.{max_args, read_arg}
use system_programming.Shell.Words.Total.{length-skip_space, length-read_arg}
use system_programming.Phase2.{parse_turn, parse_args, parseline}
use system_programming.Phase2.Words.{parse_args-some}

-- What one loop returns is cut off by the other.
abbrev Cuts : ℕ → Option (List Text) → Option (List Text) → Type 0
Cuts room bounded free = (args : List Text) × (free ≡ some args) × (bounded ≡ some (take room args))

take_nil : (room : ℕ) → take {A = Text} room [] ≡ []
take_nil zero = refl
take_nil (suc room) = refl

take_one : (room : ℕ) (arg : Text) (args : List Text) → room ≡ 1 → take room (arg ∷ args) ≡ arg ∷ []
take_one room arg args e = rw e

take_more :
    (room less : ℕ) (arg : Text) (args : List Text)
    → room ≡ suc less
    → take room (arg ∷ args) ≡ arg ∷ take less args
take_more room less arg args e = rw e

parse_turn-Cuts :
    (n : ℕ) (bounded free : Text → Option (List Text)) (p : Text)
    → n < max_args - 1
    → ((r : Text) → length r < length p → (args : List Text) × (free r ≡ some args))
    → ((r : Text)
        → length r < length p
        → n + 1 < max_args - 1
        → Cuts (max_args - 1 - (n + 1)) (bounded r) (free r))
    → Cuts (max_args - 1 - n) (Words.parse_turn n bounded p) (parse_turn free p)
unfolding parse_turn Words.parse_turn
parse_turn-Cuts n bounded free [] room ends more = ([], refl, rw (take_nil (max_args - 1 - n)))
parse_turn-Cuts n bounded free (c ∷ q) room ends more =
    let (arg, r) = read_arg c q in
    let shorter : length r < suc (length q) = omega (arith, length-read_arg c q) in
    elim (Bool-cases (leb (max_args - 1) (n + 1))) [
      | inl full ↦
          let (args, e) = ends r shorter in
          (arg ∷ args, rw e, rw (full, take_one (max_args - 1 - n) arg args (ground arith)))
      | inr left ↦
          let (args, e, cut) = more r shorter (ground arith) in
          (
            arg ∷ args,
            rw e,
            rw (
              left,
              cut,
              take_more (max_args - 1 - n) (max_args - 1 - (n + 1)) arg args (omega arith),
            ),
          )
    ]

parse_args-Cuts :
    (k n : ℕ) (p : Text)
    → length p < k
    → n < max_args - 1
    → Cuts (max_args - 1 - n) (Words.parse_args k n p) (parse_args k p)
unfolding parse_args Words.parse_args
parse_args-Cuts zero n p h room = absurd (omega arith)
parse_args-Cuts (suc k) n p h room =
    parse_turn-Cuts n (Words.parse_args k (n + 1)) (parse_args k) (skip_space p) room
      (λ r less. parse_args-some k r (omega (arith, length-skip_space p)))
      (λ r less left. parse_args-Cuts k (n + 1) r (omega (arith, length-skip_space p)) left)

-- For every text, the `parseline` with the bound returns the first `MAXARGS - 1` of the arguments
-- that the one without it returns.
pub parseline-take : (buf : Text) → Words.parseline buf ≡ take (max_args - 1) (parseline buf)
unfolding parseline Words.parseline
parseline-take buf =
    let (args, e, cut) =
      parse_args-Cuts (suc (length (cut_line buf))) 0 (cut_line buf) (omega arith) (omega arith) in
    rw (e, cut)
