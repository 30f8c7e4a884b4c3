-- ===== src/Shell/Words.antt =====
-- `parseline` of sp_prj2/phase3/myshell.c: one command's text to its argument vector. The list of
-- texts is `argv` up to its terminating NULL, and its length is `argc`.
pub mod RoundTrip
pub mod Total
use mathlib.Core.Option
use system_programming.Base.{
  ℕ, zero, suc, ◌+◌, Bool, ◌||◌, Option, none, some, List, [], ◌∷◌, leb, ◌==◌, if◌then◌else◌,
  length, ◌-◌,
}
use system_programming.Shell.Text.{Text, is_space, cut_line, skip_space}

abbrev pub max_args : ℕ
max_args = 128

abbrev pub double_quote : ℕ
double_quote = 34

abbrev pub single_quote : ℕ
single_quote = 39

unfoldable pub is_quote : ℕ → Bool
is_quote c = (c == double_quote) || (c == single_quote)

-- `while (*p && !stop(*p)) p++;`: what is passed over, and where `p` comes to stand.
take_until : (ℕ → Bool) → Text → Text
take_until stop [] = []
take_until stop (c ∷ p) = let rest = take_until stop p in if stop c then [] else c ∷ rest

drop_until : (ℕ → Bool) → Text → Text
drop_until stop [] = []
drop_until stop (c ∷ p) = let rest = drop_until stop p in if stop c then c ∷ p else rest

-- `if (*p) *p++ = '\0';`
step_over : Text → Text
step_over [] = []
step_over (_ ∷ p) = p

-- One turn of the loop behind the blanks: the argument, and where `p` stands after it.
unfoldable pub read_arg : ℕ → Text → Text × Text
unfolding take_until drop_until step_over
read_arg c p =
    if is_quote c
    then (take_until (λ d. d == c) p, step_over (drop_until (λ d. d == c) p))
    else (take_until is_space (c ∷ p), step_over (drop_until is_space (c ∷ p)))

-- One turn of the outer loop, from the first byte behind the blanks. `next` is the rest of the
-- loop; `break` at the bound on `argc` leaves it out.
unfoldable pub parse_turn : ℕ → (Text → Option (List Text)) → Text → Option (List Text)
unfolding read_arg
parse_turn argc next [] = some []
parse_turn argc next (c ∷ q) =
    let (arg, r) = read_arg c q in
    let more = Option.map (λ args. arg ∷ args) (next r) in
    if leb (max_args - 1) (argc + 1) then some (arg ∷ []) else more

-- The outer loop. Each turn takes a unit of fuel; `none` means that the fuel ran out.
unfoldable pub parse_args : ℕ → ℕ → Text → Option (List Text)
unfolding parse_turn skip_space
parse_args zero argc p = none
parse_args (suc k) argc p = parse_turn argc (parse_args k (argc + 1)) (skip_space p)

-- A turn passes over at least one byte, so one unit of fuel more than bytes is enough.
unfoldable pub parseline : Text → List Text
unfolding parse_args cut_line
parseline buf = let line = cut_line buf in Option.get_or (parse_args (suc (length line)) 0 line) []
