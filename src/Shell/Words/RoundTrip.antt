-- ===== src/Shell/Words/RoundTrip.antt =====
-- `parseline` of sp_prj2/phase3/myshell.c reads back arguments that are written out.
use system_programming.Shell.Find.{contains-append, cut_line-no_newline}
use system_programming.Shell.Words.Total.{length-skip_space}
use system_programming.Base.{
  ℕ, Bool, List, ◌∷◌, ◌≡◌, ◌++◌, true, [], false, append_assoc, All, length, not, arith, ◌<◌, ◌==◌,
  ◌&&◌, ◌+◌, ◌≤◌, ◌-◌, map, refl, some, suc, zero, Bool-cases, ap, inl, inr, leb, length-append,
}
use system_programming.Shell.Text.{Text, is_space, newline, contains, skip_space}
use system_programming.Shell.Words.{
  max_args, is_quote, take_until, drop_until, step_over, read_arg, parse_turn, parse_args,
  parseline, ℕ, Bool, ◌∷◌, List,
}

-- An argument as a user may write it.
pub data Arg : Type 0 where
  bare : ℕ → Text → Arg
  quoted : ℕ → Text → Arg

-- A bare argument, given xs its first byte and the rest, has no blanks and does not begin with a
-- quote; a quoted one has neither its own quote nor a newline inside.
abbrev no_space : Text → Bool
no_space [] = true
no_space (c ∷ s) = not (is_space c) && no_space s

abbrev pub IsArg : Arg → Type 0
IsArg (bare c w) = (no_space (c ∷ w) ≡ true) × (is_quote c ≡ false)
IsArg (quoted q w) = (is_quote q ≡ true) × (contains q w ≡ false) × (contains newline w ≡ false)

abbrev pub show_arg : Arg → Text
show_arg (bare c w) = c ∷ w
show_arg (quoted q w) = q ∷ (w ++ q ∷ [])

abbrev pub value : Arg → Text
value (bare c w) = c ∷ w
value (quoted q w) = w

-- Every argument followed by a blank.
abbrev pub show_args : List Arg → Text
show_args [] = []
show_args (a ∷ xs) = show_arg a ++ 32 ∷ show_args xs

take_until-word : (w r : Text) → no_space w ≡ true → take_until is_space (w ++ 32 ∷ r) ≡ w
unfolding take_until is_space
take_until-word [] r h = refl
take_until-word (c ∷ w) r h = ground (arith, take_until-word w r)

drop_until-word : (w r : Text) → no_space w ≡ true → drop_until is_space (w ++ 32 ∷ r) ≡ 32 ∷ r
unfolding drop_until is_space
drop_until-word [] r h = refl
drop_until-word (c ∷ w) r h = ground (arith, drop_until-word w r)

take_until-quote :
    (q : ℕ) (w r : Text) → contains q w ≡ false → take_until (λ d. d == q) (w ++ q ∷ r) ≡ w
unfolding take_until
take_until-quote q [] r h = ground arith
take_until-quote q (c ∷ w) r h = ground (arith, take_until-quote q w r)

drop_until-quote :
    (q : ℕ) (w r : Text) → contains q w ≡ false → drop_until (λ d. d == q) (w ++ q ∷ r) ≡ q ∷ r
unfolding drop_until
drop_until-quote q [] r h = ground arith
drop_until-quote q (c ∷ w) r h = ground (arith, drop_until-quote q w r)

pub first_byte : Arg → ℕ
first_byte (bare c w) = c
first_byte (quoted q w) = q

pub behind_first : Arg → Text
behind_first (bare c w) = w
behind_first (quoted q w) = w ++ q ∷ []

-- What is left behind an argument: with or without the blank.
pub behind : Arg → Text → Text
behind (bare c w) r = r
behind (quoted q w) r = 32 ∷ r

pub show_arg-first : (a : Arg) (r : Text) → show_arg a ++ r ≡ first_byte a ∷ (behind_first a ++ r)
unfolding first_byte behind_first
show_arg-first (bare c w) r = refl
show_arg-first (quoted q w) r = refl

pub read_arg-show_arg :
    (a : Arg) (r : Text)
    → IsArg a
    → read_arg (first_byte a) (behind_first a ++ 32 ∷ r) ≡ (value a, behind a r)
unfolding read_arg first_byte behind_first behind step_over
read_arg-show_arg (bare c w) r h =
    rw (h.1, take_until-word (c ∷ w) r h.0, drop_until-word (c ∷ w) r h.0)
read_arg-show_arg (quoted q w) r h =
    rw (append_assoc, h.0, take_until-quote q w (32 ∷ r) h.1, drop_until-quote q w (32 ∷ r) h.1)

not-space_quote : (c : ℕ) → is_quote c ≡ true → is_space c ≡ false
unfolding is_quote is_space
not-space_quote c h = ground arith

first_byte-space : (a : Arg) → IsArg a → is_space (first_byte a) ≡ false
unfolding first_byte
first_byte-space (bare c w) h = ground arith
first_byte-space (quoted q w) h = not-space_quote q h.0

pub skip_space-show_args : (xs : List Arg) → All IsArg xs → skip_space (show_args xs) ≡ show_args xs
unfolding skip_space
skip_space-show_args [] h = refl
skip_space-show_args (a ∷ xs) h = rw (show_arg-first a (32 ∷ show_args xs), first_byte-space a h.0)

pub skip_space-behind :
    (a : Arg) (xs : List Arg) → All IsArg xs → skip_space (behind a (show_args xs)) ≡ show_args xs
unfolding behind
skip_space-behind (bare c w) xs h = skip_space-show_args xs h
skip_space-behind (quoted q w) xs h = unfold skip_space is_space in skip_space-show_args xs h

pub length-behind :
    (a : Arg) (xs : List Arg) → length (behind a (show_args xs)) < length (show_args (a ∷ xs))
unfolding behind
length-behind (bare c w) xs = omega (arith, length-append w (32 ∷ show_args xs))
length-behind (quoted q w) xs =
    omega (arith, length-append (w ++ q ∷ []) (32 ∷ show_args xs), length-append w (q ∷ []))

map-value-nil : (xs : List Arg) → length xs ≤ 0 → map value xs ≡ []
map-value-nil [] h = refl
map-value-nil (a ∷ xs) h = absurd (omega arith)

parse_args-show_args :
    (k n : ℕ) (xs : List Arg) (p : Text)
    → length p < k
    → All IsArg xs
    → n + length xs ≤ max_args - 1
    → skip_space p ≡ show_args xs
    → parse_args k n p ≡ some (map value xs)
unfolding parse_args parse_turn
parse_args-show_args zero n xs p fuel h room e = absurd (omega arith)
parse_args-show_args (suc k) n [] p fuel h room e = rw e
parse_args-show_args (suc k) n (a ∷ xs) p fuel h room e =
    rw (e, show_arg-first a (32 ∷ show_args xs), read_arg-show_arg a (show_args xs) h.0)
      (elim (Bool-cases (leb (max_args - 1) (n + 1))) [
        | inl full ↦ rw (full, map-value-nil xs (ground arith))
        | inr left ↦ rw (
          left,
          parse_args-show_args k (n + 1) xs (behind a (show_args xs))
              (omega (arith, length-behind a xs, ap length e, length-skip_space p)) h.1
              (omega arith) (skip_space-behind a xs h.1),
        )
      ])

contains-no_space : (s : Text) → no_space s ≡ true → contains newline s ≡ false
unfolding is_space
contains-no_space [] h = refl
contains-no_space (c ∷ s) h = ground (arith, contains-no_space s)

contains-show_arg : (a : Arg) → IsArg a → contains newline (show_arg a) ≡ false
unfolding is_quote
contains-show_arg (bare c w) h = contains-no_space (c ∷ w) h.0
contains-show_arg (quoted q w) h =
    contains-append newline (q ∷ w) (q ∷ []) (ground arith) (ground arith)

pub contains-show_args : (xs : List Arg) → All IsArg xs → contains newline (show_args xs) ≡ false
contains-show_args [] h = refl
contains-show_args (a ∷ xs) h =
    contains-append newline (show_arg a) (32 ∷ show_args xs) (contains-show_arg a h.0)
      (contains-show_args xs h.1)

-- Arguments written out one after the other, each bare or in either kind of quotes and followed
-- by a blank, are read back by `parseline` as their values, in order, if there are at most
-- `MAXARGS - 1` of them.
pub parseline-show_args :
    (xs : List Arg)
    → All IsArg xs
    → length xs ≤ max_args - 1
    → parseline (show_args xs) ≡ map value xs
unfolding parseline
parseline-show_args xs h room = rw (
  cut_line-no_newline (show_args xs) (contains-show_args xs h),
  parse_args-show_args (suc (length (show_args xs))) 0 xs (show_args xs) (omega arith) h
      (omega arith) (skip_space-show_args xs h),
)
