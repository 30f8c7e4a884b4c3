-- ===== src/Shell/JobId.antt =====
-- `parse_job_id` of sp_prj2/phase3/myshell.c, with the `strtol` of the C library at base 10 on a
-- machine whose `long` has 64 bits and whose `int` has 32.
pub mod Digits
use system_programming.Base.{
  Bool, Option, [], false, if◌then◌else◌, leb, neg, negsuc, none, not, pos, some, suc, true, ℕ, ℤ,
  ◌%◌, ◌&&◌, ◌*◌, ◌+◌, ◌-◌, ◌==◌, ◌^◌, ◌∷◌, ◌||◌,
}
use system_programming.Shell.Text.{Text, is_empty, skip_space}

abbrev pub percent : ℕ
percent = b'%'

unfoldable pub is_digit : ℕ → Bool
is_digit c = leb b'0' c && leb c b'9'

-- The digits from here on, added to a value that was read, and the text behind them.
unfoldable pub read_digits : ℕ → Text → ℕ × Text
unfolding is_digit
read_digits acc [] = (acc, [])
read_digits acc (c ∷ s) =
    let more = read_digits (acc * 10 + (c - b'0')) s in if is_digit c then more else (acc, c ∷ s)

abbrev pub long_max : ℕ
long_max = 2 ^ 63 - 1

abbrev pub int_max : ℕ
int_max = 2 ^ 31 - 1

-- Out of range, `strtol` returns LONG_MAX or LONG_MIN.
abbrev clamp : Bool → ℕ → ℤ
clamp negative n =
    if negative
    then neg (pos (if leb n (long_max + 1) then n else long_max + 1))
    else pos (if leb n long_max then n else long_max)

abbrev starts_with_digit : Text → Bool
starts_with_digit [] = false
starts_with_digit (c ∷ s) = is_digit c

-- `whole` is what `*endptr` is left at if there is no number.
abbrev read_number : Text → Bool → Text → ℤ × Text
read_number whole negative s =
    if starts_with_digit s
    then (let (n, rest) = read_digits 0 s in (clamp negative n, rest))
    else (pos 0, whole)

abbrev read_signed : Text → Text → ℤ × Text
read_signed whole [] = (pos 0, whole)
read_signed whole (c ∷ s) =
    if c == b'-'
    then read_number whole true s
    else if c == b'+'
    then read_number whole false s
    else read_number whole false (c ∷ s)

unfoldable pub strtol : Text → ℤ × Text
strtol s = read_signed s (skip_space s)

-- The conversion of a `long` to `int`: the low 32 bits, in two's complement.
abbrev pub from_word : ℕ → ℤ
from_word w = if leb w int_max then pos w else negsuc (2 ^ 32 - 1 - w)

unfoldable pub to_int : ℤ → ℤ
to_int (pos n) = from_word (n % 2 ^ 32)
to_int (negsuc n) = from_word (2 ^ 32 - 1 - n % 2 ^ 32)

-- The two messages, and the job id that is stored at a return value of 0.
pub data Parsed : Type 0 where
  valid : ℕ → Parsed
  bad_form : Parsed
  invalid : Text → Parsed

-- The second test; `arg` is for the message. The `jid` of a valid result is positive.
unfoldable pub check_id : Text → Text → ℤ × Text → Parsed
check_id arg s (n, rest) = elim (to_int n) [
  | pos (suc k) ↦ if is_empty s || not (is_empty rest) then invalid arg else valid (suc k)
  | _ ↦ invalid arg
]

-- `none` is a NULL argument.
unfoldable pub parse_job_id : Option Text → Parsed
parse_job_id none = bad_form
parse_job_id (some []) = bad_form
parse_job_id (some (c ∷ s)) = if c == percent then check_id (c ∷ s) s (strtol s) else bad_form
