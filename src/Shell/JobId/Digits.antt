-- ===== src/Shell/JobId/Digits.antt =====
-- What `parse_job_id` of sp_prj2/phase3/myshell.c makes of a string of digits.
use system_programming.Base.{
  Bool, [], ap, length, true, ℕ, ◌&&◌, ◌*◌, ◌+◌, ◌-◌, ◌^◌, ◌∷◌, ◌≡◌, arith, pos, ◌≤◌, false,
  if◌then◌else◌, leb, ltb, some, ◌%◌, ◌==◌, ◌<◌, ◌∙◌,
}
use system_programming.Shell.Text.{Text, is_space, skip_space}
use system_programming.Shell.JobId.{
  percent, is_digit, read_digits, long_max, int_max, strtol, to_int, valid, invalid, check_id,
  parse_job_id,
}
use native.Mathlib.Nat.{pow-suc}

abbrev pub all_digits : Text → Bool
all_digits [] = true
all_digits (c ∷ s) = is_digit c && all_digits s

-- The number that a string of digits denotes, by place values.
abbrev pub decimal : Text → ℕ
decimal [] = 0
decimal (c ∷ s) = (c - b'0') * 10 ^ length s + decimal s

read_digits-decimal :
    (acc : ℕ) (s : Text)
    → all_digits s ≡ true
    → read_digits acc s ≡ (acc * 10 ^ length s + decimal s, [])
unfolding read_digits
read_digits-decimal acc [] h = ap (λ (n : ℕ). (n, [])) omega arith
read_digits-decimal acc (c ∷ s) h =
    rw
      (
        (let y : is_digit c ≡ true = ground arith in y),
        read_digits-decimal (acc * 10 + (c - 48)) s (ground arith),
      )
      (ap (λ (n : ℕ). (n, [])) (rw pow-suc (omega arith)))

-- A digit is neither a blank nor a sign.
digit_plain :
    (c : ℕ)
    → is_digit c ≡ true
    → (is_space c ≡ false) × ((c == b'-') ≡ false) × ((c == b'+') ≡ false)
unfolding is_digit is_space
digit_plain c h = ground arith

strtol-decimal :
    (c : ℕ) (s : Text)
    → all_digits (c ∷ s) ≡ true
    → decimal (c ∷ s) ≤ long_max
    → strtol (c ∷ s) ≡ (pos (decimal (c ∷ s)), [])
unfolding strtol skip_space
strtol-decimal c s h le =
    let digit : is_digit c ≡ true = ground arith in
    let (blank, minus, plus) = digit_plain c digit in
    let range : leb (0 * 10 ^ length (c ∷ s) + decimal (c ∷ s)) long_max ≡ true = ground arith in
    rw (blank, minus, plus, digit, read_digits-decimal 0 (c ∷ s) h, range) (ground arith)

check_id-pos :
    (arg : Text) (c : ℕ) (s : Text) (v : ℕ)
    → check_id arg (c ∷ s) (pos v, [])
      ≡ (if ltb 0 (v % 2 ^ 32) && leb (v % 2 ^ 32) int_max then valid (v % 2 ^ 32) else invalid arg)
unfolding check_id to_int
check_id-pos arg c s v = ground arith

-- A string of digits is taken for the low 32 bits of the number that it denotes, if that is at most
-- LONG_MAX: as a job id if they are a positive `int`, and else refused.
pub parse_job_id-digits :
    (c : ℕ) (s : Text)
    → all_digits (c ∷ s) ≡ true
    → decimal (c ∷ s) ≤ long_max
    → let w = decimal (c ∷ s) % 2 ^ 32 in
      parse_job_id (some (percent ∷ c ∷ s))
      ≡ (if ltb 0 w && leb w int_max then valid w else invalid (percent ∷ c ∷ s))
unfolding parse_job_id
parse_job_id-digits c s h le =
    rw (strtol-decimal c s h le) (check_id-pos (percent ∷ c ∷ s) c s (decimal (c ∷ s)))

-- So an id that is too large for an `int` is taken for another job's: whatever multiple of 2 ^ 32 is
-- added to the id `n` of a job, the digits of the sum name that job.
pub parse_job_id-wraps :
    (c : ℕ) (s : Text) (n k : ℕ)
    → all_digits (c ∷ s) ≡ true
    → 0 < n
    → n ≤ int_max
    → decimal (c ∷ s) ≡ n + k * 2 ^ 32
    → decimal (c ∷ s) ≤ long_max
    → parse_job_id (some (percent ∷ c ∷ s)) ≡ valid n
parse_job_id-wraps c s n k h positive small e le =
    let low : decimal (c ∷ s) % 2 ^ 32 ≡ n = omega arith in
    parse_job_id-digits c s h le ∙ rw low (ground arith)
