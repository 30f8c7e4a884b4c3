-- ===== src/Tests/Text.antt =====
-- The readers of sp_prj2/phase3/myshell.c at concrete texts.
use system_programming.Base.{
  All, List, [], false, length, map, none, refl, some, suc, true, ◌≡◌, ◌≢◌, ◌∷◌, ◌^◌, ◌≤◌, ◌-◌,
  arith, leb, if◌then◌else◌, ltb, ◌&&◌, ◌%◌,
}
use system_programming.Shell.Text.{Text, trim_ws, is_space, cut_line}
use system_programming.Shell.Trim.{IsTrimmed, Trims, trim_ws-Trims}
use system_programming.Shell.Words.{parseline, parse_args, max_args, is_quote}
use system_programming.Shell.Words.Total.{parseline_total}
use system_programming.Shell.Words.RoundTrip.{
  Arg, bare, quoted, IsArg, show_args, value, parseline-show_args,
}
use system_programming.Shell.Line.{Line, parse_line}
use system_programming.Shell.Line.Pieces.{Piece, plain, single, show_pieces}
use system_programming.Shell.Line.Accepted.{Accepted, parse_line-Accepted}
use system_programming.Shell.Line.Segments.{parse_line-parseline, parse_line-ampersand}
use system_programming.Shell.Line.RoundTrip.{IsCommand, mark, show_line, parse_line-show_line}
use system_programming.Shell.JobId.{valid, invalid, parse_job_id, percent, int_max, is_digit}
use system_programming.Shell.JobId.Digits.{decimal, parse_job_id-digits, parse_job_id-wraps}
use system_programming.Tests.Data.{cat, ls}

padded : Text
padded = 32 ∷ b'l' ∷ b's' ∷ 9 ∷ 10 ∷ []

trim_ws-Trims_example :
    Trims (32 ∷ b'l' ∷ b's' ∷ 9 ∷ 10 ∷ []) (trim_ws (32 ∷ b'l' ∷ b's' ∷ 9 ∷ 10 ∷ []))
trim_ws-Trims_example = trim_ws-Trims (32 ∷ b'l' ∷ b's' ∷ 9 ∷ 10 ∷ [])

trim_ws_runs : trim_ws (32 ∷ b'l' ∷ b's' ∷ 9 ∷ 10 ∷ []) ≡ ls
unfolding trim_ws is_space
trim_ws_runs = refl

abbrev echo_line : Text
echo_line = b'l' ∷ b's' ∷ 32 ∷ b'a' ∷ 10 ∷ []

parseline_total_example :
    (args : List Text) × (parse_args (suc (length (cut_line echo_line))) 0 (cut_line echo_line)
      ≡ some args)
    × (parseline echo_line ≡ args)
    × (length args ≤ max_args - 1)
parseline_total_example = parseline_total echo_line

-- `ls 'a b'`
abbrev two_args : List Arg
two_args = bare b'l' (b's' ∷ []) ∷ quoted 39 (b'a' ∷ 32 ∷ b'b' ∷ []) ∷ []

two_args-IsArg : All IsArg two_args
unfolding is_space is_quote
two_args-IsArg = ((refl, refl), ((refl, refl, refl), tt))

parseline-show_args_example : parseline (show_args two_args) ≡ map value two_args
parseline-show_args_example = parseline-show_args two_args two_args-IsArg (omega arith)

-- `cat '|'`
abbrev pub quoted_bar : List Piece
quoted_bar = plain (b'c' ∷ b'a' ∷ b't' ∷ 32 ∷ []) ∷ single (b'|' ∷ []) ∷ []

pub quoted_bar-IsCommand : IsCommand quoted_bar
unfolding is_space
quoted_bar-IsCommand = record {
  pieces = (refl, (refl, tt));
  trimmed = record { first = refl; last = refl };
  nonempty = refl;
  no_ampersand = refl;
  no_newline = refl;
}

-- `cat '|' | cat '|' &`
parse_line-show_line_example :
    parse_line (show_line quoted_bar (quoted_bar ∷ []) (mark true))
    ≡ some (record { segments = map show_pieces (quoted_bar ∷ quoted_bar ∷ []); bg = true })
parse_line-show_line_example =
    parse_line-show_line quoted_bar (quoted_bar ∷ []) true quoted_bar-IsCommand
      (quoted_bar-IsCommand, tt) (omega arith)

abbrev piped : Text
piped = b'l' ∷ b's' ∷ 32 ∷ b'|' ∷ 32 ∷ b'c' ∷ b'a' ∷ b't' ∷ 10 ∷ []

abbrev piped_line : Line
piped_line = record { segments = ls ∷ cat ∷ []; bg = false }

piped_runs : parse_line piped ≡ some piped_line
unfolding parse_line is_space cut_line trim_ws
piped_runs = refl

parse_line-Accepted_example : Accepted piped_line
parse_line-Accepted_example = parse_line-Accepted piped piped_line piped_runs

parse_line-parseline_example : All (λ s. parseline s ≢ []) (ls ∷ cat ∷ [])
parse_line-parseline_example = parse_line-parseline piped piped_line piped_runs

-- `a '&' b`
abbrev quoted_ampersand : List Piece
quoted_ampersand = plain (b'a' ∷ 32 ∷ []) ∷ single (b'&' ∷ []) ∷ plain (32 ∷ b'b' ∷ []) ∷ []

quoted_ampersand-IsTrimmed : IsTrimmed (show_pieces quoted_ampersand)
unfolding is_space
quoted_ampersand-IsTrimmed = record { first = refl; last = refl }

parse_line-ampersand_example : parse_line (show_pieces quoted_ampersand) ≡ none
parse_line-ampersand_example =
    parse_line-ampersand quoted_ampersand (refl, (refl, (refl, tt))) refl quoted_ampersand-IsTrimmed
      refl refl

parse_job_id-digits_example :
    let w = decimal (b'1' ∷ b'2' ∷ []) % 2 ^ 32 in
    parse_job_id (some (percent ∷ b'1' ∷ b'2' ∷ []))
    ≡ (if ltb 0 w && leb w int_max then valid w else invalid (percent ∷ b'1' ∷ b'2' ∷ []))
unfolding is_digit
parse_job_id-digits_example = parse_job_id-digits b'1' (b'2' ∷ []) refl (omega arith)

-- The digits of 2 ^ 32 + 1.
abbrev wrapped : Text
wrapped = b'2' ∷ b'9' ∷ b'4' ∷ b'9' ∷ b'6' ∷ b'7' ∷ b'2' ∷ b'9' ∷ b'7' ∷ []

parse_job_id-wraps_example : parse_job_id (some (percent ∷ b'4' ∷ wrapped)) ≡ valid 1
unfolding is_digit
parse_job_id-wraps_example =
    parse_job_id-wraps b'4' wrapped 1 1 refl (omega arith) (omega arith) refl (omega arith)
