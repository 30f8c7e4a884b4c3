-- ===== src/Shell/Line.antt =====
-- `parse_line` of sp_prj2/phase3/myshell.c: a command line to the texts of its pipeline's segments
-- and the background mark. `none` is the return value -1.
pub mod Accepted
pub mod Pieces
pub mod Segments
pub mod RoundTrip
use system_programming.Base.{
  Bool, List, Option, [], false, if◌then◌else◌, leb, length, none, not, some, true, ℕ, ◌&&◌, ◌++◌,
  ◌+◌, ◌==◌, ◌∷◌, ◌||◌, ◌>>=◌,
}
use system_programming.Shell.Text.{
  Text, is_empty, contains, ends_with, drop_last, cut_line, trim_ws,
}
use system_programming.Shell.Words.{double_quote, single_quote}

abbrev pub max_cmds : ℕ
max_cmds = 16

abbrev pub bar : ℕ
bar = b'|'

abbrev pub ampersand : ℕ
ampersand = b'&'

-- The loop's variables: `start` is the text from `start` up to `p`, and `*nseg` is the length of
-- `segments`.
pub record Scan : Type 0 where
  pub in_single : Bool
  pub in_double : Bool
  pub start : Text
  pub segments : List Text

pub record Line : Type 0 where
  pub segments : List Text
  pub bg : Bool

-- The branch of an unquoted bar.
unfoldable pub cut_segment : Scan → Option Scan
cut_segment st =
    let segment = trim_ws st.start in
    if is_empty segment || contains ampersand segment
    then none
    else if leb max_cmds (length st.segments + 1)
    then none
    else some (record st { start = []; segments = st.segments ++ segment ∷ [] })

-- `p++`
abbrev pub push_byte : ℕ → Scan → Scan
push_byte c st = record st { start = st.start ++ c ∷ [] }

-- One turn of the loop.
unfoldable pub scan_byte : Scan → ℕ → Option Scan
unfolding cut_segment
scan_byte st c =
    if (c == single_quote) && not st.in_double
    then some (push_byte c (record st { in_single = not st.in_single }))
    else if (c == double_quote) && not st.in_single
    then some (push_byte c (record st { in_double = not st.in_double }))
    else if not st.in_single && (not st.in_double && (c == bar))
    then cut_segment st
    else some (push_byte c st)

unfoldable pub scan_line : Scan → Text → Option Scan
unfolding scan_byte
scan_line st [] = some st
scan_line st (c ∷ p) = do st' ← scan_byte st c; scan_line st' p

-- The last two tests on the last segment.
unfoldable pub close_line : List Text → Text → Bool → Option Line
close_line segments start bg =
    if contains ampersand start
    then none
    else some (record { segments = segments ++ start ∷ []; bg = bg })

-- What stands behind the loop, with `start` trimmed.
unfoldable pub end_line : List Text → Text → Option Line
unfolding close_line
end_line segments [] = elim segments [ [] ↦ some (record { segments = []; bg = false }) | _ ↦ none ]
end_line segments (c ∷ start) =
    if ends_with ampersand (c ∷ start)
    then (let trimmed = trim_ws (drop_last (c ∷ start)) in
        if is_empty trimmed then none else close_line segments trimmed true)
    else close_line segments (c ∷ start) false

abbrev pub first_scan : Scan
first_scan = record { in_single = false; in_double = false; start = []; segments = [] }

unfoldable pub parse_line : Text → Option Line
unfolding scan_line end_line
parse_line buf = do
  st ← scan_line first_scan (cut_line buf)
  end_line st.segments (trim_ws st.start)
