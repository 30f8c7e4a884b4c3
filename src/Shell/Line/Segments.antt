-- ===== src/Shell/Line/Segments.antt =====
-- What `launch_pipeline` and `eval` of sp_prj2/phase3/myshell.c meet in a segment, and which
-- commands `parse_line` refuses for an ampersand.
use system_programming.Shell.Words.Total.{parseline_total}
use system_programming.Base.{
  All, List, Option, [], ap, append-nil, arith, false, none, some, sym, true, ℕ, ◌∙◌, ◌∷◌, ◌≡◌, ◌≢◌,
  Option-cases, inl, inr, refl, length, suc, ◌+◌,
}
use system_programming.Shell.Text.{
  Text, newline, is_space, contains, ends_with, trim_ws, cut_line, skip_space,
}
use system_programming.Shell.Find.{cut_line-no_newline}
use system_programming.Shell.Trim.{IsTrimmed, trim_ws-append}
use system_programming.Shell.Words.{read_arg, parse_turn, parse_args, parseline}
use system_programming.Shell.Line.{
  ampersand, Line, scan_line, close_line, end_line, first_scan, parse_line,
}
use system_programming.Shell.Line.Accepted.{IsSegment, parse_line-Accepted}
use system_programming.Shell.Line.Pieces.{Piece, IsPiece, show_pieces, scan_line-pieces}

cut_line-cons : (c : ℕ) (s : Text) → is_space c ≡ false → cut_line (c ∷ s) ≡ c ∷ cut_line s
unfolding cut_line is_space
cut_line-cons c s h = ground arith

parse_turn-ne_nil :
    (n : ℕ) (next : Text → Option (List Text)) (c : ℕ) (q : Text) (args : List Text)
    → parse_turn n next (c ∷ q) ≡ some args
    → args ≢ []
unfolding parse_turn
parse_turn-ne_nil n next c q args e = elim (Option-cases (next (read_arg c q).1)) [
  | inl none_left ↦ ground arith
  | inr (more, found) ↦ ground arith
]

parseline-ne_nil : (s : Text) → IsSegment s → parseline s ≢ []
unfolding parse_args skip_space
parseline-ne_nil [] h = cc (h.nonempty)
parseline-ne_nil (c ∷ s) h =
    let space : is_space c ≡ false = h.trimmed.first in
    let (args, run, result, le) = parseline_total (c ∷ s) in
    rw result (
      parse_turn-ne_nil 0 (parse_args (suc (length (cut_line s))) (0 + 1)) c (cut_line s) args
        (rw (cut_line-cons c s space, space) at run))

All-parseline : (xs : List Text) → All IsSegment xs → All (λ s. parseline s ≢ []) xs
All-parseline [] h = tt
All-parseline (s ∷ xs) h = (parseline-ne_nil s h.0, All-parseline xs h.1)

-- Every segment of an accepted line has at least one argument: the test `argv[0] == NULL` of
-- `launch_pipeline` and `eval` never holds, so that no entry of `pids` is left unset.
pub parse_line-parseline :
    (buf : Text) (l : Line) → parse_line buf ≡ some l → All (λ s. parseline s ≢ []) l.segments
parse_line-parseline buf l h = All-parseline l.segments (parse_line-Accepted buf l h).1

trim_ws_self : (s : Text) → IsTrimmed s → trim_ws s ≡ s
trim_ws_self s t = ap trim_ws (sym (append-nil s)) ∙ trim_ws-append [] s [] t refl refl

end_line-ampersand :
    (s : Text) → contains ampersand s ≡ true → ends_with ampersand s ≡ false → end_line [] s ≡ none
unfolding end_line close_line
end_line-ampersand [] h e = cc
end_line-ampersand (c ∷ s) h e = rw (e, h)

-- A command with an ampersand in any place but the last is refused, also where the ampersand stands
-- in quotes.
pub parse_line-ampersand :
    (xs : List Piece)
    → All IsPiece xs
    → contains newline (show_pieces xs) ≡ false
    → IsTrimmed (show_pieces xs)
    → contains ampersand (show_pieces xs) ≡ true
    → ends_with ampersand (show_pieces xs) ≡ false
    → parse_line (show_pieces xs) ≡ none
unfolding parse_line
parse_line-ampersand xs h nn t amp e =
    rw
      (
        cut_line-no_newline (show_pieces xs) nn,
        ap (scan_line first_scan) (sym (append-nil (show_pieces xs)))
            ∙ scan_line-pieces [] [] xs [] h,
      )
      (rw (trim_ws_self (show_pieces xs) t) (end_line-ampersand (show_pieces xs) amp e))
