-- ===== src/Shell/Line/Pieces.antt =====
-- Commands as stretches in and out of quotes, and how the loop of `parse_line` of
-- sp_prj2/phase3/myshell.c passes over them.
use system_programming.Base.{
  Bool, List, [], append-nil, append_assoc, false, not, refl, true, ℕ, ◌&&◌, ◌++◌, ◌==◌, ◌∷◌, ◌≡◌,
  All, arith, some, ◌∙◌,
}
use system_programming.Shell.Text.{Text, contains}
use system_programming.Shell.Words.{double_quote, single_quote}
use system_programming.Shell.Line.{bar, Scan, scan_byte, scan_line}

-- A stretch of a command: outside quotes, in single quotes, or in double quotes.
pub data Piece : Type 0 where
  plain : Text → Piece
  single : Text → Piece
  double : Text → Piece

abbrev pub no_special : Text → Bool
no_special [] = true
no_special (c ∷ s) =
    not (c == single_quote) && (not (c == double_quote) && (not (c == bar) && no_special s))

abbrev pub IsPiece : Piece → Type 0
IsPiece (plain w) = no_special w ≡ true
IsPiece (single w) = contains single_quote w ≡ false
IsPiece (double w) = contains double_quote w ≡ false

abbrev pub show_piece : Piece → Text
show_piece (plain w) = w
show_piece (single w) = single_quote ∷ (w ++ single_quote ∷ [])
show_piece (double w) = double_quote ∷ (w ++ double_quote ∷ [])

abbrev pub show_pieces : List Piece → Text
show_pieces [] = []
show_pieces (x ∷ xs) = show_piece x ++ show_pieces xs

abbrev pub outside : Text → List Text → Scan
outside start segments = record {
  in_single = false;
  in_double = false;
  start = start;
  segments = segments;
}

abbrev in_single_quotes : Text → List Text → Scan
in_single_quotes start segments = record {
  in_single = true;
  in_double = false;
  start = start;
  segments = segments;
}

abbrev in_double_quotes : Text → List Text → Scan
in_double_quotes start segments = record {
  in_single = false;
  in_double = true;
  start = start;
  segments = segments;
}

snoc-append : (u : Text) (c : ℕ) (w : Text) → (u ++ c ∷ []) ++ w ≡ u ++ (c ∷ w)
snoc-append u c w = append_assoc u (c ∷ []) w

module _ (segments : List Text) where
  pub scan_byte-plain :
      (u : Text) (c : ℕ)
      → no_special (c ∷ []) ≡ true
      → scan_byte (outside u segments) c ≡ some (outside (u ++ c ∷ []) segments)
  unfolding scan_byte
  scan_byte-plain u c h = ground arith

  scan_byte-single :
      (u : Text) (c : ℕ)
      → (c == single_quote) ≡ false
      → scan_byte (in_single_quotes u segments) c ≡ some (in_single_quotes (u ++ c ∷ []) segments)
  unfolding scan_byte
  scan_byte-single u c h = ground arith

  scan_byte-double :
      (u : Text) (c : ℕ)
      → (c == double_quote) ≡ false
      → scan_byte (in_double_quotes u segments) c ≡ some (in_double_quotes (u ++ c ∷ []) segments)
  unfolding scan_byte
  scan_byte-double u c h = ground arith

  pub scan_line-plain :
      (u w r : Text)
      → no_special w ≡ true
      → scan_line (outside u segments) (w ++ r) ≡ scan_line (outside (u ++ w) segments) r
  unfolding scan_line
  scan_line-plain u [] r h = rw append-nil
  scan_line-plain u (c ∷ w) r h =
      rw (scan_byte-plain u c (ground arith), ← snoc-append u c w)
        (scan_line-plain (u ++ c ∷ []) w r (ground arith))

  scan_line-single :
      (u w r : Text)
      → contains single_quote w ≡ false
      → scan_line (in_single_quotes u segments) (w ++ single_quote ∷ r)
        ≡ scan_line (outside (u ++ (w ++ single_quote ∷ [])) segments) r
  unfolding scan_line scan_byte
  scan_line-single u [] r h = refl
  scan_line-single u (c ∷ w) r h =
      rw (scan_byte-single u c (ground arith), ← snoc-append u c (w ++ single_quote ∷ []))
        (scan_line-single (u ++ c ∷ []) w r (ground arith))

  scan_line-double :
      (u w r : Text)
      → contains double_quote w ≡ false
      → scan_line (in_double_quotes u segments) (w ++ double_quote ∷ r)
        ≡ scan_line (outside (u ++ (w ++ double_quote ∷ [])) segments) r
  unfolding scan_line scan_byte
  scan_line-double u [] r h = refl
  scan_line-double u (c ∷ w) r h =
      rw (scan_byte-double u c (ground arith), ← snoc-append u c (w ++ double_quote ∷ []))
        (scan_line-double (u ++ c ∷ []) w r (ground arith))

  scan_line-piece :
      (u : Text) (x : Piece) (r : Text)
      → IsPiece x
      → scan_line (outside u segments) (show_piece x ++ r)
        ≡ scan_line (outside (u ++ show_piece x) segments) r
  unfolding scan_line scan_byte
  scan_line-piece u (plain w) r h = scan_line-plain u w r h
  scan_line-piece u (single w) r h =
      rw (append_assoc w, ← snoc-append u single_quote (w ++ single_quote ∷ []))
        (scan_line-single (u ++ single_quote ∷ []) w r h)
  scan_line-piece u (double w) r h =
      rw (append_assoc w, ← snoc-append u double_quote (w ++ double_quote ∷ []))
        (scan_line-double (u ++ double_quote ∷ []) w r h)

  -- Quotes that are closed hide their contents, and no other byte ends a segment.
  pub scan_line-pieces :
      (u : Text) (xs : List Piece) (r : Text)
      → All IsPiece xs
      → scan_line (outside u segments) (show_pieces xs ++ r)
        ≡ scan_line (outside (u ++ show_pieces xs) segments) r
  scan_line-pieces u [] r h = rw append-nil
  scan_line-pieces u (x ∷ xs) r h = rw (append_assoc (show_piece x)) (
      scan_line-piece u x (show_pieces xs ++ r) h.0
      ∙ (scan_line-pieces (u ++ show_piece x) xs r h.1 ∙ rw (append_assoc u)))
