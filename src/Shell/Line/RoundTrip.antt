-- ===== src/Shell/Line/RoundTrip.antt =====
-- `parse_line` of sp_prj2/phase3/myshell.c reads back a pipeline that is written out.
use system_programming.Shell.Find.{contains-append, cut_line-no_newline}
use system_programming.Base.{
  All, Bool, List, Option, [], ap, arith, false, refl, some, true, ℕ, ◌++◌, ◌∷◌, ◌≡◌, append-nil,
  append_assoc, length, map, ◌+◌, ◌<◌, ◌>>=◌, length-append, sym, ◌∙◌,
}
use system_programming.Shell.Text.{
  Text, newline, is_empty, contains, ends_with, drop_last, trim_ws, is_space,
}
use system_programming.Shell.Trim.{IsTrimmed, all_space, last_is_space, trim_ws-append}
use system_programming.Shell.Line.{
  max_cmds, bar, ampersand, Scan, Line, cut_segment, scan_byte, scan_line, end_line, parse_line,
}
use system_programming.Shell.Line.Pieces.{
  Piece, IsPiece, show_pieces, outside, scan_line-pieces, no_special, scan_line-plain,
}

pub record IsCommand (xs : List Piece) : Type 0 where
  pub pieces : All IsPiece xs
  pub trimmed : IsTrimmed (show_pieces xs)
  pub nonempty : is_empty (show_pieces xs) ≡ false
  pub no_ampersand : contains ampersand (show_pieces xs) ≡ false
  pub no_newline : contains newline (show_pieces xs) ≡ false

-- The background mark.
abbrev pub mark : Bool → Text
mark true = 32 ∷ ampersand ∷ []
mark false = []

-- Commands with ` | ` between them, and a text behind.
abbrev pub show_line : List Piece → List (List Piece) → Text → Text
show_line c [] t = show_pieces c ++ t
show_line c (d ∷ ds) t = show_pieces c ++ 32 ∷ bar ∷ 32 ∷ show_line d ds t

last_is_space-mark : (s : Text) → last_is_space (s ++ 32 ∷ ampersand ∷ []) ≡ false
unfolding is_space
last_is_space-mark [] = refl
last_is_space-mark (c ∷ []) = refl
last_is_space-mark (c ∷ d ∷ s) = last_is_space-mark (d ∷ s)

ends_with-mark : (s : Text) → ends_with ampersand (s ++ 32 ∷ ampersand ∷ []) ≡ true
ends_with-mark [] = refl
ends_with-mark (c ∷ []) = refl
ends_with-mark (c ∷ d ∷ s) = ends_with-mark (d ∷ s)

drop_last-mark : (s : Text) → drop_last (s ++ 32 ∷ ampersand ∷ []) ≡ s ++ 32 ∷ []
drop_last-mark [] = refl
drop_last-mark (c ∷ []) = refl
drop_last-mark (c ∷ d ∷ s) = ap (λ (t : Text). c ∷ t) (drop_last-mark (d ∷ s))

ends_with-contains : (c : ℕ) (s : Text) → contains c s ≡ false → ends_with c s ≡ false
ends_with-contains c [] h = refl
ends_with-contains c (d ∷ []) h = ground arith
ends_with-contains c (d ∷ e ∷ s) h = ends_with-contains c (e ∷ s) (ground arith)

IsTrimmed-mark :
    (s : Text) → is_empty s ≡ false → IsTrimmed s → IsTrimmed (s ++ 32 ∷ ampersand ∷ [])
IsTrimmed-mark [] ne t = cc
IsTrimmed-mark (c ∷ s) ne t = record { first = t.first; last = last_is_space-mark (c ∷ s) }

blank : all_space (32 ∷ []) ≡ true
unfolding is_space
blank = refl

end_line-plain :
    (segments : List Text) (s : Text)
    → is_empty s ≡ false
    → contains ampersand s ≡ false
    → end_line segments s ≡ some (record { segments = segments ++ s ∷ []; bg = false })
unfolding end_line
end_line-plain segments [] ne h = cc
end_line-plain segments (c ∷ s) ne h = rw (ends_with-contains ampersand (c ∷ s) h, h)

end_line-mark :
    (segments : List Text) (s : Text)
    → is_empty s ≡ false
    → contains ampersand s ≡ false
    → IsTrimmed s
    → end_line segments (s ++ 32 ∷ ampersand ∷ [])
      ≡ some (record { segments = segments ++ s ∷ []; bg = true })
unfolding end_line
end_line-mark segments [] ne h t = cc
end_line-mark segments (c ∷ s) ne h t = rw (
  ends_with-mark (c ∷ s),
  drop_last-mark (c ∷ s),
  trim_ws-append [] (c ∷ s) (32 ∷ []) t refl blank,
  h,
)

finish : Scan → Option Line
finish st = end_line st.segments (trim_ws st.start)

finish-mark :
    (segments : List Text) (u s : Text) (bg : Bool)
    → all_space u ≡ true
    → is_empty s ≡ false
    → contains ampersand s ≡ false
    → IsTrimmed s
    → finish (outside ((u ++ s) ++ mark bg) segments)
      ≡ some (record { segments = segments ++ s ∷ []; bg = bg })
unfolding finish
finish-mark segments u s true b ne h t =
    rw
      (
        append_assoc u s (mark true),
        ← append-nil (s ++ mark true),
        trim_ws-append u (s ++ mark true) [] (IsTrimmed-mark s ne t) b refl,
      )
      (end_line-mark segments s ne h t)
finish-mark segments u s false b ne h t =
    rw (append_assoc u s (mark false), trim_ws-append u s [] t b refl)
      (end_line-plain segments s ne h)

cut_segment_lem :
    (segments : List Text) (u s : Text)
    → all_space u ≡ true
    → is_empty s ≡ false
    → contains ampersand s ≡ false
    → IsTrimmed s
    → length segments + 1 < max_cmds
    → cut_segment (outside ((u ++ s) ++ 32 ∷ []) segments) ≡ some (outside [] (segments ++ s ∷ []))
unfolding cut_segment
cut_segment_lem segments u s b ne h t room =
    rw (append_assoc u s (32 ∷ []), trim_ws-append u s (32 ∷ []) t b blank, ne, h) (ground arith)

mark-no_special : (bg : Bool) → no_special (mark bg) ≡ true
mark-no_special true = refl
mark-no_special false = refl

scan_line-mark :
    (segments : List Text) (u : Text) (bg : Bool)
    → scan_line (outside u segments) (mark bg) ≡ some (outside (u ++ mark bg) segments)
unfolding scan_line
scan_line-mark segments u bg =
    ap (scan_line (outside u segments)) (sym (append-nil (mark bg)))
    ∙ scan_line-plain segments u (mark bg) [] (mark-no_special bg)

scan_line-bar :
    (segments : List Text) (u s r : Text)
    → all_space u ≡ true
    → is_empty s ≡ false
    → contains ampersand s ≡ false
    → IsTrimmed s
    → length segments + 1 < max_cmds
    → scan_line (outside ((u ++ s) ++ 32 ∷ []) segments) (bar ∷ 32 ∷ r)
      ≡ scan_line (outside (32 ∷ []) (segments ++ s ∷ [])) r
unfolding scan_line scan_byte
scan_line-bar segments u s r b ne h t room =
    rw (cut_segment_lem segments u s b ne h t room)
      (scan_line-plain (segments ++ s ∷ []) [] (32 ∷ []) r refl)

-- From one command's first byte to the end of the line.
scan_line-show_line :
    (segments : List Text) (u : Text) (c : List Piece) (ds : List (List Piece)) (bg : Bool)
    → all_space u ≡ true
    → IsCommand c
    → All IsCommand ds
    → length segments + length ds < max_cmds
    → (scan_line (outside u segments) (show_line c ds (mark bg)) >>= finish)
      ≡ some (record { segments = segments ++ map show_pieces (c ∷ ds); bg = bg })
scan_line-show_line segments u c [] bg b ok rest room =
    rw
      (
        scan_line-pieces segments u c (mark bg) ok.pieces,
        scan_line-mark segments (u ++ show_pieces c) bg,
      )
      (finish-mark segments u (show_pieces c) bg b ok.nonempty ok.no_ampersand ok.trimmed)
scan_line-show_line segments u c (d ∷ ds) bg b ok rest room =
    let tail = show_line d ds (mark bg) in
    let walked =
      scan_line-pieces segments u c (32 ∷ bar ∷ 32 ∷ tail) ok.pieces
      ∙ (scan_line-plain segments (u ++ show_pieces c) (32 ∷ []) (bar ∷ 32 ∷ tail) refl
          ∙ scan_line-bar segments u (show_pieces c) tail b ok.nonempty ok.no_ampersand ok.trimmed
              (omega arith)) in
    rw (walked, ← append_assoc segments (show_pieces c ∷ []) (map show_pieces (d ∷ ds)))
      (scan_line-show_line (segments ++ show_pieces c ∷ []) (32 ∷ []) d ds bg blank rest.0 rest.1
        (omega (arith, length-append segments (show_pieces c ∷ []))))

mark-no_newline : (bg : Bool) → contains newline (mark bg) ≡ false
mark-no_newline true = refl
mark-no_newline false = refl

show_line-no_newline :
    (c : List Piece) (ds : List (List Piece)) (bg : Bool)
    → IsCommand c
    → All IsCommand ds
    → contains newline (show_line c ds (mark bg)) ≡ false
show_line-no_newline c [] bg ok rest =
    contains-append newline (show_pieces c) (mark bg) ok.no_newline (mark-no_newline bg)
show_line-no_newline c (d ∷ ds) bg ok rest =
    contains-append newline (show_pieces c) (32 ∷ bar ∷ 32 ∷ show_line d ds (mark bg)) ok.no_newline
      (show_line-no_newline d ds bg rest.0 rest.1)

-- A pipeline of one to `MAXCMDS` commands, written with ` | ` between them and with ` &` behind
-- them if it is to run in the background, is read back by `parse_line` as the texts of its commands
-- in order and the mark. A bar in quotes belongs to its command.
pub parse_line-show_line :
    (c : List Piece) (ds : List (List Piece)) (bg : Bool)
    → IsCommand c
    → All IsCommand ds
    → length ds < max_cmds
    → parse_line (show_line c ds (mark bg))
      ≡ some (record { segments = map show_pieces (c ∷ ds); bg = bg })
unfolding parse_line finish
parse_line-show_line c ds bg ok rest room =
    rw (cut_line-no_newline (show_line c ds (mark bg)) (show_line-no_newline c ds bg ok rest))
      (scan_line-show_line [] [] c ds bg refl ok rest (omega arith))
