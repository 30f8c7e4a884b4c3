-- ===== src/Shell/Line/Accepted.antt =====
-- What `parse_line` of sp_prj2/phase3/myshell.c accepts.
use system_programming.Base.{
  All, All-append, Bool-cases, List, [], false, inl, inr, length, some, ◌++◌, ◌<◌, ◌∷◌, ◌≡◌, ◌≤◌,
  >>=-eq-some, Bool, arith, length-append, ℕ, ◌≢◌, if◌then◌else◌, none, refl, subst, true,
}
use system_programming.Shell.Text.{Text, is_empty, contains, trim_ws, cut_line}
use system_programming.Shell.Trim.{IsTrimmed, trim_ws-Trims}
use system_programming.Shell.Line.{
  max_cmds, ampersand, Scan, Line, cut_segment, scan_byte, scan_line, close_line, end_line,
  first_scan, parse_line, ends_with, drop_last,
}

-- A segment that `launch_pipeline` is handed.
pub record IsSegment (s : Text) : Type 0 where
  pub trimmed : IsTrimmed s
  pub nonempty : is_empty s ≡ false
  pub no_ampersand : contains ampersand s ≡ false

record IsScan (st : Scan) : Type 0 where
  fits : length st.segments < max_cmds
  good : All IsSegment st.segments

trim_ws-IsSegment :
    (s : Text)
    → is_empty (trim_ws s) ≡ false
    → contains ampersand (trim_ws s) ≡ false
    → IsSegment (trim_ws s)
trim_ws-IsSegment s h k = record {
  trimmed = (trim_ws-Trims s).trimmed;
  nonempty = h;
  no_ampersand = k;
}

All-snoc :
    (xs : List Text) (s : Text) → All IsSegment xs → IsSegment s → All IsSegment (xs ++ s ∷ [])
All-snoc xs s h k = All-append IsSegment xs (s ∷ []) h (k, tt)

cut_segment-IsScan : (st st' : Scan) → IsScan st → cut_segment st ≡ some st' → IsScan st'
unfolding cut_segment
cut_segment-IsScan st st' h e = record {
  fits = ground (arith, length-append st.segments (trim_ws st.start ∷ []));
  good = ground (
    arith,
    λ (k : IsSegment (trim_ws st.start)). All-snoc st.segments (trim_ws st.start) h.good k,
    trim_ws-IsSegment st.start,
  );
}

scan_byte-IsScan : (st st' : Scan) (c : ℕ) → IsScan st → scan_byte st c ≡ some st' → IsScan st'
unfolding scan_byte cut_segment
scan_byte-IsScan st st' c h e = ground (arith, cut_segment-IsScan st st' h)

scan_line-IsScan : (st st' : Scan) (p : Text) → IsScan st → scan_line st p ≡ some st' → IsScan st'
unfolding scan_line
scan_line-IsScan st st' [] h e = ground arith
scan_line-IsScan st st' (c ∷ p) h e =
    let (mid, first, rest) = >>=-eq-some (scan_byte st c) (λ m. scan_line m p) e in
    scan_line-IsScan mid st' p (scan_byte-IsScan st mid c h first) rest

-- What an accepted line is.
abbrev pub Accepted : Line → Type 0
Accepted l =
    (length l.segments ≤ max_cmds) × All IsSegment l.segments × (l.segments ≡ [] → l.bg ≡ false)

snoc-ne-nil : (xs : List Text) (s : Text) → xs ++ s ∷ [] ≢ []
snoc-ne-nil [] s h = cc
snoc-ne-nil (x ∷ xs) s h = cc

close_line-Accepted :
    (segments : List Text) (start : Text) (bg : Bool) (l : Line)
    → length segments < max_cmds
    → All IsSegment segments
    → IsTrimmed start
    → is_empty start ≡ false
    → close_line segments start bg ≡ some l
    → Accepted l
unfolding close_line
close_line-Accepted segments start bg l room good t ne e =
    elim (Bool-cases (contains ampersand start)) [
      | inl y ↦ cc (rw y at e)
      | inr n ↦
          let eq : record { segments = segments ++ start ∷ []; bg = bg } ≡ l = ground arith in
          let last : IsSegment start = record { trimmed = t; nonempty = ne; no_ampersand = n } in
          subst Accepted eq (
            omega (arith, length-append segments (start ∷ [])),
            All-snoc segments start good last,
            λ nil. absurd (snoc-ne-nil segments start nil),
          )
    ]

end_line-Accepted :
    (segments : List Text) (start : Text) (l : Line)
    → length segments < max_cmds
    → All IsSegment segments
    → IsTrimmed start
    → end_line segments start ≡ some l
    → Accepted l
unfolding end_line
end_line-Accepted [] [] l room good t e =
    let eq : record { segments = []; bg = false } ≡ l = ground arith in
    subst Accepted eq (omega arith, tt, λ _. refl)
end_line-Accepted (x ∷ xs) [] l room good t e = cc
end_line-Accepted segments (c ∷ start) l room good t e =
    elim (Bool-cases (ends_with ampersand (c ∷ start))) [
      | inl y ↦ marked (trim_ws-Trims (drop_last (c ∷ start))).trimmed (rw y at e)
      | inr n ↦ close_line-Accepted segments (c ∷ start) false l room good t refl (rw n at e)
    ]
  where
    marked :
        {trimmed : Text}
        → IsTrimmed trimmed
        → (if is_empty trimmed then none else close_line segments trimmed true) ≡ some l
        → Accepted l
    marked {trimmed} t e = elim (Bool-cases (is_empty trimmed)) [
      | inl y ↦ cc (rw y at e)
      | inr n ↦ close_line-Accepted segments trimmed true l room good t n (rw n at e)
    ]

first_scan-IsScan : IsScan first_scan
first_scan-IsScan = record { fits = omega arith; good = tt }

-- The segments of a line that `parse_line` accepts are at most `MAXCMDS`, so that every store into
-- `segments[MAXCMDS]` was in bounds; each is trimmed, not empty and without `&`; and a line with no
-- segment is not marked as a background one.
pub parse_line-Accepted : (buf : Text) (l : Line) → parse_line buf ≡ some l → Accepted l
unfolding parse_line
parse_line-Accepted buf l h =
    let (st, first, rest) =
      >>=-eq-some (scan_line first_scan (cut_line buf)) (λ s. end_line s.segments (trim_ws s.start))
        h in
    let ok = scan_line-IsScan first_scan st (cut_line buf) first_scan-IsScan first in
    end_line-Accepted st.segments (trim_ws st.start) l ok.fits ok.good
      (trim_ws-Trims st.start).trimmed rest
