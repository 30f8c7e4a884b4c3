-- ===== src/Shell/Text.antt =====
-- Text helpers of sp_prj2/phase3/myshell.c. A `char *` is the bytes from it up to the terminating
-- NUL, so a NUL that the code writes ends the list, and a moved pointer is a suffix.
use system_programming.Base.{
  ℕ, Bool, true, false, ◌&&◌, ◌||◌, List, [], ◌∷◌, leb, ◌==◌, if◌then◌else◌,
}

abbrev pub Text : Type 0
Text = List ℕ

abbrev pub newline : ℕ
newline = 10

-- `isspace` in the C locale: tab, newline, vertical tab, form feed, return, blank.
unfoldable pub is_space : ℕ → Bool
is_space c = (c == 32) || (leb 9 c && leb c 13)

abbrev pub is_empty : Text → Bool
is_empty [] = true
is_empty (_ ∷ _) = false

-- `strchr(s, c) != NULL`
abbrev pub contains : ℕ → Text → Bool
contains c [] = false
contains c (d ∷ s) = (d == c) || contains c s

-- `s[strcspn(s, "\n")] = '\0'`
unfoldable pub cut_line : Text → Text
cut_line [] = []
cut_line (c ∷ s) = let rest = cut_line s in if c == newline then [] else c ∷ rest

-- `while (*s && isspace(*s)) s++;`
unfoldable pub skip_space : Text → Text
skip_space [] = []
skip_space (c ∷ s) = let rest = skip_space s in if is_space c then rest else c ∷ s

-- The backward loop of `trim_ws`: drops the blanks at the end.
unfoldable pub drop_trailing : Text → Text
drop_trailing [] = []
drop_trailing (c ∷ s) =
    let rest = drop_trailing s in if is_space c && is_empty rest then [] else c ∷ rest

-- The bound `end > s` keeps the first byte whatever it is.
unfoldable pub trim_tail : Text → Text
unfolding drop_trailing
trim_tail [] = []
trim_tail (c ∷ s) = c ∷ drop_trailing s

unfoldable pub trim_ws : Text → Text
unfolding skip_space trim_tail
trim_ws s = trim_tail (skip_space s)

-- `s[strlen(s) - 1] == c`, for a text that is not empty.
abbrev pub ends_with : ℕ → Text → Bool
ends_with c [] = false
ends_with c (d ∷ []) = d == c
ends_with c (d ∷ e ∷ s) = ends_with c (e ∷ s)

-- `s[strlen(s) - 1] = '\0'`
abbrev pub drop_last : Text → Text
drop_last [] = []
drop_last (d ∷ []) = []
drop_last (d ∷ e ∷ s) = d ∷ drop_last (e ∷ s)

unfoldable pub normalize_jobcmd : Text → Text
unfolding cut_line trim_ws
normalize_jobcmd cmdline =
    let s = trim_ws (cut_line cmdline) in if ends_with b'&' s then trim_ws (drop_last s) else s
