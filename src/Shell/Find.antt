-- ===== src/Shell/Find.antt =====
-- Searches in a text: `strchr` and `strcspn` as sp_prj2/phase3/myshell.c uses them.
use system_programming.Base.{[], arith, false, refl, ℕ, ◌++◌, ◌∷◌, ◌≡◌}
use system_programming.Shell.Text.{Text, newline, contains, cut_line}

pub cut_line-no_newline : (s : Text) → contains newline s ≡ false → cut_line s ≡ s
unfolding cut_line
cut_line-no_newline [] h = refl
cut_line-no_newline (c ∷ s) h = ground (arith, cut_line-no_newline s)

pub contains-append :
    (c : ℕ) (s t : Text) → contains c s ≡ false → contains c t ≡ false → contains c (s ++ t) ≡ false
contains-append c [] t h k = k
contains-append c (d ∷ s) t h k = ground (arith, contains-append c s t)

pub cut_line-newline : (s t : Text) → contains newline s ≡ false → cut_line (s ++ newline ∷ t) ≡ s
unfolding cut_line
cut_line-newline [] t h = refl
cut_line-newline (c ∷ s) t h = ground (arith, cut_line-newline s t)
