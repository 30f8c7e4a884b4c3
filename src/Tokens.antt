-- ===== src/Tokens.antt =====
-- `strtok` of the C library, as sp_prj2/phase1/myshell.c, sp_prj2/phase2/myshell.c and
-- sp_prj1/20241620/main.c call it in a loop: the tokens of a text, in order.
pub mod Laws
use system_programming.Base.{ℕ, Bool, List, [], ◌∷◌, ◌++◌, if◌then◌else◌}
use system_programming.Shell.Text.{Text}

-- A token that is not empty is returned.
abbrev pub flush : Text → List Text
flush [] = []
flush (c ∷ s) = (c ∷ s) ∷ []

-- `token` holds what was read of the token at hand.
unfoldable pub scan_tokens : (ℕ → Bool) → Text → Text → List Text
scan_tokens stop token [] = flush token
scan_tokens stop token (c ∷ s) =
    (if stop c then flush token else [])
    ++ scan_tokens stop (if stop c then [] else token ++ c ∷ []) s

-- All tokens between the bytes that pass `stop`.
unfoldable pub tokens : (ℕ → Bool) → Text → List Text
unfolding scan_tokens
tokens stop s = scan_tokens stop [] s
