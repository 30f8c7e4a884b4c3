-- ===== src/Tokens/Laws.antt =====
-- What the tokens of a text are.
use system_programming.Base.{
  ℕ, Bool, true, false, not, ◌&&◌, All, Bool-cases, inl, inr, List, [], ◌∷◌, ◌++◌, ◌≡◌, refl, ap,
  sym, ◌∙◌, append_assoc, append-nil, arith, if◌then◌else◌,
}
use system_programming.Shell.Text.{Text, is_empty}
use system_programming.Tokens.{flush, scan_tokens, tokens}

-- No byte passes the test.
abbrev pub no_stop : (ℕ → Bool) → Text → Bool
no_stop stop [] = true
no_stop stop (c ∷ s) = not (stop c) && no_stop stop s

-- A token is not empty and holds no byte that ends one.
pub record IsToken (stop : ℕ → Bool) (s : Text) : Type 0 where
  pub nonempty : is_empty s ≡ false
  pub clean : no_stop stop s ≡ true

no_stop-append :
    (stop : ℕ → Bool) (s t : Text)
    → no_stop stop s ≡ true
    → no_stop stop t ≡ true
    → no_stop stop (s ++ t) ≡ true
no_stop-append stop [] t h k = k
no_stop-append stop (c ∷ s) t h k = ground (arith, no_stop-append stop s t)

flush-IsToken : (stop : ℕ → Bool) (s : Text) → no_stop stop s ≡ true → All (IsToken stop) (flush s)
flush-IsToken stop [] h = tt
flush-IsToken stop (c ∷ s) h = (record { nonempty = refl; clean = h }, tt)

append_tokens :
    (stop : ℕ → Bool) (xs ys : List Text)
    → All (IsToken stop) xs
    → All (IsToken stop) ys
    → All (IsToken stop) (xs ++ ys)
append_tokens stop [] ys h k = k
append_tokens stop (x ∷ xs) ys h k = (h.0, append_tokens stop xs ys h.1 k)

scan_tokens-IsToken :
    (stop : ℕ → Bool) (token s : Text)
    → no_stop stop token ≡ true
    → All (IsToken stop) (scan_tokens stop token s)
unfolding scan_tokens
scan_tokens-IsToken stop token [] h = flush-IsToken stop token h
scan_tokens-IsToken stop token (c ∷ s) h = elim (Bool-cases (stop c)) [
  | inl y ↦ rw y (
      append_tokens stop (flush token) (scan_tokens stop [] s) (flush-IsToken stop token h)
        (scan_tokens-IsToken stop [] s refl))
  | inr n ↦
      rw n
        (scan_tokens-IsToken stop (token ++ c ∷ []) s (no_stop-append stop token (c ∷ []) h (rw n)))
]

-- Every token of a text is one.
pub tokens-IsToken : (stop : ℕ → Bool) (s : Text) → All (IsToken stop) (tokens stop s)
unfolding tokens
tokens-IsToken stop s = scan_tokens-IsToken stop [] s refl

-- The text less the bytes that pass the test.
abbrev pub strip : (ℕ → Bool) → Text → Text
strip stop [] = []
strip stop (c ∷ s) = (if stop c then [] else c ∷ []) ++ strip stop s

abbrev pub join : List Text → Text
join [] = []
join (x ∷ xs) = x ++ join xs

join-append : (xs ys : List Text) → join (xs ++ ys) ≡ join xs ++ join ys
join-append [] ys = refl
join-append (x ∷ xs) ys =
    ap (λ (t : Text). x ++ t) (join-append xs ys) ∙ sym (append_assoc x (join xs) (join ys))

join-flush : (s : Text) → join (flush s) ≡ s
join-flush [] = refl
join-flush (c ∷ s) = append-nil (c ∷ s)

scan_tokens-strip :
    (stop : ℕ → Bool) (token s : Text) → join (scan_tokens stop token s) ≡ token ++ strip stop s
unfolding scan_tokens
scan_tokens-strip stop token [] = join-flush token ∙ sym (append-nil token)
scan_tokens-strip stop token (c ∷ s) = elim (Bool-cases (stop c)) [
  | inl y ↦ rw y (
      join-append (flush token) (scan_tokens stop [] s)
      ∙ (ap (λ (t : Text). t ++ join (scan_tokens stop [] s)) (join-flush token)
          ∙ ap (λ (t : Text). token ++ t) (scan_tokens-strip stop [] s)))
  | inr n ↦
      rw n (scan_tokens-strip stop (token ++ c ∷ []) s ∙ append_assoc token (c ∷ []) (strip stop s))
]

-- The tokens hold every byte of the text that ends none, in order.
pub tokens-strip : (stop : ℕ → Bool) (s : Text) → join (tokens stop s) ≡ strip stop s
unfolding tokens
tokens-strip stop s = scan_tokens-strip stop [] s

scan_tokens-word :
    (stop : ℕ → Bool) (token w s : Text)
    → no_stop stop w ≡ true
    → scan_tokens stop token (w ++ s) ≡ scan_tokens stop (token ++ w) s
unfolding scan_tokens
scan_tokens-word stop token [] s h =
    ap (λ (t : Text). scan_tokens stop t s) (sym (append-nil token))
scan_tokens-word stop token (c ∷ w) s h = elim (Bool-cases (stop c)) [
  | inl y ↦ absurd (ground arith)
  | inr n ↦ rw n (
      scan_tokens-word stop (token ++ c ∷ []) w s (ground arith)
      ∙ ap (λ (t : Text). scan_tokens stop t s) (append_assoc token (c ∷ []) w))
]

flush_token : (stop : ℕ → Bool) (w : Text) → IsToken stop w → flush w ≡ w ∷ []
flush_token stop [] h = cc (h.nonempty)
flush_token stop (c ∷ w) h = refl

-- Words with one separator between each two.
abbrev pub spaced : ℕ → List Text → Text
spaced sep [] = []
spaced sep (w ∷ []) = w
spaced sep (w ∷ v ∷ ws) = w ++ sep ∷ spaced sep (v ∷ ws)

-- Spaced words before a text that only ends the last of them are the tokens.
spaced-tokens :
    (stop : ℕ → Bool) (sep : ℕ) (end : Text) (ws : List Text)
    → stop sep ≡ true
    → ((w : Text) → scan_tokens stop w end ≡ flush w)
    → All (IsToken stop) ws
    → tokens stop (spaced sep ws ++ end) ≡ ws
unfolding tokens scan_tokens
spaced-tokens stop sep end [] h last k = last []
spaced-tokens stop sep end (w ∷ []) h last k =
    scan_tokens-word stop [] w end k.0.clean ∙ (last w ∙ flush_token stop w k.0)
spaced-tokens stop sep end (w ∷ v ∷ ws) h last k =
    ap (tokens stop) (append_assoc w (sep ∷ spaced sep (v ∷ ws)) end)
    ∙ (scan_tokens-word stop [] w (sep ∷ (spaced sep (v ∷ ws) ++ end)) k.0.clean
        ∙ rw (h, flush_token stop w k.0)
            (ap (λ (l : List Text). w ∷ l) (spaced-tokens stop sep end (v ∷ ws) h last k.1)))

pub tokens-spaced :
    (stop : ℕ → Bool) (sep : ℕ) (ws : List Text)
    → stop sep ≡ true
    → All (IsToken stop) ws
    → tokens stop (spaced sep ws) ≡ ws
unfolding scan_tokens
tokens-spaced stop sep ws h k =
    ap (tokens stop) (sym (append-nil (spaced sep ws)))
    ∙ spaced-tokens stop sep [] ws h (λ w. refl) k

-- Also with a byte behind them that ends a token.
pub tokens-spaced_end :
    (stop : ℕ → Bool) (sep end : ℕ) (ws : List Text)
    → stop sep ≡ true
    → stop end ≡ true
    → All (IsToken stop) ws
    → tokens stop (spaced sep ws ++ end ∷ []) ≡ ws
unfolding scan_tokens
tokens-spaced_end stop sep end ws h e k =
    spaced-tokens stop sep (end ∷ []) ws h (λ w. rw e (append-nil (flush w))) k
