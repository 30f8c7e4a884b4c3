-- ===== src/Shell/Trim.antt =====
-- What `trim_ws` of sp_prj2/phase3/myshell.c returns.
use system_programming.Base.{
  ℕ, ◌≡◌, refl, sym, ap, ◌∙◌, Bool, true, false, ◌&&◌, [], ◌∷◌, ◌++◌, append_assoc, arith,
  Bool-cases, inl, inr,
}
use system_programming.Shell.Text.{
  Text, is_space, is_empty, skip_space, drop_trailing, trim_tail, trim_ws,
}

abbrev pub all_space : Text → Bool
all_space [] = true
all_space (c ∷ s) = is_space c && all_space s

abbrev pub first_is_space : Text → Bool
first_is_space [] = false
first_is_space (c ∷ s) = is_space c

abbrev pub last_is_space : Text → Bool
last_is_space [] = false
last_is_space (c ∷ []) = is_space c
last_is_space (c ∷ d ∷ s) = last_is_space (d ∷ s)

pub record IsTrimmed (s : Text) : Type 0 where
  pub first : first_is_space s ≡ false
  pub last : last_is_space s ≡ false

-- `s` is `t` between blanks, and `t` has none at either end.
pub record Trims (s t : Text) : Type 0 where
  pub before : Text
  pub after : Text
  pub before_blank : all_space before ≡ true
  pub after_blank : all_space after ≡ true
  pub split : s ≡ before ++ (t ++ after)
  pub trimmed : IsTrimmed t

skip_space-append : (u s : Text) → all_space u ≡ true → skip_space (u ++ s) ≡ skip_space s
unfolding skip_space
skip_space-append [] s h = refl
skip_space-append (c ∷ u) s h = ground (arith, skip_space-append u s)

drop_trailing-blank : (u : Text) → all_space u ≡ true → drop_trailing u ≡ []
unfolding drop_trailing
drop_trailing-blank [] h = refl
drop_trailing-blank (c ∷ u) h = ground (arith, drop_trailing-blank u)

drop_trailing-append :
    (s u : Text) → last_is_space s ≡ false → all_space u ≡ true → drop_trailing (s ++ u) ≡ s
unfolding drop_trailing
drop_trailing-append [] u h k = drop_trailing-blank u k
drop_trailing-append (c ∷ []) u h k = ground (arith, drop_trailing-blank u k)
drop_trailing-append (c ∷ d ∷ s) u h k = rw (drop_trailing-append (d ∷ s) u h k) (ground arith)

skip_space-blank : (u : Text) → all_space u ≡ true → skip_space u ≡ []
unfolding skip_space
skip_space-blank [] h = refl
skip_space-blank (c ∷ u) h = ground (arith, skip_space-blank u)

last_is_space-tail : (c : ℕ) (s : Text) → last_is_space (c ∷ s) ≡ false → last_is_space s ≡ false
last_is_space-tail c [] h = refl
last_is_space-tail c (d ∷ s) h = h

trim_tail-append :
    (s v : Text) → IsTrimmed s → all_space v ≡ true → trim_tail (skip_space (s ++ v)) ≡ s
unfolding trim_tail skip_space
trim_tail-append [] v t h = rw (skip_space-blank v h)
trim_tail-append (c ∷ s) v t h =
    rw (t.first, drop_trailing-append s v (last_is_space-tail c s t.last) h)

-- Blanks on either side of a trimmed text are what `trim_ws` removes.
pub trim_ws-append :
    (u s v : Text)
    → IsTrimmed s
    → all_space u ≡ true
    → all_space v ≡ true
    → trim_ws (u ++ (s ++ v)) ≡ s
unfolding trim_ws
trim_ws-append u s v t h k = rw (skip_space-append u (s ++ v) h) (trim_tail-append s v t k)

skip_space_split :
    (s : Text)
    → (u : Text) × (all_space u ≡ true)
      × (s ≡ u ++ skip_space s)
      × (first_is_space (skip_space s) ≡ false)
unfolding skip_space
skip_space_split [] = ([], refl, refl, refl)
skip_space_split (c ∷ s) = elim (Bool-cases (is_space c)) [
  | inl y ↦
      let (u, blank, eq, first) = skip_space_split s in
      (c ∷ u, rw y blank, rw y (ap (λ (t : Text). c ∷ t) eq), rw y first)
  | inr n ↦ ([], refl, rw n, rw n n)
]

-- The empty and the nonempty rest of `drop_trailing` part ways in one step.
drop_trailing-last :
    (c : ℕ) (s : Text)
    → last_is_space s ≡ false
    → (is_space c && is_empty s) ≡ false
    → last_is_space (c ∷ s) ≡ false
drop_trailing-last c [] h k = ground arith
drop_trailing-last c (d ∷ s) h k = h

all_space_of_empty :
    (d s v : Text) → s ≡ d ++ v → is_empty d ≡ true → all_space v ≡ true → all_space s ≡ true
all_space_of_empty [] s v eq e h = rw eq h
all_space_of_empty (c ∷ d) s v eq e h = cc

drop_trailing_split :
    (s : Text)
    → (v : Text) × (all_space v ≡ true)
      × (s ≡ drop_trailing s ++ v)
      × (last_is_space (drop_trailing s) ≡ false)
unfolding drop_trailing
drop_trailing_split [] = ([], refl, refl, refl)
drop_trailing_split (c ∷ s) =
    let (v, blank, eq, last) = drop_trailing_split s in
    elim (Bool-cases (is_space c && is_empty (drop_trailing s))) [
      | inl y ↦ (c ∷ s, ground (arith, all_space_of_empty (drop_trailing s) s v eq), rw y, rw y)
      | inr n ↦ (v, blank, rw n (ap (λ (t : Text). c ∷ t) eq), rw n (drop_trailing-last c _ last n))
    ]

last_is_space-cons :
    (c : ℕ) (s : Text)
    → is_space c ≡ false
    → last_is_space s ≡ false
    → last_is_space (c ∷ s) ≡ false
last_is_space-cons c [] h k = h
last_is_space-cons c (d ∷ s) h k = k

trim_tail-Trims : (t : Text) → first_is_space t ≡ false → Trims t (trim_tail t)
unfolding trim_tail
trim_tail-Trims [] h = record {
  before = [];
  after = [];
  before_blank = refl;
  after_blank = refl;
  split = refl;
  trimmed = record { first = refl; last = refl };
}
trim_tail-Trims (c ∷ s) h =
    let (v, blank, eq, last) = drop_trailing_split s in
    record {
      before = [];
      after = v;
      before_blank = refl;
      after_blank = blank;
      split = ap (λ (t : Text). c ∷ t) eq;
      trimmed = record { first = h; last = last_is_space-cons c (drop_trailing s) h last };
    }

all_space-append :
    (u v : Text) → all_space u ≡ true → all_space v ≡ true → all_space (u ++ v) ≡ true
all_space-append [] v h k = k
all_space-append (c ∷ u) v h k = ground (arith, all_space-append u v)

-- For every text, what `trim_ws` returns is the text less blanks at its two ends, and has no
-- blank at either end.
pub trim_ws-Trims : (s : Text) → Trims s (trim_ws s)
unfolding trim_ws
trim_ws-Trims s =
    let (u, blank, eq, first) = skip_space_split s in
    let t = trim_tail-Trims (skip_space s) first in
    record {
      before = u ++ t.before;
      after = t.after;
      before_blank = all_space-append u t.before blank t.before_blank;
      after_blank = t.after_blank;
      split = eq ∙ (ap (λ (w : Text). u ++ w) t.split ∙ sym (append_assoc u t.before _));
      trimmed = t.trimmed;
    }
