-- ===== src/Interp/Gives.antt =====
-- What a computation over a store can return.
use mathlib.Core.Option
use system_programming.Base.{
  Bool, true, false, if◌then◌else◌, Option, none, some, ◌≡◌, refl, subst, ap,
}
use system_programming.Interp.Library.{Run, ◌>>=◌, pure}

-- Whatever the store is, a result has the property.
abbrev pub Gives : {S A : Type 0} → (A → Type 0) → Run S A → Type 0
Gives {S} {A} P m = (s : S) (a : A) (s' : S) → m s ≡ some (a, s') → P a

pub pure-Gives : {S A : Type 0} (P : A → Type 0) (a : A) → P a → Gives P (pure {S = S} a)
pure-Gives {S} {A} P a h s b s' e =
    subst P (ap (λ (r : Option (A × S)). (Option.get_or r (a, s)).0) e) h

bind-some :
    {S A B : Type 0} (m : Run S A) (f : A → Run S B) (s : S) (b : B) (s' : S)
    → (m >>= f) s ≡ some (b, s')
    → (a : A) × (s1 : S) × (m s ≡ some (a, s1)) × (f a s1 ≡ some (b, s'))
bind-some {S} {A} {B} m f s b s' e = go (m s) refl e
  where
    go :
        (r : Option (A × S))
        → m s ≡ r
        → elim r [ none ↦ none | some (a, s1) ↦ f a s1 ] ≡ some (b, s')
        → (a : A) × (s1 : S) × (m s ≡ some (a, s1)) × (f a s1 ≡ some (b, s'))
    go none h e = cc
    go (some (a, s1)) h e = (a, s1, h, e)

pub bind-Gives :
    {S A B : Type 0} (P : B → Type 0) (Q : A → Type 0) (m : Run S A) (f : A → Run S B)
    → Gives Q m
    → ((a : A) → Q a → Gives P (f a))
    → Gives P (m >>= f)
bind-Gives P Q m f h k s b s' e =
    let (a, s1, e1, e2) = bind-some m f s b s' e in k a (h s a s1 e1) s1 b s' e2

-- Where nothing is known of the first result.
pub any-Gives :
    {S A B : Type 0} (P : B → Type 0) (m : Run S A) (f : A → Run S B)
    → ((a : A) → Gives P (f a))
    → Gives P (m >>= f)
any-Gives P m f k = bind-Gives P (λ _. Unit {0}) m f (λ s a s' e. tt) (λ a _. k a)

pub if-Gives :
    {S A : Type 0} {P : A → Type 0} (b : Bool) {m n : Run S A}
    → Gives P m
    → Gives P n
    → Gives P (if b then m else n)
if-Gives true h k = h
if-Gives false h k = k

pub option-Gives :
    {S A C : Type 0} {P : A → Type 0} (o : Option C) {m : Run S A} {f : C → Run S A}
    → Gives P m
    → ((c : C) → Gives P (f c))
    → Gives P (elim o [ none ↦ m | some c ↦ f c ])
option-Gives none h k = h
option-Gives (some c) h k = k c

-- A failed assertion gives no result.
pub abort-Gives : {S A : Type 0} (P : A → Type 0) → Gives {S = S} P (λ s. none)
abort-Gives P s a s' e = cc

-- Both branches do the same.
pub if-same :
    {S A : Type 0} (b : Bool) (m n : Run S A) (s : S) {r : Option (A × S)}
    → m s ≡ r
    → n s ≡ r
    → (if b then m else n) s ≡ r
if-same true m n s h k = h
if-same false m n s h k = k
