-- ===== src/Interp/Names.antt =====
-- Looking objects of sp_prj1/20241620/main.c up by their names.
use mathlib.Core.Option
use system_programming.Base.{
  ℕ, zero, suc, ◌-◌, ◌≤◌, ◌<◌, Bool, true, false, not, ◌&&◌, Option, none, some, List, [], ◌∷◌, ◌≡◌,
  ◌≢◌, refl, ap, arith, length, take, get_elem?, set, Bool-cases, inl, inr, All, if◌then◌else◌,
}
use system_programming.Shell.Text.{Text}
use system_programming.Shell.Builtins.{same_text}
use system_programming.Interp.{name_len, copy_name, Slot, find_used, find_empty, release, new_slot}

pub same_text_refl : (s : Text) → same_text s s ≡ true
unfolding same_text
same_text_refl [] = refl
same_text_refl (c ∷ s) = ground (arith, same_text_refl s)

pub same_text-eq : (s t : Text) → same_text s t ≡ true → s ≡ t
unfolding same_text
same_text-eq [] [] h = refl
same_text-eq [] (d ∷ t) h = cc
same_text-eq (c ∷ s) [] h = cc
same_text-eq (c ∷ s) (d ∷ t) h = grind (arith, same_text-eq s t)

pub length-take_le : (n : ℕ) (s : Text) → length (take n s) ≤ n
length-take_le zero s = omega arith
length-take_le (suc n) [] = omega arith
length-take_le (suc n) (c ∷ s) = omega (arith, length-take_le n s)

pub take_short : (n : ℕ) (s : Text) → length s ≤ n → take n s ≡ s
take_short zero [] h = refl
take_short zero (c ∷ s) h = absurd (omega arith)
take_short (suc n) [] h = refl
take_short (suc n) (c ∷ s) h = ap (λ (t : Text). c ∷ t) (take_short n s (omega arith))

-- The name of a slot has room in its buffer.
abbrev pub NameFits : {A : Type 0} → Slot A → Type 0
NameFits slot = length slot.name < name_len

pub new_slot-NameFits : {A : Type 0} (name : Text) (a : A) → NameFits (new_slot name a)
unfolding copy_name
new_slot-NameFits name a = omega (arith, length-take_le (name_len - 1) name)

-- What a step of a search has met.
abbrev pub step : Bool → Option ℕ → Option ℕ
step b later = if b then some 0 else Option.map suc later

pub step-zero : (b : Bool) (later : Option ℕ) → step b later ≡ some 0 → b ≡ true
step-zero true later h = refl
step-zero false none h = cc
step-zero false (some j) h = ground arith

pub step-suc :
    (b : Bool) (later : Option ℕ) (i : ℕ)
    → step b later ≡ some (suc i)
    → (b ≡ false) × (later ≡ some i)
step-suc true later i h = ground arith
step-suc false none i h = cc
step-suc false (some j) i h = (refl, ground arith)

pub step-none : (b : Bool) (later : Option ℕ) → step b later ≡ none → (b ≡ false) × (later ≡ none)
step-none true later h = cc
step-none false none h = (refl, refl)
step-none false (some j) h = cc

same_text-ne : (s t : Text) → s ≢ t → same_text s t ≡ false
same_text-ne s t ne = elim (Bool-cases (same_text s t)) [
  | inl y ↦ absurd (ne (same_text-eq s t y))
  | inr n ↦ n
]

module _ {A : Type 0} where
  -- Where a name is found, the slot is in use and has the name.
  pub find_used-slot :
      (name : Text) (slots : List (Slot A)) (i : ℕ)
      → find_used name slots ≡ some i
      → (slot : Slot A) × (get_elem? slots i ≡ some slot) × (slot.used ≡ true) × (slot.name ≡ name)
  unfolding find_used
  find_used-slot name [] i h = cc
  find_used-slot name (slot ∷ slots) zero h =
      let y = step-zero (slot.used && same_text slot.name name) (find_used name slots) h in
      (slot, refl, ground arith, same_text-eq slot.name name (ground arith))
  find_used-slot name (slot ∷ slots) (suc i) h =
      find_used-slot name slots i
        (step-suc (slot.used && same_text slot.name name) (find_used name slots) i h).1

  -- The slot of a new object is found by its name, if the name fits and no other object has it.
  pub find_used-new :
      (name : Text) (a : A) (slots : List (Slot A)) (i : ℕ)
      → length name < name_len
      → find_used name slots ≡ none
      → find_empty slots ≡ some i
      → find_used name (set slots i (new_slot name a)) ≡ some i
  unfolding find_used find_empty copy_name
  find_used-new name a [] i short new h = cc
  find_used-new name a (slot ∷ slots) zero short new h =
      rw (take_short (name_len - 1) name (omega arith), same_text_refl name)
  find_used-new name a (slot ∷ slots) (suc i) short new h =
      let (n, rest) =
        step-none (slot.used && same_text slot.name name) (find_used name slots) new in
      rw (
        n,
        find_used-new name a slots i short rest (step-suc (not slot.used) (find_empty slots) i h).1,
      )

  -- A new object takes no other name away.
  pub find_used-other :
      (name other : Text) (a : A) (slots : List (Slot A)) (i : ℕ)
      → find_empty slots ≡ some i
      → copy_name name ≢ other
      → find_used other (set slots i (new_slot name a)) ≡ find_used other slots
  unfolding find_used find_empty
  find_used-other name other a [] i h ne = cc
  find_used-other name other a (slot ∷ slots) zero h ne =
      let free = step-zero (not slot.used) (find_empty slots) h in
      let unused : slot.used ≡ false = ground arith in
      rw (same_text-ne (copy_name name) other ne, unused)
  find_used-other name other a (slot ∷ slots) (suc i) h ne =
      rw (
        find_used-other name other a slots i (step-suc (not slot.used) (find_empty slots) i h).1 ne)

  -- A slot that was released is empty, and the names of the others are looked up as before.
  pub find_used-release :
      (name other : Text) (slots : List (Slot A)) (i : ℕ)
      → find_used name slots ≡ some i
      → name ≢ other
      → find_used other (release i slots) ≡ find_used other slots
  unfolding find_used release
  find_used-release name other [] i h ne = cc
  find_used-release name other (slot ∷ slots) zero h ne =
      let y = step-zero (slot.used && same_text slot.name name) (find_used name slots) h in
      let e = same_text-eq slot.name name (ground arith) in
      rw (e, same_text-ne name other ne) (ground arith)
  find_used-release name other (slot ∷ slots) (suc i) h ne = rw (
      find_used-release name other slots i
        (step-suc (slot.used && same_text slot.name name) (find_used name slots) i h).1 ne)

  -- The slot of a name that was found is found no longer once it is released.
  pub find_used-released :
      (name : Text) (slots : List (Slot A)) (i : ℕ)
      → find_used name slots ≡ some i
      → find_used name (release i slots) ≢ some i
  unfolding find_used release
  find_used-released name [] i h k = cc
  find_used-released name (slot ∷ slots) zero h k = cc (step-zero false (find_used name slots) k)
  find_used-released name (slot ∷ slots) (suc i) h k =
      let (n, at) = step-suc (slot.used && same_text slot.name name) (find_used name slots) i h in
      find_used-released name slots i at
        (step-suc (slot.used && same_text slot.name name) (find_used name (release i slots)) i k).1

  -- A name that has no room is found nowhere.
  pub find_used-long :
      (name : Text) (slots : List (Slot A))
      → All NameFits slots
      → name_len ≤ length name
      → find_used name slots ≡ none
  unfolding find_used
  find_used-long name [] h long = refl
  find_used-long name (slot ∷ slots) h long =
      rw
        (
          same_text-ne slot.name name (λ e. omega (arith, ap length e, h.0, long)),
          find_used-long name slots h.1 long,
        )
        (ground arith)
