-- ===== src/Interp/Spec/Slots.antt =====
-- The slots of one kind of object of sp_prj1/20241620/main.c: how many are in use, and under what names.
use system_programming.Base.{
  ℕ, zero, suc, ◌<◌, true, false, none, some, List, [], ◌∷◌, ◌≡◌, ◌≢◌, ◌∙◌, sym, ap, refl, arith,
  length, set, if◌then◌else◌, not, ◌&&◌,
}
use system_programming.Shell.Text.{Text}
use system_programming.Shell.Builtins.{same_text}
use system_programming.Interp.{Slot, find_used, find_empty, release, new_slot, copy_name}
use system_programming.Interp.Names.{
  find_used-slot, find_used-other, same_text-eq, same_text_refl, step-zero, step-suc, step-none,
}

module _ {A : Type 0} where
  abbrev pub count_used : List (Slot A) → ℕ
  count_used [] = 0
  count_used (slot ∷ slots) = if slot.used then suc (count_used slots) else count_used slots

  -- No two slots in use have one name.
  abbrev pub HasNames : List (Slot A) → Type 0
  HasNames [] = Unit {0}
  HasNames (slot ∷ slots) = (slot.used ≡ true → find_used slot.name slots ≡ none) × HasNames slots

  pub find_empty-full :
      (slots : List (Slot A)) → find_empty slots ≡ none → count_used slots ≡ length slots
  unfolding find_empty
  find_empty-full [] h = refl
  find_empty-full (slot ∷ slots) h =
      let (n, rest) = step-none (not slot.used) (find_empty slots) h in
      let used : slot.used ≡ true = ground arith in rw (used, find_empty-full slots rest)

  count_used-bound : (slots : List (Slot A)) → count_used slots < suc (length slots)
  count_used-bound [] = omega arith
  count_used-bound (slot ∷ slots) = ground (arith, count_used-bound slots)

  pub find_empty-room :
      (slots : List (Slot A)) (i : ℕ) → find_empty slots ≡ some i → count_used slots < length slots
  unfolding find_empty
  find_empty-room [] i h = cc
  find_empty-room (slot ∷ slots) zero h =
      let free = step-zero (not slot.used) (find_empty slots) h in
      ground (arith, count_used-bound slots)
  find_empty-room (slot ∷ slots) (suc i) h =
      let rest = (step-suc (not slot.used) (find_empty slots) i h).1 in
      ground (arith, find_empty-room slots i rest)

  pub count_used-set :
      (name : Text) (a : A) (slots : List (Slot A)) (i : ℕ)
      → find_empty slots ≡ some i
      → count_used (set slots i (new_slot name a)) ≡ suc (count_used slots)
  unfolding find_empty
  count_used-set name a [] i h = cc
  count_used-set name a (slot ∷ slots) zero h =
      let free = step-zero (not slot.used) (find_empty slots) h in
      let unused : slot.used ≡ false = ground arith in rw unused
  count_used-set name a (slot ∷ slots) (suc i) h =
      let (n, rest) = step-suc (not slot.used) (find_empty slots) i h in
      let used : slot.used ≡ true = ground arith in rw (used, count_used-set name a slots i rest)

  pub count_used-release :
      (name : Text) (slots : List (Slot A)) (i : ℕ)
      → find_used name slots ≡ some i
      → suc (count_used (release i slots)) ≡ count_used slots
  unfolding find_used release
  count_used-release name [] i h = cc
  count_used-release name (slot ∷ slots) zero h =
      let y = step-zero (slot.used && same_text slot.name name) (find_used name slots) h in
      let used : slot.used ≡ true = ground arith in rw used
  count_used-release name (slot ∷ slots) (suc i) h =
      let rest = (step-suc (slot.used && same_text slot.name name) (find_used name slots) i h).1 in
      ground (arith, count_used-release name slots i rest)

  none-release :
      (name : Text) (slots : List (Slot A)) (i : ℕ)
      → find_used name slots ≡ none
      → find_used name (release i slots) ≡ none
  unfolding find_used release
  none-release name [] i h = refl
  none-release name (slot ∷ slots) zero h =
      let (n, rest) = step-none (slot.used && same_text slot.name name) (find_used name slots) h in
      rw rest
  none-release name (slot ∷ slots) (suc i) h =
      let (n, rest) = step-none (slot.used && same_text slot.name name) (find_used name slots) h in
      rw (n, none-release name slots i rest)

  pub HasNames-release :
      (slots : List (Slot A)) (i : ℕ) → HasNames slots → HasNames (release i slots)
  unfolding release
  HasNames-release [] i h = tt
  HasNames-release (slot ∷ slots) zero h = (λ used. cc, h.1)
  HasNames-release (slot ∷ slots) (suc i) h =
      (λ used. none-release slot.name slots i (h.0 used), HasNames-release slots i h.1)

  -- Behind the release no slot has the name.
  pub find_used-gone :
      (name : Text) (slots : List (Slot A)) (i : ℕ)
      → HasNames slots
      → find_used name slots ≡ some i
      → find_used name (release i slots) ≡ none
  unfolding find_used release
  find_used-gone name [] i h f = cc
  find_used-gone name (slot ∷ slots) zero h f =
      let y = step-zero (slot.used && same_text slot.name name) (find_used name slots) f in
      let e = same_text-eq slot.name name (ground arith) in
      let none_left : find_used name slots ≡ none =
        ap (λ (n : Text). find_used n slots) (sym e) ∙ h.0 (ground arith) in
      rw none_left
  find_used-gone name (slot ∷ slots) (suc i) h f =
      let (n, rest) = step-suc (slot.used && same_text slot.name name) (find_used name slots) i f in
      rw (n, find_used-gone name slots i h.1 rest)

  pub HasNames-set :
      (name : Text) (a : A) (slots : List (Slot A)) (i : ℕ)
      → copy_name name ≡ name
      → HasNames slots
      → find_used name slots ≡ none
      → find_empty slots ≡ some i
      → HasNames (set slots i (new_slot name a))
  unfolding find_used find_empty
  HasNames-set name a [] i fits h new f = tt
  HasNames-set name a (slot ∷ slots) zero fits h new f =
      let rest = (step-none (slot.used && same_text slot.name name) (find_used name slots) new).1 in
      (λ used. ap (λ (n : Text). find_used n slots) fits ∙ rest, h.1)
  HasNames-set name a (slot ∷ slots) (suc i) fits h new f =
      let (n, rest) =
        step-none (slot.used && same_text slot.name name) (find_used name slots) new in
      let at = (step-suc (not slot.used) (find_empty slots) i f).1 in
      (
        λ used.
            let differ : copy_name name ≢ slot.name = λ e.
              let self = same_text_refl slot.name in
              let same : slot.name ≡ name = sym e ∙ fits in cc in
            find_used-other name slot.name a slots i at differ ∙ h.0 used,
        HasNames-set name a slots i fits h.1 rest at,
      )

  -- A slot that is empty has no name.
  pub empty_slot :
      (other : Text) (slots : List (Slot A)) (i j : ℕ)
      → find_empty slots ≡ some i
      → find_used other slots ≡ some j
      → j ≢ i
  unfolding find_used find_empty
  empty_slot other [] i j h f e = cc
  empty_slot other (slot ∷ slots) zero zero h f e =
      let free = step-zero (not slot.used) (find_empty slots) h in
      let used = step-zero (slot.used && same_text slot.name other) (find_used other slots) f in
      ground arith
  empty_slot other (slot ∷ slots) zero (suc j) h f e = absurd (omega arith)
  empty_slot other (slot ∷ slots) (suc i) zero h f e = absurd (omega arith)
  empty_slot other (slot ∷ slots) (suc i) (suc j) h f e =
      let at = (step-suc (not slot.used) (find_empty slots) i h).1 in
      let found =
        (step-suc (slot.used && same_text slot.name other) (find_used other slots) j f).1 in
      empty_slot other slots i j at found (omega (arith, e))

  pub same_slot :
      (lists : List (Slot A)) (a b : Text) (i j : ℕ)
      → b ≡ a
      → find_used a lists ≡ some i
      → find_used b lists ≡ some j
      → i ≡ j
  same_slot lists a b i j e f g = cc

  pub other_slot :
      (lists : List (Slot A)) (a b : Text) (i j : ℕ)
      → same_text b a ≡ false
      → find_used a lists ≡ some i
      → find_used b lists ≡ some j
      → j ≢ i
  other_slot lists a b i j n f g same =
      let (slot, at, used, named) = find_used-slot a lists i f in
      let (slot', at', used', named') = find_used-slot b lists j g in let y = same_text_refl a in cc
