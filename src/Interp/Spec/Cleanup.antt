-- ===== src/Interp/Spec/Cleanup.antt =====
-- `cleanup_all_objects` of sp_prj1/20241620/main.c behind a session on lists.
use system_programming.Base.{
  ℕ, zero, suc, ◌+◌, ◌<◌, ◌==◌, Bool-cases, true, false, none, some, List, [], ◌∷◌, ◌≡◌, ◌∙◌, refl,
  inl, inr, arith, ◌&&◌, if◌then◌else◌,
}
use system_programming.Shell.Text.{Text}
use system_programming.Shell.Builtins.{same_text}
use system_programming.Interp.{Slot, find_used, release, max_ds}
use system_programming.Interp.Names.{same_text-eq, same_text_refl, step-none}
use system_programming.Interp.Library.{Library, ◌>>=◌}
use system_programming.Interp.World.{
  Tables, in_use, destroy_list, cleanup_slot, cleanup_from, cleanup_all_objects,
}
use system_programming.Interp.Spec.Laws.{ListModel, ListLaws}
use system_programming.Interp.Spec.Slots.{HasNames}
use system_programming.Interp.Spec.Objects.{Named, StandsFor}
use system_programming.Interp.Spec.Delete.{empty_list-Changed, released-StandsFor}

module _ {A : Type 0} where
  nameless-unused :
      (slots : List (Slot A)) (i : ℕ)
      → ((name : Text) → find_used name slots ≡ none)
      → in_use slots i ≡ false
  unfolding find_used
  nameless-unused [] i h = refl
  nameless-unused (slot ∷ slots) zero h =
      let new =
        (step-none (slot.used && same_text slot.name slot.name) (find_used slot.name slots)
          (h slot.name)).0 in
      let self = same_text_refl slot.name in ground arith
  nameless-unused (slot ∷ slots) (suc i) h = nameless-unused slots i (λ name.
      (step-none (slot.used && same_text slot.name name) (find_used name slots) (h name)).1)

  -- A slot in use is the one that its name stands for.
  used_slot :
      (slots : List (Slot A)) (i : ℕ)
      → HasNames slots
      → in_use slots i ≡ true
      → (name : Text) × (find_used name slots ≡ some i)
  unfolding find_used
  used_slot [] i h used = cc
  used_slot (slot ∷ slots) zero h used = (slot.name, rw (used, same_text_refl slot.name))
  used_slot (slot ∷ slots) (suc i) h used =
      let (name, e) = used_slot slots i h.1 used in
      let other : (slot.used && same_text slot.name name) ≡ false =
        elim (Bool-cases (slot.used && same_text slot.name name)) [
          | inl y ↦
              let named = same_text-eq slot.name name (ground arith) in
              let gone = h.0 (ground arith) in cc
          | inr n ↦ n
        ] in
      (name, rw (other, e))

  in_use-release :
      (slots : List (Slot A)) (i k : ℕ)
      → in_use (release i slots) k ≡ (if k == i then false else in_use slots k)
  unfolding release
  in_use-release [] i k = ground arith
  in_use-release (slot ∷ slots) zero zero = refl
  in_use-release (slot ∷ slots) zero (suc k) = ground arith
  in_use-release (slot ∷ slots) (suc i) zero = ground arith
  in_use-release (slot ∷ slots) (suc i) (suc k) = in_use-release slots i k ∙ ground arith

  unused_slot :
      (slots : List (Slot A)) (i k : ℕ)
      → in_use slots i ≡ false
      → in_use slots k ≡ (if k == i then false else in_use slots k)
  unused_slot slots i k n = elim (Bool-cases (k == i)) [
    | inl y ↦ let same : k ≡ i = ground arith in rw (y, same, n)
    | inr other ↦ rw other
  ]

module _ (lib : Library) (model : ListModel lib) (laws : ListLaws lib model) where
  open lib use {Store, Bitmap}

  cleanup_slot-StandsFor :
      (w : Tables Bitmap) (s : Store) (m : Named) (i : ℕ)
      → StandsFor lib model w s m
      → (w' : Tables Bitmap) × (s' : Store) × (m' : Named) × (cleanup_slot lib w i s
          ≡ some (w', s'))
        × StandsFor lib model w' s' m'
        × ((k : ℕ) → in_use w'.lists k ≡ (if k == i then false else in_use w.lists k))
  unfolding cleanup_slot destroy_list
  cleanup_slot-StandsFor w s m i h =
      let no_hash = nameless-unused w.hashes i h.no_hash in
      let no_bitmap = nameless-unused w.bitmaps i h.no_bitmap in
      elim (Bool-cases (in_use w.lists i)) [
        | inl y ↦
            let (name, found) = used_slot w.lists i h.names y in
            let (s', empties, changed) =
              empty_list-Changed lib model laws s i (h.list name i found).0 in
            (
              record w { lists = release i w.lists },
              s',
              _,
              rw (y, ◌>>=◌, empties, no_hash, no_bitmap),
              released-StandsFor lib model laws w s s' m name i h found changed,
              in_use-release w.lists i,
            )
        | inr n ↦ (w, s, m, rw (n, ◌>>=◌, no_hash, no_bitmap), h, λ k. unused_slot w.lists i k n)
      ]

  -- The loop frees every slot from the one at which it starts.
  cleanup_from-StandsFor :
      (n i : ℕ) (w : Tables Bitmap) (s : Store) (m : Named)
      → StandsFor lib model w s m
      → (w' : Tables Bitmap) × (s' : Store) × (m' : Named) × (cleanup_from lib n i w s
          ≡ some (w', s'))
        × StandsFor lib model w' s' m'
        × ((k : ℕ) → k < i + n → (k < i → in_use w.lists k ≡ false) → in_use w'.lists k ≡ false)
  unfolding cleanup_from
  cleanup_from-StandsFor zero i w s m h =
      (w, s, m, refl, h, λ k less free. free (omega (arith, less)))
  cleanup_from-StandsFor (suc n) i w s m h =
      let (w1, s1, m1, cleans, h1, freed) = cleanup_slot-StandsFor w s m i h in
      let (w', s', m', rest, h', all_freed) = cleanup_from-StandsFor n (suc i) w1 s1 m1 h1 in
      (
        w',
        s',
        m',
        rw (cleans, ◌>>=◌, rest),
        h',
        λ k less free. all_freed k (omega (arith, less)) (λ before. ground (arith, freed k, free)),
      )

  pub cleanup_all_objects-frees :
      (w : Tables Bitmap) (s : Store) (m : Named)
      → StandsFor lib model w s m
      → (w' : Tables Bitmap) × (s' : Store) × (cleanup_all_objects lib w s ≡ some (w', s'))
        × ((k : ℕ) → k < max_ds → in_use w'.lists k ≡ false)
  unfolding cleanup_all_objects
  cleanup_all_objects-frees w s m h =
      let (w', s', m', cleans, h', freed) = cleanup_from-StandsFor max_ds 0 w s m h in
      (w', s', cleans, λ k less. freed k less (λ none_before. absurd (omega (arith, none_before))))
