-- ===== src/Interp/Sound.antt =====
-- What holds of the tables of sp_prj1/20241620/main.c whatever is read.
pub mod Objects
pub mod Loop
use mathlib.Core.Option
use system_programming.Base.{
  ℕ, zero, suc, ℤ, Bool, true, false, not, Option, none, some, List, [], ◌∷◌, ◌++◌, ◌≡◌, ◌≢◌, refl,
  ap, subst, sym, ◌∙◌, All, arith, length, set, length-set, replicate, get_elem?, if◌then◌else◌,
  Bool-cases, inl, inr, Option-cases,
}
use system_programming.Shell.Text.{Text}
use system_programming.Interp.{
  Out, max_ds, Slot, find_empty, find_used, release, new_slot, copy_name, is_word, to_size, atoi,
}
use system_programming.Interp.Library.{Library, Run, ◌>>=◌, pure}
use system_programming.Interp.Gives.{Gives, pure-Gives, bind-Gives, any-Gives}
use system_programming.Interp.Names.{NameFits, new_slot-NameFits, step-zero, step-suc}
use system_programming.Interp.Bitmaps.{
  bitmap_command, on_slot, at_slot, named_bitmap, do_bitmap_command,
}
use system_programming.Interp.World.{
  Tables, Ref, no_object, list_ref, hash_ref, bitmap_ref, no_objects, store_pointer,
  create_list_object, create_hash_object, put_bitmap, create_bitmap_object, create_kind, do_create,
  destroy_list, destroy_hash, destroy_bitmap, delete_ref, do_delete, find_object,
}

-- A slot in use has a bitmap.
abbrev pub HasPointer : {B : Type 0} → Slot (Option B) → Type 0
HasPointer slot = slot.used ≡ true → slot.object ≢ none

abbrev pub IsBitmapSlot : {B : Type 0} → Slot (Option B) → Type 0
IsBitmapSlot slot = NameFits slot × HasPointer slot

-- A table has its ten slots, each of them sound.
pub record IsSlots {A : Type 0} (P : Slot A → Type 0) (slots : List (Slot A)) : Type 0 where
  pub count : length slots ≡ max_ds
  pub each : All P slots

pub record IsTables {B : Type 0} (w : Tables B) : Type 0 where
  pub lists : IsSlots NameFits w.lists
  pub hashes : IsSlots NameFits w.hashes
  pub bitmaps : IsSlots IsBitmapSlot w.bitmaps

module _ {A : Type 0} (P : Slot A → Type 0) where
  set-All :
      (slots : List (Slot A)) (i : ℕ) (slot : Slot A)
      → All P slots
      → P slot
      → All P (set slots i slot)
  set-All [] i slot h p = tt
  set-All (s ∷ slots) zero slot h p = (p, h.1)
  set-All (s ∷ slots) (suc i) slot h p = (h.0, set-All slots i slot h.1 p)

  pub set-IsSlots :
      (slots : List (Slot A)) (i : ℕ) (slot : Slot A)
      → IsSlots P slots
      → P slot
      → IsSlots P (set slots i slot)
  set-IsSlots slots i slot h p = record {
    count = length-set slots i slot ∙ h.count;
    each = set-All slots i slot h.each p;
  }

  pub length-release : (slots : List (Slot A)) (i : ℕ) → length (release i slots) ≡ length slots
  unfolding release
  length-release [] i = refl
  length-release (s ∷ slots) zero = refl
  length-release (s ∷ slots) (suc i) = ap suc (length-release slots i)

  release-All :
      (slots : List (Slot A)) (i : ℕ)
      → ((s : Slot A) → P s → P (record s { used = false }))
      → All P slots
      → All P (release i slots)
  unfolding release
  release-All [] i keep h = tt
  release-All (s ∷ slots) zero keep h = (keep s h.0, h.1)
  release-All (s ∷ slots) (suc i) keep h = (h.0, release-All slots i keep h.1)

  pub release-IsSlots :
      (slots : List (Slot A)) (i : ℕ)
      → ((s : Slot A) → P s → P (record s { used = false }))
      → IsSlots P slots
      → IsSlots P (release i slots)
  release-IsSlots slots i keep h = record {
    count = length-release slots i ∙ h.count;
    each = release-All slots i keep h.each;
  }

  pub get_elem?-All :
      (slots : List (Slot A)) (i : ℕ) (s : Slot A) → All P slots → get_elem? slots i ≡ some s → P s
  get_elem?-All [] i s h e = cc
  get_elem?-All (t ∷ slots) zero s h e =
      subst P (ap (λ (o : Option (Slot A)). Option.get_or o t) e) h.0
  get_elem?-All (t ∷ slots) (suc i) s h e = get_elem?-All slots i s h.1 e

module _ {B : Type 0} where
  length-store_pointer :
      (slots : List (Slot (Option B))) (i : ℕ) (b : Option B)
      → length (store_pointer i b slots) ≡ length slots
  unfolding store_pointer
  length-store_pointer [] i b = refl
  length-store_pointer (s ∷ slots) zero b = refl
  length-store_pointer (s ∷ slots) (suc i) b = ap suc (length-store_pointer slots i b)

  store_pointer-All :
      (slots : List (Slot (Option B))) (i : ℕ) (b : Option B)
      → find_empty slots ≡ some i
      → All IsBitmapSlot slots
      → All IsBitmapSlot (store_pointer i b slots)
  unfolding store_pointer find_empty
  store_pointer-All [] i b e h = tt
  store_pointer-All (s ∷ slots) zero b e h =
      ((h.0.0, λ used. absurd (cc (step-zero (not s.used) (find_empty slots) e, used))), h.1)
  store_pointer-All (s ∷ slots) (suc i) b e h =
      (h.0, store_pointer-All slots i b (step-suc (not s.used) (find_empty slots) i e).1 h.1)

  pub with_lists :
      (w : Tables B) (slots : List (Slot (Unit {0})))
      → IsTables w
      → IsSlots NameFits slots
      → IsTables (record w { lists = slots })
  with_lists w slots h k = record { lists = k; hashes = h.hashes; bitmaps = h.bitmaps }

  pub with_hashes :
      (w : Tables B) (slots : List (Slot (Unit {0})))
      → IsTables w
      → IsSlots NameFits slots
      → IsTables (record w { hashes = slots })
  with_hashes w slots h k = record { lists = h.lists; hashes = k; bitmaps = h.bitmaps }

  pub with_bitmaps :
      (w : Tables B) (slots : List (Slot (Option B)))
      → IsTables w
      → IsSlots IsBitmapSlot slots
      → IsTables (record w { bitmaps = slots })
  with_bitmaps w slots h k = record { lists = h.lists; hashes = h.hashes; bitmaps = k }

  pub put_bitmap-IsTables :
      (w : Tables B) (name : Text) (i : ℕ) (b : Option B)
      → find_empty w.bitmaps ≡ some i
      → IsTables w
      → IsTables (put_bitmap w name i b)
  unfolding put_bitmap
  put_bitmap-IsTables w name i none e h =
      with_bitmaps w (store_pointer i none w.bitmaps) h (record {
        count = length-store_pointer w.bitmaps i none ∙ h.bitmaps.count;
        each = store_pointer-All w.bitmaps i none e h.bitmaps.each;
      })
  put_bitmap-IsTables w name i (some b) e h =
      with_bitmaps w (set w.bitmaps i (new_slot name (some b))) h (
        set-IsSlots IsBitmapSlot w.bitmaps i (new_slot name (some b)) h.bitmaps
          (new_slot-NameFits name (some b), λ used is_none. cc))
