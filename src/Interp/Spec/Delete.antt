-- ===== src/Interp/Spec/Delete.antt =====
-- `delete` of a list in sp_prj1/20241620/main.c against the specification.
use system_programming.Base.{
  ℕ, zero, suc, ◌-◌, ℤ, Bool-cases, false, Option, none, some, List, [], ◌≡◌, ◌≢◌, ◌∙◌, refl, sym,
  ap, inl, inr, arith, length, map,
}
use system_programming.Shell.Text.{Text}
use system_programming.Shell.Builtins.{same_text}
use system_programming.Interp.{Slot, codes, find_used, release, is_word}
use system_programming.Interp.Names.{find_used-release, same_text-eq, same_text_refl}
use system_programming.Interp.Library.{Library, ◌>>=◌, ◌>>◌}
use system_programming.Interp.Items.{destroy_from, empty_list}
use system_programming.Interp.Sound.{length-release}
use system_programming.Interp.World.{Tables, do_delete, delete_ref, destroy_list}
use system_programming.Interp.Objects.{run_tokens-unknown}
use system_programming.Interp.Main.{goes_on, dispatch, run_tokens}
use system_programming.Interp.Spec.Laws.{ListModel, ListLaws, Changed}
use system_programming.Interp.Spec.Views.{list-cases, Changed-Same}
use system_programming.Interp.Spec.Lines.{find_object-list}
use system_programming.Interp.Spec.Slots.{
  other_slot, count_used-release, HasNames-release, find_used-gone,
}
use system_programming.Interp.Spec.Objects.{
  Named, delete, exec, rename, command_words, StandsFor, absent_object,
}

differs : (name other : Text) → same_text other name ≡ false → name ≢ other
differs name other n e = let self = same_text_refl name in cc

module _ (lib : Library) (model : ListModel lib) (laws : ListLaws lib model) where
  open lib use {Store, Elem, Bitmap}
  open model use {view, stop, IsList}

  Changed-Changed :
      (s s1 s2 : Store) (l : ℕ) (xs ys : List (Elem × ℤ))
      → Changed lib model s s1 l xs
      → Changed lib model s1 s2 l ys
      → Changed lib model s s2 l ys
  Changed-Changed s s1 s2 l xs ys (at1, e1, others1) (at2, e2, others2) = (
    at2,
    e2,
    λ k ne has.
        let (has1, f1) = others1 k ne has in let (has2, f2) = others2 k ne has1 in (has2, f2 ∙ f1),
  )

  destroy_from-nil :
      (n : ℕ) (s : Store) (l : ℕ)
      → IsList s l
      → view s l ≡ []
      → (s' : Store) × (destroy_from lib (suc n) l s ≡ some (tt, s')) × Changed lib model s s' l []
  unfolding destroy_from
  destroy_from-nil n s l at e =
      (s, rw (laws.test_empty s l at, ◌>>=◌, e), (at, e, λ k ne has. (has, refl)))

  -- The loop of `destroy_list` ends, and leaves the list empty and the others as they were.
  destroy_from-Changed :
      (n : ℕ) (s : Store) (l : ℕ)
      → IsList s l
      → length (view s l) ≡ n
      → (s' : Store) × (destroy_from lib (suc n) l s ≡ some (tt, s')) × Changed lib model s s' l []
  unfolding destroy_from
  destroy_from-Changed zero s l at size = elim (list-cases (view s l)) [
    | inl e ↦ destroy_from-nil zero s l at e
    | inr (x, xs, e) ↦ let some_item = ap length e in absurd (omega (arith, size, some_item))
  ]
  destroy_from-Changed (suc n) s l at size = elim (list-cases (view s l)) [
    | inl e ↦ destroy_from-nil (suc n) s l at e
    | inr (x, xs, e) ↦
        let (s1, pops, taken, changed) = laws.take_front s l x.0 x.1 xs at e in
        let (s2, frees, same) = laws.free s1 x.0 taken in
        let after = Changed-Same lib model laws s s1 s2 l xs changed same in
        let counted = ap length e in
        let left = ap length after.1 in
        let (s', runs, empty) =
          destroy_from-Changed n s2 l after.0 (omega (arith, size, counted, left)) in
        (
          s',
          rw (laws.test_empty s l at, ◌>>=◌, e, pops, ◌>>◌, frees, runs),
          Changed-Changed s s2 s' l xs [] after empty,
        )
  ]

  pub empty_list-Changed :
      (s : Store) (l : ℕ)
      → IsList s l
      → (s' : Store) × (empty_list lib l s ≡ some (tt, s')) × Changed lib model s s' l []
  unfolding empty_list
  empty_list-Changed s l at =
      let (s', runs, changed) = destroy_from-Changed (length (view s l)) s l at refl in
      (s', rw ((laws.holds s l at).size, ◌>>=◌, runs), changed)

  pub released-StandsFor :
      (w : Tables Bitmap) (s s' : Store) (m : Named) (name : Text) (i : ℕ)
      → StandsFor lib model w s m
      → find_used name w.lists ≡ some i
      → Changed lib model s s' i []
      → StandsFor lib model
          (record w { lists = release i w.lists })
          s'
          (rename name none (m.count - 1) m)
  released-StandsFor w s s' m name i h found (at, becomes, others) =
      let gone = find_used-gone name w.lists i h.names found in
      record {
        no_hash = h.no_hash;
        no_bitmap = h.no_bitmap;
        list = λ other j f. elim (Bool-cases (same_text other name)) [
          | inl y ↦ let e = same_text-eq other name y in cc
          | inr n ↦
              let differ : name ≢ other = differs name other n in
              let f' : find_used other w.lists ≡ some j =
                sym (find_used-release name other w.lists i found differ) ∙ f in
              let (has, kept) =
                others j (other_slot w.lists name other i j n found f') (h.list other j f').0 in
              rw n (has, (h.list other j f').1 ∙ ap some (sym (ap (map (λ x. x.1)) kept)))
        ];
        absent = λ other f. elim (Bool-cases (same_text other name)) [
          | inl y ↦ rw y
          | inr n ↦
              let differ : name ≢ other = differs name other n in
              rw n (h.absent other (sym (find_used-release name other w.lists i found differ) ∙ f))
        ];
        names = HasNames-release w.lists i h.names;
        count = omega (arith, count_used-release name w.lists i found, h.count);
        size = length-release (λ (slot : Slot (Unit {0})). Unit {0}) w.lists i ∙ h.size;
      }

  -- The line deletes the list of the name, or does nothing if there is none.
  pub delete-StandsFor :
      (w : Tables Bitmap) (s : Store) (m : Named) (name : Text)
      → StandsFor lib model w s m
      → let (m', out) = exec (delete name) m in
        (w' : Tables Bitmap) × (s' : Store) × (run_tokens lib w (command_words (delete name)) s
          ≡ some (goes_on w' out, s'))
        × StandsFor lib model w' s' m'
  unfolding run_tokens dispatch is_word do_delete delete_ref destroy_list
  delete-StandsFor w s m name h = go (find_used name w.lists) refl
    where
      go :
          (r : Option ℕ)
          → find_used name w.lists ≡ r
          → let (m', out) = exec (delete name) m in
            (w' : Tables Bitmap) × (s' : Store) × (run_tokens lib w (command_words (delete name)) s
              ≡ some (goes_on w' out, s'))
            × StandsFor lib model w' s' m'
      go none e = rw (h.absent name e) (
        w,
        s,
        run_tokens-unknown lib w (codes "delete") name [] s refl refl
            (absent_object lib model w s m name h e),
        h,
      )
      go (some i) e =
          let (at, has) = h.list name i e in
          let (s', empties, changed) = empty_list-Changed s i at in
          rw has (
            record w { lists = release i w.lists },
            s',
            rw (find_object-list lib model laws w name i e, ◌>>=◌, empties),
            released-StandsFor w s s' m name i h e changed,
          )
