-- ===== src/Interp/Spec/Ordered.antt =====
-- The commands of sp_prj1/20241620/main.c that go by positions or by the order of the values.
use system_programming.Base.{
  ℕ, zero, suc, ℤ, pos, negsuc, Bool, Option, none, some, List, [], ◌∷◌, ◌++◌, ◌≡◌, ◌∙◌, refl, ap,
  inl, inr, map, get_elem?,
}
use mathlib.Core.Option
use system_programming.Shell.Text.{Text}
use system_programming.Interp.{Out, atoi}
use system_programming.Interp.Library.{Library, Run, ◌>>=◌, ◌>>◌, pure}
use system_programming.Interp.Items.{lt_int, list_item_less}
use system_programming.Interp.Chain.{elem_of, list_elem_at-HoldsItems}
use system_programming.Interp.Lists.{quiet, show_elem, remove_at, insert_in_order}
use system_programming.Interp.Spec.{
  remove, insert_ordered, max, min, without, removed, extreme, print_extreme, insert_value,
}
use system_programming.Interp.Spec.Laws.{ListModel, ListLaws, values}
use system_programming.Interp.Spec.Views.{
  list-cases, numbers, Changed-Same, Same-Changed, Becomes, Changed-Becomes, Becomes-refl,
  make_list_item-Loose,
}
use system_programming.Interp.Spec.Commands.{Refines, show_elem-some, show_elem-nil, unchanged}

module _ {E : Type 0} where
  abbrev seconds : List (E × ℤ) → List ℤ
  seconds xs = map (λ x. x.1) xs

  split_at :
      (xs : List (E × ℤ)) (n : ℕ) (x : E × ℤ)
      → get_elem? xs n ≡ some x
      → (ys : List (E × ℤ)) × (zs : List (E × ℤ)) × (xs ≡ ys ++ x ∷ zs)
        × (seconds (ys ++ zs) ≡ without n (seconds xs))
  split_at [] n x h = cc
  split_at (y ∷ xs) zero x h = ([], xs, cc, refl)
  split_at (y ∷ xs) (suc n) x h =
      let (ys, zs, e, f) = split_at xs n x h in
      (y ∷ ys, zs, ap (λ (l : List (E × ℤ)). y ∷ l) e, ap (λ (l : List ℤ). y.1 ∷ l) f)

  without-beyond :
      (xs : List (E × ℤ)) (n : ℕ) → get_elem? xs n ≡ none → seconds xs ≡ without n (seconds xs)
  without-beyond [] n h = refl
  without-beyond (y ∷ xs) zero h = cc
  without-beyond (y ∷ xs) (suc n) h = ap (λ (l : List ℤ). y.1 ∷ l) (without-beyond xs n h)

module _ (lib : Library) (model : ListModel lib) (laws : ListLaws lib model) where
  open lib use {Store, Elem, list_remove, free_item, list_max, list_min}
  open model use {view, stop, IsList}

  abbrev take_out : Option Elem → Run Store (List Out)
  take_out found = elim found [ none ↦ pure [] | some e ↦ (do list_remove e; quiet (free_item e)) ]

  take_out-Becomes :
      (s : Store) (l n : ℕ) (r : Option (Elem × ℤ))
      → IsList s l
      → get_elem? (view s l) n ≡ r
      → (s' : Store) × (take_out (Option.map (λ (x : Elem × ℤ). x.0) r) s ≡ some ([], s'))
        × Becomes lib model laws s s' l (without n (values lib model s l))
  take_out-Becomes s l n none at e =
      (s, refl, unchanged lib model laws s l _ at (without-beyond (view s l) n e))
  take_out-Becomes s l n (some x) at e =
      let (ys, zs, split, f) = split_at (view s l) n x e in
      let (s1, removes, taken, changed) = laws.unlink s l x.0 x.1 ys zs at split in
      let (s2, frees, same) = laws.free s1 x.0 taken in
      (
        s2,
        rw (removes, ◌>>=◌, ◌>>◌, frees),
        Changed-Becomes lib model laws s s2 l (ys ++ zs) _
            (Changed-Same lib model laws s s1 s2 l (ys ++ zs) changed same) f,
      )

  removed-Becomes :
      (s : Store) (l : ℕ) (idx : ℤ)
      → IsList s l
      → (s' : Store) × (take_out (elem_of lib (view s l) idx) s ≡ some ([], s'))
        × Becomes lib model laws s s' l (removed idx (values lib model s l))
  removed-Becomes s l (negsuc n) at = (s, refl, Becomes-refl lib model laws s l at)
  removed-Becomes s l (pos n) at = take_out-Becomes s l n (get_elem? (view s l) n) at refl

  pub remove-Refines :
      (idx : Text) (l : ℕ) (s : Store)
      → IsList s l
      → Refines lib model laws (remove_at lib l idx) s l (remove idx)
  unfolding remove_at
  remove-Refines idx l s at =
      let (s', runs, becomes) = removed-Becomes s l (atoi idx) at in
      (
        s',
        rw
            (
              list_elem_at-HoldsItems lib s l (view s l) (stop s l) (atoi idx) (laws.holds s l at),
              ◌>>=◌,
            )
            runs,
        becomes,
      )

  pub insert_ordered-Refines :
      (arg : Text) (l : ℕ) (s : Store)
      → IsList s l
      → Refines lib model laws (insert_in_order lib l arg) s l (insert_ordered arg)
  unfolding insert_in_order
  insert_ordered-Refines arg l s at =
      let (e, s1, makes, loose, same) = make_list_item-Loose lib model laws (atoi arg) s in
      let (at1, seen) = same l at in
      let (s2, xs, inserts, changed, ordered) = laws.add_ordered s1 l e (atoi arg) at1 loose in
      (
        s2,
        rw (makes, ◌>>=◌, inserts, ◌>>◌),
        Changed-Becomes lib model laws s s2 l xs _
            (Same-Changed lib model laws s s1 s2 l xs same changed)
            (ordered ∙ ap (λ ys. insert_value (atoi arg) (numbers lib model laws ys)) seen),
      )

  -- A command that prints the value of an element with the greatest or the least value.
  extreme-Becomes :
      (exceeded : ℤ → ℤ → Bool) (get : ℕ → Run Store Elem) (l : ℕ) (s : Store)
      → ((x : Elem × ℤ) (xs : List (Elem × ℤ))
          → view s l ≡ x ∷ xs
          → (e : Elem) × (ys : List (Elem × ℤ)) × (zs : List (Elem × ℤ)) × (get l s ≡ some (e, s))
            × (view s l ≡ ys ++ (e, extreme exceeded x.1 (map (λ x. x.1) xs)) ∷ zs))
      → IsList s l
      → (s' : Store) × (show_elem lib get l s
          ≡ some (print_extreme exceeded (values lib model s l), s'))
        × Becomes lib model laws s s' l (values lib model s l)
  extreme-Becomes exceeded get l s law at = elim (list-cases (view s l)) [
    | inl e ↦
        (s, rw (show_elem-nil lib model laws get l s at e, e), Becomes-refl lib model laws s l at)
    | inr (x, xs, e) ↦
        let (best, ys, zs, gets, seen) = law x xs e in
        (
          s,
          show_elem-some lib model laws get l s best _ ys zs at (rw e) seen gets ∙ rw e,
          Becomes-refl lib model laws s l at,
        )
  ]

  pub max-Refines :
      (l : ℕ) (s : Store)
      → IsList s l
      → Refines lib model laws (show_elem lib (λ l. list_max l (list_item_less lib)) l) s l max
  max-Refines l s at =
      extreme-Becomes lt_int (λ l. list_max l (list_item_less lib)) l s
        (λ x xs e. laws.greatest s l x xs at e) at

  pub min-Refines :
      (l : ℕ) (s : Store)
      → IsList s l
      → Refines lib model laws (show_elem lib (λ l. list_min l (list_item_less lib)) l) s l min
  min-Refines l s at =
      extreme-Becomes (λ a b. lt_int b a) (λ l. list_min l (list_item_less lib)) l s
        (λ x xs e. laws.least s l x xs at e) at
