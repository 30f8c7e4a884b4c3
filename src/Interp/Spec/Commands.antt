-- ===== src/Interp/Spec/Commands.antt =====
-- What the functions behind the commands on lists of sp_prj1/20241620/main.c do, against the
-- specification of lists of numbers.
use system_programming.Base.{
  ℕ, ℤ, false, some, List, [], ◌∷◌, ◌++◌, ◌≡◌, refl, subst, ◌∙◌, inl, inr,
}
use system_programming.Shell.Text.{Text}
use system_programming.Interp.{Out, print_int, atoi}
use system_programming.Interp.Library.{Library, Run, ◌>>=◌, ◌>>◌}
use system_programming.Interp.Lists.{push_new, pop_free, show_elem}
use system_programming.Interp.Spec.{Op, pop_front, pop_back, front, back, step, is_nil}
use system_programming.Interp.Spec.Laws.{ListModel, ListLaws, values, Changed}
use system_programming.Interp.Spec.Views.{
  list-cases, last-cases, is_nil-snoc, all_but_last-snoc, print_last-snoc, numbers, numbers-append,
  Same-Changed, Changed-Same, Becomes, Changed-Becomes, Becomes-refl, make_list_item-Loose,
}

module _ (lib : Library) (model : ListModel lib) (laws : ListLaws lib model) where
  open lib use {
    Store, Elem, list_push_front, list_push_back, list_pop_front, list_pop_back, list_front,
    list_back, free_item, list_empty, list_size,
  }
  open model use {view, IsList, Loose, Taken}

  abbrev pub nums : List (Elem × ℤ) → List ℤ
  nums xs = numbers lib model laws xs

  -- A command prints what the specification says, and so the list then stands for these numbers.
  abbrev pub Refines : Run Store (List Out) → Store → ℕ → Op → Type 0
  Refines m s l op =
      let (vs, out) = step op (values lib model s l) in
      (s' : Store) × (m s ≡ some (out, s')) × Becomes lib model laws s s' l vs

  pub push_new-Changed :
      (push : ℕ → Elem → Run Store (Unit {0})) (add : Elem × ℤ → List (Elem × ℤ) → List (Elem × ℤ))
      (l : ℕ) (arg : Text) (s : Store)
      → ((s : Store) (e : Elem) (v : ℤ)
          → IsList s l
          → Loose s e v
          → (s' : Store) × (push l e s ≡ some (tt, s'))
            × Changed lib model s s' l (add (e, v) (view s l)))
      → IsList s l
      → (s' : Store) × (e : Elem) × (push_new lib push l arg s ≡ some ([], s'))
        × Changed lib model s s' l (add (e, atoi arg) (view s l))
  unfolding push_new
  push_new-Changed push add l arg s law at =
      let (e, s1, makes, loose, same) = make_list_item-Loose lib model laws (atoi arg) s in
      let (at1, seen) = same l at in
      let (s2, pushes, changed) = law s1 e (atoi arg) at1 loose in
      (
        s2,
        e,
        rw (makes, ◌>>=◌, pushes, ◌>>◌),
        subst (λ xs. Changed lib model s s2 l (add (e, atoi arg) xs)) seen
            (Same-Changed lib model laws s s1 s2 l _ same changed),
      )

  pub pop_free-Changed :
      (pop : ℕ → Run Store Elem) (l : ℕ) (s s1 : Store) (e : Elem) (xs : List (Elem × ℤ))
      → IsList s l
      → is_nil (view s l) ≡ false
      → pop l s ≡ some (e, s1)
      → Taken s1 e
      → Changed lib model s s1 l xs
      → (s' : Store) × (pop_free lib pop l s ≡ some ([], s'))
        × Becomes lib model laws s s' l (nums xs)
  unfolding pop_free
  pop_free-Changed pop l s s1 e xs at ne pops taken changed =
      let (s2, frees, same) = laws.free s1 e taken in
      (
        s2,
        rw (laws.test_empty s l at, ◌>>=◌, ne, pops, frees, ◌>>◌),
        Changed-Becomes lib model laws s s2 l xs (nums xs)
            (Changed-Same lib model laws s s1 s2 l xs changed same) refl,
      )

  pub pop_free-nil :
      (pop : ℕ → Run Store Elem) (l : ℕ) (s : Store)
      → IsList s l
      → view s l ≡ []
      → pop_free lib pop l s ≡ some ([], s)
  unfolding pop_free
  pop_free-nil pop l s at e = rw (laws.test_empty s l at, ◌>>=◌, e)

  pub show_elem-some :
      (get : ℕ → Run Store Elem) (l : ℕ) (s : Store) (e : Elem) (v : ℤ) (xs ys : List (Elem × ℤ))
      → IsList s l
      → is_nil (view s l) ≡ false
      → view s l ≡ xs ++ (e, v) ∷ ys
      → get l s ≡ some (e, s)
      → show_elem lib get l s ≡ some (print_int v, s)
  unfolding show_elem
  show_elem-some get l s e v xs ys at ne seen gets =
      rw (laws.test_empty s l at, ◌>>=◌, ne, gets, laws.read s l e v xs ys at seen)

  pub show_elem-nil :
      (get : ℕ → Run Store Elem) (l : ℕ) (s : Store)
      → IsList s l
      → view s l ≡ []
      → show_elem lib get l s ≡ some ([], s)
  unfolding show_elem
  show_elem-nil get l s at e = rw (laws.test_empty s l at, ◌>>=◌, e)

  pub unchanged :
      (s : Store) (l : ℕ) (vs : List ℤ)
      → IsList s l
      → values lib model s l ≡ vs
      → Becomes lib model laws s s l vs
  unchanged s l vs at e =
      subst (Becomes lib model laws s s l) e (Becomes-refl lib model laws s l at)

  pub pop_front-Refines :
      (l : ℕ) (s : Store) → IsList s l → Refines (pop_free lib list_pop_front l) s l pop_front
  pop_front-Refines l s at = elim (list-cases (view s l)) [
    | inl e ↦ (s, pop_free-nil list_pop_front l s at e, unchanged s l _ at (rw e))
    | inr (x, xs, e) ↦
        let (s1, pops, taken, changed) = laws.take_front s l x.0 x.1 xs at e in
        let (s', runs, becomes) =
          pop_free-Changed list_pop_front l s s1 x.0 xs at (rw e) pops taken changed in
        (s', runs, rw e becomes)
  ]

  pub pop_back-Refines :
      (l : ℕ) (s : Store) → IsList s l → Refines (pop_free lib list_pop_back l) s l pop_back
  pop_back-Refines l s at = elim (last-cases (view s l)) [
    | inl e ↦ (s, pop_free-nil list_pop_back l s at e, unchanged s l _ at (rw e))
    | inr (xs, x, e) ↦
        let (s1, pops, taken, changed) = laws.take_back s l x.0 x.1 xs at e in
        let (s', runs, becomes) =
          pop_free-Changed list_pop_back l s s1 x.0 xs at (rw e (is_nil-snoc xs x)) pops taken
            changed in
        let cut = all_but_last-snoc (nums xs) x.1 in
        (s', runs, rw (e, numbers-append lib model laws xs (x ∷ []), cut) becomes)
  ]

  pub front-Refines :
      (l : ℕ) (s : Store) → IsList s l → Refines (show_elem lib list_front l) s l front
  front-Refines l s at = elim (list-cases (view s l)) [
    | inl e ↦ (s, rw (show_elem-nil list_front l s at e, e), Becomes-refl lib model laws s l at)
    | inr (x, xs, e) ↦ (
      s,
      rw (
        show_elem-some list_front l s x.0 x.1 [] xs at (rw e) e (laws.first s l x.0 x.1 xs at e),
        e,
      ),
      Becomes-refl lib model laws s l at,
    )
  ]

  pub back-Refines : (l : ℕ) (s : Store) → IsList s l → Refines (show_elem lib list_back l) s l back
  back-Refines l s at = elim (last-cases (view s l)) [
    | inl e ↦ (s, rw (show_elem-nil list_back l s at e, e), Becomes-refl lib model laws s l at)
    | inr (xs, x, e) ↦ (
      s,
      show_elem-some list_back l s x.0 x.1 xs [] at (rw e (is_nil-snoc xs x)) e
            (laws.last s l x.0 x.1 xs at e)
          ∙ rw (e, numbers-append lib model laws xs (x ∷ []), print_last-snoc (nums xs) x.1),
      Becomes-refl lib model laws s l at,
    )
  ]
