-- ===== src/Interp/Spec/Views.antt =====
-- Stores of the library seen as lists of numbers, for the commands of sp_prj1/20241620/main.c.
use system_programming.Base.{
  ℕ, ℤ, false, some, List, [], ◌∷◌, ◌++◌, map, ◌≡◌, ◌≢◌, refl, ap, ◌∙◌, ◌⊎◌, inl, inr, suc, length,
}
use system_programming.Interp.{print_int}
use system_programming.Interp.Library.{Library, ◌>>=◌}
use system_programming.Interp.Items.{make_list_item}
use system_programming.Interp.Spec.{is_nil, all_but_last, print_last}
use system_programming.Interp.Spec.Laws.{ListModel, ListLaws, values, Same, Changed}

module _ {A : Type 0} where
  pub list-cases : (xs : List A) → (xs ≡ []) ⊎ ((x : A) × (ys : List A) × (xs ≡ x ∷ ys))
  list-cases [] = inl refl
  list-cases (x ∷ xs) = inr (x, xs, refl)

  pub last-cases : (xs : List A) → (xs ≡ []) ⊎ ((ys : List A) × (x : A) × (xs ≡ ys ++ x ∷ []))
  last-cases [] = inl refl
  last-cases (x ∷ xs) = elim (last-cases xs) [
    | inl e ↦ inr ([], x, ap (λ (l : List A). x ∷ l) e)
    | inr (ys, y, e) ↦ inr (x ∷ ys, y, ap (λ (l : List A). x ∷ l) e)
  ]

  pub is_nil-snoc : (xs : List A) (x : A) → is_nil (xs ++ x ∷ []) ≡ false
  is_nil-snoc [] x = refl
  is_nil-snoc (y ∷ xs) x = refl

pub all_but_last-snoc : (vs : List ℤ) (v : ℤ) → all_but_last (vs ++ v ∷ []) ≡ vs
all_but_last-snoc [] v = refl
all_but_last-snoc (w ∷ []) v = refl
all_but_last-snoc (w ∷ u ∷ vs) v = ap (λ (l : List ℤ). w ∷ l) (all_but_last-snoc (u ∷ vs) v)

pub print_last-snoc : (vs : List ℤ) (v : ℤ) → print_last (vs ++ v ∷ []) ≡ print_int v
print_last-snoc [] v = refl
print_last-snoc (w ∷ []) v = refl
print_last-snoc (w ∷ u ∷ vs) v = print_last-snoc (u ∷ vs) v

module _ (lib : Library) (model : ListModel lib) (laws : ListLaws lib model) where
  open lib use {Store, Elem}
  open model use {view, IsList, Fresh, Loose}

  abbrev pub numbers : List (Elem × ℤ) → List ℤ
  numbers xs = map (λ x. x.1) xs

  pub numbers-append : (xs ys : List (Elem × ℤ)) → numbers (xs ++ ys) ≡ numbers xs ++ numbers ys
  numbers-append [] ys = refl
  numbers-append (x ∷ xs) ys = ap (λ (l : List ℤ). x.1 ∷ l) (numbers-append xs ys)

  pub length-numbers : (xs : List (Elem × ℤ)) → length (numbers xs) ≡ length xs
  length-numbers [] = refl
  length-numbers (x ∷ xs) = ap suc (length-numbers xs)

  pub is_nil-numbers : (xs : List (Elem × ℤ)) → is_nil (numbers xs) ≡ is_nil xs
  is_nil-numbers [] = refl
  is_nil-numbers (x ∷ xs) = refl

  Same-refl : (s : Store) → Same lib model s s
  Same-refl s k h = (h, refl)

  Same-Same : (s s1 s2 : Store) → Same lib model s s1 → Same lib model s1 s2 → Same lib model s s2
  Same-Same s s1 s2 h k l at = let (at1, e1) = h l at in let (at2, e2) = k l at1 in (at2, e2 ∙ e1)

  pub Same-Changed :
      (s s1 s2 : Store) (l : ℕ) (xs : List (Elem × ℤ))
      → Same lib model s s1
      → Changed lib model s1 s2 l xs
      → Changed lib model s s2 l xs
  Same-Changed s s1 s2 l xs h (at, e, others) = (
    at,
    e,
    λ k ne has. let (has1, e1) = h k has in let (has2, e2) = others k ne has1 in (has2, e2 ∙ e1),
  )

  pub Changed-Same :
      (s s1 s2 : Store) (l : ℕ) (xs : List (Elem × ℤ))
      → Changed lib model s s1 l xs
      → Same lib model s1 s2
      → Changed lib model s s2 l xs
  Changed-Same s s1 s2 l xs (at, e, others) h =
      let (at2, e2) = h l at in
      (
        at2,
        e2 ∙ e,
        λ k ne has.
            let (has1, e1) = others k ne has in let (has2, e3) = h k has1 in (has2, e3 ∙ e1),
      )

  -- A list stands for these numbers, and the others for what they stood for.
  abbrev pub Becomes : Store → Store → ℕ → List ℤ → Type 0
  Becomes s s' l vs =
      IsList s' l
      × (values lib model s' l ≡ vs)
      × ((k : ℕ)
          → k ≢ l
          → IsList s k
          → IsList s' k × (values lib model s' k ≡ values lib model s k))

  pub Changed-Becomes :
      (s s' : Store) (l : ℕ) (xs : List (Elem × ℤ)) (vs : List ℤ)
      → Changed lib model s s' l xs
      → numbers xs ≡ vs
      → Becomes s s' l vs
  Changed-Becomes s s' l xs vs (at, e, others) h =
      (at, ap numbers e ∙ h, λ k ne has. ((others k ne has).0, ap numbers (others k ne has).1))

  pub Becomes-refl : (s : Store) (l : ℕ) → IsList s l → Becomes s s l (values lib model s l)
  Becomes-refl s l h = (h, refl, λ k ne has. (has, refl))

  -- A new item with a value.
  pub make_list_item-Loose :
      (v : ℤ) (s : Store)
      → (e : Elem) × (s' : Store) × (make_list_item lib v s ≡ some (some e, s'))
        × Loose s' e v
        × Same lib model s s'
  unfolding make_list_item
  make_list_item-Loose v s =
      let (e, s1, mallocs, fresh, same1) = laws.malloc s in
      let (s2, sets, loose, same2) = laws.set_item s1 e v fresh in
      (e, s2, rw (mallocs, ◌>>=◌, sets), loose, Same-Same s s1 s2 same1 same2)
