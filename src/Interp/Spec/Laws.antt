-- ===== src/Interp/Spec/Laws.antt =====
-- What list.h promises of the functions that the commands on lists of sp_prj1/20241620/main.c call.
use system_programming.Base.{ℕ, ℤ, some, List, [], ◌∷◌, ◌++◌, map, ◌≡◌, ◌≢◌}
use system_programming.Interp.Library.{Library}
use system_programming.Interp.Items.{lt_int, list_item_less}
use system_programming.Interp.Chain.{HoldsItems}
use system_programming.Interp.Spec.{is_nil, reversed, insert_value, sorted, extreme}

-- A store of the library in which `view` names the elements of each list with their values. `IsList`
-- holds of a list that was initialised and is linked properly; a new item is `Fresh`, and `Loose` from
-- its value on; one that was taken from a list is `Taken`.
pub record ListModel (lib : Library) : Type 1 where
  pub view : lib.Store → ℕ → List (lib.Elem × ℤ)
  pub stop : lib.Store → ℕ → lib.Elem
  pub IsList : lib.Store → ℕ → Type 0
  pub Fresh : lib.Store → lib.Elem → Type 0
  pub Loose : lib.Store → lib.Elem → ℤ → Type 0
  pub Taken : lib.Store → lib.Elem → Type 0

module _ (lib : Library) (model : ListModel lib) where
  open lib use {Store, Elem}
  open model use {view, stop, IsList, Fresh, Loose, Taken}

  abbrev pub values : Store → ℕ → List ℤ
  values s l = map (λ x. x.1) (view s l)

  -- No list has changed.
  abbrev pub Same : Store → Store → Type 0
  Same s s' = (k : ℕ) → IsList s k → IsList s' k × (view s' k ≡ view s k)

  -- The list `l` may have changed, and no other.
  abbrev pub Changed : Store → Store → ℕ → List (Elem × ℤ) → Type 0
  Changed s s' l xs =
      IsList s' l
      × (view s' l ≡ xs)
      × ((k : ℕ) → k ≢ l → IsList s k → IsList s' k × (view s' k ≡ view s k))

  -- What list.h says of the functions; there is memory for every item.
  pub record ListLaws : Type 0 where
    pub malloc :
        (s : Store)
        → (e : Elem) × (s' : Store) × (lib.malloc_item s ≡ some (some e, s'))
          × Fresh s' e
          × Same s s'
    pub init :
        (s : Store) (l : ℕ) → (s' : Store) × (lib.list_init l s ≡ some (tt, s')) × Changed s s' l []
    pub set_item :
        (s : Store) (e : Elem) (v : ℤ)
        → Fresh s e
        → (s' : Store) × (lib.set_value e v s ≡ some (tt, s')) × Loose s' e v × Same s s'
    pub free :
        (s : Store) (e : Elem)
        → Taken s e
        → (s' : Store) × (lib.free_item e s ≡ some (tt, s')) × Same s s'
    pub add_front :
        (s : Store) (l : ℕ) (e : Elem) (v : ℤ)
        → IsList s l
        → Loose s e v
        → (s' : Store) × (lib.list_push_front l e s ≡ some (tt, s'))
          × Changed s s' l ((e, v) ∷ view s l)
    pub add_back :
        (s : Store) (l : ℕ) (e : Elem) (v : ℤ)
        → IsList s l
        → Loose s e v
        → (s' : Store) × (lib.list_push_back l e s ≡ some (tt, s'))
          × Changed s s' l (view s l ++ (e, v) ∷ [])
    pub take_front :
        (s : Store) (l : ℕ) (e : Elem) (v : ℤ) (xs : List (Elem × ℤ))
        → IsList s l
        → view s l ≡ (e, v) ∷ xs
        → (s' : Store) × (lib.list_pop_front l s ≡ some (e, s')) × Taken s' e × Changed s s' l xs
    pub take_back :
        (s : Store) (l : ℕ) (e : Elem) (v : ℤ) (xs : List (Elem × ℤ))
        → IsList s l
        → view s l ≡ xs ++ (e, v) ∷ []
        → (s' : Store) × (lib.list_pop_back l s ≡ some (e, s')) × Taken s' e × Changed s s' l xs
    pub unlink :
        (s : Store) (l : ℕ) (e : Elem) (v : ℤ) (xs ys : List (Elem × ℤ))
        → IsList s l
        → view s l ≡ xs ++ (e, v) ∷ ys
        → (s' : Store) × (lib.list_remove e s ≡ some (tt, s'))
          × Taken s' e
          × Changed s s' l (xs ++ ys)
    pub add_ordered :
        (s : Store) (l : ℕ) (e : Elem) (v : ℤ)
        → IsList s l
        → Loose s e v
        → (s' : Store) × (xs : List (Elem × ℤ)) × (lib.list_insert_ordered l e
              (list_item_less lib)
              s
            ≡ some (tt, s'))
          × Changed s s' l xs
          × (map (λ x. x.1) xs ≡ insert_value v (values s l))
    pub greatest :
        (s : Store) (l : ℕ) (x : Elem × ℤ) (xs : List (Elem × ℤ))
        → IsList s l
        → view s l ≡ x ∷ xs
        → (e : Elem) × (ys : List (Elem × ℤ)) × (zs : List (Elem × ℤ)) × (lib.list_max l
              (list_item_less lib)
              s
            ≡ some (e, s))
          × (view s l ≡ ys ++ (e, extreme lt_int x.1 (map (λ x. x.1) xs)) ∷ zs)
    pub least :
        (s : Store) (l : ℕ) (x : Elem × ℤ) (xs : List (Elem × ℤ))
        → IsList s l
        → view s l ≡ x ∷ xs
        → (e : Elem) × (ys : List (Elem × ℤ)) × (zs : List (Elem × ℤ)) × (lib.list_min l
              (list_item_less lib)
              s
            ≡ some (e, s))
          × (view s l ≡ ys ++ (e, extreme (λ a b. lt_int b a) x.1 (map (λ x. x.1) xs)) ∷ zs)
    pub first :
        (s : Store) (l : ℕ) (e : Elem) (v : ℤ) (xs : List (Elem × ℤ))
        → IsList s l
        → view s l ≡ (e, v) ∷ xs
        → lib.list_front l s ≡ some (e, s)
    pub last :
        (s : Store) (l : ℕ) (e : Elem) (v : ℤ) (xs : List (Elem × ℤ))
        → IsList s l
        → view s l ≡ xs ++ (e, v) ∷ []
        → lib.list_back l s ≡ some (e, s)
    pub read :
        (s : Store) (l : ℕ) (e : Elem) (v : ℤ) (xs ys : List (Elem × ℤ))
        → IsList s l
        → view s l ≡ xs ++ (e, v) ∷ ys
        → lib.value e s ≡ some (v, s)
    pub test_empty :
        (s : Store) (l : ℕ) → IsList s l → lib.list_empty l s ≡ some (is_nil (view s l), s)
    pub turn :
        (s : Store) (l : ℕ)
        → IsList s l
        → (s' : Store) × (xs : List (Elem × ℤ)) × (lib.list_reverse l s ≡ some (tt, s'))
          × Changed s s' l xs
          × (map (λ x. x.1) xs ≡ reversed (values s l))
    pub order :
        (s : Store) (l : ℕ)
        → IsList s l
        → (s' : Store) × (xs : List (Elem × ℤ)) × (lib.list_sort l (list_item_less lib) s
            ≡ some (tt, s'))
          × Changed s s' l xs
          × (map (λ x. x.1) xs ≡ sorted (values s l))
    pub holds : (s : Store) (l : ℕ) → IsList s l → HoldsItems lib s l (view s l) (stop s l)
