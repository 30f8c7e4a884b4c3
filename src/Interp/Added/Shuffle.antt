-- ===== src/Interp/Added/Shuffle.antt =====
-- `list_shuffle` of sp_prj1/20241620/list.c over lists that hold their elements in order.
use mathlib.Core.Option
use system_programming.Base.{
  ℕ, zero, suc, ◌+◌, ◌-◌, ◌%◌, ◌<◌, Bool-cases, inl, inr, Option, some, List, ◌≡◌, refl, sym, subst,
  ap, ◌∙◌, arith, length, get_elem?, get_elem?-in, set, length-set, leb,
}
use native.Mathlib.Nat.{mod-lt}
use system_programming.Interp.Library.{◌>>=◌, ◌>>◌}
use system_programming.Interp.Added.{ShuffleOps, step_on, shuffle_from, list_shuffle}

-- The second list comes from the first by exchanging elements at two positions again and again.
pub data Shuffled {A : Type 0} : List A → List A → Type 0 where
  same : {xs : List A} → Shuffled xs xs
  exchanged :
      {xs ys : List A} (i j : ℕ) (a b : A)
      → get_elem? xs i ≡ some a
      → get_elem? xs j ≡ some b
      → Shuffled (set (set xs i b) j a) ys
      → Shuffled xs ys

-- What list.h and `rand` say of a list that holds the elements, `Holds`.
pub record ShuffleLaws (ops : ShuffleOps) (Holds : ops.Store → List ops.Elem → Type 0)
    : Type 0 where
  pub size :
      (s : ops.Store) (xs : List ops.Elem) → Holds s xs → ops.list_size s ≡ some (length xs, s)
  pub begin :
      (s : ops.Store) (xs : List ops.Elem) (x : ops.Elem)
      → Holds s xs
      → get_elem? xs 0 ≡ some x
      → ops.list_begin s ≡ some (x, s)
  pub next :
      (s : ops.Store) (xs : List ops.Elem) (i : ℕ) (x y : ops.Elem)
      → Holds s xs
      → get_elem? xs i ≡ some x
      → get_elem? xs (suc i) ≡ some y
      → ops.list_next x s ≡ some (y, s)
  pub swap :
      (s : ops.Store) (xs : List ops.Elem) (i j : ℕ) (a b : ops.Elem)
      → Holds s xs
      → get_elem? xs i ≡ some a
      → get_elem? xs j ≡ some b
      → (s' : ops.Store) × (ops.list_swap a b s ≡ some (tt, s')) × Holds s' (set (set xs i b) j a)
  pub random :
      (s : ops.Store) (xs : List ops.Elem)
      → Holds s xs
      → (r : ℕ) × (s' : ops.Store) × (ops.rand s ≡ some (r, s')) × Holds s' xs

zero_plus : (i : ℕ) → 0 + i ≡ i
zero_plus i = omega arith

module _ (ops : ShuffleOps) (Holds : ops.Store → List ops.Elem → Type 0)
    (laws : ShuffleLaws ops Holds) where
  open ops use {Store, Elem}

  step_on-Holds :
      (k i : ℕ) (s : Store) (xs : List Elem) (x y : Elem)
      → Holds s xs
      → get_elem? xs i ≡ some x
      → get_elem? xs (i + k) ≡ some y
      → i + k < length xs
      → step_on ops k x s ≡ some (y, s)
  unfolding step_on
  step_on-Holds zero i s xs x y h e f lt =
      let here : i + 0 ≡ i = omega arith in
      let e' = subst (λ m. get_elem? xs m ≡ some y) here f in
      ap (λ (o : Option Elem). Option.map (λ (z : Elem). (z, s)) o) (sym e ∙ e')
  step_on-Holds (suc k) i s xs x y h e f lt =
      let (z, at) = get_elem?-in xs (suc i) (omega arith) in
      let moved : i + suc k ≡ suc i + k = omega arith in
      rw (laws.next s xs i x z h e at, ◌>>=◌)
        (step_on-Holds k (suc i) s xs z y h at (subst (λ m. get_elem? xs m ≡ some y) moved f)
          (omega arith))

  shuffle_from-Holds :
      (n i size : ℕ) (s : Store) (xs : List Elem)
      → i + n ≡ size
      → size ≡ length xs
      → Holds s xs
      → (s' : Store) × (ys : List Elem) × (shuffle_from ops n i size s ≡ some (tt, s'))
        × Holds s' ys
        × Shuffled xs ys
  unfolding shuffle_from
  shuffle_from-Holds zero i size s xs e l h = (s, xs, refl, h, same)
  shuffle_from-Holds (suc n) i size s xs e l h =
      let (r, s1, rands, h1) = laws.random s xs h in
      let j = i + r % (size - i) in
      let some_left : 0 < size - i = omega arith in
      let below : r % (size - i) < size - i = mod-lt r some_left in
      let (x0, at0) = get_elem?-in xs 0 (omega arith) in
      let (a, at_i) = get_elem?-in xs i (omega arith) in
      let (b, at_j) = get_elem?-in xs j (omega (arith, below)) in
      let to_i =
        step_on-Holds i 0 s1 xs x0 a h1 at0
          (subst (λ m. get_elem? xs m ≡ some a) (sym (zero_plus i)) at_i) (omega arith) in
      let to_j =
        step_on-Holds j 0 s1 xs x0 b h1 at0
          (subst (λ m. get_elem? xs m ≡ some b) (sym (zero_plus j)) at_j) (omega (arith, below)) in
      let begins = laws.begin s1 xs x0 h1 at0 in
      let (s2, swaps, h2) = laws.swap s1 xs i j a b h1 at_i at_j in
      let (s', ys, runs, h', shuffled) =
        shuffle_from-Holds n (suc i) size s2 (set (set xs i b) j a) (omega arith)
          (l ∙ sym (length-set (set xs i b) j a ∙ length-set xs i b)) h2 in
      (
        s',
        ys,
        rw (rands, ◌>>=◌, begins, to_i, begins, to_j, ◌>>◌, swaps, runs),
        h',
        exchanged i j a b at_i at_j shuffled,
      )

  -- `list_shuffle` returns, and the list then holds its elements in an order that comes from the one
  -- before by exchanges, whatever `rand` returns.
  pub list_shuffle-Shuffled :
      (s : Store) (xs : List Elem)
      → Holds s xs
      → (s' : Store) × (ys : List Elem) × (list_shuffle ops s ≡ some (tt, s'))
        × Holds s' ys
        × Shuffled xs ys
  unfolding list_shuffle
  list_shuffle-Shuffled s xs h = elim (Bool-cases (leb (length xs) 1)) [
    | inl few ↦ (s, xs, rw (laws.size s xs h, ◌>>=◌, few), h, same)
    | inr many ↦
        let (s', ys, runs, h', shuffled) =
          shuffle_from-Holds (length xs) 0 (length xs) s xs (zero_plus (length xs)) refl h in
        (s', ys, rw (laws.size s xs h, ◌>>=◌, many, runs), h', shuffled)
  ]
