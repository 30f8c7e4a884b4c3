-- ===== src/Interp/Chain.antt =====
-- The loops of sp_prj1/20241620/main.c over a list whose elements are linked as list.h says.
use mathlib.Core.Option
use system_programming.Base.{
  ℕ, zero, suc, ℤ, pos, negsuc, Bool, true, false, Option, none, some, List, [], ◌∷◌, ◌++◌, ◌≡◌,
  arith, length, get_elem?, get_elem?-in, get_elem?-out, leb→le, map, Bool-cases, inl, inr, leb,
}
use system_programming.Interp.{Out, int, newline}
use system_programming.Interp.Library.{Library, ◌>>=◌}
use system_programming.Interp.Items.{
  advance, list_elem_at, dump_from, dump_list, destroy_from, empty_list, sep,
}

-- The values in order, with a blank between them and a newline behind the last.
abbrev pub line_of : Bool → List ℤ → List Out
line_of first [] = newline ∷ []
line_of first (v ∷ vs) = sep first ++ int v ∷ line_of false vs

module _ (lib : Library) where
  open lib use {
    Store, Elem, same_elem, value, list_begin, list_end, list_next, list_size, list_empty,
    list_pop_front, free_item,
  }

  abbrev pub first_of : List (Elem × ℤ) → Elem → Elem
  first_of [] stop = stop
  first_of (x ∷ xs) stop = x.0

  -- The elements are linked in order, with their values, and none of them is the tail.
  abbrev pub IsLinked : Store → List (Elem × ℤ) → Elem → Type 0
  IsLinked s [] stop = Unit {0}
  IsLinked s (x ∷ xs) stop =
      (list_next x.0 s ≡ some (first_of xs stop, s))
      × (value x.0 s ≡ some (x.1, s))
      × (same_elem x.0 stop ≡ false)
      × IsLinked s xs stop

  -- A list holds the elements: what list_begin, list_end and list_size say of it.
  pub record HoldsItems (s : Store) (list : ℕ) (xs : List (Elem × ℤ)) (stop : Elem) : Type 0 where
    pub begins : list_begin list s ≡ some (first_of xs stop, s)
    pub ends : list_end list s ≡ some (stop, s)
    pub size : list_size list s ≡ some (length xs, s)
    pub linked : IsLinked s xs stop
    pub tail : same_elem stop stop ≡ true

  -- The element at a position.
  abbrev pub elem_of : List (Elem × ℤ) → ℤ → Option Elem
  elem_of xs (pos n) = Option.map (λ (x : Elem × ℤ). x.0) (get_elem? xs n)
  elem_of xs (negsuc n) = none

  advance-linked :
      (s : Store) (xs : List (Elem × ℤ)) (stop : Elem) (i : ℕ) (x : Elem × ℤ)
      → IsLinked s xs stop
      → get_elem? xs i ≡ some x
      → advance lib i (first_of xs stop) s ≡ some (x.0, s)
  unfolding advance
  advance-linked s [] stop i x h e = cc
  advance-linked s (y ∷ xs) stop zero x h e = grind arith
  advance-linked s (y ∷ xs) stop (suc i) x h e =
      rw (h.0, ◌>>=◌) (advance-linked s xs stop i x h.3 e)

  dump_from-linked :
      (s : Store) (list : ℕ) (xs : List (Elem × ℤ)) (stop : Elem) (first : Bool)
      → list_end list s ≡ some (stop, s)
      → same_elem stop stop ≡ true
      → IsLinked s xs stop
      → dump_from lib (suc (length xs)) list first (first_of xs stop) s
        ≡ some (line_of first (map (λ x. x.1) xs), s)
  unfolding dump_from
  dump_from-linked s list [] stop first e t h = rw (e, ◌>>=◌, t)
  dump_from-linked s list (x ∷ xs) stop first e t h =
      rw (e, ◌>>=◌, h.2, h.1, h.0, dump_from-linked s list xs stop false e t h.3)

  -- `dump_list` prints the values of the list's elements in order, and changes nothing.
  pub dump_list-HoldsItems :
      (s : Store) (list : ℕ) (xs : List (Elem × ℤ)) (stop : Elem)
      → HoldsItems s list xs stop
      → dump_list lib list s ≡ some (line_of true (map (λ x. x.1) xs), s)
  unfolding dump_list
  dump_list-HoldsItems s list xs stop h =
      rw (h.size, ◌>>=◌, h.begins, dump_from-linked s list xs stop true h.ends h.tail h.linked)

  -- `list_elem_at` finds the element at each position of the list, and NULL at a negative one and
  -- at one behind the last.
  pub list_elem_at-HoldsItems :
      (s : Store) (list : ℕ) (xs : List (Elem × ℤ)) (stop : Elem) (idx : ℤ)
      → HoldsItems s list xs stop
      → list_elem_at lib list idx s ≡ some (elem_of xs idx, s)
  unfolding list_elem_at
  list_elem_at-HoldsItems s list xs stop (negsuc n) h = rw (h.begins, ◌>>=◌, h.size)
  list_elem_at-HoldsItems s list xs stop (pos n) h = elim (Bool-cases (leb (length xs) n)) [
    | inl y ↦ rw (h.begins, ◌>>=◌, h.size, y, get_elem?-out xs n (leb→le (length xs) n y))
    | inr m ↦
        let (x, e) = get_elem?-in xs n (ground arith) in
        rw (h.begins, ◌>>=◌, h.size, m, advance-linked s xs stop n x h.linked e, e)
  ]

  -- The elements of the list can be taken from its front one after the other, and freed.
  abbrev pub IsPoppable : Store → ℕ → ℕ → Type 0
  IsPoppable s list zero = list_empty list s ≡ some (true, s)
  IsPoppable s list (suc n) =
      (list_empty list s ≡ some (false, s))
      × ((e : Elem) × (s1 : Store) × (s2 : Store) × (list_pop_front list s ≡ some (e, s1))
          × (free_item e s1 ≡ some (tt, s2))
          × IsPoppable s2 list n)

  destroy_from-poppable :
      (s : Store) (list n : ℕ)
      → IsPoppable s list n
      → (s' : Store) × (destroy_from lib (suc n) list s ≡ some (tt, s'))
        × (list_empty list s' ≡ some (true, s'))
  unfolding destroy_from
  destroy_from-poppable s list zero h = (s, rw (h, ◌>>=◌), h)
  destroy_from-poppable s list (suc n) h =
      let (e, s1, s2, pops, frees, more) = h.1 in
      let (s', runs, empty) = destroy_from-poppable s2 list n more in
      (s', rw (h.0, ◌>>=◌, pops, frees, runs), empty)

  -- The loop of `destroy_list` ends, and leaves the list empty: its fuel is enough.
  pub empty_list-IsPoppable :
      (s : Store) (list n : ℕ)
      → list_size list s ≡ some (n, s)
      → IsPoppable s list n
      → (s' : Store) × (empty_list lib list s ≡ some (tt, s'))
        × (list_empty list s' ≡ some (true, s'))
  unfolding empty_list
  empty_list-IsPoppable s list n size h =
      let (s', runs, empty) = destroy_from-poppable s list n h in
      (s', rw (size, ◌>>=◌, runs), empty)
