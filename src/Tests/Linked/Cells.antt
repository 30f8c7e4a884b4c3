-- ===== src/Tests/Linked/Cells.antt =====
-- Lists of numbered items: what stays distinct, and what values the items hold.
use system_programming.Base.{
  ℕ, ℤ, true, false, Option, some, List, [], ◌∷◌, ◌++◌, ◌==◌, ◌≡◌, ◌<◌, refl, ap, ◌∙◌, arith, map,
  inl, inr, Bool-cases, All, All-append, ltb, ◌<◌,
}
use system_programming.Interp.Items.{lt_int}
use system_programming.Interp.Spec.{is_nil, reversed, sorted, insert_value}
use system_programming.Tests.Linked.{
  below, cells, NotIn, Distinct, put, reversed_ids, insert_id, sorted_ids,
}

pub below_id : (n : ℕ) (ids : List ℕ) → All (λ i. i < n) ids → below n ids ≡ ids
below_id n [] h = refl
below_id n (i ∷ ids) h =
    let first : ltb i n ≡ true = ground (arith, h.0) in rw (first, below_id n ids h.1)

pub NotIn-below : (n : ℕ) (ids : List ℕ) → NotIn n (below n ids)
NotIn-below n [] = tt
NotIn-below n (i ∷ ids) = elim (Bool-cases (ltb i n)) [
  | inl y ↦ rw y (ground arith, NotIn-below n ids)
  | inr m ↦ rw m (NotIn-below n ids)
]

pub NotIn-snoc : (e i : ℕ) (ids : List ℕ) → NotIn e ids → (i == e) ≡ false → NotIn e (ids ++ i ∷ [])
NotIn-snoc e i [] h k = (k, tt)
NotIn-snoc e i (j ∷ ids) h k = (h.0, NotIn-snoc e i ids h.1 k)

pub Distinct-snoc : (i : ℕ) (ids : List ℕ) → NotIn i ids → Distinct ids → Distinct (ids ++ i ∷ [])
Distinct-snoc i [] h d = (tt, tt)
Distinct-snoc i (j ∷ ids) h d = (NotIn-snoc j i ids d.0 (ground arith), Distinct-snoc i ids h.1 d.1)

pub NotIn-reversed : (e : ℕ) (ids : List ℕ) → NotIn e ids → NotIn e (reversed_ids ids)
NotIn-reversed e [] h = tt
NotIn-reversed e (i ∷ ids) h = NotIn-snoc e i (reversed_ids ids) (NotIn-reversed e ids h.1) h.0

pub Distinct-reversed : (ids : List ℕ) → Distinct ids → Distinct (reversed_ids ids)
Distinct-reversed [] d = tt
Distinct-reversed (i ∷ ids) d =
    Distinct-snoc i (reversed_ids ids) (NotIn-reversed i ids d.0) (Distinct-reversed ids d.1)

pub unsnoc-NotIn :
    (e i : ℕ) (ids : List ℕ) → NotIn e (ids ++ i ∷ []) → NotIn e ids × ((i == e) ≡ false)
unsnoc-NotIn e i [] h = (tt, h.0)
unsnoc-NotIn e i (j ∷ ids) h = let (k, l) = unsnoc-NotIn e i ids h.1 in ((h.0, k), l)

pub unsnoc-Distinct : (i : ℕ) (ids : List ℕ) → Distinct (ids ++ i ∷ []) → NotIn i ids × Distinct ids
unsnoc-Distinct i [] d = (tt, tt)
unsnoc-Distinct i (j ∷ ids) d =
    let (h, k) = unsnoc-Distinct i ids d.1 in
    let (l, ne) = unsnoc-NotIn j i ids d.0 in ((ground arith, h), (l, k))

-- What holds of every item, of the lists that are made of it.
module _ (P : ℕ → Type 0) where
  pub All-snoc : (i : ℕ) (ids : List ℕ) → P i → All P ids → All P (ids ++ i ∷ [])
  All-snoc i ids p h = All-append P ids (i ∷ []) h (p, tt)

  pub All-reversed : (ids : List ℕ) → All P ids → All P (reversed_ids ids)
  All-reversed [] h = tt
  All-reversed (i ∷ ids) h = All-snoc i (reversed_ids ids) h.0 (All-reversed ids h.1)

  pub unsnoc-All : (i : ℕ) (ids : List ℕ) → All P (ids ++ i ∷ []) → All P ids
  unsnoc-All i [] h = tt
  unsnoc-All i (j ∷ ids) h = (h.0, unsnoc-All i ids h.1)

  pub All-insert_id :
      (val : ℕ → ℤ) (i : ℕ) (ids : List ℕ) → P i → All P ids → All P (insert_id val i ids)
  All-insert_id val i [] p h = (p, tt)
  All-insert_id val i (j ∷ ids) p h = elim (Bool-cases (lt_int (val i) (val j))) [
    | inl y ↦ rw y (p, h)
    | inr n ↦ rw n (h.0, All-insert_id val i ids p h.1)
  ]

  pub All-sorted_ids : (val : ℕ → ℤ) (ids : List ℕ) → All P ids → All P (sorted_ids val ids)
  All-sorted_ids val [] h = tt
  All-sorted_ids val (i ∷ ids) h =
      All-insert_id val i (sorted_ids val ids) h.0 (All-sorted_ids val ids h.1)

module _ (val : ℕ → ℤ) where
  pub NotIn-insert_id :
      (e i : ℕ) (ids : List ℕ) → (i == e) ≡ false → NotIn e ids → NotIn e (insert_id val i ids)
  NotIn-insert_id e i [] h k = (h, tt)
  NotIn-insert_id e i (j ∷ ids) h k = elim (Bool-cases (lt_int (val i) (val j))) [
    | inl y ↦ rw y (h, k)
    | inr n ↦ rw n (k.0, NotIn-insert_id e i ids h k.1)
  ]

  pub Distinct-insert_id :
      (i : ℕ) (ids : List ℕ) → NotIn i ids → Distinct ids → Distinct (insert_id val i ids)
  Distinct-insert_id i [] h d = (tt, tt)
  Distinct-insert_id i (j ∷ ids) h d = elim (Bool-cases (lt_int (val i) (val j))) [
    | inl y ↦ rw y (h, d)
    | inr n ↦ rw n (NotIn-insert_id j i ids (ground arith) d.0, Distinct-insert_id i ids h.1 d.1)
  ]

  pub NotIn-sorted_ids : (e : ℕ) (ids : List ℕ) → NotIn e ids → NotIn e (sorted_ids val ids)
  NotIn-sorted_ids e [] h = tt
  NotIn-sorted_ids e (i ∷ ids) h =
      NotIn-insert_id e i (sorted_ids val ids) h.0 (NotIn-sorted_ids e ids h.1)

  pub Distinct-sorted_ids : (ids : List ℕ) → Distinct ids → Distinct (sorted_ids val ids)
  Distinct-sorted_ids [] d = tt
  Distinct-sorted_ids (i ∷ ids) d =
      Distinct-insert_id i (sorted_ids val ids) (NotIn-sorted_ids i ids d.0)
        (Distinct-sorted_ids ids d.1)

  -- The values of the cells.
  abbrev pub held : List ℕ → List ℤ
  held ids = map (λ x. x.1) (cells val ids)

  pub held-snoc : (ids : List ℕ) (i : ℕ) → held (ids ++ i ∷ []) ≡ held ids ++ val i ∷ []
  held-snoc [] i = refl
  held-snoc (j ∷ ids) i = ap (λ (l : List ℤ). val j ∷ l) (held-snoc ids i)

  pub held-reversed : (ids : List ℕ) → held (reversed_ids ids) ≡ reversed (held ids)
  held-reversed [] = refl
  held-reversed (i ∷ ids) =
      held-snoc (reversed_ids ids) i ∙ ap (λ (l : List ℤ). l ++ val i ∷ []) (held-reversed ids)

  pub held-insert_id :
      (i : ℕ) (ids : List ℕ) → held (insert_id val i ids) ≡ insert_value (val i) (held ids)
  held-insert_id i [] = refl
  held-insert_id i (j ∷ ids) = elim (Bool-cases (lt_int (val i) (val j))) [
    | inl y ↦ rw y
    | inr n ↦ rw n (ap (λ (l : List ℤ). val j ∷ l) (held-insert_id i ids))
  ]

  pub held-sorted_ids : (ids : List ℕ) → held (sorted_ids val ids) ≡ sorted (held ids)
  held-sorted_ids [] = refl
  held-sorted_ids (i ∷ ids) =
      held-insert_id i (sorted_ids val ids) ∙ ap (insert_value (val i)) (held-sorted_ids ids)

  pub cells-snoc :
      (ids : List ℕ) (i : ℕ) → cells val (ids ++ i ∷ []) ≡ cells val ids ++ (some i, val i) ∷ []
  cells-snoc [] i = refl
  cells-snoc (j ∷ ids) i = ap (λ (l : List (Option ℕ × ℤ)). (some j, val j) ∷ l) (cells-snoc ids i)

  pub is_nil-cells : (ids : List ℕ) → is_nil ids ≡ is_nil (cells val ids)
  is_nil-cells [] = refl
  is_nil-cells (i ∷ ids) = refl

  pub cells-put :
      (i : ℕ) (v : ℤ) (ids : List ℕ) → NotIn i ids → cells (put val i v) ids ≡ cells val ids
  cells-put i v [] h = refl
  cells-put i v (j ∷ ids) h =
      rw h.0 (ap (λ (l : List (Option ℕ × ℤ)). (some j, val j) ∷ l) (cells-put i v ids h.1))
