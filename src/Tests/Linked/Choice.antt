-- ===== src/Tests/Linked/Choice.antt =====
-- Items that are taken out of the middle of a list, and those of the greatest and least values.
use system_programming.Base.{
  ℕ, ℤ, All, Bool, Bool-cases, true, false, Option, some, List, [], ◌∷◌, ◌++◌, ◌==◌, ◌≡◌, ◌∙◌, refl,
  ap, ◌⊎◌, inl, inr, arith, map, if◌then◌else◌,
}
use system_programming.Interp.Spec.{extreme}
use system_programming.Tests.Linked.{cells, NotIn, Distinct, without_id, extreme_from}

NotIn-All : (e : ℕ) (ids : List ℕ) → NotIn e ids → All (λ i. (i == e) ≡ false) ids
NotIn-All e [] h = tt
NotIn-All e (i ∷ ids) h = (h.0, NotIn-All e ids h.1)

abbrev IsAmong : ℕ → List ℕ → Type 0
IsAmong r [] = ⊥
IsAmong r (i ∷ ids) = (r ≡ i) ⊎ IsAmong r ids

module _ (val : ℕ → ℤ) where
  -- An item among the cells, by the cells before and behind it.
  pub cell_within :
      (ids : List ℕ) (e : Option ℕ) (v : ℤ) (xs ys : List (Option ℕ × ℤ))
      → Distinct ids
      → cells val ids ≡ xs ++ (e, v) ∷ ys
      → (i : ℕ) × (e ≡ some i)
        × (cells val (without_id i ids) ≡ xs ++ ys)
        × ((P : ℕ → Type 0) → All P ids → P i)
  cell_within [] e v [] ys d h = cc
  cell_within [] e v (x ∷ xs) ys d h = cc
  cell_within (i ∷ ids) e v [] ys d h =
      let self : (i == i) ≡ true = ground arith in (i, cc, rw self cc, λ P all. all.0)
  cell_within (j ∷ ids) e v (x ∷ xs) ys d h =
      let (i, is, rest, holds) = cell_within ids e v xs ys d.1 cc in
      let differs : (i == j) ≡ false = holds (λ k. (k == j) ≡ false) (NotIn-All j ids d.0) in
      let other : (j == i) ≡ false = ground arith in
      let first : (some j, val j) ≡ x = cc in
      (
        i,
        is,
        rw (other, first) (ap (λ (l : List (Option ℕ × ℤ)). x ∷ l) rest),
        λ P all. holds P all.1,
      )

  pub without_id-All :
      (P : ℕ → Type 0) (i : ℕ) (ids : List ℕ) → All P ids → All P (without_id i ids)
  without_id-All P i [] h = tt
  without_id-All P i (j ∷ ids) h = elim (Bool-cases (j == i)) [
    | inl y ↦ rw y h.1
    | inr n ↦ rw n (h.0, without_id-All P i ids h.1)
  ]

  without_id-NotIn : (e i : ℕ) (ids : List ℕ) → NotIn e ids → NotIn e (without_id i ids)
  without_id-NotIn e i [] h = tt
  without_id-NotIn e i (j ∷ ids) h = elim (Bool-cases (j == i)) [
    | inl y ↦ rw y h.1
    | inr n ↦ rw n (h.0, without_id-NotIn e i ids h.1)
  ]

  pub without_id-Distinct : (i : ℕ) (ids : List ℕ) → Distinct ids → Distinct (without_id i ids)
  without_id-Distinct i [] d = tt
  without_id-Distinct i (j ∷ ids) d = elim (Bool-cases (j == i)) [
    | inl y ↦ rw y d.1
    | inr n ↦ rw n (without_id-NotIn j i ids d.0, without_id-Distinct i ids d.1)
  ]

  one-IsAmong :
      (r m i : ℕ) (b : Bool) (ids : List ℕ)
      → IsAmong r ((if b then i else m) ∷ ids)
      → IsAmong r (m ∷ i ∷ ids)
  one-IsAmong r m i true ids h = inr h
  one-IsAmong r m i false ids (inl e) = inl e
  one-IsAmong r m i false ids (inr h) = inr (inr h)

  val-if : (b : Bool) (i m : ℕ) → val (if b then i else m) ≡ (if b then val i else val m)
  val-if true i m = refl
  val-if false i m = refl

  module _ (exceeded : ℤ → ℤ → Bool) where
    val-extreme_from :
        (m : ℕ) (ids : List ℕ)
        → val (extreme_from exceeded val m ids)
          ≡ extreme exceeded (val m) (map (λ x. x.1) (cells val ids))
    val-extreme_from m [] = refl
    val-extreme_from m (i ∷ ids) =
        let b = exceeded (val m) (val i) in
        val-extreme_from (if b then i else m) ids
        ∙ ap (λ (v : ℤ). extreme exceeded v (map (λ x. x.1) (cells val ids))) (val-if b i m)

    extreme_from-IsAmong :
        (m : ℕ) (ids : List ℕ) → IsAmong (extreme_from exceeded val m ids) (m ∷ ids)
    extreme_from-IsAmong m [] = inl refl
    extreme_from-IsAmong m (i ∷ ids) =
        let b = exceeded (val m) (val i) in
        one-IsAmong (extreme_from exceeded val m (i ∷ ids)) m i b ids
          (extreme_from-IsAmong (if b then i else m) ids)

  among_cells :
      (r : ℕ) (ids : List ℕ)
      → IsAmong r ids
      → (ys : List (Option ℕ × ℤ)) × (zs : List (Option ℕ × ℤ)) × (cells val ids
          ≡ ys ++ (some r, val r) ∷ zs)
  among_cells r [] h = elim h [ ]
  among_cells r (i ∷ ids) (inl e) = ([], cells val ids, rw e)
  among_cells r (i ∷ ids) (inr h) =
      let (ys, zs, e) = among_cells r ids h in
      ((some i, val i) ∷ ys, zs, ap (λ (l : List (Option ℕ × ℤ)). (some i, val i) ∷ l) e)

  -- The cell with the greatest or the least value.
  pub extreme_cell :
      (exceeded : ℤ → ℤ → Bool) (m : ℕ) (ids : List ℕ)
      → (ys : List (Option ℕ × ℤ)) × (zs : List (Option ℕ × ℤ)) × (cells val (m ∷ ids)
          ≡ ys
            ++ (
              some (extreme_from exceeded val m ids),
              extreme exceeded (val m) (map (λ x. x.1) (cells val ids)),
            )
              ∷ zs)
  extreme_cell exceeded m ids =
      let r = extreme_from exceeded val m ids in
      let (ys, zs, e) = among_cells r (m ∷ ids) (extreme_from-IsAmong exceeded m ids) in
      (ys, zs, e ∙ ap (λ (v : ℤ). ys ++ (some r, v) ∷ zs) (val-extreme_from exceeded m ids))
