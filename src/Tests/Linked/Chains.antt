-- ===== src/Tests/Linked/Chains.antt =====
-- The cells of a list: linked in order, and taken from its ends.
use system_programming.Base.{
  All, Bool-cases, inl, inr, ℕ, suc, ℤ, true, Option, none, some, List, [], ◌∷◌, ◌++◌, ◌==◌, ◌≡◌,
  ◌≢◌, refl, ap, sym, ◌∙◌, arith, false, length,
}
use system_programming.Interp.Chain.{HoldsItems, IsLinked, first_of}
use system_programming.Interp.Spec.{all_but_last}
use system_programming.Interp.Spec.Laws.{Same, Changed}
use system_programming.Interp.Spec.Views.{last-cases}
use system_programming.Tests.Linked.{
  IsHome, with_ids, enter, Memory, linked_library, linked_model, cells, NotIn, Distinct, first_id,
  last_id, next_in,
}
use system_programming.Tests.Linked.Cells.{cells-snoc}

pub last_id-snoc : (ids : List ℕ) (i : ℕ) → last_id (ids ++ i ∷ []) ≡ some i
last_id-snoc [] i = refl
last_id-snoc (j ∷ []) i = refl
last_id-snoc (j ∷ k ∷ ids) i = last_id-snoc (k ∷ ids) i

pub all_but_last-ids : (ids : List ℕ) (i : ℕ) → all_but_last (ids ++ i ∷ []) ≡ ids
all_but_last-ids [] i = refl
all_but_last-ids (j ∷ []) i = refl
all_but_last-ids (j ∷ k ∷ ids) i = ap (λ (l : List ℕ). j ∷ l) (all_but_last-ids (k ∷ ids) i)

length-cells : (val : ℕ → ℤ) (ids : List ℕ) → length (cells val ids) ≡ length ids
length-cells val [] = refl
length-cells val (i ∷ ids) = ap suc (length-cells val ids)

first_of-cells :
    (val : ℕ → ℤ) (ids : List ℕ) → first_of linked_library (cells val ids) none ≡ first_id ids
first_of-cells val [] = refl
first_of-cells val (i ∷ ids) = refl

-- Each item is followed by the next.
abbrev IsChain : (ℕ → Option ℕ) → List ℕ → Type 0
IsChain next [] = Unit {0}
IsChain next (i ∷ ids) = (next i ≡ first_id ids) × IsChain next ids

IsChain-behind :
    (i : ℕ) (all ids : List ℕ)
    → NotIn i ids
    → IsChain (next_in all) ids
    → IsChain (next_in (i ∷ all)) ids
IsChain-behind i all [] h k = tt
IsChain-behind i all (j ∷ ids) h k = (rw h.0 k.0, IsChain-behind i all ids h.1 k.1)

pub same_id : (i : ℕ) → (i == i) ≡ true
same_id i = ground arith

next_in-IsChain : (ids : List ℕ) → Distinct ids → IsChain (next_in ids) ids
next_in-IsChain [] d = tt
next_in-IsChain (i ∷ ids) d =
    (rw (same_id i), IsChain-behind i ids ids d.0 (next_in-IsChain ids d.1))

chain-IsLinked :
    (s : Memory) (l : ℕ) (ids : List ℕ)
    → All (IsHome s l) ids
    → IsChain (next_in (s.ids l)) ids
    → IsLinked linked_library s (cells s.val ids) none
chain-IsLinked s l [] at h = tt
chain-IsLinked s l (i ∷ ids) at h =
    (rw (at.0.1, h.0, first_of-cells s.val ids), refl, refl, chain-IsLinked s l ids at.1 h.1)

pub linked-HoldsItems :
    (s : Memory) (l : ℕ)
    → Distinct (s.ids l)
    → All (IsHome s l) (s.ids l)
    → HoldsItems linked_library s l (cells s.val (s.ids l)) none
linked-HoldsItems s l d at = record {
  begins = rw (first_of-cells s.val (s.ids l));
  ends = refl;
  size = rw (length-cells s.val (s.ids l));
  linked = chain-IsLinked s l (s.ids l) at (next_in-IsChain (s.ids l) d);
  tail = refl;
}

-- The cell at a position is that of an item.
pub cell_at :
    (val : ℕ → ℤ) (ids : List ℕ) (e : Option ℕ) (v : ℤ) (xs ys : List (Option ℕ × ℤ))
    → cells val ids ≡ xs ++ (e, v) ∷ ys
    → (i : ℕ) × (e ≡ some i) × (val i ≡ v)
cell_at val [] e v [] ys h = cc
cell_at val [] e v (x ∷ xs) ys h = cc
cell_at val (i ∷ ids) e v [] ys h = (i, cc, cc)
cell_at val (i ∷ ids) e v (x ∷ xs) ys h = cell_at val ids e v xs ys cc

pub first_cell :
    (val : ℕ → ℤ) (ids : List ℕ) (e : Option ℕ) (v : ℤ) (xs : List (Option ℕ × ℤ))
    → cells val ids ≡ (e, v) ∷ xs
    → (i : ℕ) × (rest : List ℕ) × (ids ≡ i ∷ rest)
      × (e ≡ some i)
      × (val i ≡ v)
      × (cells val rest ≡ xs)
first_cell val [] e v xs h = cc
first_cell val (i ∷ ids) e v xs h = (i, ids, refl, cc, cc, cc)

snoc-inj :
    {A : Type 0} (xs ys : List A) (x y : A) → xs ++ x ∷ [] ≡ ys ++ y ∷ [] → (xs ≡ ys) × (x ≡ y)
snoc-inj [] [] x y h = (refl, cc)
snoc-inj [] (b ∷ []) x y h = cc
snoc-inj [] (b ∷ c ∷ ys) x y h = cc
snoc-inj (a ∷ []) [] x y h = cc
snoc-inj (a ∷ c ∷ xs) [] x y h = cc
snoc-inj (a ∷ xs) (b ∷ ys) x y h = let (e, f) = snoc-inj xs ys x y cc in (cc, f)

nil-snoc : {A B : Type 0} (xs : List A) (x : A) → [] ≡ xs ++ x ∷ [] → B
nil-snoc [] x h = cc
nil-snoc (y ∷ xs) x h = cc

pub last_cell :
    (val : ℕ → ℤ) (ids : List ℕ) (e : Option ℕ) (v : ℤ) (xs : List (Option ℕ × ℤ))
    → cells val ids ≡ xs ++ (e, v) ∷ []
    → (i : ℕ) × (rest : List ℕ) × (ids ≡ rest ++ i ∷ [])
      × (e ≡ some i)
      × (val i ≡ v)
      × (cells val rest ≡ xs)
last_cell val ids e v xs h = elim (last-cases ids) [
  | inl n ↦ nil-snoc xs (e, v) (ap (cells val) (sym n) ∙ h)
  | inr (rest, i, f) ↦
      let (g, k) =
        snoc-inj (cells val rest) xs (some i, val i) (e, v)
          (sym (cells-snoc val rest i) ∙ (sym (ap (cells val) f) ∙ h)) in
      (i, rest, f, cc, cc, g)
]

pub Same-lists : (s : Memory) → Same linked_library linked_model s s
Same-lists s k h = (h, refl)

other_id : (k l : ℕ) → k ≢ l → (k == l) ≡ false
other_id k l ne = elim (Bool-cases (k == l)) [ inl y ↦ absurd (ne (ground arith)) | inr n ↦ n ]

-- One list has other items, each of which is at home in it.
pub only_list :
    (s : Memory) (l : ℕ) (ids : List ℕ) (xs : List (Option ℕ × ℤ))
    → Distinct ids
    → All (IsHome s l) ids
    → cells s.val ids ≡ xs
    → Changed linked_library linked_model s (with_ids s l ids) l xs
only_list s l ids xs d at h = (
  (rw (same_id l) d, rw (same_id l) at),
  rw (same_id l) h,
  λ k ne has. let other = other_id k l ne in ((rw other has.0, rw other has.1), rw other),
)

-- A home that is given to an item changes no list without the item.
pub enter-IsHome :
    (s : Memory) (k l i : ℕ) (all ids : List ℕ)
    → NotIn i ids
    → All (IsHome s k) ids
    → All (IsHome (enter s l i all) k) ids
enter-IsHome s k l i all [] h at = tt
enter-IsHome s k l i all (j ∷ ids) h at =
    ((at.0.0, rw h.0 at.0.1), enter-IsHome s k l i all ids h.1 at.1)

pub entered :
    (s : Memory) (l i : ℕ) (ids : List ℕ) (xs : List (Option ℕ × ℤ))
    → ((k : ℕ) → NotIn i (s.ids k))
    → Distinct ids
    → All (IsHome (enter s l i ids) l) ids
    → cells s.val ids ≡ xs
    → Changed linked_library linked_model s (enter s l i ids) l xs
entered s l i ids xs out d at h = (
  (rw (same_id l) d, rw (same_id l) at),
  rw (same_id l) h,
  λ k ne has.
      let other = other_id k l ne in
      ((rw other has.0, rw other (enter-IsHome s k l i ids (s.ids k) (out k) has.1)), rw other),
)
