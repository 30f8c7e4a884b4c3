-- ===== src/Tests/Added.antt =====
-- What the repository adds to the libraries of sp_prj1/20241620, at concrete inputs.
use system_programming.Base.{
  ℕ, ◌+◌, ◌-◌, ◌^◌, pos, Bool, true, false, Option, none, some, List, [], ◌∷◌, ◌++◌, ◌≡◌, ◌≢◌, refl,
  arith, ◌==◌, if◌then◌else◌, length, set, replicate, get_elem?, map, ltb→lt,
}
use system_programming.Interp.Library.{Run}
use system_programming.Interp.Added.{BitmapOps, bitmap_expand}
use system_programming.Interp.Added.Expand.{BitmapLaws, bitmap_expand-Holds}
use system_programming.Links.{Links, list_swap}
use system_programming.Links.Swap.{IsLinked, Distinct, exchange, list_swap-IsLinked}

-- The elements 1 to 4, linked in order.
abbrev in_order : Links
in_order = record { prev = λ x. x - 1; next = λ x. x + 1 }

abbrev four : List ℕ
four = 1 ∷ 2 ∷ 3 ∷ 4 ∷ []

four-IsLinked : IsLinked in_order four
four-IsLinked = (refl, refl, (refl, refl, (refl, refl, tt)))

four-Distinct : Distinct four
four-Distinct = (
  λ e. omega arith,
  (λ e. omega arith, (λ e. omega arith, (λ e. omega arith, tt))),
  (
    λ e. omega arith,
    (λ e. omega arith, (λ e. omega arith, tt)),
    (λ e. omega arith, (λ e. omega arith, tt), (λ e. omega arith, tt, tt)),
  ),
)

list_swap-IsLinked_example :
    (h' : Links) × (list_swap 2 3 in_order ≡ some h') × IsLinked h' (map (exchange 2 3) four)
list_swap-IsLinked_example =
    list_swap-IsLinked in_order four [] (4 ∷ []) (1 ∷ []) [] 2 3 1 3 2 4 four-IsLinked four-Distinct
      refl refl

-- A bitmap is an address, and a new one gets the address 1.
abbrev Bits : Type 0
Bits = ℕ → Option (List Bool)

abbrev put : ℕ → Option (List Bool) → Bits → Bits
put b bits s = λ c. if c == b then bits else s c

abbrev with_bits : {A : Type 0} → ℕ → (List Bool → Bits → Option (A × Bits)) → Run Bits A
with_bits b f s = elim (s b) [ none ↦ none | some bits ↦ f bits s ]

abbrev bit_ops : BitmapOps
bit_ops = record {
  Store = Bits;
  Bitmap = ℕ;
  bitmap_create = λ n s. some (some 1, put 1 (some (replicate n false)) s);
  bitmap_destroy = λ b s. some (tt, put b none s);
  bitmap_size = λ b. with_bits b (λ bits s. some (length bits, s));
  bitmap_set = λ b i v. with_bits b (λ bits s. some (tt, put b (some (set bits i v)) s));
  bitmap_test =
      λ b i. with_bits b (λ bits s. elim (get_elem? bits i) [ none ↦ none | some v ↦ some (v, s) ]);
}

abbrev Holds : Bits → ℕ → List Bool → Type 0
Holds s b bits = s b ≡ some bits

put_same : (b : ℕ) (bits : Option (List Bool)) (s : Bits) → put b bits s b ≡ bits
put_same b bits s = ground arith

put_other : (b c : ℕ) (bits : Option (List Bool)) (s : Bits) → b ≢ c → put b bits s c ≡ s c
put_other b c bits s ne = ground arith

bit_ops-BitmapLaws : BitmapLaws bit_ops Holds
bit_ops-BitmapLaws = record {
  size = λ s b bits h. rw (h, with_bits);
  test = λ s b bits i v h e. rw (h, with_bits, e);
  set_bit = λ s b c bits others i v h k ne lt. (
    put b (some (set bits i v)) s,
    rw (h, with_bits),
    put_same b (some (set bits i v)) s,
    rw (put_other b c (some (set bits i v)) s ne, k),
  );
  destroy = λ s b c bits others h k ne. (put b none s, refl, rw (put_other b c none s ne, k));
}

abbrev one_bitmap : Bits
one_bitmap = put 0 (some (true ∷ [])) (λ c. none)

bitmap_expand-Holds_example :
    (s' : Bits) × (bitmap_expand bit_ops 0 (pos 2) one_bitmap ≡ some (some 1, s'))
    × Holds s' 1 ((true ∷ []) ++ replicate 2 false)
bitmap_expand-Holds_example =
    bitmap_expand-Holds bit_ops Holds bit_ops-BitmapLaws one_bitmap
      (put 1 (some (replicate 3 false)) one_bitmap) 0 1 (true ∷ []) 2 (ltb→lt 3 (2 ^ 64) refl) refl
      refl refl refl (λ e. omega arith)

-- Two clear bits stand behind one that is set.
abbrev three_bits : Bits
three_bits = put 0 (some (true ∷ false ∷ false ∷ [])) (λ c. none)
