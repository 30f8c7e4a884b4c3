-- ===== src/Interp/Ranges/Scan.antt =====
-- `bitmap_scan` of sp_prj1/20241620/bitmap.c against the bits of the bitmap.
use system_programming.Base.{ℕ, ◌+◌, ◌<◌, ◌≤◌, Bool, true, false, some, List, ◌≡◌, ◌⊎◌, get_elem?}
use system_programming.Interp.Added.{BitmapOps}
use system_programming.Interp.Added.Expand.{BitmapLaws}
use system_programming.Interp.Ranges.{bitmap_error}

-- The `cnt` bits from `i` on are all there and have the value.
abbrev pub IsGroup : List Bool → ℕ → ℕ → Bool → Type 0
IsGroup bits i cnt value = (k : ℕ) → k < cnt → get_elem? bits (i + k) ≡ some value

-- `r` is the first start of a group from `start` on, or the error where there is none.
abbrev pub IsFirst : List Bool → ℕ → ℕ → ℕ → Bool → Type 0
IsFirst bits start r cnt value =
    ((r ≡ bitmap_error) × ((j : ℕ) → start ≤ j → IsGroup bits j cnt value → ⊥))
    ⊎ ((start ≤ r)
        × IsGroup bits r cnt value
        × ((j : ℕ) → start ≤ j → j < r → IsGroup bits j cnt value → ⊥))

module _ (ops : BitmapOps) (Holds : ops.Store → ops.Bitmap → List Bool → Type 0)
    (laws : BitmapLaws ops Holds) (s : ops.Store) (b : ops.Bitmap) (bits : List Bool)
    (holds : Holds s b bits) where
  open ops use {Store}

  -- What the test for the other value says of the bits from `i` on.
  abbrev Tells : Bool → ℕ → ℕ → Bool → Type 0
  Tells found i cnt value =
      ((found ≡ true) × (IsGroup bits i cnt value → ⊥))
      ⊎ ((found ≡ false) × IsGroup bits i cnt value)
