-- ===== src/Interp/Ranges.antt =====
-- The functions of sp_prj1/20241620/bitmap.c on several bits, over those on one bit, which are
-- parameters.
pub mod Scan
use system_programming.Base.{
  ℕ, zero, suc, ◌+◌, ◌-◌, ◌%◌, ◌^◌, Bool, true, false, not, ◌&&◌, if◌then◌else◌, leb, ◌==◌,
}
use system_programming.Interp.Library.{Run, ◌>>=◌, ◌>>◌, pure}
use system_programming.Interp.Items.{abort}
use system_programming.Interp.Added.{BitmapOps}

abbrev pub same_bit : Bool → Bool → Bool
same_bit true b = b
same_bit false b = not b

-- `BITMAP_ERROR`
abbrev pub bitmap_error : ℕ
bitmap_error = 2 ^ 64 - 1

module _ (ops : BitmapOps) where
  open ops use {Store, Bitmap, bitmap_size, bitmap_set, bitmap_test}

  -- The assertions on a range.
  abbrev pub assert_range : Bitmap → ℕ → ℕ → Run Store (Unit {0})
  assert_range b start cnt = do
    size ← bitmap_size b
    if leb start size && leb ((start + cnt) % 2 ^ 64) size then pure tt else abort

  -- The loops run over the `cnt` bits from `i` on.
  unfoldable pub set_from : Bitmap → ℕ → ℕ → Bool → Run Store (Unit {0})
  set_from b i zero value = pure tt
  set_from b i (suc cnt) value = do bitmap_set b i value; set_from b (suc i) cnt value

  unfoldable pub bitmap_set_multiple : Bitmap → ℕ → ℕ → Bool → Run Store (Unit {0})
  unfolding set_from
  bitmap_set_multiple b start cnt value = do assert_range b start cnt; set_from b start cnt value

  unfoldable pub bitmap_set_all : Bitmap → Bool → Run Store (Unit {0})
  unfolding bitmap_set_multiple
  bitmap_set_all b value = do size ← bitmap_size b; bitmap_set_multiple b 0 size value

  unfoldable pub count_from : Bitmap → ℕ → ℕ → Bool → Run Store ℕ
  count_from b i zero value = pure 0
  count_from b i (suc cnt) value = do
    bit ← bitmap_test b i
    n ← count_from b (suc i) cnt value
    pure (if same_bit bit value then suc n else n)

  unfoldable pub bitmap_count : Bitmap → ℕ → ℕ → Bool → Run Store ℕ
  unfolding count_from
  bitmap_count b start cnt value = do assert_range b start cnt; count_from b start cnt value

  unfoldable pub contains_from : Bitmap → ℕ → ℕ → Bool → Run Store Bool
  contains_from b i zero value = pure false
  contains_from b i (suc cnt) value = do
    bit ← bitmap_test b i
    if same_bit bit value then pure true else contains_from b (suc i) cnt value

  unfoldable pub bitmap_contains : Bitmap → ℕ → ℕ → Bool → Run Store Bool
  unfolding contains_from
  bitmap_contains b start cnt value = do assert_range b start cnt; contains_from b start cnt value

  unfoldable pub bitmap_any : Bitmap → ℕ → ℕ → Run Store Bool
  unfolding bitmap_contains
  bitmap_any b start cnt = bitmap_contains b start cnt true

  unfoldable pub bitmap_none : Bitmap → ℕ → ℕ → Run Store Bool
  unfolding bitmap_contains
  bitmap_none b start cnt = do found ← bitmap_contains b start cnt true; pure (not found)

  unfoldable pub bitmap_all : Bitmap → ℕ → ℕ → Run Store Bool
  unfolding bitmap_contains
  bitmap_all b start cnt = do found ← bitmap_contains b start cnt false; pure (not found)

  -- The starts from `i` on, `n` of them.
  unfoldable pub scan_from : Bitmap → ℕ → ℕ → ℕ → Bool → Run Store ℕ
  unfolding bitmap_contains
  scan_from b i zero cnt value = pure bitmap_error
  scan_from b i (suc n) cnt value = do
    other ← bitmap_contains b i cnt (not value)
    if other then scan_from b (suc i) n cnt value else pure i

  -- From `start` to `last`, which is the size less `cnt`.
  unfoldable pub bitmap_scan : Bitmap → ℕ → ℕ → Bool → Run Store ℕ
  unfolding scan_from
  bitmap_scan b start cnt value = do
    size ← bitmap_size b
    if leb start size
        then (if leb cnt size
            then scan_from b start (suc (size - cnt) - start) cnt value
            else pure bitmap_error)
        else abort

  unfoldable pub bitmap_scan_and_flip : Bitmap → ℕ → ℕ → Bool → Run Store ℕ
  unfolding bitmap_scan bitmap_set_multiple
  bitmap_scan_and_flip b start cnt value = do
    idx ← bitmap_scan b start cnt value
    if idx == bitmap_error
        then pure idx
        else (do bitmap_set_multiple b idx cnt (not value); pure idx)
