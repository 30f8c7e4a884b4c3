-- ===== src/Interp/Bitmaps.antt =====
-- `do_bitmap_command` of sp_prj1/20241620/main.c.
use system_programming.Base.{
  ℕ, Bool, Option, none, some, List, [], ◌∷◌, if◌then◌else◌, get_elem?, set,
}
use system_programming.Shell.Text.{Text}
use system_programming.Interp.{
  Out, dump, print_size, print_bool, Slot, atoi, to_size, parse_bool, is_word, find_used,
}
use system_programming.Interp.Library.{Library, Run, ◌>>=◌, pure}
use system_programming.Interp.Lists.{with_arg, quiet}
use system_programming.Interp.Items.{abort}

-- `(size_t) atoi (s)`
unfoldable pub size_arg : Text → ℕ
unfolding atoi
size_arg s = to_size (atoi s)

-- A command with a start and a count.
abbrev pub with_range : {S : Type 0} → List Text → (ℕ → ℕ → Run S (List Out)) → Run S (List Out)
unfolding size_arg
with_range tokens f =
    with_arg tokens 2 (λ start. with_arg tokens 3 (λ cnt. f (size_arg start) (size_arg cnt)))

-- A command with a start, a count and a value.
abbrev pub with_bits :
    {S : Type 0} → List Text → (ℕ → ℕ → Bool → Run S (List Out)) → Run S (List Out)
unfolding parse_bool
with_bits tokens f =
    with_range tokens
      (λ start cnt. with_arg tokens 4 (λ value. f start cnt (parse_bool (some value))))

abbrev pub show_size : {S : Type 0} → Run S ℕ → Run S (List Out)
show_size m = do n ← m; pure (print_size n)

abbrev pub show_bool : {S : Type 0} → Run S Bool → Run S (List Out)
show_bool m = do b ← m; pure (print_bool b)

module _ (lib : Library) where
  open lib use {
    Store, Bitmap, bitmap_size, bitmap_set, bitmap_mark, bitmap_reset, bitmap_flip, bitmap_test,
    bitmap_set_all, bitmap_set_multiple, bitmap_count, bitmap_contains, bitmap_any, bitmap_none,
    bitmap_all, bitmap_scan, bitmap_scan_and_flip, bitmap_dump, bitmap_expand,
  }

  -- The commands that leave the pointer of the slot as it is.
  unfoldable pub bitmap_ladder : Text → List Text → Bitmap → Run Store (List Out)
  unfolding size_arg parse_bool is_word
  bitmap_ladder cmd tokens b =
      if is_word cmd "bitmap_mark"
      then with_arg tokens 2 (λ idx. quiet (bitmap_mark b (size_arg idx)))
      else if is_word cmd "bitmap_reset"
      then with_arg tokens 2 (λ idx. quiet (bitmap_reset b (size_arg idx)))
      else if is_word cmd "bitmap_flip"
      then with_arg tokens 2 (λ idx. quiet (bitmap_flip b (size_arg idx)))
      else if is_word cmd "bitmap_set"
      then with_arg tokens 2 (λ idx.
        with_arg tokens 3 (λ value. quiet (bitmap_set b (size_arg idx) (parse_bool (some value)))))
      else if is_word cmd "bitmap_test"
      then with_arg tokens 2 (λ idx. show_bool (bitmap_test b (size_arg idx)))
      else if is_word cmd "bitmap_set_all"
      then with_arg tokens 2 (λ value. quiet (bitmap_set_all b (parse_bool (some value))))
      else if is_word cmd "bitmap_set_multiple"
      then with_bits tokens (λ start cnt value. quiet (bitmap_set_multiple b start cnt value))
      else if is_word cmd "bitmap_count"
      then with_bits tokens (λ start cnt value. show_size (bitmap_count b start cnt value))
      else if is_word cmd "bitmap_contains"
      then with_bits tokens (λ start cnt value. show_bool (bitmap_contains b start cnt value))
      else if is_word cmd "bitmap_any"
      then with_range tokens (λ start cnt. show_bool (bitmap_any b start cnt))
      else if is_word cmd "bitmap_none"
      then with_range tokens (λ start cnt. show_bool (bitmap_none b start cnt))
      else if is_word cmd "bitmap_all"
      then with_range tokens (λ start cnt. show_bool (bitmap_all b start cnt))
      else if is_word cmd "bitmap_scan"
      then with_bits tokens (λ start cnt value. show_size (bitmap_scan b start cnt value))
      else if is_word cmd "bitmap_scan_and_flip"
      then with_bits tokens (λ start cnt value. show_size (bitmap_scan_and_flip b start cnt value))
      else if is_word cmd "bitmap_size"
      then show_size (bitmap_size b)
      else if is_word cmd "bitmap_dump"
      then (do s ← bitmap_dump b; pure (dump s ∷ []))
      else pure []

  -- `if (expanded != NULL) obj->bitmap = expanded;`
  unfoldable pub expand : Text → Bitmap → Run Store Bitmap
  unfolding atoi
  expand arg b = do
    expanded ← bitmap_expand b (atoi arg)
    elim expanded [ none ↦ pure b | some b' ↦ pure b' ]

  -- What is printed, and the pointer that the slot then holds.
  unfoldable pub bitmap_command : Text → List Text → Bitmap → Run Store (List Out × Bitmap)
  unfolding bitmap_ladder expand is_word
  bitmap_command cmd tokens b =
      if is_word cmd "bitmap_expand"
      then elim (get_elem? tokens 2) [
        | none ↦ pure ([], b)
        | some arg ↦ (do b' ← expand arg b; pure ([], b'))
      ]
      else (do out ← bitmap_ladder cmd tokens b; pure (out, b))

  -- `object` is the pointer of the slot, with NULL as `none`, at which no function can work.
  unfoldable pub on_slot :
      Text → List Text → Slot (Option Bitmap) → Run Store (List Out × Slot (Option Bitmap))
  unfolding bitmap_command
  on_slot cmd tokens slot = elim slot.object [
    | none ↦ abort
    | some b ↦ (do
      (out, b') ← bitmap_command cmd tokens b
      pure (out, record slot { object = some b' }))
  ]

  unfoldable pub at_slot :
      List (Slot (Option Bitmap))
      → Text
      → List Text
      → ℕ
      → Run Store (List Out × List (Slot (Option Bitmap)))
  unfolding on_slot
  at_slot bitmaps cmd tokens i = elim (get_elem? bitmaps i) [
    | none ↦ pure ([], bitmaps)
    | some slot ↦ (do (out, slot') ← on_slot cmd tokens slot; pure (out, set bitmaps i slot'))
  ]

  unfoldable pub named_bitmap :
      List (Slot (Option Bitmap))
      → Text
      → List Text
      → Text
      → Run Store (List Out × List (Slot (Option Bitmap)))
  unfolding at_slot find_used
  named_bitmap bitmaps cmd tokens name = elim (find_used name bitmaps) [
    | none ↦ pure ([], bitmaps)
    | some i ↦ at_slot bitmaps cmd tokens i
  ]

  -- It comes with the slots behind the command.
  unfoldable pub do_bitmap_command :
      List (Slot (Option Bitmap))
      → Text
      → List Text
      → Run Store (List Out × List (Slot (Option Bitmap)))
  unfolding named_bitmap
  do_bitmap_command bitmaps cmd tokens = elim (get_elem? tokens 1) [
    | none ↦ pure ([], bitmaps)
    | some name ↦ named_bitmap bitmaps cmd tokens name
  ]
