-- ===== src/Interp/Items.antt =====
-- The helpers of sp_prj1/20241620/main.c on elements: positions in a list, items, and the functions
-- that it hands to the libraries. Each loop over a list or a table runs on fuel, one round more than
-- it has elements, and aborts where that is not enough; the size is asked for only for that.
use system_programming.Base.{
  ℕ, zero, suc, ℤ, pos, negsuc, Bool, true, false, Option, none, some, List, [], ◌∷◌, ◌++◌, ◌==◌,
  leb, ltb, ◌||◌, ◌+◌, if◌then◌else◌,
}
use system_programming.Interp.{Out, int, blank, newline, to_size}
use system_programming.Interp.Library.{Library, Run, ◌>>=◌, ◌>>◌, pure}

abbrev pub is_negative : ℤ → Bool
is_negative (pos n) = false
is_negative (negsuc n) = true

-- `a < b` on `int`.
abbrev pub lt_int : ℤ → ℤ → Bool
lt_int (pos a) (pos b) = ltb a b
lt_int (pos a) (negsuc b) = false
lt_int (negsuc a) (pos b) = true
lt_int (negsuc a) (negsuc b) = ltb b a

abbrev pub abort : {S A : Type 0} → Run S A
abort s = none

-- A blank stands before each value but the first.
abbrev pub sep : Bool → List Out
sep first = if first then [] else blank ∷ []

module _ (lib : Library) where
  open lib use {
    Store, Elem, HashElem, Bitmap, same_elem, malloc_item, set_value, value, free_item, list_begin,
    list_end, list_next, list_size, malloc_hash_item, set_hash_value, hash_value, free_hash_item,
    hash_int, list_empty, list_pop_front, hash_first, hash_next, Iterator, bitmap_size, bitmap_test,
    hash_size,
  }

  -- `for (i = 0; i < idx; i++) e = list_next (e);`
  unfoldable pub advance : ℕ → Elem → Run Store Elem
  advance zero e = pure e
  advance (suc n) e = do e' ← list_next e; advance n e'

  -- `none` is NULL.
  unfoldable pub list_elem_at : ℕ → ℤ → Run Store (Option Elem)
  unfolding advance
  list_elem_at list idx = do
    e ← list_begin list
    size ← list_size list
    if is_negative idx || leb size (to_size idx)
        then pure none
        else (do e' ← advance (to_size idx) e; pure (some e'))

  unfoldable pub list_pos_at : ℕ → ℤ → Run Store (Option Elem)
  unfolding list_elem_at
  list_pos_at list idx = do
    size ← list_size list
    if is_negative idx || ltb size (to_size idx)
        then pure none
        else if to_size idx == size
        then (do e ← list_end list; pure (some e))
        else list_elem_at list idx

  unfoldable pub list_item_less : Elem → Elem → Run Store Bool
  list_item_less a b = do x ← value a; y ← value b; pure (lt_int x y)

  unfoldable pub hash_func : HashElem → Run Store ℕ
  hash_func e = do v ← hash_value e; pure (hash_int v)

  unfoldable pub hash_less : HashElem → HashElem → Run Store Bool
  hash_less a b = do x ← hash_value a; y ← hash_value b; pure (lt_int x y)

  unfoldable pub hash_destructor : HashElem → Run Store (Unit {0})
  hash_destructor e = free_hash_item e

  unfoldable pub make_list_item : ℤ → Run Store (Option Elem)
  make_list_item v = do
    item ← malloc_item
    elim item [ none ↦ pure none | some e ↦ (do set_value e v; pure (some e)) ]

  unfoldable pub make_hash_item : ℤ → Run Store (Option HashElem)
  make_hash_item v = do
    item ← malloc_hash_item
    elim item [ none ↦ pure none | some e ↦ (do set_hash_value e v; pure (some e)) ]

  unfoldable pub dump_from : ℕ → ℕ → Bool → Elem → Run Store (List Out)
  dump_from zero list first e = abort
  dump_from (suc k) list first e = do
    stop ← list_end list
    if same_elem e stop then pure (newline ∷ []) else (do
      v ← value e
      e' ← list_next e
      rest ← dump_from k list false e'
      pure (sep first ++ int v ∷ rest))

  unfoldable pub dump_list : ℕ → Run Store (List Out)
  unfolding dump_from
  dump_list list = do size ← list_size list; e ← list_begin list; dump_from (suc size) list true e

  unfoldable pub destroy_from : ℕ → ℕ → Run Store (Unit {0})
  destroy_from zero list = abort
  destroy_from (suc k) list = do
    empty ← list_empty list
    if empty then pure tt else (do e ← list_pop_front list; free_item e; destroy_from k list)

  -- The loop of `destroy_list`.
  unfoldable pub empty_list : ℕ → Run Store (Unit {0})
  unfolding destroy_from
  empty_list list = do size ← list_size list; destroy_from (suc size) list

  unfoldable pub dump_hash_from : ℕ → Bool → Iterator → Run Store (List Out)
  dump_hash_from zero first it = abort
  dump_hash_from (suc k) first it = do
    (e, it') ← hash_next it
    elim e [
      | none ↦ pure (newline ∷ [])
      | some e ↦ (do
        v ← hash_value e
        rest ← dump_hash_from k false it'
        pure (sep first ++ int v ∷ rest))
    ]

  unfoldable pub dump_hash : ℕ → Run Store (List Out)
  unfolding dump_hash_from
  dump_hash hash = do size ← hash_size hash; it ← hash_first hash; dump_hash_from (suc size) true it

  unfoldable pub dump_bits : ℕ → ℕ → Bitmap → Run Store (List Out)
  dump_bits zero i b = pure (newline ∷ [])
  dump_bits (suc n) i b = do
    bit ← bitmap_test b i
    rest ← dump_bits n (i + 1) b
    pure (int (if bit then pos 1 else pos 0) ∷ rest)

  unfoldable pub dump_bitmap : Bitmap → Run Store (List Out)
  unfolding dump_bits
  dump_bitmap b = do size ← bitmap_size b; dump_bits size 0 b
