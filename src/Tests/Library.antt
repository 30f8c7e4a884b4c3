-- ===== src/Tests/Library.antt =====
-- A library for the interpreter of sp_prj1/20241620/main.c, in which every list is the same list, an
-- element is its position, and a bitmap is a list of bits.
use system_programming.Base.{
  ℕ, suc, ℤ, pos, Bool, true, false, none, some, List, [], ◌∷◌, ◌++◌, ◌==◌, length, get_elem?,
  get_or, replicate,
}
use system_programming.Interp.Library.{Library, Run, pure}

abbrev Items : Type 0
Items = List ℤ

abbrev value_at : ℕ → Run Items ℤ
value_at e s = elim (get_elem? s e) [ none ↦ none | some v ↦ some (v, s) ]

abbrev pop : Run Items ℕ
pop [] = none
pop (v ∷ s) = some (0, s)

abbrev done : Run Items (Unit {0})
done = pure tt

abbrev pub items_library : Library
items_library = record {
  Store = Items;
  Elem = ℕ;
  HashElem = ℕ;
  Bitmap = List Bool;
  same_elem = λ a b. a == b;
  malloc_item = λ s. some (some (length s), s);
  set_value = λ e v s. some (tt, s ++ v ∷ []);
  value = value_at;
  free_item = λ e. done;
  list_init = λ l s. some (tt, []);
  list_begin = λ l. pure 0;
  list_end = λ l s. some (length s, s);
  list_next = λ e. pure (suc e);
  list_insert = λ before e. done;
  list_splice = λ before first last. done;
  list_push_front = λ l e. done;
  list_push_back = λ l e. done;
  list_remove = λ e. done;
  list_pop_front = λ l. pop;
  list_pop_back = λ l. pop;
  list_front = λ l. pure 0;
  list_back = λ l. pure 0;
  list_size = λ l s. some (length s, s);
  list_empty = λ l s. some (length s == 0, s);
  list_reverse = λ l. done;
  list_sort = λ l less. done;
  list_insert_ordered = λ l e less. done;
  list_unique = λ l duplicates less. done;
  list_max = λ l less. pure 0;
  list_min = λ l less. pure 0;
  list_swap = λ a b. done;
  list_shuffle = λ l. done;
  malloc_hash_item = pure none;
  temp_item = pure 0;
  set_hash_value = λ e v. done;
  hash_value = λ e. pure (pos 0);
  free_hash_item = λ e. done;
  Iterator = ℕ;
  hash_int = λ v. 0;
  hash_init = λ h hash less. pure true;
  hash_insert = λ h e. pure none;
  hash_replace = λ h e. pure none;
  hash_delete = λ h e. pure none;
  hash_find = λ h e. pure none;
  hash_size = λ h. pure 0;
  hash_empty = λ h. pure true;
  hash_clear = λ h f. done;
  hash_destroy = λ h f. done;
  hash_apply = λ h f. done;
  hash_first = λ h. pure 0;
  hash_next = λ it. pure (none, it);
  bitmap_create = λ n. pure (some (replicate n false));
  bitmap_destroy = λ b. done;
  bitmap_size = λ b. pure (length b);
  bitmap_set = λ b i v. done;
  bitmap_mark = λ b i. done;
  bitmap_reset = λ b i. done;
  bitmap_flip = λ b i. done;
  bitmap_test = λ b i. pure (get_or b i false);
  bitmap_set_all = λ b v. done;
  bitmap_set_multiple = λ b i n v. done;
  bitmap_count = λ b i n v. pure 0;
  bitmap_contains = λ b i n v. pure false;
  bitmap_any = λ b i n. pure false;
  bitmap_none = λ b i n. pure true;
  bitmap_all = λ b i n. pure false;
  bitmap_scan = λ b i n v. pure 0;
  bitmap_scan_and_flip = λ b i n v. pure 0;
  bitmap_dump = λ b. pure [];
  bitmap_expand = λ b n. pure none;
}
