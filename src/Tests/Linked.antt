-- ===== src/Tests/Linked.antt =====
-- A library for the interpreter of sp_prj1/20241620/main.c with a list in every slot. Its elements are
-- numbered items, each with a value, and the tails are `none`.
pub mod Cells
pub mod Chains
pub mod Choice
pub mod Laws
use system_programming.Base.{
  ℕ, suc, ℤ, pos, Bool, true, false, Option, none, some, List, [], ◌∷◌, ◌++◌, ◌==◌, ◌≡◌, ◌<◌, ltb,
  All, length, get_or, replicate, if◌then◌else◌, map, ◌+◌,
}
use system_programming.Interp.Library.{Library, Run, pure}
use system_programming.Interp.Items.{lt_int}
use system_programming.Interp.Spec.{is_nil, all_but_last}
use system_programming.Interp.Spec.Laws.{ListModel}

pub record Memory : Type 0 where
  pub ids : ℕ → List ℕ
  pub val : ℕ → ℤ
  pub next : ℕ
  -- The slot of the list that an item is in.
  pub home : ℕ → ℕ

abbrev pub with_ids : Memory → ℕ → List ℕ → Memory
with_ids s l ids = record s { ids = λ k. if k == l then ids else s.ids k }

abbrev pub below : ℕ → List ℕ → List ℕ
below n [] = []
below n (i ∷ ids) = if ltb i n then i ∷ below n ids else below n ids

-- The next item, which no list holds.
abbrev pub malloc : Memory → Memory
malloc s = record s { ids = λ k. below s.next (s.ids k); next = suc s.next }

abbrev pub put : {A : Type 0} → (ℕ → A) → ℕ → A → ℕ → A
put val i v j = if j == i then v else val j

-- An item is put into a list, which then has these items.
abbrev pub enter : Memory → ℕ → ℕ → List ℕ → Memory
enter s l i ids = record (with_ids s l ids) { home = put s.home i l }

abbrev pub first_id : List ℕ → Option ℕ
first_id [] = none
first_id (i ∷ ids) = some i

abbrev pub last_id : List ℕ → Option ℕ
last_id [] = none
last_id (i ∷ []) = some i
last_id (i ∷ j ∷ ids) = last_id (j ∷ ids)

abbrev pub next_in : List ℕ → ℕ → Option ℕ
next_in [] e = none
next_in (i ∷ ids) e = if e == i then first_id ids else next_in ids e

abbrev pub reversed_ids : List ℕ → List ℕ
reversed_ids [] = []
reversed_ids (i ∷ ids) = reversed_ids ids ++ i ∷ []

abbrev pub insert_id : (ℕ → ℤ) → ℕ → List ℕ → List ℕ
insert_id val i [] = i ∷ []
insert_id val i (j ∷ ids) = if lt_int (val i) (val j) then i ∷ j ∷ ids else j ∷ insert_id val i ids

abbrev pub sorted_ids : (ℕ → ℤ) → List ℕ → List ℕ
sorted_ids val [] = []
sorted_ids val (i ∷ ids) = insert_id val i (sorted_ids val ids)

abbrev same_cell : Option ℕ → Option ℕ → Bool
same_cell none none = true
same_cell none (some j) = false
same_cell (some i) none = false
same_cell (some i) (some j) = i == j

abbrev write : Option ℕ → ℤ → Run Memory (Unit {0})
write none v s = none
write (some i) v s = some (tt, record s { val = put s.val i v })

abbrev value_at : Option ℕ → Run Memory ℤ
value_at none s = none
value_at (some i) s = some (s.val i, s)

abbrev next_of : Option ℕ → Run Memory (Option ℕ)
next_of none s = none
next_of (some i) s = some (next_in (s.ids (s.home i)) i, s)

abbrev push_front : ℕ → Option ℕ → Run Memory (Unit {0})
push_front l none s = none
push_front l (some i) s = some (tt, enter s l i (i ∷ s.ids l))

abbrev push_back : ℕ → Option ℕ → Run Memory (Unit {0})
push_back l none s = none
push_back l (some i) s = some (tt, enter s l i (s.ids l ++ i ∷ []))

abbrev tail_ids : List ℕ → List ℕ
tail_ids [] = []
tail_ids (i ∷ ids) = ids

abbrev pop_front : ℕ → Run Memory (Option ℕ)
pop_front l s = some (first_id (s.ids l), with_ids s l (tail_ids (s.ids l)))

abbrev pop_back : ℕ → Run Memory (Option ℕ)
pop_back l s = some (last_id (s.ids l), with_ids s l (all_but_last (s.ids l)))

abbrev pub without_id : ℕ → List ℕ → List ℕ
without_id e [] = []
without_id e (i ∷ ids) = if i == e then ids else i ∷ without_id e ids

abbrev remove : Option ℕ → Run Memory (Unit {0})
remove none s = none
remove (some i) s = some (tt, with_ids s (s.home i) (without_id i (s.ids (s.home i))))

abbrev insert_ordered : ℕ → Option ℕ → Run Memory (Unit {0})
insert_ordered l none s = none
insert_ordered l (some i) s = some (tt, enter s l i (insert_id s.val i (s.ids l)))

-- The first item whose value no other exceeds.
abbrev pub extreme_from : (ℤ → ℤ → Bool) → (ℕ → ℤ) → ℕ → List ℕ → ℕ
extreme_from exceeded val m [] = m
extreme_from exceeded val m (i ∷ ids) =
    extreme_from exceeded val (if exceeded (val m) (val i) then i else m) ids

abbrev pub extreme_id : (ℤ → ℤ → Bool) → (ℕ → ℤ) → List ℕ → Option ℕ
extreme_id exceeded val [] = none
extreme_id exceeded val (i ∷ ids) = some (extreme_from exceeded val i ids)

abbrev done : Run Memory (Unit {0})
done = pure tt

abbrev pub linked_library : Library
linked_library = record {
  Store = Memory;
  Elem = Option ℕ;
  HashElem = ℕ;
  Bitmap = List Bool;
  same_elem = same_cell;
  malloc_item = λ s. some (some (some s.next), malloc s);
  set_value = write;
  value = value_at;
  free_item = λ e. done;
  list_init = λ l s. some (tt, with_ids s l []);
  list_begin = λ l s. some (first_id (s.ids l), s);
  list_end = λ l. pure none;
  list_next = next_of;
  list_insert = λ before e. done;
  list_splice = λ before first last. done;
  list_push_front = push_front;
  list_push_back = push_back;
  list_remove = remove;
  list_pop_front = pop_front;
  list_pop_back = pop_back;
  list_front = λ l s. some (first_id (s.ids l), s);
  list_back = λ l s. some (last_id (s.ids l), s);
  list_size = λ l s. some (length (s.ids l), s);
  list_empty = λ l s. some (is_nil (s.ids l), s);
  list_reverse = λ l s. some (tt, with_ids s l (reversed_ids (s.ids l)));
  list_sort = λ l less s. some (tt, with_ids s l (sorted_ids s.val (s.ids l)));
  list_insert_ordered = λ l e less. insert_ordered l e;
  list_unique = λ l duplicates less. done;
  list_max = λ l less s. some (extreme_id lt_int s.val (s.ids l), s);
  list_min = λ l less s. some (extreme_id (λ a b. lt_int b a) s.val (s.ids l), s);
  list_swap = λ a b. done;
  list_shuffle = λ l. done;
  malloc_hash_item = pure none;
  temp_item = pure 0;
  set_hash_value = λ e v. done;
  hash_value = λ e. pure (pos 0);
  free_hash_item = λ e. done;
  Iterator = ℕ;
  hash_int = λ v. 0;
  hash_init = λ h hash less. pure true;
  hash_insert = λ h e. pure none;
  hash_replace = λ h e. pure none;
  hash_delete = λ h e. pure none;
  hash_find = λ h e. pure none;
  hash_size = λ h. pure 0;
  hash_empty = λ h. pure true;
  hash_clear = λ h f. done;
  hash_destroy = λ h f. done;
  hash_apply = λ h f. done;
  hash_first = λ h. pure 0;
  hash_next = λ it. pure (none, it);
  bitmap_create = λ n. pure (some (replicate n false));
  bitmap_destroy = λ b. done;
  bitmap_size = λ b. pure (length b);
  bitmap_set = λ b i v. done;
  bitmap_mark = λ b i. done;
  bitmap_reset = λ b i. done;
  bitmap_flip = λ b i. done;
  bitmap_test = λ b i. pure (get_or b i false);
  bitmap_set_all = λ b v. done;
  bitmap_set_multiple = λ b i n v. done;
  bitmap_count = λ b i n v. pure 0;
  bitmap_contains = λ b i n v. pure false;
  bitmap_any = λ b i n. pure false;
  bitmap_none = λ b i n. pure true;
  bitmap_all = λ b i n. pure false;
  bitmap_scan = λ b i n v. pure 0;
  bitmap_scan_and_flip = λ b i n v. pure 0;
  bitmap_dump = λ b. pure [];
  bitmap_expand = λ b n. pure none;
}

abbrev pub cells : (ℕ → ℤ) → List ℕ → List (Option ℕ × ℤ)
cells val [] = []
cells val (i ∷ ids) = (some i, val i) ∷ cells val ids

abbrev pub NotIn : ℕ → List ℕ → Type 0
NotIn e [] = Unit {0}
NotIn e (i ∷ ids) = ((i == e) ≡ false) × NotIn e ids

abbrev pub Distinct : List ℕ → Type 0
Distinct [] = Unit {0}
Distinct (i ∷ ids) = NotIn i ids × Distinct ids

-- The items of a list were handed out, and the list is their home.
abbrev pub IsHome : Memory → ℕ → ℕ → Type 0
IsHome s l i = (i < s.next) × (s.home i ≡ l)

-- An item that no list holds.
abbrev pub IsOut : Memory → Option ℕ → ℕ → Type 0
IsOut s e i = (e ≡ some i) × (i < s.next) × ((k : ℕ) → NotIn i (s.ids k))

abbrev pub linked_model : ListModel linked_library
linked_model = record {
  view = λ s l. cells s.val (s.ids l);
  stop = λ s l. none;
  IsList = λ s l. Distinct (s.ids l) × All (IsHome s l) (s.ids l);
  Fresh = λ s e. (i : ℕ) × IsOut s e i;
  Loose = λ s e v. (i : ℕ) × IsOut s e i × (s.val i ≡ v);
  Taken = λ s e. Unit {0};
}
