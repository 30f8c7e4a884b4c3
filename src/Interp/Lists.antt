-- ===== src/Interp/Lists.antt =====
-- `do_list_command` of sp_prj1/20241620/main.c: a function for each command, and the ladder.
use system_programming.Base.{ℕ, Option, none, some, List, [], if◌then◌else◌, get_elem?}
use system_programming.Shell.Text.{Text}
use system_programming.Interp.{
  Out, print_int, print_size, print_bool, Slot, atoi, is_word, find_used,
}
use system_programming.Interp.Library.{Library, Run, ◌>>=◌, ◌>>◌, pure}
use system_programming.Interp.Items.{list_elem_at, list_pos_at, list_item_less, make_list_item}

-- A command with an argument: without it, nothing is done.
abbrev pub with_arg : {S : Type 0} → List Text → ℕ → (Text → Run S (List Out)) → Run S (List Out)
with_arg tokens i f = elim (get_elem? tokens i) [ none ↦ pure [] | some arg ↦ f arg ]

abbrev pub quiet : {S : Type 0} → Run S (Unit {0}) → Run S (List Out)
quiet m = do m; pure []

module _ (lib : Library) where
  open lib use {
    Store, Elem, value, free_item, list_insert, list_splice, list_push_front, list_push_back,
    list_remove, list_pop_front, list_pop_back, list_front, list_back, list_size, list_empty,
    list_reverse, list_sort, list_insert_ordered, list_unique, list_max, list_min, list_swap,
    list_shuffle,
  }

  -- `if (item != NULL) push (&obj->list, &item->elem);`
  unfoldable pub push_new : (ℕ → Elem → Run Store (Unit {0})) → ℕ → Text → Run Store (List Out)
  unfolding make_list_item atoi
  push_new push list arg = do
    item ← make_list_item lib (atoi arg)
    elim item [ none ↦ pure [] | some e ↦ quiet (push list e) ]

  unfoldable pub pop_free : (ℕ → Run Store Elem) → ℕ → Run Store (List Out)
  pop_free pop list = do
    empty ← list_empty list
    if empty then pure [] else (do e ← pop list; quiet (free_item e))

  -- The value of the element that `get` names, if the list is not empty.
  unfoldable pub show_elem : (ℕ → Run Store Elem) → ℕ → Run Store (List Out)
  show_elem get list = do
    empty ← list_empty list
    if empty then pure [] else (do e ← get list; v ← value e; pure (print_int v))

  -- An item that finds no place is freed; `free (NULL)` does nothing.
  unfoldable pub insert_new : Option Elem → Option Elem → Run Store (List Out)
  insert_new none pos = pure []
  insert_new (some e) none = quiet (free_item e)
  insert_new (some e) (some before) = quiet (list_insert before e)

  unfoldable pub insert_at : ℕ → Text → Text → Run Store (List Out)
  unfolding list_pos_at make_list_item insert_new atoi
  insert_at list idx v = do
    pos ← list_pos_at lib list (atoi idx)
    item ← make_list_item lib (atoi v)
    insert_new item pos

  unfoldable pub insert_in_order : ℕ → Text → Run Store (List Out)
  unfolding make_list_item list_item_less atoi
  insert_in_order list v = do
    item ← make_list_item lib (atoi v)
    elim item [ none ↦ pure [] | some e ↦ quiet (list_insert_ordered list e (list_item_less lib)) ]

  unfoldable pub remove_at : ℕ → Text → Run Store (List Out)
  unfolding list_elem_at atoi
  remove_at list idx = do
    found ← list_elem_at lib list (atoi idx)
    elim found [ none ↦ pure [] | some e ↦ (do list_remove e; quiet (free_item e)) ]

  unfoldable pub splice_found : Option Elem → Option Elem → Option Elem → Run Store (List Out)
  splice_found (some before) (some first) (some last) = quiet (list_splice before first last)
  splice_found _ _ _ = pure []

  -- `source` is the list that the third argument names.
  unfoldable pub splice : ℕ → Option ℕ → Text → Text → Text → Run Store (List Out)
  unfolding list_pos_at list_elem_at splice_found atoi
  splice list none pos from to = pure []
  splice list (some source) pos from to = do
    before ← list_pos_at lib list (atoi pos)
    first ← list_elem_at lib source (atoi from)
    last ← list_pos_at lib source (atoi to)
    splice_found before first last

  unfoldable pub swap_found : Option Elem → Option Elem → Run Store (List Out)
  swap_found (some a) (some b) = quiet (list_swap a b)
  swap_found _ _ = pure []

  unfoldable pub swap_at : ℕ → Text → Text → Run Store (List Out)
  unfolding list_elem_at swap_found atoi
  swap_at list i j = do
    a ← list_elem_at lib list (atoi i)
    b ← list_elem_at lib list (atoi j)
    swap_found a b

  -- The list that the duplicates go to: none without an argument, and none if it names no list.
  abbrev pub duplicates_list : List (Slot (Unit {0})) → List Text → Option ℕ
  duplicates_list lists tokens = elim (get_elem? tokens 2) [
    | none ↦ none
    | some name ↦ find_used name lists
  ]

  -- The ladder; `cmd` is `tokens[0]`, and `list` the slot of the list that `tokens[1]` names.
  unfoldable pub list_ladder : List (Slot (Unit {0})) → Text → List Text → ℕ → Run Store (List Out)
  unfolding push_new pop_free show_elem insert_at insert_in_order remove_at splice swap_at find_used
      is_word
  list_ladder lists cmd tokens list =
      if is_word cmd "list_push_front"
      then with_arg tokens 2 (push_new list_push_front list)
      else if is_word cmd "list_push_back"
      then with_arg tokens 2 (push_new list_push_back list)
      else if is_word cmd "list_pop_front"
      then pop_free list_pop_front list
      else if is_word cmd "list_pop_back"
      then pop_free list_pop_back list
      else if is_word cmd "list_front"
      then show_elem list_front list
      else if is_word cmd "list_back"
      then show_elem list_back list
      else if is_word cmd "list_empty"
      then (do empty ← list_empty list; pure (print_bool empty))
      else if is_word cmd "list_size"
      then (do n ← list_size list; pure (print_size n))
      else if is_word cmd "list_insert"
      then with_arg tokens 2 (λ idx. with_arg tokens 3 (insert_at list idx))
      else if is_word cmd "list_insert_ordered"
      then with_arg tokens 2 (insert_in_order list)
      else if is_word cmd "list_remove"
      then with_arg tokens 2 (remove_at list)
      else if is_word cmd "list_reverse"
      then quiet (list_reverse list)
      else if is_word cmd "list_sort"
      then quiet (list_sort list (list_item_less lib))
      else if is_word cmd "list_splice"
      then with_arg tokens 2 (λ pos. with_arg tokens 3 (λ name.
        with_arg tokens 4
          (λ from. with_arg tokens 5 (splice list (find_used name lists) pos from))))
      else if is_word cmd "list_unique"
      then quiet (list_unique list (duplicates_list lists tokens) (list_item_less lib))
      else if is_word cmd "list_max"
      then show_elem (λ l. list_max l (list_item_less lib)) list
      else if is_word cmd "list_min"
      then show_elem (λ l. list_min l (list_item_less lib)) list
      else if is_word cmd "list_swap"
      then with_arg tokens 2 (λ i. with_arg tokens 3 (swap_at list i))
      else if is_word cmd "list_shuffle"
      then quiet (list_shuffle list)
      else pure []

  unfoldable pub do_list_command : List (Slot (Unit {0})) → Text → List Text → Run Store (List Out)
  unfolding list_ladder find_used
  do_list_command lists cmd tokens = with_arg tokens 1 (λ name. elim (find_used name lists) [
    | none ↦ pure []
    | some list ↦ list_ladder lists cmd tokens list
  ])
