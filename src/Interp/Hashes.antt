-- ===== src/Interp/Hashes.antt =====
-- `do_hash_command` of sp_prj1/20241620/main.c and the actions of `hash_apply`.
use system_programming.Base.{
  ℕ, zero, suc, ℤ, pos, negsuc, Option, none, some, List, [], ◌*◌, ◌^◌, if◌then◌else◌, ltb,
}
use system_programming.Shell.Text.{Text}
use system_programming.Interp.{
  Out, print_int, print_size, print_bool, Slot, atoi, is_word, find_used,
}
use system_programming.Interp.Library.{Library, Run, ◌>>=◌, ◌>>◌, pure}
use system_programming.Interp.Items.{hash_destructor, make_hash_item, abort}
use system_programming.Interp.Lists.{with_arg, quiet}

-- A number of `int`.
abbrev pub in_int : ℤ → Option ℤ
in_int (pos n) = if ltb n (2 ^ 31) then some (pos n) else none
in_int (negsuc n) = if ltb n (2 ^ 31) then some (negsuc n) else none

-- The number -n.
abbrev pub negated : ℕ → ℤ
negated zero = pos 0
negated (suc n) = negsuc n

abbrev pub times : ℤ → ℤ → ℤ
times (pos a) (pos b) = pos (a * b)
times (pos a) (negsuc b) = negated (a * suc b)
times (negsuc a) (pos b) = negated (suc a * b)
times (negsuc a) (negsuc b) = pos (suc a * suc b)

-- `a * b` on `int`: an overflow is undefined in C, and taken for an abort.
unfoldable pub mul_int : {S : Type 0} → ℤ → ℤ → Run S ℤ
mul_int a b = elim (in_int (times a b)) [ none ↦ abort | some c ↦ pure c ]

module _ (lib : Library) where
  open lib use {
    Store, HashElem, set_hash_value, hash_value, free_hash_item, temp_item, hash_insert,
    hash_replace, hash_delete, hash_find, hash_size, hash_empty, hash_clear, hash_apply,
  }

  unfoldable pub hash_action_square : HashElem → Run Store (Unit {0})
  unfolding mul_int
  hash_action_square e = do v ← hash_value e; w ← mul_int v v; set_hash_value e w

  unfoldable pub hash_action_triple : HashElem → Run Store (Unit {0})
  unfolding mul_int
  hash_action_triple e = do v ← hash_value e; w ← mul_int v v; u ← mul_int w v; set_hash_value e u

  -- `free` of an element that was found; `free (NULL)` is not called.
  abbrev pub free_found : Option HashElem → Run Store (List Out)
  free_found none = pure []
  free_found (some e) = quiet (free_hash_item e)

  -- An item that finds an equal one in the table is freed.
  unfoldable pub insert_item : ℕ → Text → Run Store (List Out)
  unfolding make_hash_item atoi
  insert_item hash arg = do
    item ← make_hash_item lib (atoi arg)
    elim item [
      | none ↦ pure []
      | some e ↦ (do
        old ← hash_insert hash e
        elim old [ none ↦ pure [] | some _ ↦ quiet (free_hash_item e) ])
    ]

  unfoldable pub replace_item : ℕ → Text → Run Store (List Out)
  unfolding make_hash_item atoi
  replace_item hash arg = do
    item ← make_hash_item lib (atoi arg)
    elim item [ none ↦ pure [] | some e ↦ (do old ← hash_replace hash e; free_found old) ]

  unfoldable pub delete_item : ℕ → Text → Run Store (List Out)
  unfolding atoi
  delete_item hash arg = do
    temp ← temp_item
    set_hash_value temp (atoi arg)
    found ← hash_delete hash temp
    free_found found

  abbrev pub show_found : Option HashElem → Run Store (List Out)
  show_found none = pure []
  show_found (some e) = do v ← hash_value e; pure (print_int v)

  unfoldable pub find_item : ℕ → Text → Run Store (List Out)
  unfolding atoi
  find_item hash arg = do
    temp ← temp_item
    set_hash_value temp (atoi arg)
    found ← hash_find hash temp
    show_found found

  unfoldable pub apply_action : ℕ → Text → Run Store (List Out)
  unfolding hash_action_square hash_action_triple is_word
  apply_action hash action =
      if is_word action "square"
      then quiet (hash_apply hash hash_action_square)
      else if is_word action "triple"
      then quiet (hash_apply hash hash_action_triple)
      else pure []

  -- The ladder; `cmd` is `tokens[0]`, and `hash` the slot of the table that `tokens[1]` names.
  unfoldable pub hash_ladder : Text → List Text → ℕ → Run Store (List Out)
  unfolding insert_item replace_item delete_item find_item apply_action is_word hash_destructor
  hash_ladder cmd tokens hash =
      if is_word cmd "hash_insert"
      then with_arg tokens 2 (insert_item hash)
      else if is_word cmd "hash_replace"
      then with_arg tokens 2 (replace_item hash)
      else if is_word cmd "hash_delete"
      then with_arg tokens 2 (delete_item hash)
      else if is_word cmd "hash_find"
      then with_arg tokens 2 (find_item hash)
      else if is_word cmd "hash_size"
      then (do n ← hash_size hash; pure (print_size n))
      else if is_word cmd "hash_empty"
      then (do empty ← hash_empty hash; pure (print_bool empty))
      else if is_word cmd "hash_clear"
      then quiet (hash_clear hash (hash_destructor lib))
      else if is_word cmd "hash_apply"
      then with_arg tokens 2 (apply_action hash)
      else pure []

  unfoldable pub do_hash_command : List (Slot (Unit {0})) → Text → List Text → Run Store (List Out)
  unfolding hash_ladder find_used
  do_hash_command hashes cmd tokens = with_arg tokens 1 (λ name. elim (find_used name hashes) [
    | none ↦ pure []
    | some hash ↦ hash_ladder cmd tokens hash
  ])
