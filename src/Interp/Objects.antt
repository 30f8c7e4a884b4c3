-- ===== src/Interp/Objects.antt =====
-- Which objects the commands of sp_prj1/20241620/main.c make, find and take away.
use system_programming.Base.{
  ℕ, ◌≤◌, ◌<◌, false, Option, none, some, List, [], ◌∷◌, ◌≡◌, ◌≢◌, refl, sym, ◌∙◌, arith, length,
  All-imp, set,
}
use system_programming.Shell.Text.{Text}
use system_programming.Interp.{
  Out, name_len, codes, is_word, find_used, find_empty, release, new_slot, copy_name,
}
use system_programming.Interp.Library.{Library, ◌>>=◌}
use system_programming.Interp.Names.{
  find_used-new, find_used-other, find_used-release, find_used-released, find_used-long, NameFits,
  take_short,
}
use system_programming.Interp.Sound.{IsTables, IsBitmapSlot}
use system_programming.Interp.Sound.Loop.{main_loop-IsTables, no_objects-IsTables}
use system_programming.Interp.World.{
  do_dumpdata, dump_ref, Tables, first_ref, no_object, list_ref, no_objects, find_object,
  create_list_object, do_delete, delete_ref, destroy_list,
}
use system_programming.Interp.Lists.{do_list_command, with_arg}
use system_programming.Interp.Gives.{if-same}
use system_programming.Interp.Hashes.{do_hash_command}
use system_programming.Interp.Bitmaps.{do_bitmap_command, named_bitmap}
use system_programming.Interp.Items.{empty_list}
use system_programming.Interp.Main.{
  goes_on, main_loop, run_tokens, dispatch, by_prefix, do_bitmaps, has_prefix,
}

first_ref-none :
    (a b c : Option ℕ) → first_ref a b c ≡ no_object → (a ≡ none) × (b ≡ none) × (c ≡ none)
first_ref-none none none none h = (refl, refl, refl)
first_ref-none none none (some i) h = cc
first_ref-none none (some i) c h = cc
first_ref-none (some i) b c h = cc

first_ref-list : (a b c : Option ℕ) (i : ℕ) → first_ref a b c ≡ list_ref i → a ≡ some i
first_ref-list none none none i h = cc
first_ref-list none none (some j) i h = cc
first_ref-list none (some j) c i h = cc
first_ref-list (some j) b c i h = cc

module _ {B : Type 0} where
  no_object-tables :
      (w : Tables B) (name : Text)
      → find_object w name ≡ no_object
      → (find_used name w.lists ≡ none)
        × (find_used name w.hashes ≡ none)
        × (find_used name w.bitmaps ≡ none)
  unfolding find_object
  no_object-tables w name =
      first_ref-none (find_used name w.lists) (find_used name w.hashes) (find_used name w.bitmaps)

  find_object-long :
      (w : Tables B) (name : Text)
      → IsTables w
      → name_len ≤ length name
      → find_object w name ≡ no_object
  unfolding find_object
  find_object-long w name h long = rw (
    find_used-long name w.lists h.lists.each long,
    find_used-long name w.hashes h.hashes.each long,
    find_used-long name w.bitmaps
        (All-imp IsBitmapSlot NameFits w.bitmaps (λ slot p. p.0) h.bitmaps.each) long,
  )

module _ (lib : Library) where
  open lib use {Store, Bitmap, list_init}

  -- Whatever lines were read from the start on, the tables are sound.
  pub main_loop-IsSound :
      (lines : List Text) (s s' : Store) (w : Tables Bitmap) (out : List Out)
      → main_loop lib no_objects lines s ≡ some ((w, out), s')
      → IsTables w
  main_loop-IsSound lines s s' w out h =
      main_loop-IsTables lib no_objects lines no_objects-IsTables s (w, out) s' h

  -- Whatever lines were read from the start on, a name of 32 bytes or more stands for no object,
  -- also if an object was created with it.
  pub main_loop-long :
      (lines : List Text) (name : Text) (s s' : Store) (w : Tables Bitmap) (out : List Out)
      → main_loop lib no_objects lines s ≡ some ((w, out), s')
      → name_len ≤ length name
      → find_object w name ≡ no_object
  main_loop-long lines name s s' w out h long =
      find_object-long w name (main_loop-IsSound lines s s' w out h) long

  -- A list that is created with a name that fits and that no object has, while there is an empty
  -- slot, is the object of that name, and every other name stands for what it stood for.
  pub create_list_object-finds :
      (w : Tables Bitmap) (name : Text) (i : ℕ) (s s' : Store)
      → length name < name_len
      → find_object w name ≡ no_object
      → find_empty w.lists ≡ some i
      → list_init i s ≡ some (tt, s')
      → (w' : Tables Bitmap) × (create_list_object lib w name s ≡ some (w', s'))
        × (find_object w' name ≡ list_ref i)
        × ((other : Text) → name ≢ other → find_object w' other ≡ find_object w other)
  unfolding create_list_object find_object copy_name
  create_list_object-finds w name i s s' short new free init = (
    record w { lists = set w.lists i (new_slot name tt) },
    rw (free, create_list_object, ◌>>=◌, init),
    rw (find_used-new name tt w.lists i short (no_object-tables w name new).0 free),
    λ other ne. rw (
        find_used-other name other tt w.lists i free
          (λ e. ne (sym (take_short 31 name (omega arith)) ∙ e))),
  )

  -- Deleting a list by its name empties its slot, so that the name does not stand for it any longer,
  -- and every other name stands for what it stood for.
  pub do_delete-finds :
      (w : Tables Bitmap) (name : Text) (i : ℕ) (s s' : Store)
      → find_object w name ≡ list_ref i
      → empty_list lib i s ≡ some (tt, s')
      → (w' : Tables Bitmap) × (do_delete lib w name s ≡ some (w', s'))
        × (find_object w' name ≢ list_ref i)
        × ((other : Text) → name ≢ other → find_object w' other ≡ find_object w other)
  unfolding do_delete delete_ref destroy_list find_object
  do_delete-finds w name i s s' found runs =
      let at =
        first_ref-list (find_used name w.lists) (find_used name w.hashes) (find_used name w.bitmaps)
          i found in
      (
        record w { lists = release i w.lists },
        rw (at, ◌>>=◌, runs),
        λ e. find_used-released name w.lists i at (first_ref-list _ _ _ i e),
        λ other ne. rw (find_used-release name other w.lists i at ne),
      )

  do_list_command-unknown :
      (w : Tables Bitmap) (cmd name : Text) (args : List Text) (s : Store)
      → find_used name w.lists ≡ none
      → do_list_command lib w.lists cmd (cmd ∷ name ∷ args) s ≡ some ([], s)
  unfolding do_list_command
  do_list_command-unknown w cmd name args s e = rw (e, do_list_command, with_arg)

  do_hash_command-unknown :
      (w : Tables Bitmap) (cmd name : Text) (args : List Text) (s : Store)
      → find_used name w.hashes ≡ none
      → do_hash_command lib w.hashes cmd (cmd ∷ name ∷ args) s ≡ some ([], s)
  unfolding do_hash_command
  do_hash_command-unknown w cmd name args s e = rw (e, do_hash_command, with_arg)

  do_bitmaps-unknown :
      (w : Tables Bitmap) (cmd name : Text) (args : List Text) (s : Store)
      → find_used name w.bitmaps ≡ none
      → do_bitmaps lib w cmd (cmd ∷ name ∷ args) s ≡ some (goes_on w [], s)
  unfolding do_bitmaps do_bitmap_command named_bitmap
  do_bitmaps-unknown w cmd name args s e = rw (e, ◌>>=◌)

  by_prefix-unknown :
      (w : Tables Bitmap) (cmd name : Text) (args : List Text) (s : Store)
      → find_object w name ≡ no_object
      → by_prefix lib w cmd (cmd ∷ name ∷ args) s ≡ some (goes_on w [], s)
  unfolding by_prefix
  by_prefix-unknown w cmd name args s new =
      let (lists, hashes, bitmaps) = no_object-tables w name new in
      if-same (has_prefix cmd (codes "list_")) _ _ s
        (rw (do_list_command-unknown w cmd name args s lists, ◌>>=◌))
        (if-same (has_prefix cmd (codes "hash_")) _ _ s
          (rw (do_hash_command-unknown w cmd name args s hashes, ◌>>=◌))
          (if-same (has_prefix cmd (codes "bitmap_")) _ _ s
            (do_bitmaps-unknown w cmd name args s bitmaps) refl))

  -- A command that is neither `quit` nor `create` changes nothing and prints nothing, if no object
  -- has the name that it is given.
  pub run_tokens-unknown :
      (w : Tables Bitmap) (cmd name : Text) (args : List Text) (s : Store)
      → is_word cmd "quit" ≡ false
      → is_word cmd "create" ≡ false
      → find_object w name ≡ no_object
      → run_tokens lib w (cmd ∷ name ∷ args) s ≡ some (goes_on w [], s)
  unfolding run_tokens dispatch do_delete do_dumpdata delete_ref dump_ref
  run_tokens-unknown w cmd name args s quit create new =
      let others = by_prefix-unknown w cmd name args s new in
      rw (quit, create)
        (if-same (is_word cmd "delete") _ _ s (rw (new, ◌>>=◌))
          (if-same (is_word cmd "dumpdata") _ _ s (rw (new, ◌>>=◌)) others))
