-- ===== src/Tests/Interp.antt =====
-- The interpreter of sp_prj1/20241620/main.c at concrete lines.
use system_programming.Base.{
  ℤ, pos, true, none, some, List, [], ◌∷◌, ◌≡◌, ◌≢◌, refl, replicate, length, Bool, leb→le, ltb→lt,
}
use system_programming.Shell.Text.{Text}
use system_programming.Interp.{
  codes, int, blank, newline, size, name_len, find_empty, copy_name, max_ds, is_word,
}
use system_programming.Shell.Text.{skip_space, is_space}
use system_programming.Shell.JobId.{is_digit, read_digits}
use system_programming.Interp.World.{
  unused_slot, Tables, no_objects, find_object, no_object, list_ref, create_list_object, do_delete,
}
use system_programming.Interp.Main.{main_loop, main, run_tokens, goes_on}
use system_programming.Interp.Sound.{IsTables}
use system_programming.Interp.Objects.{
  main_loop-IsSound, main_loop-long, create_list_object-finds, do_delete-finds, run_tokens-unknown,
}
use system_programming.Interp.Items.{empty_list}
use system_programming.Tests.Library.{items_library}

abbrev session : List Text
session =
    codes "create list a"
    ∷ codes "list_push_back a 4"
    ∷ codes "list_push_back a 7"
    ∷ codes "dumpdata a"
    ∷ codes "list_size a"
    ∷ codes "quit"
    ∷ []

main_prints :
    (w : Tables (List Bool)) × (s : List ℤ) × (main items_library session []
      ≡ some ((w, int (pos 4) ∷ blank ∷ int (pos 7) ∷ newline ∷ size 2 ∷ newline ∷ []), s))
unfolding main copy_name skip_space is_space is_digit read_digits
main_prints = (_, _, refl)

-- A list of the name `a` in the first slot.
abbrev pub one_list : Tables (List Bool)
one_list = record {
  lists = record { name = codes "a"; object = tt; used = true } ∷ replicate 9 (unused_slot tt);
  hashes = replicate max_ds (unused_slot tt);
  bitmaps = replicate max_ds (unused_slot none);
}

abbrev create_a : List Text
create_a = codes "create list a" ∷ []

create_a_runs : main_loop items_library no_objects create_a [] ≡ some ((one_list, []), [])
unfolding main_loop copy_name
create_a_runs = refl

main_loop-IsSound_example : IsTables one_list
main_loop-IsSound_example = main_loop-IsSound items_library create_a [] [] one_list [] create_a_runs

abbrev long_name : Text
long_name = replicate 40 97

main_loop-long_example : find_object one_list long_name ≡ no_object
main_loop-long_example =
    main_loop-long items_library create_a long_name [] [] one_list [] create_a_runs
      (leb→le name_len (length long_name) refl)

b_new : find_object one_list (codes "b") ≡ no_object
unfolding find_object
b_new = refl

second_empty : find_empty one_list.lists ≡ some 1
unfolding find_empty
second_empty = refl

create_list_object-finds_example :
    (w' : Tables (List Bool)) × (create_list_object items_library one_list (codes "b") []
      ≡ some (w', []))
    × (find_object w' (codes "b") ≡ list_ref 1)
    × ((other : Text) → codes "b" ≢ other → find_object w' other ≡ find_object one_list other)
create_list_object-finds_example =
    create_list_object-finds items_library one_list (codes "b") 1 [] []
      (ltb→lt (length (codes "b")) name_len refl) b_new second_empty refl

a_found : find_object one_list (codes "a") ≡ list_ref 0
unfolding find_object
a_found = refl

emptied : empty_list items_library 0 (pos 4 ∷ pos 7 ∷ []) ≡ some (tt, [])
unfolding empty_list
emptied = refl

do_delete-finds_example :
    (w' : Tables (List Bool)) × (do_delete items_library one_list (codes "a") (pos 4 ∷ pos 7 ∷ [])
      ≡ some (w', []))
    × (find_object w' (codes "a") ≢ list_ref 0)
    × ((other : Text) → codes "a" ≢ other → find_object w' other ≡ find_object one_list other)
do_delete-finds_example =
    do_delete-finds items_library one_list (codes "a") 0 (pos 4 ∷ pos 7 ∷ []) [] a_found emptied

run_tokens-unknown_example :
    run_tokens items_library one_list (codes "list_push_back" ∷ codes "b" ∷ codes "4" ∷ []) []
    ≡ some (goes_on one_list [], [])
unfolding is_word
run_tokens-unknown_example =
    run_tokens-unknown items_library one_list (codes "list_push_back") (codes "b") (codes "4" ∷ [])
      [] refl refl b_new
