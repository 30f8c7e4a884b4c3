-- ===== src/Tests/Sessions.antt =====
-- A session of commands on two lists, run by the interpreter of sp_prj1/20241620/main.c.
use system_programming.Base.{ℕ, pos, negsuc, false, some, List, [], ◌∷◌, ◌≡◌, ◌<◌, refl, arith, map}
use system_programming.Shell.Text.{skip_space, is_space}
use system_programming.Shell.Builtins.{same_text}
use system_programming.Shell.JobId.{is_digit, read_digits}
use system_programming.Tokens.Laws.{IsToken}
use system_programming.Interp.{codes, int, blank, newline, atoi, max_ds}
use system_programming.Interp.World.{Tables, in_use}
use system_programming.Interp.Main.{main, is_delimiter}
use system_programming.Interp.Spec.{
  push_front, push_back, pop_back, back, sort, remove, insert_ordered, max, min, dumpdata,
}
use system_programming.Interp.Spec.Objects.{
  Command, create, delete, on, exec_all, nothing, command_line, AreAllowed,
}
use system_programming.Interp.Spec.Programs.{main-refines}
use system_programming.Tests.Linked.{Memory, linked_library, linked_model}
use system_programming.Tests.Linked.Laws.{linked_laws}

abbrev commands : List Command
commands =
    create (codes "a")
    ∷ create (codes "b")
    ∷ on (codes "a") (push_back (codes "4"))
    ∷ on (codes "a") (push_front (codes "9"))
    ∷ on (codes "b") (push_back (codes "6"))
    ∷ on (codes "a") (push_back (codes "-7"))
    ∷ on (codes "a") (insert_ordered (codes "5"))
    ∷ on (codes "a") dumpdata
    ∷ on (codes "a") sort
    ∷ on (codes "a") (remove (codes "0"))
    ∷ on (codes "a") dumpdata
    ∷ on (codes "a") max
    ∷ on (codes "a") min
    ∷ delete (codes "b")
    ∷ on (codes "b") dumpdata
    ∷ on (codes "a") pop_back
    ∷ on (codes "a") back
    ∷ []

abbrev start : Memory
start = record { ids = λ l. []; val = λ i. pos 0; next = 0; home = λ i. 0 }

-- What the specification prints.
commands_print :
    (exec_all commands nothing).1
    ≡ int (pos 5)
      ∷ blank
      ∷ int (pos 9)
      ∷ blank
      ∷ int (pos 4)
      ∷ blank
      ∷ int (negsuc 6)
      ∷ newline
      ∷ int (pos 4)
      ∷ blank
      ∷ int (pos 5)
      ∷ blank
      ∷ int (pos 9)
      ∷ newline
      ∷ int (pos 9)
      ∷ newline
      ∷ int (pos 4)
      ∷ newline
      ∷ int (pos 5)
      ∷ newline
      ∷ []
unfolding skip_space is_space is_digit read_digits same_text atoi
commands_print = refl

a_word : IsToken is_delimiter (codes "a")
unfolding is_delimiter
a_word = record { nonempty = refl; clean = refl }

b_word : IsToken is_delimiter (codes "b")
unfolding is_delimiter
b_word = record { nonempty = refl; clean = refl }

digit : (c : ℕ) → is_delimiter c ≡ false → IsToken is_delimiter (c ∷ [])
digit c h = record { nonempty = refl; clean = rw h }

minus_seven : IsToken is_delimiter (codes "-7")
unfolding is_delimiter
minus_seven = record { nonempty = refl; clean = refl }

commands_allowed : AreAllowed commands nothing
unfolding is_delimiter same_text
commands_allowed = (
  ((a_word, omega arith, refl), omega arith),
  (
    ((b_word, omega arith, refl), omega arith),
    (
      ((a_word, (digit 52 refl, tt)), omega arith),
      (
        ((a_word, (digit 57 refl, tt)), omega arith),
        (
          ((b_word, (digit 54 refl, tt)), omega arith),
          (
            ((a_word, (minus_seven, tt)), omega arith),
            (
              ((a_word, (digit 53 refl, tt)), omega arith),
              (
                ((a_word, tt), omega arith),
                (
                  ((a_word, tt), omega arith),
                  (
                    ((a_word, (digit 48 refl, tt)), omega arith),
                    (
                      ((a_word, tt), omega arith),
                      (
                        ((a_word, tt), omega arith),
                        (
                          ((a_word, tt), omega arith),
                          (
                            (b_word, omega arith),
                            (
                              ((b_word, tt), omega arith),
                              (((a_word, tt), omega arith), (((a_word, tt), omega arith), tt)),
                            ),
                          ),
                        ),
                      ),
                    ),
                  ),
                ),
              ),
            ),
          ),
        ),
      ),
    ),
  ),
)

main-refines_example :
    (w : Tables linked_library.Bitmap) × (s' : Memory) × (main linked_library
        (map command_line commands)
        start
      ≡ some ((w, (exec_all commands nothing).1), s'))
    × ((k : ℕ) → k < max_ds → in_use w.lists k ≡ false)
main-refines_example =
    main-refines linked_library linked_model linked_laws commands start commands_allowed
