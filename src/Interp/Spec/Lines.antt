-- ===== src/Interp/Spec/Lines.antt =====
-- One line on a list, as sp_prj1/20241620/main.c reads and runs it.
use system_programming.Base.{
  ℕ, ℤ, true, false, some, List, ◌∷◌, ◌≡◌, refl, subst, sym, ◌⊎◌, inl, inr, take,
}
use system_programming.Shell.Text.{Text, is_empty}
use system_programming.Tokens.Laws.{no_stop, IsToken}
use system_programming.Interp.{Slot, codes, is_word, find_used, token_max}
use system_programming.Interp.Library.{Library, ◌>>=◌}
use system_programming.Interp.Lists.{with_arg, list_ladder, do_list_command}
use system_programming.Interp.World.{Tables, find_object, list_ref, dump_ref, do_dumpdata}
use system_programming.Interp.Main.{
  is_delimiter, has_prefix, goes_on, by_prefix, dispatch, run_tokens,
}
use system_programming.Interp.Chain.{dump_list-HoldsItems}
use system_programming.Interp.Spec.{
  Op, push_front, push_back, pop_front, pop_back, front, back, empty, size, reverse, sort, remove,
  insert_ordered, max, min, dumpdata, step, command, arguments, words,
}
use system_programming.Interp.Spec.Laws.{ListModel, ListLaws, values}
use system_programming.Interp.Spec.Views.{Becomes, Becomes-refl}
use system_programming.Interp.Spec.Ladder.{list_ladder-Refines}

-- A command that `dispatch` hands to the ladder of lists.
abbrev IsListed : Op → Type 0
IsListed op =
    (is_word (command op) "dumpdata" ≡ false)
    × (is_word (command op) "quit" ≡ false)
    × (is_word (command op) "create" ≡ false)
    × (is_word (command op) "delete" ≡ false)
    × (has_prefix (command op) (codes "list_") ≡ true)

op-cases : (op : Op) → (op ≡ dumpdata) ⊎ IsListed op
unfolding is_word has_prefix
op-cases (push_front arg) = inr (refl, refl, refl, refl, refl)
op-cases (push_back arg) = inr (refl, refl, refl, refl, refl)
op-cases pop_front = inr (refl, refl, refl, refl, refl)
op-cases pop_back = inr (refl, refl, refl, refl, refl)
op-cases front = inr (refl, refl, refl, refl, refl)
op-cases back = inr (refl, refl, refl, refl, refl)
op-cases empty = inr (refl, refl, refl, refl, refl)
op-cases size = inr (refl, refl, refl, refl, refl)
op-cases reverse = inr (refl, refl, refl, refl, refl)
op-cases sort = inr (refl, refl, refl, refl, refl)
op-cases (remove idx) = inr (refl, refl, refl, refl, refl)
op-cases (insert_ordered arg) = inr (refl, refl, refl, refl, refl)
op-cases max = inr (refl, refl, refl, refl, refl)
op-cases min = inr (refl, refl, refl, refl, refl)
op-cases dumpdata = inl refl

pub command-others :
    (op : Op) → (is_word (command op) "quit" ≡ false) × (is_word (command op) "create" ≡ false)
unfolding is_word
command-others op = elim (op-cases op) [ inl dump ↦ rw dump (refl, refl) | inr h ↦ (h.1, h.2) ]

pub word : {w : Text} → is_empty w ≡ false → no_stop is_delimiter w ≡ true → IsToken is_delimiter w
word h k = record { nonempty = h; clean = k }

pub command-IsToken : (op : Op) → IsToken is_delimiter (command op)
unfolding is_delimiter
command-IsToken (push_front arg) = word refl refl
command-IsToken (push_back arg) = word refl refl
command-IsToken pop_front = word refl refl
command-IsToken pop_back = word refl refl
command-IsToken front = word refl refl
command-IsToken back = word refl refl
command-IsToken empty = word refl refl
command-IsToken size = word refl refl
command-IsToken reverse = word refl refl
command-IsToken sort = word refl refl
command-IsToken (remove idx) = word refl refl
command-IsToken (insert_ordered arg) = word refl refl
command-IsToken max = word refl refl
command-IsToken min = word refl refl
command-IsToken dumpdata = word refl refl

pub take-words : (name : Text) (op : Op) → take token_max (words name op) ≡ words name op
take-words name (push_front arg) = refl
take-words name (push_back arg) = refl
take-words name pop_front = refl
take-words name pop_back = refl
take-words name front = refl
take-words name back = refl
take-words name empty = refl
take-words name size = refl
take-words name reverse = refl
take-words name sort = refl
take-words name (remove idx) = refl
take-words name (insert_ordered arg) = refl
take-words name max = refl
take-words name min = refl
take-words name dumpdata = refl

module _ (lib : Library) (model : ListModel lib) (laws : ListLaws lib model) where
  open lib use {Store, Bitmap}
  open model use {view, stop, IsList}

  do_list_command-named :
      (lists : List (Slot (Unit {0}))) (cmd name : Text) (args : List Text) (i : ℕ) (s : Store)
      → find_used name lists ≡ some i
      → do_list_command lib lists cmd (cmd ∷ name ∷ args) s
        ≡ list_ladder lib lists cmd (cmd ∷ name ∷ args) i s
  unfolding do_list_command
  do_list_command-named lists cmd name args i s e = rw (e, do_list_command, with_arg)

  pub find_object-list :
      (w : Tables Bitmap) (name : Text) (i : ℕ)
      → find_used name w.lists ≡ some i
      → find_object w name ≡ list_ref i
  unfolding find_object
  find_object-list w name i e = rw e

  -- A line is run as the specification says.
  abbrev pub Ran : Tables Bitmap → Text → ℕ → Store → Op → List ℤ → Type 0
  Ran w name i s op before =
      let (vs, out) = step op before in
      (s' : Store) × (run_tokens lib w (words name op) s ≡ some (goes_on w out, s'))
      × Becomes lib model laws s s' i vs

  abbrev pub Runs : Tables Bitmap → Text → ℕ → Store → Op → Type 0
  Runs w name i s op = Ran w name i s op (values lib model s i)

  dumpdata-Runs :
      (w : Tables Bitmap) (name : Text) (i : ℕ) (s : Store)
      → find_used name w.lists ≡ some i
      → IsList s i
      → Runs w name i s dumpdata
  unfolding run_tokens dispatch is_word do_dumpdata dump_ref
  dumpdata-Runs w name i s e at = (
    s,
    rw (
      find_object-list w name i e,
      dump_list-HoldsItems lib s i (view s i) (stop s i) (laws.holds s i at),
      ◌>>=◌,
    ),
    Becomes-refl lib model laws s i at,
  )

  -- A line on the list of a name prints what the specification says, and makes the list stand for the
  -- numbers that it says.
  pub run_tokens-Runs :
      (w : Tables Bitmap) (name : Text) (op : Op) (i : ℕ) (s : Store)
      → find_used name w.lists ≡ some i
      → IsList s i
      → Runs w name i s op
  unfolding run_tokens dispatch by_prefix
  run_tokens-Runs w name op i s e at = elim (op-cases op) [
    | inl dump ↦ subst (Runs w name i s) (sym dump) (dumpdata-Runs w name i s e at)
    | inr h ↦
        let (s', runs, becomes) = list_ladder-Refines lib model laws w.lists name op i s at h.0 in
        (
          s',
          rw (
            h.1,
            h.2,
            h.3,
            h.0,
            h.4,
            do_list_command-named w.lists (command op) name (arguments op) i s e,
            runs,
            ◌>>=◌,
          ),
          becomes,
        )
  ]
