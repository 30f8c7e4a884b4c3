-- ===== src/Interp/Spec.antt =====
-- What the commands on lists of sp_prj1/20241620/main.c promise: each name stands for a list of numbers.
pub mod Laws
pub mod Views
pub mod Commands
pub mod Ordered
pub mod Ladder
pub mod Lines
pub mod Slots
pub mod Objects
pub mod Create
pub mod Delete
pub mod Programs
pub mod Cleanup
use system_programming.Base.{
  ℕ, zero, suc, ℤ, pos, negsuc, Bool, true, false, Option, none, some, List, [], ◌∷◌, ◌++◌, map,
  ◌≡◌, ◌≢◌, length, if◌then◌else◌,
}
use system_programming.Shell.Text.{Text}
use system_programming.Shell.Builtins.{same_text}
use system_programming.Interp.{Out, print_int, print_size, print_bool, codes, atoi}
use system_programming.Interp.Library.{Library}
use system_programming.Interp.Items.{lt_int, list_item_less}
use system_programming.Interp.Chain.{HoldsItems, line_of}

-- A command on one list, with its argument as it was typed.
pub data Op : Type 0 where
  push_front push_back remove insert_ordered : Text → Op
  pop_front pop_back front back empty size reverse sort max min dumpdata : Op

abbrev pub reversed : List ℤ → List ℤ
reversed [] = []
reversed (v ∷ vs) = reversed vs ++ v ∷ []

-- A value is put before the first greater one.
abbrev pub insert_value : ℤ → List ℤ → List ℤ
insert_value v [] = v ∷ []
insert_value v (w ∷ vs) = if lt_int v w then v ∷ w ∷ vs else w ∷ insert_value v vs

abbrev pub sorted : List ℤ → List ℤ
sorted [] = []
sorted (v ∷ vs) = insert_value v (sorted vs)

abbrev pub all_but_last : {A : Type 0} → List A → List A
all_but_last [] = []
all_but_last (v ∷ []) = []
all_but_last (v ∷ w ∷ vs) = v ∷ all_but_last (w ∷ vs)

abbrev pub print_last : List ℤ → List Out
print_last [] = []
print_last (v ∷ []) = print_int v
print_last (v ∷ w ∷ vs) = print_last (w ∷ vs)

abbrev pub print_first : List ℤ → List Out
print_first [] = []
print_first (v ∷ vs) = print_int v

abbrev pub all_but_first : List ℤ → List ℤ
all_but_first [] = []
all_but_first (v ∷ vs) = vs

-- The numbers without the one at a position, if there is one.
abbrev pub without : ℕ → List ℤ → List ℤ
without n [] = []
without zero (v ∷ vs) = vs
without (suc n) (v ∷ vs) = v ∷ without n vs

abbrev pub removed : ℤ → List ℤ → List ℤ
removed (pos n) vs = without n vs
removed (negsuc n) vs = vs

-- The first of the numbers that none of the others exceeds.
abbrev pub extreme : (ℤ → ℤ → Bool) → ℤ → List ℤ → ℤ
extreme exceeded m [] = m
extreme exceeded m (v ∷ vs) = extreme exceeded (if exceeded m v then v else m) vs

abbrev pub print_extreme : (ℤ → ℤ → Bool) → List ℤ → List Out
print_extreme exceeded [] = []
print_extreme exceeded (v ∷ vs) = print_int (extreme exceeded v vs)

abbrev pub is_nil : {A : Type 0} → List A → Bool
is_nil [] = true
is_nil (_ ∷ _) = false

-- What a command makes of the numbers, and what it prints.
abbrev pub step : Op → List ℤ → List ℤ × List Out
step (push_front arg) vs = (atoi arg ∷ vs, [])
step (push_back arg) vs = (vs ++ atoi arg ∷ [], [])
step pop_front vs = (all_but_first vs, [])
step pop_back vs = (all_but_last vs, [])
step front vs = (vs, print_first vs)
step back vs = (vs, print_last vs)
step empty vs = (vs, print_bool (is_nil vs))
step size vs = (vs, print_size (length vs))
step reverse vs = (reversed vs, [])
step sort vs = (sorted vs, [])
step (remove idx) vs = (removed (atoi idx) vs, [])
step (insert_ordered arg) vs = (insert_value (atoi arg) vs, [])
step max vs = (vs, print_extreme lt_int vs)
step min vs = (vs, print_extreme (λ a b. lt_int b a) vs)
step dumpdata vs = (vs, line_of true vs)

-- The words of a command; the name of its list comes behind the first.
abbrev pub command : Op → Text
command (push_front arg) = codes "list_push_front"
command (push_back arg) = codes "list_push_back"
command pop_front = codes "list_pop_front"
command pop_back = codes "list_pop_back"
command front = codes "list_front"
command back = codes "list_back"
command empty = codes "list_empty"
command size = codes "list_size"
command reverse = codes "list_reverse"
command sort = codes "list_sort"
command (remove idx) = codes "list_remove"
command (insert_ordered arg) = codes "list_insert_ordered"
command max = codes "list_max"
command min = codes "list_min"
command dumpdata = codes "dumpdata"

abbrev pub arguments : Op → List Text
arguments (push_front arg) = arg ∷ []
arguments (push_back arg) = arg ∷ []
arguments (remove idx) = idx ∷ []
arguments (insert_ordered arg) = arg ∷ []
arguments _ = []

abbrev pub words : Text → Op → List Text
words name op = command op ∷ name ∷ arguments op
