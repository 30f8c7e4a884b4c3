-- ===== src/Interp/Spec/Objects.antt =====
-- What sessions of commands that create, use and delete lists promise in sp_prj1/20241620/main.c.
use system_programming.Base.{
  ℕ, suc, ◌-◌, ◌<◌, ltb, ℤ, All, Option, none, some, List, [], ◌∷◌, ◌++◌, ◌≡◌, if◌then◌else◌,
  length,
}
use system_programming.Shell.Text.{Text, newline}
use system_programming.Shell.Builtins.{same_text}
use system_programming.Tokens.Laws.{IsToken, spaced}
use system_programming.Interp.{Out, codes, find_used, max_ds, name_len}
use system_programming.Interp.Library.{Library}
use system_programming.Interp.World.{Tables, find_object, no_object}
use system_programming.Interp.Main.{is_delimiter}
use system_programming.Interp.Spec.{Op, step, arguments, words}
use system_programming.Interp.Spec.Laws.{ListModel, values}
use system_programming.Interp.Spec.Slots.{count_used, HasNames}

pub data Command : Type 0 where
  create delete : Text → Command
  on : Text → Op → Command

-- The numbers that each name stands for, if it stands for a list, and how many lists there are.
pub record Named : Type 0 where
  pub of : Text → Option (List ℤ)
  pub count : ℕ

abbrev pub rename : Text → Option (List ℤ) → ℕ → Named → Named
rename name vs n m = record {
  of = λ other. if same_text other name then vs else m.of other;
  count = n;
}

-- A command on a name that stands for nothing does nothing.
abbrev pub delete_list : Text → Named → Option (List ℤ) → Named × List Out
delete_list name m none = (m, [])
delete_list name m (some vs) = (rename name none (m.count - 1) m, [])

abbrev pub use_list : Text → Op → Named → Option (List ℤ) → Named × List Out
use_list name op m none = (m, [])
use_list name op m (some vs) =
    let (vs', out) = step op vs in (rename name (some vs') m.count m, out)

-- There are at most `max_ds` lists.
abbrev pub exec : Command → Named → Named × List Out
exec (create name) m =
    if ltb m.count max_ds then (rename name (some []) (suc m.count) m, []) else (m, [])
exec (delete name) m = delete_list name m (m.of name)
exec (on name op) m = use_list name op m (m.of name)

abbrev pub exec_all : List Command → Named → Named × List Out
exec_all [] m = (m, [])
exec_all (c ∷ cs) m =
    let (m1, out) = exec c m in let (m2, rest) = exec_all cs m1 in (m2, out ++ rest)

-- No list yet.
abbrev pub nothing : Named
nothing = record { of = λ name. none; count = 0 }

abbrev pub command_words : Command → List Text
command_words (create name) = codes "create" ∷ codes "list" ∷ name ∷ []
command_words (delete name) = codes "delete" ∷ name ∷ []
command_words (on name op) = words name op

-- The line of a command as `fgets` reads it: its words with a blank between each two, and a newline.
abbrev pub command_line : Command → Text
command_line c = spaced 32 (command_words c) ++ newline ∷ []

-- `char line[LINE_LEN]`; a longer line is read in parts.
abbrev pub line_len : ℕ
line_len = 256

-- The words of the command can be read back, and what is created has a new name that fits.
abbrev pub HasWords : Command → Named → Type 0
HasWords (create name) m = IsToken is_delimiter name × (length name < name_len) × (m.of name ≡ none)
HasWords (delete name) m = IsToken is_delimiter name
HasWords (on name op) m = IsToken is_delimiter name × All (IsToken is_delimiter) (arguments op)

-- The line has room in the buffer, too.
abbrev pub IsAllowed : Command → Named → Type 0
IsAllowed c m = HasWords c m × (length (command_line c) < line_len)

abbrev pub AreAllowed : List Command → Named → Type 0
AreAllowed [] m = Unit {0}
AreAllowed (c ∷ cs) m = IsAllowed c m × AreAllowed cs (exec c m).0

-- The tables and the store of the program stand for a state of the specification: there are only
-- lists, under different names, and each holds the numbers that its name stands for.
pub record StandsFor (lib : Library) (model : ListModel lib) (w : Tables lib.Bitmap) (s : lib.Store)
    (m : Named) : Type 0 where
  pub no_hash : (name : Text) → find_used name w.hashes ≡ none
  pub no_bitmap : (name : Text) → find_used name w.bitmaps ≡ none
  pub list :
      (name : Text) (i : ℕ)
      → find_used name w.lists ≡ some i
      → model.IsList s i × (m.of name ≡ some (values lib model s i))
  pub absent : (name : Text) → find_used name w.lists ≡ none → m.of name ≡ none
  pub names : HasNames w.lists
  pub count : count_used w.lists ≡ m.count
  pub size : length w.lists ≡ max_ds

-- Where no list has a name, no object has it.
pub absent_object :
    (lib : Library) (model : ListModel lib) (w : Tables lib.Bitmap) (s : lib.Store) (m : Named)
    (name : Text)
    → StandsFor lib model w s m
    → find_used name w.lists ≡ none
    → find_object w name ≡ no_object
unfolding find_object
absent_object lib model w s m name h e = rw (e, h.no_hash name, h.no_bitmap name)
