-- ===== src/Interp.antt =====
-- The command interpreter of sp_prj1/20241620/main.c: its tables of named objects, and the texts of
-- its commands.
pub mod Library
pub mod Items
pub mod Lists
pub mod Hashes
pub mod Bitmaps
pub mod World
pub mod Main
pub mod Gives
pub mod Names
pub mod Sound
pub mod Chain
pub mod Objects
pub mod Added
pub mod Ranges
pub mod Spec
use mathlib.Core.Option
use Prim.Native.Char.{code}
use Prim.Native.String.{String}
use system_programming.Base.{
  ℕ, zero, ℤ, pos, negsuc, Bool, true, false, not, ◌&&◌, Option, none, some, List, [], ◌∷◌, suc,
  ◌-◌, ◌^◌, if◌then◌else◌, get_elem?, take, set, replicate,
}
use system_programming.Shell.Text.{Text}
use system_programming.Shell.JobId.{strtol, to_int}
use system_programming.Shell.Builtins.{same_text}

abbrev pub max_ds : ℕ
max_ds = 10

abbrev pub name_len : ℕ
name_len = 32

abbrev pub token_max : ℕ
token_max = 8

-- The bytes of a literal of the source.
abbrev pub codes : String → Text
codes String.[] = []
codes (String.◌∷◌ c s) = code c ∷ codes s

-- `!strcmp(s, "...")`
unfoldable pub is_word : Text → String → Bool
unfolding same_text
is_word s literal = same_text s (codes literal)

unfoldable pub atoi : Text → ℤ
unfolding strtol to_int
atoi s = to_int (strtol s).0

-- `(size_t) n` of an `int`, at 64 bits.
abbrev pub to_size : ℤ → ℕ
to_size (pos n) = n
to_size (negsuc n) = 2 ^ 64 - suc n

unfoldable pub parse_bool : Option Text → Bool
unfolding is_word
parse_bool none = false
parse_bool (some s) = is_word s "true"

-- What is printed.
pub data Out : Type 0 where
  int : ℤ → Out
  size : ℕ → Out
  bool : Bool → Out
  blank newline : Out
  dump : Text → Out

-- A line with one value, `printf("%d\n", v)`, and so on.
abbrev pub print_int : ℤ → List Out
print_int v = int v ∷ newline ∷ []

abbrev pub print_size : ℕ → List Out
print_size n = size n ∷ newline ∷ []

abbrev pub print_bool : Bool → List Out
print_bool b = bool b ∷ newline ∷ []

-- `snprintf(dst, NAME_LEN, "%s", src)`
unfoldable pub copy_name : Text → Text
copy_name src = take (name_len - 1) src

-- A `struct list_obj`, `hash_obj` or `bitmap_obj`: `object` is what it holds beside its name.
pub record Slot (A : Type 0) : Type 0 where
  pub name : Text
  pub object : A
  pub used : Bool

module _ {A : Type 0} where
  -- `DEFINE_FIND_USED_FUNC`: the number of the slot is the pointer.
  unfoldable pub find_used : Text → List (Slot A) → Option ℕ
  unfolding same_text
  find_used name [] = none
  find_used name (slot ∷ slots) =
      let later = Option.map suc (find_used name slots) in
      if slot.used && same_text slot.name name then some 0 else later

  -- `DEFINE_FIND_EMPTY_FUNC`, with -1 as `none`.
  unfoldable pub find_empty : List (Slot A) → Option ℕ
  find_empty [] = none
  find_empty (slot ∷ slots) =
      let later = Option.map suc (find_empty slots) in if not slot.used then some 0 else later

  -- `obj->used = false`
  unfoldable pub release : ℕ → List (Slot A) → List (Slot A)
  release i [] = []
  release zero (slot ∷ slots) = record slot { used = false } ∷ slots
  release (suc i) (slot ∷ slots) = slot ∷ release i slots

  -- The slot of a new object.
  abbrev pub new_slot : Text → A → Slot A
  new_slot name object = record { name = copy_name name; object = object; used = true }
