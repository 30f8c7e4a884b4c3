-- ===== src/Interp/Library.antt =====
-- What sp_prj1/20241620/main.c uses of list.c, hash.c, bitmap.c and the allocator. These are
-- parameters of the model of main.c: a memory, and functions that may change it and may abort the
-- program by a failed assertion.
use system_programming.Base.{ℕ, ℤ, Bool, Option, none, some}
use system_programming.Shell.Text.{Text}

-- `none` is an abort.
abbrev pub Run : Type 0 → Type 0 → Type 0
Run S A = S → Option (A × S)

infixl 5 ◌>>=◌ ◌>>◌
abbrev pub ◌>>=◌ : {S A B : Type 0} → Run S A → (A → Run S B) → Run S B
◌>>=◌ m f s = elim (m s) [ none ↦ none | some (a, s') ↦ f a s' ]

abbrev pub ◌>>◌ : {S B : Type 0} → Run S (Unit {0}) → Run S B → Run S B
m >> k = m >>= λ _. k

abbrev pub pure : {S A : Type 0} → A → Run S A
pure a s = some (a, s)

-- A `struct list *` or `struct hash *` is the number of the slot that it stands in. `Elem` and
-- `HashElem` are the pointers to the elements of the two, each of which lies in an item that holds a
-- value, and `Bitmap` those to a `struct bitmap`.
pub record Library : Type 1 where
  pub Store : Type 0
  pub Elem : Type 0
  pub HashElem : Type 0
  pub Bitmap : Type 0
  pub same_elem : Elem → Elem → Bool
  -- The items of lists.
  pub malloc_item : Run Store (Option Elem)
  pub set_value : Elem → ℤ → Run Store (Unit {0})
  pub value : Elem → Run Store ℤ
  pub free_item : Elem → Run Store (Unit {0})
  -- list.h
  pub list_init : ℕ → Run Store (Unit {0})
  pub list_begin : ℕ → Run Store Elem
  pub list_end : ℕ → Run Store Elem
  pub list_next : Elem → Run Store Elem
  pub list_insert : Elem → Elem → Run Store (Unit {0})
  pub list_splice : Elem → Elem → Elem → Run Store (Unit {0})
  pub list_push_front : ℕ → Elem → Run Store (Unit {0})
  pub list_push_back : ℕ → Elem → Run Store (Unit {0})
  pub list_remove : Elem → Run Store (Unit {0})
  pub list_pop_front : ℕ → Run Store Elem
  pub list_pop_back : ℕ → Run Store Elem
  pub list_front : ℕ → Run Store Elem
  pub list_back : ℕ → Run Store Elem
  pub list_size : ℕ → Run Store ℕ
  pub list_empty : ℕ → Run Store Bool
  pub list_reverse : ℕ → Run Store (Unit {0})
  pub list_sort : ℕ → (Elem → Elem → Run Store Bool) → Run Store (Unit {0})
  pub list_insert_ordered : ℕ → Elem → (Elem → Elem → Run Store Bool) → Run Store (Unit {0})
  pub list_unique : ℕ → Option ℕ → (Elem → Elem → Run Store Bool) → Run Store (Unit {0})
  pub list_max : ℕ → (Elem → Elem → Run Store Bool) → Run Store Elem
  pub list_min : ℕ → (Elem → Elem → Run Store Bool) → Run Store Elem
  pub list_swap : Elem → Elem → Run Store (Unit {0})
  pub list_shuffle : ℕ → Run Store (Unit {0})
  -- The items of hash tables; `temp_item` is one on the stack.
  pub malloc_hash_item : Run Store (Option HashElem)
  pub temp_item : Run Store HashElem
  pub set_hash_value : HashElem → ℤ → Run Store (Unit {0})
  pub hash_value : HashElem → Run Store ℤ
  pub free_hash_item : HashElem → Run Store (Unit {0})
  -- hash.h; `Iterator` is a `struct hash_iterator`.
  pub Iterator : Type 0
  pub hash_int : ℤ → ℕ
  pub hash_init :
      ℕ → (HashElem → Run Store ℕ) → (HashElem → HashElem → Run Store Bool) → Run Store Bool
  pub hash_insert : ℕ → HashElem → Run Store (Option HashElem)
  pub hash_replace : ℕ → HashElem → Run Store (Option HashElem)
  pub hash_delete : ℕ → HashElem → Run Store (Option HashElem)
  pub hash_find : ℕ → HashElem → Run Store (Option HashElem)
  pub hash_size : ℕ → Run Store ℕ
  pub hash_empty : ℕ → Run Store Bool
  pub hash_clear : ℕ → (HashElem → Run Store (Unit {0})) → Run Store (Unit {0})
  pub hash_destroy : ℕ → (HashElem → Run Store (Unit {0})) → Run Store (Unit {0})
  pub hash_apply : ℕ → (HashElem → Run Store (Unit {0})) → Run Store (Unit {0})
  pub hash_first : ℕ → Run Store Iterator
  pub hash_next : Iterator → Run Store (Option HashElem × Iterator)
  -- bitmap.h; `bitmap_dump` comes with the text that it prints.
  pub bitmap_create : ℕ → Run Store (Option Bitmap)
  pub bitmap_destroy : Bitmap → Run Store (Unit {0})
  pub bitmap_size : Bitmap → Run Store ℕ
  pub bitmap_set : Bitmap → ℕ → Bool → Run Store (Unit {0})
  pub bitmap_mark : Bitmap → ℕ → Run Store (Unit {0})
  pub bitmap_reset : Bitmap → ℕ → Run Store (Unit {0})
  pub bitmap_flip : Bitmap → ℕ → Run Store (Unit {0})
  pub bitmap_test : Bitmap → ℕ → Run Store Bool
  pub bitmap_set_all : Bitmap → Bool → Run Store (Unit {0})
  pub bitmap_set_multiple : Bitmap → ℕ → ℕ → Bool → Run Store (Unit {0})
  pub bitmap_count : Bitmap → ℕ → ℕ → Bool → Run Store ℕ
  pub bitmap_contains : Bitmap → ℕ → ℕ → Bool → Run Store Bool
  pub bitmap_any : Bitmap → ℕ → ℕ → Run Store Bool
  pub bitmap_none : Bitmap → ℕ → ℕ → Run Store Bool
  pub bitmap_all : Bitmap → ℕ → ℕ → Run Store Bool
  pub bitmap_scan : Bitmap → ℕ → ℕ → Bool → Run Store ℕ
  pub bitmap_scan_and_flip : Bitmap → ℕ → ℕ → Bool → Run Store ℕ
  pub bitmap_dump : Bitmap → Run Store Text
  pub bitmap_expand : Bitmap → ℤ → Run Store (Option Bitmap)
