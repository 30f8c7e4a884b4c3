-- ===== src/Interp/World.antt =====
-- The state of sp_prj1/20241620/main.c, and the commands that work on it by the name of an object.
use system_programming.Base.{
  ℕ, zero, suc, ℤ, Bool, false, Option, none, some, List, [], ◌∷◌, set, replicate, if◌then◌else◌,
  get_elem?,
}
use system_programming.Shell.Text.{Text}
use system_programming.Interp.{
  Out, Slot, max_ds, new_slot, find_used, find_empty, release, to_size, atoi, is_word,
}
use system_programming.Interp.Library.{Library, Run, ◌>>=◌, ◌>>◌, pure}
use system_programming.Interp.Items.{
  abort, empty_list, hash_destructor, hash_func, hash_less, dump_list, dump_hash, dump_bitmap,
}

-- `struct ds_ref`: the object that a name stands for, by its slot.
pub data Ref : Type 0 where
  no_object : Ref
  list_ref hash_ref bitmap_ref : ℕ → Ref

-- The slots of `lists`, `hashes` and `bitmaps`; a pointer to a bitmap is `none` for NULL.
pub record Tables (Bitmap : Type 0) : Type 0 where
  pub lists : List (Slot (Unit {0}))
  pub hashes : List (Slot (Unit {0}))
  pub bitmaps : List (Slot (Option Bitmap))

-- Static memory is zero.
abbrev pub unused_slot : {A : Type 0} → A → Slot A
unused_slot a = record { name = []; object = a; used = false }

abbrev pub no_objects : {B : Type 0} → Tables B
no_objects = record {
  lists = replicate max_ds (unused_slot tt);
  hashes = replicate max_ds (unused_slot tt);
  bitmaps = replicate max_ds (unused_slot none);
}

-- A list goes before a hash table, and that before a bitmap.
abbrev pub first_ref : Option ℕ → Option ℕ → Option ℕ → Ref
first_ref (some i) hash bitmap = list_ref i
first_ref none (some i) bitmap = hash_ref i
first_ref none none (some i) = bitmap_ref i
first_ref none none none = no_object

abbrev pub find_list : {B : Type 0} → Text → Tables B → Option ℕ
unfolding find_used
find_list name w = find_used name w.lists

abbrev pub find_hash : {B : Type 0} → Text → Tables B → Option ℕ
unfolding find_used
find_hash name w = find_used name w.hashes

abbrev pub find_bitmap : {B : Type 0} → Text → Tables B → Option ℕ
unfolding find_used
find_bitmap name w = find_used name w.bitmaps

unfoldable pub find_object : {B : Type 0} → Tables B → Text → Ref
unfolding find_used
find_object w name = first_ref (find_list name w) (find_hash name w) (find_bitmap name w)

abbrev pub pointer_at : {B : Type 0} → List (Slot (Option B)) → ℕ → Option B
pointer_at slots i = elim (get_elem? slots i) [ none ↦ none | some slot ↦ slot.object ]

abbrev pub in_use : {A : Type 0} → List (Slot A) → ℕ → Bool
in_use slots i = elim (get_elem? slots i) [ none ↦ false | some slot ↦ slot.used ]

-- `obj->bitmap = b` in a slot that is not in use yet.
unfoldable pub store_pointer :
    {B : Type 0} → ℕ → Option B → List (Slot (Option B)) → List (Slot (Option B))
store_pointer i b [] = []
store_pointer zero b (slot ∷ slots) = record slot { object = b } ∷ slots
store_pointer (suc i) b (slot ∷ slots) = slot ∷ store_pointer i b slots

-- A slot is taken for a bitmap that could be created.
unfoldable pub put_bitmap : {B : Type 0} → Tables B → Text → ℕ → Option B → Tables B
unfolding store_pointer
put_bitmap w name i none = record w { bitmaps = store_pointer i none w.bitmaps }
put_bitmap w name i (some b) = record w { bitmaps = set w.bitmaps i (new_slot name (some b)) }

module _ (lib : Library) where
  open lib use {Store, Bitmap, list_init, hash_init, hash_destroy, bitmap_create, bitmap_destroy}

  unfoldable pub create_list_object : Tables Bitmap → Text → Run Store (Tables Bitmap)
  unfolding find_empty
  create_list_object w name = elim (find_empty w.lists) [
    | none ↦ pure w
    | some i ↦ (do list_init i; pure (record w { lists = set w.lists i (new_slot name tt) }))
  ]

  -- The result of `hash_init` is not tested.
  unfoldable pub create_hash_object : Tables Bitmap → Text → Run Store (Tables Bitmap)
  unfolding find_empty hash_func hash_less
  create_hash_object w name = elim (find_empty w.hashes) [
    | none ↦ pure w
    | some i ↦ (do
      done ← hash_init i (hash_func lib) (hash_less lib)
      pure (record w { hashes = set w.hashes i (new_slot name tt) }))
  ]

  unfoldable pub create_bitmap_object : Tables Bitmap → Text → ℤ → Run Store (Tables Bitmap)
  unfolding find_empty put_bitmap
  create_bitmap_object w name bit_cnt = elim (find_empty w.bitmaps) [
    | none ↦ pure w
    | some i ↦ (do b ← bitmap_create (to_size bit_cnt); pure (put_bitmap w name i b))
  ]

  -- `kind` is `tokens[1]`, and `name` is `tokens[2]`.
  unfoldable pub create_kind : Tables Bitmap → Text → Text → Option Text → Run Store (Tables Bitmap)
  unfolding create_list_object create_hash_object create_bitmap_object is_word atoi
  create_kind w kind name count =
      if is_word kind "list"
      then create_list_object w name
      else if is_word kind "hashtable"
      then create_hash_object w name
      else if is_word kind "bitmap"
      then elim count [ none ↦ pure w | some n ↦ create_bitmap_object w name (atoi n) ]
      else pure w

  unfoldable pub do_create : Tables Bitmap → List Text → Run Store (Tables Bitmap)
  unfolding create_kind
  do_create w (_ ∷ kind ∷ name ∷ rest) = create_kind w kind name (get_elem? rest 0)
  do_create w _ = pure w

  unfoldable pub destroy_list : Tables Bitmap → ℕ → Run Store (Tables Bitmap)
  unfolding empty_list release
  destroy_list w i = do empty_list lib i; pure (record w { lists = release i w.lists })

  unfoldable pub destroy_hash : Tables Bitmap → ℕ → Run Store (Tables Bitmap)
  unfolding hash_destructor release
  destroy_hash w i = do
    hash_destroy i (hash_destructor lib)
    pure (record w { hashes = release i w.hashes })

  -- `bitmap_destroy (NULL)` does nothing.
  unfoldable pub destroy_bitmap : Tables Bitmap → ℕ → Run Store (Tables Bitmap)
  unfolding release
  destroy_bitmap w i = do
    elim (pointer_at w.bitmaps i) [ none ↦ pure tt | some b ↦ bitmap_destroy b ]
    pure (record w { bitmaps = release i w.bitmaps })

  unfoldable pub delete_ref : Tables Bitmap → Ref → Run Store (Tables Bitmap)
  unfolding destroy_list destroy_hash destroy_bitmap
  delete_ref w no_object = pure w
  delete_ref w (list_ref i) = destroy_list w i
  delete_ref w (hash_ref i) = destroy_hash w i
  delete_ref w (bitmap_ref i) = destroy_bitmap w i

  unfoldable pub do_delete : Tables Bitmap → Text → Run Store (Tables Bitmap)
  unfolding delete_ref find_object
  do_delete w name = delete_ref w (find_object w name)

  unfoldable pub dump_ref : Tables Bitmap → Ref → Run Store (List Out)
  unfolding dump_list dump_hash dump_bitmap
  dump_ref w no_object = pure []
  dump_ref w (list_ref i) = dump_list lib i
  dump_ref w (hash_ref i) = dump_hash lib i
  dump_ref w (bitmap_ref i) = elim (pointer_at w.bitmaps i) [
    | none ↦ abort
    | some b ↦ dump_bitmap lib b
  ]

  unfoldable pub do_dumpdata : Tables Bitmap → Text → Run Store (List Out)
  unfolding dump_ref find_object
  do_dumpdata w name = dump_ref w (find_object w name)

  -- One turn of the loop of `cleanup_all_objects`.
  unfoldable pub cleanup_slot : Tables Bitmap → ℕ → Run Store (Tables Bitmap)
  unfolding destroy_list destroy_hash destroy_bitmap
  cleanup_slot w i = do
    w1 ← if in_use w.lists i then destroy_list w i else pure w
    w2 ← if in_use w1.hashes i then destroy_hash w1 i else pure w1
    if in_use w2.bitmaps i then destroy_bitmap w2 i else pure w2

  -- The last `n` slots.
  unfoldable pub cleanup_from : ℕ → ℕ → Tables Bitmap → Run Store (Tables Bitmap)
  unfolding cleanup_slot
  cleanup_from zero i w = pure w
  cleanup_from (suc n) i w = do w' ← cleanup_slot w i; cleanup_from n (suc i) w'

  unfoldable pub cleanup_all_objects : Tables Bitmap → Run Store (Tables Bitmap)
  unfolding cleanup_from
  cleanup_all_objects w = cleanup_from max_ds 0 w
