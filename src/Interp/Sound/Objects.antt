-- ===== src/Interp/Sound/Objects.antt =====
-- `create` and `delete` of sp_prj1/20241620/main.c against the invariant of the tables.
use system_programming.Base.{ℕ, ℤ, Option, List, [], ◌∷◌, set, get_elem?, inl, inr, Option-cases}
use system_programming.Shell.Text.{Text}
use system_programming.Interp.{find_empty, release, new_slot, is_word, atoi}
use system_programming.Interp.Library.{Library}
use system_programming.Interp.Gives.{Gives, if-Gives, option-Gives, pure-Gives, any-Gives}
use system_programming.Interp.Names.{NameFits, new_slot-NameFits}
use system_programming.Interp.World.{
  Tables, Ref, no_object, list_ref, hash_ref, bitmap_ref, create_list_object, create_hash_object,
  create_bitmap_object, create_kind, do_create, destroy_list, destroy_hash, destroy_bitmap,
  delete_ref, do_delete, find_object,
}
use system_programming.Interp.Sound.{
  IsBitmapSlot, IsTables, set-IsSlots, release-IsSlots, with_lists, with_hashes, with_bitmaps,
  put_bitmap-IsTables,
}

module _ (lib : Library) where
  open lib use {Store, Bitmap, list_init, hash_init}

  create_list_object-IsTables :
      (w : Tables Bitmap) (name : Text)
      → IsTables w
      → Gives IsTables (create_list_object lib w name)
  unfolding create_list_object
  create_list_object-IsTables w name h = elim (Option-cases (find_empty w.lists)) [
    | inl e ↦ rw (e, create_list_object) (pure-Gives IsTables w h)
    | inr (i, e) ↦
        rw (e, create_list_object)
          (any-Gives IsTables _ _ λ u. pure-Gives IsTables _ (
            with_lists w (set w.lists i (new_slot name tt)) h (
              set-IsSlots NameFits w.lists i (new_slot name tt) h.lists
                (new_slot-NameFits name tt))))
  ]

  create_hash_object-IsTables :
      (w : Tables Bitmap) (name : Text)
      → IsTables w
      → Gives IsTables (create_hash_object lib w name)
  unfolding create_hash_object
  create_hash_object-IsTables w name h = elim (Option-cases (find_empty w.hashes)) [
    | inl e ↦ rw (e, create_hash_object) (pure-Gives IsTables w h)
    | inr (i, e) ↦
        rw (e, create_hash_object)
          (any-Gives IsTables _ _ λ u. pure-Gives IsTables _ (
            with_hashes w (set w.hashes i (new_slot name tt)) h (
              set-IsSlots NameFits w.hashes i (new_slot name tt) h.hashes
                (new_slot-NameFits name tt))))
  ]

  create_bitmap_object-IsTables :
      (w : Tables Bitmap) (name : Text) (n : ℤ)
      → IsTables w
      → Gives IsTables (create_bitmap_object lib w name n)
  unfolding create_bitmap_object
  create_bitmap_object-IsTables w name n h = elim (Option-cases (find_empty w.bitmaps)) [
    | inl e ↦ rw (e, create_bitmap_object) (pure-Gives IsTables w h)
    | inr (i, e) ↦
        rw (e, create_bitmap_object)
          (any-Gives IsTables _ _ λ b. pure-Gives IsTables _ (put_bitmap-IsTables w name i b e h))
  ]

  destroy_list-IsTables :
      (w : Tables Bitmap) (i : ℕ) → IsTables w → Gives IsTables (destroy_list lib w i)
  unfolding destroy_list
  destroy_list-IsTables w i h = any-Gives IsTables _ _ λ u.
      pure-Gives IsTables _
        (with_lists w (release i w.lists) h (release-IsSlots NameFits w.lists i (λ s p. p) h.lists))

  destroy_hash-IsTables :
      (w : Tables Bitmap) (i : ℕ) → IsTables w → Gives IsTables (destroy_hash lib w i)
  unfolding destroy_hash
  destroy_hash-IsTables w i h = any-Gives IsTables _ _ λ u. pure-Gives IsTables _ (
      with_hashes w (release i w.hashes) h
        (release-IsSlots NameFits w.hashes i (λ s p. p) h.hashes))

  destroy_bitmap-IsTables :
      (w : Tables Bitmap) (i : ℕ) → IsTables w → Gives IsTables (destroy_bitmap lib w i)
  unfolding destroy_bitmap
  destroy_bitmap-IsTables w i h = any-Gives IsTables _ _ λ u. pure-Gives IsTables _ (
      with_bitmaps w (release i w.bitmaps) h
        (release-IsSlots IsBitmapSlot w.bitmaps i (λ s p. (p.0, λ used. cc)) h.bitmaps))

  delete_ref-IsTables :
      (w : Tables Bitmap) (r : Ref) → IsTables w → Gives IsTables (delete_ref lib w r)
  unfolding delete_ref
  delete_ref-IsTables w no_object h = pure-Gives IsTables w h
  delete_ref-IsTables w (list_ref i) h = destroy_list-IsTables w i h
  delete_ref-IsTables w (hash_ref i) h = destroy_hash-IsTables w i h
  delete_ref-IsTables w (bitmap_ref i) h = destroy_bitmap-IsTables w i h

  pub do_delete-IsTables :
      (w : Tables Bitmap) (name : Text) → IsTables w → Gives IsTables (do_delete lib w name)
  unfolding do_delete
  do_delete-IsTables w name h = delete_ref-IsTables w (find_object w name) h

  create_kind-IsTables :
      (w : Tables Bitmap) (kind name : Text) (count : Option Text)
      → IsTables w
      → Gives IsTables (create_kind lib w kind name count)
  unfolding create_kind
  create_kind-IsTables w kind name count h =
      if-Gives (is_word kind "list") (create_list_object-IsTables w name h) (
        if-Gives (is_word kind "hashtable") (create_hash_object-IsTables w name h) (
          if-Gives (is_word kind "bitmap")
            (option-Gives count (pure-Gives IsTables w h)
              λ n. create_bitmap_object-IsTables w name (atoi n) h)
            (pure-Gives IsTables w h)))

  pub do_create-IsTables :
      (w : Tables Bitmap) (tokens : List Text)
      → IsTables w
      → Gives IsTables (do_create lib w tokens)
  unfolding do_create
  do_create-IsTables w [] h = pure-Gives IsTables w h
  do_create-IsTables w (_ ∷ []) h = pure-Gives IsTables w h
  do_create-IsTables w (_ ∷ _ ∷ []) h = pure-Gives IsTables w h
  do_create-IsTables w (_ ∷ kind ∷ name ∷ rest) h =
      create_kind-IsTables w kind name (get_elem? rest 0) h
