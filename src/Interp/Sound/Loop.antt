-- ===== src/Interp/Sound/Loop.antt =====
-- The commands of sp_prj1/20241620/main.c and its loop against the invariant of the tables.
use system_programming.Base.{
  ℕ, Option, none, List, [], ◌∷◌, ◌++◌, arith, replicate, length-replicate, replicate-All,
  get_elem?, inl, inr, Option-cases,
}
use system_programming.Shell.Text.{Text}
use system_programming.Interp.{Out, codes, max_ds, Slot, find_used, is_word}
use system_programming.Interp.Library.{Library, Run, ◌>>=◌, pure}
use system_programming.Interp.Gives.{
  Gives, if-Gives, option-Gives, abort-Gives, pure-Gives, bind-Gives, any-Gives,
}
use system_programming.Interp.Names.{NameFits}
use system_programming.Interp.Bitmaps.{on_slot, at_slot, named_bitmap, do_bitmap_command}
use system_programming.Interp.World.{Tables, no_objects, unused_slot}
use system_programming.Interp.Main.{
  Turn, quits, goes_on, by_prefix, do_bitmaps, has_prefix, dispatch, run_tokens, run_line, tokenize,
  main_loop,
}
use system_programming.Interp.Sound.Objects.{do_create-IsTables, do_delete-IsTables}
use system_programming.Interp.Sound.{
  IsBitmapSlot, IsSlots, IsTables, set-IsSlots, with_bitmaps, get_elem?-All,
}

module _ (lib : Library) where
  open lib use {Store, Bitmap}

  on_slot-IsBitmapSlot :
      (cmd : Text) (tokens : List Text) (slot : Slot (Option Bitmap))
      → NameFits slot
      → Gives (λ r. IsBitmapSlot r.1) (on_slot lib cmd tokens slot)
  unfolding on_slot
  on_slot-IsBitmapSlot cmd tokens slot fits =
      option-Gives slot.object (abort-Gives (λ r. IsBitmapSlot r.1)) λ b.
        any-Gives (λ r. IsBitmapSlot r.1) _ _
          λ r. pure-Gives (λ r. IsBitmapSlot r.1) _ (fits, λ used is_none. cc)

  at_slot-IsSlots :
      (slots : List (Slot (Option Bitmap))) (cmd : Text) (tokens : List Text) (i : ℕ)
      → IsSlots IsBitmapSlot slots
      → Gives (λ r. IsSlots IsBitmapSlot r.1) (at_slot lib slots cmd tokens i)
  unfolding at_slot
  at_slot-IsSlots slots cmd tokens i h = elim (Option-cases (get_elem? slots i)) [
    | inl e ↦ rw (e, at_slot) (pure-Gives (λ r. IsSlots IsBitmapSlot r.1) ([], slots) h)
    | inr (slot, e) ↦
        rw (e, at_slot)
          (bind-Gives (λ r. IsSlots IsBitmapSlot r.1) (λ r. IsBitmapSlot r.1) _ _
            (on_slot-IsBitmapSlot cmd tokens slot
              (get_elem?-All IsBitmapSlot slots i slot h.each e).0)
            λ r p.
              pure-Gives (λ r. IsSlots IsBitmapSlot r.1) _
                (set-IsSlots IsBitmapSlot slots i r.1 h p))
  ]

  do_bitmap_command-IsSlots :
      (slots : List (Slot (Option Bitmap))) (cmd : Text) (tokens : List Text)
      → IsSlots IsBitmapSlot slots
      → Gives (λ r. IsSlots IsBitmapSlot r.1) (do_bitmap_command lib slots cmd tokens)
  unfolding do_bitmap_command named_bitmap
  do_bitmap_command-IsSlots slots cmd tokens h =
      option-Gives (get_elem? tokens 1) (pure-Gives (λ r. IsSlots IsBitmapSlot r.1) ([], slots) h)
        λ name.
          option-Gives (find_used name slots)
            (pure-Gives (λ r. IsSlots IsBitmapSlot r.1) ([], slots) h)
            λ i. at_slot-IsSlots slots cmd tokens i h

  -- A turn keeps the tables sound.
  abbrev KeepsTables : Turn lib → Type 0
  KeepsTables quits = Unit {0}
  KeepsTables (goes_on w out) = IsTables w

  silent-KeepsTables :
      (m : Run Store (Tables Bitmap))
      → Gives IsTables m
      → Gives KeepsTables (do w ← m; pure (goes_on w []))
  silent-KeepsTables m h =
      bind-Gives KeepsTables IsTables m _ h λ w p. pure-Gives KeepsTables (goes_on w []) p

  printing-KeepsTables :
      (w : Tables Bitmap) (m : Run Store (List Out))
      → IsTables w
      → Gives KeepsTables (do out ← m; pure (goes_on w out))
  printing-KeepsTables w m h =
      any-Gives KeepsTables m _ λ out. pure-Gives KeepsTables (goes_on w out) h

  by_prefix-KeepsTables :
      (w : Tables Bitmap) (cmd : Text) (toks : List Text)
      → IsTables w
      → Gives KeepsTables (by_prefix lib w cmd toks)
  unfolding by_prefix do_bitmaps
  by_prefix-KeepsTables w cmd toks h =
      if-Gives (has_prefix cmd (codes "list_")) (printing-KeepsTables w _ h) (
        if-Gives (has_prefix cmd (codes "hash_")) (printing-KeepsTables w _ h) (
          if-Gives (has_prefix cmd (codes "bitmap_"))
            (bind-Gives KeepsTables (λ r. IsSlots IsBitmapSlot r.1) _ _
              (do_bitmap_command-IsSlots w.bitmaps cmd toks h.bitmaps)
              λ r p. pure-Gives KeepsTables _ (with_bitmaps w r.1 h p))
            (pure-Gives KeepsTables (goes_on w []) h)))

  dispatch-KeepsTables :
      (w : Tables Bitmap) (cmd : Text) (toks : List Text)
      → IsTables w
      → Gives KeepsTables (dispatch lib w cmd toks)
  unfolding dispatch
  dispatch-KeepsTables w cmd toks h =
      let by_name = by_prefix-KeepsTables w cmd toks h in
      if-Gives (is_word cmd "quit") (pure-Gives KeepsTables quits tt) (
        if-Gives (is_word cmd "create") (silent-KeepsTables _ (do_create-IsTables lib w toks h)) (
          if-Gives (is_word cmd "delete")
            (option-Gives (get_elem? toks 1) by_name
              λ name. silent-KeepsTables _ (do_delete-IsTables lib w name h))
            (if-Gives (is_word cmd "dumpdata")
              (option-Gives (get_elem? toks 1) by_name λ name. printing-KeepsTables w _ h)
              by_name)))

  run_line-KeepsTables :
      (w : Tables Bitmap) (line : Text) → IsTables w → Gives KeepsTables (run_line lib w line)
  unfolding run_line run_tokens
  run_line-KeepsTables w line h = go (tokenize line)
    where
      go : (toks : List Text) → Gives KeepsTables (run_tokens lib w toks)
      go [] = pure-Gives KeepsTables (goes_on w []) h
      go (cmd ∷ args) = dispatch-KeepsTables w cmd (cmd ∷ args) h

  after_turn-Gives :
      (w : Tables Bitmap) (turn : Turn lib)
      (next : Tables Bitmap → Run Store (Tables Bitmap × List Out))
      → IsTables w
      → KeepsTables turn
      → ((w' : Tables Bitmap)
          → IsTables w'
          → Gives {S = Store} {A = Tables Bitmap × List Out} (λ r. IsTables r.0) (next w'))
      → Gives {S = Store} {A = Tables Bitmap × List Out}
          (λ r. IsTables r.0)
          (elim turn [
            | quits ↦ pure (w, [])
            | goes_on w' out ↦ (do (w'', rest) ← next w'; pure (w'', out ++ rest))
          ])
  after_turn-Gives w quits next h k more = pure-Gives (λ r. IsTables r.0) (w, []) h
  after_turn-Gives w (goes_on w' out) next h k more =
      bind-Gives (λ r. IsTables r.0) (λ r. IsTables r.0) _ _ (more w' k)
        λ r p. pure-Gives (λ r. IsTables r.0) (r.0, out ++ r.1) p

  -- Whatever lines are read behind sound tables, the tables behind the loop are sound: each has its
  -- ten slots, every name has room in its buffer, and every bitmap in use has its pointer.
  pub main_loop-IsTables :
      (w : Tables Bitmap) (lines : List Text)
      → IsTables w
      → Gives (λ r. IsTables r.0) (main_loop lib w lines)
  unfolding main_loop
  main_loop-IsTables w [] h = pure-Gives (λ r. IsTables r.0) (w, []) h
  main_loop-IsTables w (line ∷ lines) h =
      bind-Gives (λ r. IsTables r.0) KeepsTables _ _ (run_line-KeepsTables w line h)
        λ turn k.
          after_turn-Gives w turn (λ w'. main_loop lib w' lines) h k
            λ w' p. main_loop-IsTables w' lines p

replicate-IsSlots :
    {A : Type 0} (P : Slot A → Type 0) (slot : Slot A) → P slot → IsSlots P (replicate max_ds slot)
replicate-IsSlots P slot p = record {
  count = length-replicate max_ds slot;
  each = replicate-All P max_ds slot p;
}

-- The tables at the start of the program are sound.
pub no_objects-IsTables : {B : Type 0} → IsTables (no_objects {B = B})
no_objects-IsTables = record {
  lists = replicate-IsSlots NameFits (unused_slot tt) (omega arith);
  hashes = replicate-IsSlots NameFits (unused_slot tt) (omega arith);
  bitmaps = replicate-IsSlots IsBitmapSlot (unused_slot none) (omega arith, λ used. cc);
}
