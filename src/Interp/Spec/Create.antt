-- ===== src/Interp/Spec/Create.antt =====
-- `create list` of sp_prj1/20241620/main.c against the specification.
use system_programming.Base.{
  ℕ, suc, ◌<◌, ltb, Bool-cases, true, false, Option, none, some, [], ◌≡◌, ◌≢◌, ◌∙◌, refl, sym, ap,
  inl, inr, arith, length, set, ◌-◌, map, length-set,
}
use system_programming.Shell.Text.{Text}
use system_programming.Shell.Builtins.{same_text}
use system_programming.Interp.{
  find_used, find_empty, max_ds, name_len, copy_name, new_slot, is_word,
}
use system_programming.Interp.Names.{
  take_short, find_used-new, find_used-other, same_text-eq, same_text_refl,
}
use system_programming.Interp.Library.{Library, ◌>>=◌}
use system_programming.Interp.World.{Tables, create_list_object, create_kind, do_create}
use system_programming.Interp.Main.{goes_on, dispatch, run_tokens}
use system_programming.Interp.Spec.Laws.{ListModel, ListLaws, Changed}
use system_programming.Interp.Spec.Slots.{
  find_empty-full, find_empty-room, count_used-set, HasNames-set, empty_slot,
}
use system_programming.Interp.Spec.Objects.{Named, create, exec, rename, command_words, StandsFor}

copy_name-fits : (name : Text) → length name < name_len → copy_name name ≡ name
unfolding copy_name
copy_name-fits name h = take_short (name_len - 1) name (omega arith)

differs :
    (name other : Text)
    → same_text other name ≡ false
    → copy_name name ≡ name
    → copy_name name ≢ other
differs name other n fits e =
    let self = same_text_refl name in let same : name ≡ other = sym fits ∙ e in cc

module _ (lib : Library) (model : ListModel lib) (laws : ListLaws lib model) where
  open lib use {Store, Bitmap}

  created-StandsFor :
      (w : Tables Bitmap) (s s' : Store) (m : Named) (name : Text) (i : ℕ)
      → StandsFor lib model w s m
      → length name < name_len
      → m.of name ≡ none
      → find_used name w.lists ≡ none
      → find_empty w.lists ≡ some i
      → Changed lib model s s' i []
      → StandsFor lib model
          (record w { lists = set w.lists i (new_slot name tt) })
          s'
          (rename name (some []) (suc m.count) m)
  created-StandsFor w s s' m name i h short new free empty (at, becomes, others) =
      let fits = copy_name-fits name short in
      record {
        no_hash = h.no_hash;
        no_bitmap = h.no_bitmap;
        list = λ other j f. elim (Bool-cases (same_text other name)) [
          | inl y ↦
              let e = same_text-eq other name y in
              let made = find_used-new name tt w.lists i short free empty in
              let same : i ≡ j = cc in
              rw (y, ← same) (at, ap some (sym (ap (map (λ x. x.1)) becomes)))
          | inr n ↦
              let differ : copy_name name ≢ other = differs name other n fits in
              let f' : find_used other w.lists ≡ some j =
                sym (find_used-other name other tt w.lists i empty differ) ∙ f in
              let (has, kept) =
                others j (empty_slot other w.lists i j empty f') (h.list other j f').0 in
              rw n (has, (h.list other j f').1 ∙ ap some (sym (ap (map (λ x. x.1)) kept)))
        ];
        absent = λ other f. elim (Bool-cases (same_text other name)) [
          | inl y ↦
              let e = same_text-eq other name y in
              let made = find_used-new name tt w.lists i short free empty in cc
          | inr n ↦
              let differ : copy_name name ≢ other = differs name other n fits in
              rw n (h.absent other (sym (find_used-other name other tt w.lists i empty differ) ∙ f))
        ];
        names = HasNames-set name tt w.lists i fits h.names free empty;
        count = count_used-set name tt w.lists i empty ∙ ap suc h.count;
        size = length-set w.lists i (new_slot name tt) ∙ h.size;
      }

  -- Where a name stands for nothing, no slot has it.
  free_name :
      (w : Tables Bitmap) (s : Store) (m : Named) (name : Text)
      → StandsFor lib model w s m
      → m.of name ≡ none
      → find_used name w.lists ≡ none
  free_name w s m name h new = go (find_used name w.lists) refl
    where
      go : (r : Option ℕ) → find_used name w.lists ≡ r → r ≡ none
      go none e = refl
      go (some i) e = let has = (h.list name i e).1 in cc

  -- The line creates the list, or does nothing if there are as many as there can be.
  pub create-StandsFor :
      (w : Tables Bitmap) (s : Store) (m : Named) (name : Text)
      → StandsFor lib model w s m
      → length name < name_len
      → m.of name ≡ none
      → let (m', out) = exec (create name) m in
        (w' : Tables Bitmap) × (s' : Store) × (run_tokens lib w (command_words (create name)) s
          ≡ some (goes_on w' out, s'))
        × StandsFor lib model w' s' m'
  unfolding run_tokens dispatch is_word do_create create_kind create_list_object
  create-StandsFor w s m name h short new = go (find_empty w.lists) refl
    where
      go :
          (r : Option ℕ)
          → find_empty w.lists ≡ r
          → let (m', out) = exec (create name) m in
            (w' : Tables Bitmap) × (s' : Store) × (run_tokens lib w (command_words (create name)) s
              ≡ some (goes_on w' out, s'))
            × StandsFor lib model w' s' m'
      go none e =
          let full : ltb m.count max_ds ≡ false =
            ground (arith, find_empty-full w.lists e, h.count, h.size) in
          rw full (w, s, rw (e, ◌>>=◌), h)
      go (some i) e =
          let room : ltb m.count max_ds ≡ true =
            ground (arith, find_empty-room w.lists i e, h.count, h.size) in
          let (s', inits, changed) = laws.init s i in
          rw room (
            record w { lists = set w.lists i (new_slot name tt) },
            s',
            rw (e, ◌>>=◌, inits),
            created-StandsFor w s s' m name i h short new (free_name w s m name h new) e changed,
          )
