-- ===== src/Interp/Spec/Ladder.antt =====
-- The commands of `do_list_command` in sp_prj1/20241620/main.c against the specification of lists of
-- numbers.
use system_programming.Base.{ℕ, false, List, [], ◌∷◌, ◌++◌, ◌≡◌, refl}
use system_programming.Shell.Text.{Text}
use system_programming.Interp.{Slot, atoi, is_word}
use system_programming.Interp.Library.{Library, ◌>>=◌, ◌>>◌}
use system_programming.Interp.Lists.{list_ladder}
use system_programming.Interp.Spec.{
  Op, push_front, push_back, pop_front, pop_back, front, back, empty, size, reverse, sort, remove,
  insert_ordered, max, min, dumpdata, command, words,
}
use system_programming.Interp.Spec.Laws.{ListModel, ListLaws}
use system_programming.Interp.Spec.Views.{
  numbers-append, length-numbers, is_nil-numbers, Changed-Becomes, Becomes-refl,
}
use system_programming.Interp.Spec.Ordered.{
  remove-Refines, insert_ordered-Refines, max-Refines, min-Refines,
}
use system_programming.Interp.Spec.Commands.{
  Refines, push_new-Changed, pop_front-Refines, pop_back-Refines, front-Refines, back-Refines,
}

module _ (lib : Library) (model : ListModel lib) (laws : ListLaws lib model) where
  open lib use {Store, list_push_front, list_push_back}
  open model use {view, IsList}

  -- Every command on a list that the ladder knows does to the list's numbers, and prints, what the
  -- specification says, and changes no other list.
  pub list_ladder-Refines :
      (slots : List (Slot (Unit {0}))) (name : Text) (op : Op) (l : ℕ) (s : Store)
      → IsList s l
      → is_word (command op) "dumpdata" ≡ false
      → Refines lib model laws (list_ladder lib slots (command op) (words name op) l) s l op
  unfolding list_ladder is_word
  list_ladder-Refines slots name (push_front arg) l s at known =
      let (s', e, runs, changed) =
        push_new-Changed lib model laws list_push_front (λ x xs. x ∷ xs) l arg s
          (λ s e v. laws.add_front s l e v) at in
      (s', runs, Changed-Becomes lib model laws s s' l _ _ changed refl)
  list_ladder-Refines slots name (push_back arg) l s at known =
      let (s', e, runs, changed) =
        push_new-Changed lib model laws list_push_back (λ x xs. xs ++ x ∷ []) l arg s
          (λ s e v. laws.add_back s l e v) at in
      (
        s',
        runs,
        Changed-Becomes lib model laws s s' l _ _ changed
            (numbers-append lib model laws (view s l) ((e, atoi arg) ∷ [])),
      )
  list_ladder-Refines slots name pop_front l s at known = pop_front-Refines lib model laws l s at
  list_ladder-Refines slots name pop_back l s at known = pop_back-Refines lib model laws l s at
  list_ladder-Refines slots name front l s at known = front-Refines lib model laws l s at
  list_ladder-Refines slots name back l s at known = back-Refines lib model laws l s at
  list_ladder-Refines slots name empty l s at known = (
    s,
    rw (laws.test_empty s l at, ◌>>=◌, is_nil-numbers lib model laws (view s l)),
    Becomes-refl lib model laws s l at,
  )
  list_ladder-Refines slots name size l s at known = (
    s,
    rw ((laws.holds s l at).size, ◌>>=◌, length-numbers lib model laws (view s l)),
    Becomes-refl lib model laws s l at,
  )
  list_ladder-Refines slots name reverse l s at known =
      let (s', xs, turns, changed, e) = laws.turn s l at in
      (s', rw (turns, ◌>>◌, ◌>>=◌), Changed-Becomes lib model laws s s' l xs _ changed e)
  list_ladder-Refines slots name sort l s at known =
      let (s', xs, orders, changed, e) = laws.order s l at in
      (s', rw (orders, ◌>>◌, ◌>>=◌), Changed-Becomes lib model laws s s' l xs _ changed e)
  list_ladder-Refines slots name (remove idx) l s at known =
      remove-Refines lib model laws idx l s at
  list_ladder-Refines slots name (insert_ordered arg) l s at known =
      insert_ordered-Refines lib model laws arg l s at
  list_ladder-Refines slots name max l s at known = max-Refines lib model laws l s at
  list_ladder-Refines slots name min l s at known = min-Refines lib model laws l s at
  list_ladder-Refines slots name dumpdata l s at known = cc
