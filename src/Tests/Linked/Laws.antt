-- ===== src/Tests/Linked/Laws.antt =====
-- The library with a list in every slot keeps what list.h promises.
use system_programming.Base.{ℕ, All, All-imp, some, List, [], ◌∷◌, ◌++◌, ◌<◌, refl, arith, subst}
use system_programming.Interp.Spec.Laws.{ListLaws, Same}
use system_programming.Tests.Linked.{
  without_id, insert_id, extreme_from, Memory, linked_library, linked_model, cells, Distinct, put,
  with_ids, enter, malloc, IsHome, NotIn, reversed_ids, sorted_ids,
}
use system_programming.Interp.Items.{lt_int}
use system_programming.Tests.Linked.Choice.{
  cell_within, without_id-Distinct, without_id-All, extreme_cell,
}
use system_programming.Tests.Linked.Cells.{
  Distinct-insert_id, All-insert_id, held-insert_id, below_id, NotIn-below, Distinct-snoc,
  Distinct-reversed, unsnoc-Distinct, Distinct-sorted_ids, All-snoc, All-reversed, unsnoc-All,
  All-sorted_ids, held-reversed, held-sorted_ids, cells-snoc, is_nil-cells, cells-put,
}
use system_programming.Tests.Linked.Chains.{
  last_id-snoc, all_but_last-ids, linked-HoldsItems, cell_at, first_cell, last_cell, Same-lists,
  only_list, same_id, enter-IsHome, entered,
}

module _ (s : Memory) where
  pub malloc-Same : Same linked_library linked_model s (malloc s)
  malloc-Same k (d, at) =
      let same =
        below_id s.next (s.ids k)
          (All-imp (IsHome s k) (λ i. i < s.next) (s.ids k) (λ i h. h.0) at) in
      (
        (
          rw same d,
          rw same (
              All-imp (IsHome s k) (IsHome (malloc s) k) (s.ids k)
                (λ i h. (omega (arith, h.0), h.1)) at),
        ),
        rw same,
      )

  module _ (l : ℕ) (i : ℕ) (old : i < s.next) (out : (k : ℕ) → NotIn i (s.ids k))
      (at : All (IsHome s l) (s.ids l)) where
    pub here-IsHome : (ids : List ℕ) → IsHome (enter s l i ids) l i
    here-IsHome ids = (old, rw (same_id i))

    pub front-IsHome : All (IsHome (enter s l i (i ∷ s.ids l)) l) (i ∷ s.ids l)
    front-IsHome =
        (here-IsHome (i ∷ s.ids l), enter-IsHome s l l i (i ∷ s.ids l) (s.ids l) (out l) at)

    pub back-IsHome : All (IsHome (enter s l i (s.ids l ++ i ∷ [])) l) (s.ids l ++ i ∷ [])
    back-IsHome =
        let ids = s.ids l ++ i ∷ [] in
        All-snoc (IsHome (enter s l i ids) l) i (s.ids l) (here-IsHome ids)
          (enter-IsHome s l l i ids (s.ids l) (out l) at)

abbrev pub linked_laws : ListLaws linked_library linked_model
linked_laws = record {
  malloc = λ s. (
    some s.next,
    malloc s,
    refl,
    (s.next, (refl, omega arith, λ k. NotIn-below s.next (s.ids k))),
    malloc-Same s,
  );
  init = λ s l. (with_ids s l [], refl, only_list s l [] [] tt tt refl);
  set_item = λ s e v new.
      let (i, (is, old, out)) = new in
      let s' : Memory = record s { val = put s.val i v } in
      (
        s',
        rw is,
        (i, (is, old, out), rw (same_id i)),
        λ k h. (h, cells-put s.val i v (s.ids k) (out k)),
      );
  free = λ s e taken. (s, refl, Same-lists s);
  add_front = λ s l e v at loose.
      let (i, (is, old, out), has) = loose in
      (
        enter s l i (i ∷ s.ids l),
        rw is,
        entered s l i (i ∷ s.ids l) ((e, v) ∷ cells s.val (s.ids l)) out (out l, at.0)
            (front-IsHome s l i old out at.1) (rw (is, has)),
      );
  add_back = λ s l e v at loose.
      let (i, (is, old, out), has) = loose in
      (
        enter s l i (s.ids l ++ i ∷ []),
        rw is,
        entered s l i (s.ids l ++ i ∷ []) (cells s.val (s.ids l) ++ (e, v) ∷ []) out
            (Distinct-snoc i (s.ids l) (out l) at.0) (back-IsHome s l i old out at.1)
            (rw (cells-snoc s.val (s.ids l) i, is, has)),
      );
  take_front = λ s l e v xs at h.
      let (i, rest, ids, is, has, others) = first_cell s.val (s.ids l) e v xs h in
      let d : Distinct (i ∷ rest) = subst Distinct ids at.0 in
      let homes : All (IsHome s l) (i ∷ rest) = subst (All (IsHome s l)) ids at.1 in
      (with_ids s l rest, rw (ids, is), tt, only_list s l rest xs d.1 homes.1 others);
  take_back = λ s l e v xs at h.
      let (i, rest, ids, is, has, others) = last_cell s.val (s.ids l) e v xs h in
      let d = unsnoc-Distinct i rest (subst Distinct ids at.0) in
      let homes = unsnoc-All (IsHome s l) i rest (subst (All (IsHome s l)) ids at.1) in
      (
        with_ids s l rest,
        rw (ids, is, last_id-snoc rest i, all_but_last-ids rest i),
        tt,
        only_list s l rest xs d.1 homes others,
      );
  unlink = λ s l e v xs ys at h.
      let (i, is, others, holds) = cell_within s.val (s.ids l) e v xs ys at.0 h in
      let home = (holds (IsHome s l) at.1).1 in
      let rest = without_id i (s.ids l) in
      (
        with_ids s l rest,
        rw (is, home),
        tt,
        only_list s l rest (xs ++ ys) (without_id-Distinct s.val i (s.ids l) at.0)
            (without_id-All s.val (IsHome s l) i (s.ids l) at.1) others,
      );
  add_ordered = λ s l e v at loose.
      let (i, (is, old, out), has) = loose in
      let ids = insert_id s.val i (s.ids l) in
      (
        enter s l i ids,
        cells s.val ids,
        rw is,
        entered s l i ids (cells s.val ids) out (Distinct-insert_id s.val i (s.ids l) (out l) at.0)
            (All-insert_id (IsHome (enter s l i ids) l) s.val i (s.ids l)
              (here-IsHome s l i old out at.1 ids)
              (enter-IsHome s l l i ids (s.ids l) (out l) at.1))
            refl,
        rw (held-insert_id s.val i (s.ids l), has),
      );
  greatest = λ s l x xs at h.
      let (i, rest, ids, is, has, others) = first_cell s.val (s.ids l) x.0 x.1 xs h in
      let (ys, zs, e) = extreme_cell s.val lt_int i rest in
      (some (extreme_from lt_int s.val i rest), ys, zs, rw ids, rw (ids, ← has, ← others) e);
  least = λ s l x xs at h.
      let (i, rest, ids, is, has, others) = first_cell s.val (s.ids l) x.0 x.1 xs h in
      let (ys, zs, e) = extreme_cell s.val (λ a b. lt_int b a) i rest in
      (
        some (extreme_from (λ a b. lt_int b a) s.val i rest),
        ys,
        zs,
        rw ids,
        rw (ids, ← has, ← others) e,
      );
  first = λ s l e v xs at h.
      let (i, rest, ids, is, has, others) = first_cell s.val (s.ids l) e v xs h in rw (ids, is);
  last = λ s l e v xs at h.
      let (i, rest, ids, is, has, others) = last_cell s.val (s.ids l) e v xs h in
      rw (ids, is, last_id-snoc rest i);
  read =
      λ s l e v xs ys at h. let (i, is, has) = cell_at s.val (s.ids l) e v xs ys h in rw (is, has);
  test_empty = λ s l at. rw (is_nil-cells s.val (s.ids l));
  turn = λ s l at.
      let ids = reversed_ids (s.ids l) in
      (
        with_ids s l ids,
        cells s.val ids,
        refl,
        only_list s l ids (cells s.val ids) (Distinct-reversed (s.ids l) at.0)
            (All-reversed (IsHome s l) (s.ids l) at.1) refl,
        held-reversed s.val (s.ids l),
      );
  order = λ s l at.
      let ids = sorted_ids s.val (s.ids l) in
      (
        with_ids s l ids,
        cells s.val ids,
        refl,
        only_list s l ids (cells s.val ids) (Distinct-sorted_ids s.val (s.ids l) at.0)
            (All-sorted_ids (IsHome s l) s.val (s.ids l) at.1) refl,
        held-sorted_ids s.val (s.ids l),
      );
  holds = λ s l at. linked-HoldsItems s l at.0 at.1;
}
