-- ===== src/Links.antt =====
-- `list_swap`, which this repository adds to sp_prj1/20241620/list.c: two elements of a doubly linked
-- list change places. An element is its address, and NULL is 0.
pub mod Swap
use system_programming.Base.{ℕ, zero, suc, Bool, not, ◌&&◌, Option, none, some, ◌==◌, if◌then◌else◌}

-- `struct list_elem`: the two fields of each element.
pub record Links : Type 0 where
  pub prev : ℕ → ℕ
  pub next : ℕ → ℕ

-- `e->next = v`
abbrev pub set_next : ℕ → ℕ → Links → Links
set_next e v h = record h { next = λ x. if x == e then v else h.next x }

-- `e->prev = v`
abbrev pub set_prev : ℕ → ℕ → Links → Links
set_prev e v h = record h { prev = λ x. if x == e then v else h.prev x }

unfoldable pub is_interior : Links → ℕ → Bool
is_interior h e = not (e == 0) && (not (h.prev e == 0) && not (h.next e == 0))

-- The branch in which `b` follows `a`.
unfoldable pub swap_adjacent : ℕ → ℕ → Links → Links
swap_adjacent a b h =
    let prev_a = h.prev a in
    let next_b = h.next b in
    set_prev next_b a
      (set_next a next_b (set_prev a b (set_next b a (set_prev b prev_a (set_next prev_a b h)))))

-- The branch in which neither follows the other.
unfoldable pub swap_apart : ℕ → ℕ → Links → Links
swap_apart a b h =
    let prev_a = h.prev a in
    let next_a = h.next a in
    let prev_b = h.prev b in
    let next_b = h.next b in
    set_next b next_a (
      set_prev b prev_a (
        set_next a next_b (
          set_prev a prev_b
            (set_prev next_b a (set_next prev_b a (set_prev next_a b (set_next prev_a b h)))))))

-- On fuel, since the function calls itself with its arguments changed about; `none` is a failed
-- assertion, or that the fuel ran out.
unfoldable pub swap_from : ℕ → ℕ → ℕ → Links → Option Links
unfolding is_interior swap_adjacent swap_apart
swap_from zero a b h = none
swap_from (suc k) a b h =
    let turned = swap_from k b a h in
    if is_interior h a && is_interior h b
    then (if a == b
        then some h
        else if h.next a == b
        then some (swap_adjacent a b h)
        else if h.next b == a
        then turned
        else some (swap_apart a b h))
    else none

unfoldable pub list_swap : ℕ → ℕ → Links → Option Links
unfolding swap_from
list_swap a b h = swap_from 2 a b h
