-- ===== src/Interp/Added.antt =====
-- The functions that this repository adds to the libraries of sp_prj1/20241620: `bitmap_expand` of
-- bitmap.c, `hash_int_2` of hash.c and `list_shuffle` of list.c (`list_swap` is in Links). What they call is a parameter.
pub mod Expand
pub mod Shuffle
use system_programming.Base.{
  ℕ, zero, suc, ◌+◌, ◌-◌, ◌%◌, ◌*◌, ◌/◌, ◌^◌, ℤ, Bool, Option, none, some, if◌then◌else◌, leb,
}
use Prim.Native.Nat.{bit_xor}
use system_programming.Interp.{to_size}
use system_programming.Interp.Library.{Run, ◌>>=◌, ◌>>◌, pure}

-- A product of `unsigned`, of which the left factor is `(x >> 16) ^ x`.
abbrev pub mixed : ℕ → ℕ → ℕ
mixed x m = (bit_xor (x / 2 ^ 16) x * m) % 2 ^ 32

unfoldable pub hash_int_2 : ℤ → ℕ
hash_int_2 i = let x = mixed (mixed (to_size i % 2 ^ 32) 157) 211 in bit_xor (x / 2 ^ 16) x

-- What `bitmap_expand` calls.
pub record BitmapOps : Type 1 where
  pub Store : Type 0
  pub Bitmap : Type 0
  pub bitmap_create : ℕ → Run Store (Option Bitmap)
  pub bitmap_destroy : Bitmap → Run Store (Unit {0})
  pub bitmap_size : Bitmap → Run Store ℕ
  pub bitmap_set : Bitmap → ℕ → Bool → Run Store (Unit {0})
  pub bitmap_test : Bitmap → ℕ → Run Store Bool

module _ (ops : BitmapOps) where
  open ops use {Store, Bitmap, bitmap_create, bitmap_destroy, bitmap_size, bitmap_set, bitmap_test}

  -- The rest of the loop, `n` turns from the bit `i` on.
  unfoldable pub copy_bits : ℕ → ℕ → Bitmap → Bitmap → Run Store (Unit {0})
  copy_bits zero i old new = pure tt
  copy_bits (suc n) i old new = do
    bit ← bitmap_test old i
    bitmap_set new i bit
    copy_bits n (suc i) old new

  unfoldable pub bitmap_expand : Bitmap → ℤ → Run Store (Option Bitmap)
  unfolding copy_bits
  bitmap_expand bitmap size = do
    old_size ← bitmap_size bitmap
    made ← bitmap_create ((old_size + to_size size) % 2 ^ 64)
    elim made [
      | none ↦ pure none
      | some new ↦ (do copy_bits old_size 0 bitmap new; bitmap_destroy bitmap; pure (some new))
    ]

-- What `list_shuffle` calls.
pub record ShuffleOps : Type 1 where
  pub Store : Type 0
  pub Elem : Type 0
  pub list_size : Run Store ℕ
  pub list_begin : Run Store Elem
  pub list_next : Elem → Run Store Elem
  pub list_swap : Elem → Elem → Run Store (Unit {0})
  pub rand : Run Store ℕ

module _ (ops : ShuffleOps) where
  open ops use {Store, Elem, list_size, list_begin, list_next, list_swap, rand}

  unfoldable pub step_on : ℕ → Elem → Run Store Elem
  step_on zero e = pure e
  step_on (suc k) e = do e' ← list_next e; step_on k e'

  -- The rest of the loop, `n` turns from the position `i` on.
  unfoldable pub shuffle_from : ℕ → ℕ → ℕ → Run Store (Unit {0})
  unfolding step_on
  shuffle_from zero i size = pure tt
  shuffle_from (suc n) i size = do
    r ← rand
    first_i ← list_begin
    elem_i ← step_on i first_i
    first_j ← list_begin
    elem_j ← step_on (i + r % (size - i)) first_j
    list_swap elem_i elem_j
    shuffle_from n (suc i) size

  unfoldable pub list_shuffle : Run Store (Unit {0})
  unfolding shuffle_from
  list_shuffle = do size ← list_size; if leb size 1 then pure tt else shuffle_from size 0 size
