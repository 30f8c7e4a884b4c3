-- ===== src/Interp/Added/Expand.antt =====
-- `bitmap_expand` of sp_prj1/20241620/bitmap.c, bit by bit.
use system_programming.Base.{
  ℕ, suc, ◌+◌, ◌%◌, ◌^◌, ◌<◌, pos, Bool, false, some, List, [], ◌∷◌, ◌++◌, ◌≡◌, ◌≢◌, refl, arith,
  length, get_elem?, set, replicate, length-append, append_assoc, ap, sym, subst, ◌∙◌,
}
use system_programming.Interp.Library.{◌>>=◌}
use system_programming.Interp.Added.{BitmapOps, copy_bits, bitmap_expand}

-- What bitmap.h says of a bitmap that holds the bits, `Holds`.
pub record BitmapLaws (ops : BitmapOps) (Holds : ops.Store → ops.Bitmap → List Bool → Type 0)
    : Type 0 where
  pub size :
      (s : ops.Store) (b : ops.Bitmap) (bits : List Bool)
      → Holds s b bits
      → ops.bitmap_size b s ≡ some (length bits, s)
  pub test :
      (s : ops.Store) (b : ops.Bitmap) (bits : List Bool) (i : ℕ) (v : Bool)
      → Holds s b bits
      → get_elem? bits i ≡ some v
      → ops.bitmap_test b i s ≡ some (v, s)
  -- Setting a bit changes that bit, and no other bitmap.
  pub set_bit :
      (s : ops.Store) (b c : ops.Bitmap) (bits others : List Bool) (i : ℕ) (v : Bool)
      → Holds s b bits
      → Holds s c others
      → b ≢ c
      → i < length bits
      → (s' : ops.Store) × (ops.bitmap_set b i v s ≡ some (tt, s'))
        × Holds s' b (set bits i v)
        × Holds s' c others
  pub destroy :
      (s : ops.Store) (b c : ops.Bitmap) (bits others : List Bool)
      → Holds s b bits
      → Holds s c others
      → b ≢ c
      → (s' : ops.Store) × (ops.bitmap_destroy b s ≡ some (tt, s')) × Holds s' c others

get_elem?-middle : (xs ys : List Bool) (v : Bool) → get_elem? (xs ++ v ∷ ys) (length xs) ≡ some v
get_elem?-middle [] ys v = refl
get_elem?-middle (x ∷ xs) ys v = get_elem?-middle xs ys v

set-middle : (xs ys : List Bool) (v w : Bool) → set (xs ++ v ∷ ys) (length xs) w ≡ xs ++ w ∷ ys
set-middle [] ys v w = refl
set-middle (x ∷ xs) ys v w = ap (λ (l : List Bool). x ∷ l) (set-middle xs ys v w)

module _ (ops : BitmapOps) (Holds : ops.Store → ops.Bitmap → List Bool → Type 0)
    (laws : BitmapLaws ops Holds) where
  open ops use {Store, Bitmap, bitmap_create}

  copy_bits-Holds :
      (rest done : List Bool) (extra i : ℕ) (old new : Bitmap) (s : Store)
      → new ≢ old
      → i ≡ length done
      → Holds s old (done ++ rest)
      → Holds s new (done ++ replicate (length rest + extra) false)
      → (s' : Store) × (copy_bits ops (length rest) i old new s ≡ some (tt, s'))
        × Holds s' old (done ++ rest)
        × Holds s' new (done ++ (rest ++ replicate extra false))
  unfolding copy_bits
  copy_bits-Holds [] done extra i old new s ne e h k =
      let none_left : 0 + extra ≡ extra = omega arith in
      (s, refl, h, subst (λ m. Holds s new (done ++ replicate m false)) none_left k)
  copy_bits-Holds (v ∷ rest) done extra i old new s ne e h k =
      let tests = laws.test s old (done ++ v ∷ rest) i v h (rw e (get_elem?-middle done rest v)) in
      let more = replicate (length rest + extra) false in
      let one_left : suc (length rest) + extra ≡ suc (length rest + extra) = omega arith in
      let k' : Holds s new (done ++ false ∷ more) =
        subst (λ m. Holds s new (done ++ replicate m false)) one_left k in
      let (s1, sets, new1, old1) =
        laws.set_bit s new old (done ++ false ∷ more) (done ++ v ∷ rest) i v k' h ne
          (omega (arith, e, length-append done (false ∷ more))) in
      let new2 =
        subst (Holds s1 new)
          (ap (λ (j : ℕ). set (done ++ false ∷ more) j v) e
            ∙ (set-middle done more false v ∙ sym (append_assoc done (v ∷ []) more)))
          new1 in
      let old2 = subst (Holds s1 old) (sym (append_assoc done (v ∷ []) rest)) old1 in
      let (s', runs, old3, new3) =
        copy_bits-Holds rest (done ++ v ∷ []) extra (suc i) old new s1 ne
          (omega (arith, e, length-append done (v ∷ []))) old2 new2 in
      (
        s',
        rw (tests, ◌>>=◌, sets, runs),
        subst (Holds s' old) (append_assoc done (v ∷ []) rest) old3,
        subst (Holds s' new) (append_assoc done (v ∷ []) (rest ++ replicate extra false)) new3,
      )

  -- Where memory is found for the new bitmap, `bitmap_expand` by a count that is not negative
  -- returns a bitmap with the old bits in their places and that many clear bits behind them.
  pub bitmap_expand-Holds :
      (s s1 : Store) (b new : Bitmap) (bits : List Bool) (count : ℕ)
      → length bits + count < 2 ^ 64
      → Holds s b bits
      → bitmap_create (length bits + count) s ≡ some (some new, s1)
      → Holds s1 new (replicate (length bits + count) false)
      → Holds s1 b bits
      → new ≢ b
      → (s' : Store) × (bitmap_expand ops b (pos count) s ≡ some (some new, s'))
        × Holds s' new (bits ++ replicate count false)
  unfolding bitmap_expand
  bitmap_expand-Holds s s1 b new bits count fits h made clear kept ne =
      let sized = laws.size s b bits h in
      let whole : (length bits + count) % 2 ^ 64 ≡ length bits + count = omega arith in
      let (s2, copies, old2, new2) = copy_bits-Holds bits [] count 0 b new s1 ne refl kept clear in
      let (s', destroys, new3) =
        laws.destroy s2 b new bits (bits ++ replicate count false) old2 new2 (λ e. ne (sym e)) in
      (s', rw (sized, ◌>>=◌, whole, made, copies, destroys), new3)
