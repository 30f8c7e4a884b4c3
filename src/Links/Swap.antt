-- ===== src/Links/Swap.antt =====
-- `list_swap` of sp_prj1/20241620/list.c on linked lists of addresses.
use system_programming.Base.{
  ℕ, true, false, some, List, [], ◌∷◌, ◌++◌, map, All, ◌≡◌, ◌≢◌, sym, ap, subst, ◌∙◌, arith, ◌==◌,
  if◌then◌else◌, Bool-cases, inl, inr,
}
use system_programming.Links.{Links, is_interior, swap_adjacent, swap_apart, swap_from, list_swap}

-- Each element is followed by the next one, and preceded by the one before.
abbrev pub IsLinked : Links → List ℕ → Type 0
IsLinked h [] = Unit {0}
IsLinked h (x ∷ []) = Unit {0}
IsLinked h (x ∷ y ∷ l) = (h.next x ≡ y) × (h.prev y ≡ x) × IsLinked h (y ∷ l)

-- No element stands in the list twice, and none is NULL.
abbrev pub Distinct : List ℕ → Type 0
Distinct [] = Unit {0}
Distinct (x ∷ l) = (x ≢ 0) × All (λ y. x ≢ y) l × Distinct l

abbrev pub exchange : ℕ → ℕ → ℕ → ℕ
exchange a b x = if x == a then b else if x == b then a else x

-- An element between two others.
pub record Between (h : Links) (p x n : ℕ) : Type 0 where
  pub next_p : h.next p ≡ x
  pub prev_x : h.prev x ≡ p
  pub next_x : h.next x ≡ n
  pub prev_n : h.prev n ≡ x
  pub p_ne_x : p ≢ x
  pub x_ne_n : x ≢ n
  pub p_ne_n : p ≢ n
  pub p_ne_0 : p ≢ 0
  pub x_ne_0 : x ≢ 0
  pub n_ne_0 : n ≢ 0

linked-Between :
    (h : Links) (pre : List ℕ) (p x n : ℕ) (post : List ℕ)
    → IsLinked h (pre ++ p ∷ x ∷ n ∷ post)
    → Distinct (pre ++ p ∷ x ∷ n ∷ post)
    → Between h p x n
linked-Between h [] p x n post l d = record {
  next_p = l.0;
  prev_x = l.1;
  next_x = l.2.0;
  prev_n = l.2.1;
  p_ne_x = d.1.0;
  x_ne_n = d.2.1.0;
  p_ne_n = d.1.1.0;
  p_ne_0 = d.0;
  x_ne_0 = d.2.0;
  n_ne_0 = d.2.2.0;
}
linked-Between h (y ∷ []) p x n post l d = linked-Between h [] p x n post l.2 d.2
linked-Between h (y ∷ z ∷ pre) p x n post l d = linked-Between h (z ∷ pre) p x n post l.2 d.2

-- What the exchange does to one pair of neighbours.
swap_apart-pair :
    (h : Links) (a b pa na pb nb u v : ℕ)
    → Between h pa a na
    → Between h pb b nb
    → a ≢ b
    → na ≢ b
    → nb ≢ a
    → h.next u ≡ v
    → h.prev v ≡ u
    → u ≢ v
    → ((swap_apart a b h).next (exchange a b u) ≡ exchange a b v)
      × ((swap_apart a b h).prev (exchange a b v) ≡ exchange a b u)
unfolding swap_apart
swap_apart-pair h a b pa na pb nb u v ia ib ne na_b nb_a e f uv =
    let p1 = ia.next_p in
    let p2 = ia.prev_x in
    let p3 = ia.next_x in
    let p4 = ia.prev_n in
    let q1 = ib.next_p in
    let q2 = ib.prev_x in
    let q3 = ib.next_x in
    let q4 = ib.prev_n in
    let d1 = ia.p_ne_x in
    let d2 = ia.x_ne_n in
    let d3 = ib.p_ne_x in
    let d4 = ib.x_ne_n in (rw (p2, p3, q2, q3) (ground arith), rw (p2, p3, q2, q3) (ground arith))

swap_adjacent-pair :
    (h : Links) (a b pa nb u v : ℕ)
    → Between h pa a b
    → Between h a b nb
    → h.next u ≡ v
    → h.prev v ≡ u
    → u ≢ v
    → ((swap_adjacent a b h).next (exchange a b u) ≡ exchange a b v)
      × ((swap_adjacent a b h).prev (exchange a b v) ≡ exchange a b u)
unfolding swap_adjacent
swap_adjacent-pair h a b pa nb u v ia ib e f uv =
    let p1 = ia.next_p in
    let p2 = ia.prev_x in
    let p3 = ia.next_x in
    let p4 = ia.prev_n in
    let q3 = ib.next_x in
    let q4 = ib.prev_n in
    let d1 = ia.p_ne_x in
    let d2 = ia.x_ne_n in
    let d3 = ib.x_ne_n in
    let d4 = ib.p_ne_n in
    let d5 = ia.p_ne_n in (rw (p2, q3) (ground arith), rw (p2, q3) (ground arith))

-- Links under which each pair of neighbours was exchanged.
abbrev Exchanges : ℕ → ℕ → Links → Links → Type 0
Exchanges a b h h' =
    (u v : ℕ)
    → h.next u ≡ v
    → h.prev v ≡ u
    → u ≢ v
    → (h'.next (exchange a b u) ≡ exchange a b v) × (h'.prev (exchange a b v) ≡ exchange a b u)

Exchanges-IsLinked :
    (a b : ℕ) (h h' : Links) (l : List ℕ)
    → Exchanges a b h h'
    → IsLinked h l
    → Distinct l
    → IsLinked h' (map (exchange a b) l)
Exchanges-IsLinked a b h h' [] ex k d = tt
Exchanges-IsLinked a b h h' (x ∷ []) ex k d = tt
Exchanges-IsLinked a b h h' (x ∷ y ∷ l) ex k d =
    let (n, p) = ex x y k.0 k.1 d.1.0 in (n, p, Exchanges-IsLinked a b h h' (y ∷ l) ex k.2 d.2)

is_interior-middle : (h : Links) (p x n : ℕ) → Between h p x n → is_interior h x ≡ true
unfolding is_interior
is_interior-middle h p x n k =
    let e = k.prev_x in
    let f = k.next_x in
    let a = k.p_ne_0 in let b = k.x_ne_0 in let c = k.n_ne_0 in rw (e, f) (ground arith)

exchange_comm : (a b x : ℕ) → exchange a b x ≡ exchange b a x
exchange_comm a b x = ground arith

exchange_self : (a b x : ℕ) → a ≡ b → exchange a b x ≡ x
exchange_self a b x e = ground arith

Exchanges-same_elem : (a b : ℕ) (h : Links) → a ≡ b → Exchanges a b h h
Exchanges-same_elem a b h e u v n p ne = (
  rw (exchange_self a b u e, exchange_self a b v e, n),
  rw (exchange_self a b u e, exchange_self a b v e, p),
)

Exchanges-turn : (a b : ℕ) (h h' : Links) → Exchanges a b h h' → Exchanges b a h h'
Exchanges-turn a b h h' ex u v n p ne =
    rw (exchange_comm b a u, exchange_comm b a v) (ex u v n p ne)

-- Where the second element follows the first.
swap_adjacent-Exchanges :
    (h : Links) (a b pa na pb nb : ℕ)
    → Between h pa a na
    → Between h pb b nb
    → h.next a ≡ b
    → Exchanges a b h (swap_adjacent a b h)
swap_adjacent-Exchanges h a b pa na pb nb ia ib e u v =
    let after : na ≡ b = sym ia.next_x ∙ e in
    let before : pb ≡ a = sym ib.prev_x ∙ (ap h.prev (sym after) ∙ ia.prev_n) in
    swap_adjacent-pair h a b pa nb u v (subst (λ n. Between h pa a n) after ia)
      (subst (λ p. Between h p b nb) before ib)

-- What `list_swap` does to two elements that stand between others.
swap-Exchanges :
    (h : Links) (a b pa na pb nb : ℕ)
    → Between h pa a na
    → Between h pb b nb
    → (h' : Links) × (list_swap a b h ≡ some h') × Exchanges a b h h'
unfolding list_swap swap_from
swap-Exchanges h a b pa na pb nb ia ib =
    let ta = is_interior-middle h pa a na ia in
    let tb = is_interior-middle h pb b nb ib in
    elim (Bool-cases (a == b)) [
      | inl same ↦ (h, rw (ta, tb, same), Exchanges-same_elem a b h (ground arith))
      | inr ne ↦ elim (Bool-cases (h.next a == b)) [
        | inl before ↦ (
          swap_adjacent a b h,
          rw (ta, tb, ne, before),
          swap_adjacent-Exchanges h a b pa na pb nb ia ib (ground arith),
        )
        | inr apart ↦ elim (Bool-cases (h.next b == a)) [
          | inl after ↦
              let ne' : (b == a) ≡ false = ground arith in
              (
                swap_adjacent b a h,
                rw (ta, tb, ne, apart, after, ne'),
                Exchanges-turn b a h (swap_adjacent b a h)
                    (swap_adjacent-Exchanges h b a pb nb pa na ib ia (ground arith)),
              )
          | inr farther ↦ (
            swap_apart a b h,
            rw (ta, tb, ne, apart, farther),
            λ u v.
                swap_apart-pair h a b pa na pb nb u v ia ib (ground arith)
                  (λ e. absurd (ground (arith, ia.next_x)))
                  (λ e. absurd (ground (arith, ib.next_x))),
          )
        ]
      ]
    ]

-- Two elements of a linked list that are not its head or its tail change places: `list_swap` returns
-- with the list linked in both directions in the new order, wherever the two stand.
pub list_swap-IsLinked :
    (h : Links) (l pre post pre' post' : List ℕ) (a b pa na pb nb : ℕ)
    → IsLinked h l
    → Distinct l
    → l ≡ pre ++ pa ∷ a ∷ na ∷ post
    → l ≡ pre' ++ pb ∷ b ∷ nb ∷ post'
    → (h' : Links) × (list_swap a b h ≡ some h') × IsLinked h' (map (exchange a b) l)
list_swap-IsLinked h l pre post pre' post' a b pa na pb nb k d e e' =
    let ia = linked-Between h pre pa a na post (subst (IsLinked h) e k) (subst Distinct e d) in
    let ib = linked-Between h pre' pb b nb post' (subst (IsLinked h) e' k) (subst Distinct e' d) in
    let (h', runs, ex) = swap-Exchanges h a b pa na pb nb ia ib in
    (h', runs, Exchanges-IsLinked a b h h' l ex k d)
