-- ===== src/Containers/Circular/Unroll.antt =====
-- A circular buffer against the straight block of its queue.
use linux_multiarch_asm.Base.{
  ℕ, zero, suc, ◌+◌, ◌≤◌, ◌<◌, ◌≡◌, refl, ap, some, List, [], ◌∷◌, ◌++◌, arith, length, get_elem?,
  take, drop,
}
use linux_multiarch_asm.Containers.Circular.{
  advance, wrap, Holds, advance-lt, wrap-advance, wrap-zero,
}

advance_inside : (cap t : ℕ) → suc t < cap → advance cap t ≡ suc t
unfolding advance
advance_inside cap t h = ground arith

advance_end : (cap t : ℕ) → suc t ≡ cap → advance cap t ≡ 0
unfolding advance
advance_end cap t h = ground arith

module _ {ℓ} {A : Type ℓ} where
  drop-of_get_elem? :
      (b : List A) (t : ℕ) (x : A) → get_elem? b t ≡ some x → drop t b ≡ x ∷ drop (suc t) b
  drop-of_get_elem? [] t x e = cc
  drop-of_get_elem? (y ∷ b) zero x e = ap (λ z. z ∷ b) (ground (arith, e))
  drop-of_get_elem? (y ∷ b) (suc t) x e = drop-of_get_elem? b t x e

  get_elem?-of_drop :
      (b : List A) (t : ℕ) (x : A) (r : List A)
      → drop t b ≡ x ∷ r
      → (get_elem? b t ≡ some x) × (drop (suc t) b ≡ r)
  get_elem?-of_drop [] zero x r e = cc
  get_elem?-of_drop [] (suc t) x r e = cc
  get_elem?-of_drop (y ∷ b) zero x r e = (ground (arith, e), ground (arith, e))
  get_elem?-of_drop (y ∷ b) (suc t) x r e = get_elem?-of_drop b t x r e

  -- A straight block holds its queue.
  pub Holds-straight :
      (b : List A) (cap t : ℕ) (q free : List A)
      → t + length q ≤ cap
      → drop t b ≡ q ++ free
      → Holds b cap t q
  Holds-straight b cap t [] free h e = tt
  Holds-straight b cap t (x ∷ []) free h e = ((get_elem?-of_drop b t x free e).0, tt)
  Holds-straight b cap t (x ∷ y ∷ q) free h e =
      let (g, d) = get_elem?-of_drop b t x (y ∷ (q ++ free)) e in
      (
        g,
        rw (advance_inside cap t (omega arith))
            (Holds-straight b cap (suc t) (y ∷ q) free (omega arith) d),
      )

  -- A queue that does not go round the end is one block of the buffer.
  pub unroll_straight :
      (b : List A) (cap t : ℕ) (q : List A)
      → t + length q ≤ cap
      → Holds b cap t q
      → take (length q) (drop t b) ≡ q
  unroll_straight b cap t [] h holds = refl
  unroll_straight b cap t (x ∷ []) h holds = rw (drop-of_get_elem? b t x holds.0)
  unroll_straight b cap t (x ∷ y ∷ q) h holds = rw (drop-of_get_elem? b t x holds.0) (
      ap (λ r. x ∷ r)
        (unroll_straight b cap (suc t) (y ∷ q) (omega arith)
          (rw (← advance_inside cap t (omega arith)) holds.1)))

  -- A queue that does is two blocks: up to the end, and from the start.
  pub unroll_round :
      (b : List A) (cap t n m : ℕ) (q : List A)
      → n + t ≡ cap
      → 0 < n
      → n + m ≡ length q
      → m ≤ cap
      → Holds b cap t q
      → take n (drop t b) ++ take m b ≡ q
  unroll_round b cap t n m [] e pos l k holds = absurd (omega arith)
  unroll_round b cap t zero m (x ∷ q) e pos l k holds = absurd (omega arith)
  unroll_round b cap t (suc zero) m (x ∷ q) e pos l k holds =
      let m' : m ≡ length q = omega arith in
      let start : Holds b cap 0 q = rw (← advance_end cap t (omega arith)) holds.1 in
      rw (drop-of_get_elem? b t x holds.0, m')
        (ap (λ r. x ∷ r) (unroll_straight b cap 0 q (omega arith) start))
  unroll_round b cap t (suc (suc n)) m (x ∷ q) e pos l k holds =
      rw (drop-of_get_elem? b t x holds.0) (
        ap (λ r. x ∷ r)
          (unroll_round b cap (suc t) (suc n) m q (omega arith) (omega arith) (omega arith) k
            (rw (← advance_inside cap t (omega arith)) holds.1)))

  -- The object at an index from the tail.
  pub Holds-at :
      (b : List A) (cap t : ℕ) (q : List A) (i : ℕ)
      → t < cap
      → length q ≤ cap
      → i < length q
      → Holds b cap t q
      → get_elem? b (wrap cap (t + i)) ≡ get_elem? q i
  Holds-at b cap t [] i ht hq h holds = absurd (omega arith)
  Holds-at b cap t (x ∷ q) zero ht hq h holds = rw (wrap-zero cap t ht) holds.0
  Holds-at b cap t (x ∷ q) (suc i) ht hq h holds = rw (← wrap-advance cap t i ht (omega arith)) (
      Holds-at b cap (advance cap t) q i (advance-lt cap t (omega arith)) (omega arith)
        (omega arith) holds.1)
