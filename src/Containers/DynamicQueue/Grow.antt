-- ===== src/Containers/DynamicQueue/Grow.antt =====
-- `ReAllocate` keeps the queue, in order, at the front of the new buffer.
use linux_multiarch_asm.Base.{
  ℕ, zero, suc, ◌+◌, ◌-◌, ◌≤◌, ◌<◌, ◌≡◌, ◌≢◌, ◌⊎◌, inl, inr, refl, sym, Option, List, [], ◌∷◌, ◌++◌,
  arith, ltb, ◌==◌, if◌then◌else◌, length, take, drop, Bool-cases, length-append, length-drop,
}
use linux_multiarch_asm.Containers.Outcome.{ret}
use linux_multiarch_asm.Containers.Growth.{Allocates}
use linux_multiarch_asm.Containers.Circular.{wrap, Holds}
use linux_multiarch_asm.Containers.Circular.Unroll.{Holds-straight, unroll_straight, unroll_round}
use linux_multiarch_asm.Containers.DynamicQueue.{DynamicQueue, copied, reallocate}

-- The buffer of `max_num` objects holds the queue `q`, oldest object first. With no buffer yet, all
-- is zero.
pub record Represents {ℓ} {A : Type ℓ} (d : DynamicQueue A) (q : List A) : Type ℓ where
  pub size : length d.buffer ≡ d.max_num
  pub tail_in : (d.tail < d.max_num) ⊎ ((d.max_num ≡ 0) × (d.tail ≡ 0) × (d.head ≡ 0))
  pub count : d.num_entries ≡ length q
  pub fits : length q ≤ d.max_num
  pub head_at : d.head ≡ wrap d.max_num (d.tail + length q)
  pub holds : Holds d.buffer d.max_num d.tail q
  pub no_old : d.old_buffer ≡ []

-- What is left of it once the array has moved: the queue stands at the front of the new buffer.
pub record Moved {ℓ} {A : Type ℓ} (d d' : DynamicQueue A) (q : List A) (num : ℕ) : Type ℓ where
  pub size : length d'.buffer ≡ num
  pub max : d'.max_num ≡ num
  pub tail_at : d'.tail ≡ 0
  pub head_at : d'.head ≡ length q
  pub count : d'.num_entries ≡ length q
  pub holds : Holds d'.buffer num 0 q
  pub old : d'.old_buffer ≡ d.buffer

module _ {ℓ} {A : Type ℓ} where
  nil_of_length : (q : List A) → length q ≡ 0 → q ≡ []
  nil_of_length [] e = refl
  nil_of_length (x ∷ q) e = absurd (omega arith)

  take_or_nil : (n : ℕ) (b : List A) → (if n == 0 then [] else take n b) ≡ take n b
  take_or_nil zero b = refl
  take_or_nil (suc n) b = elim (Bool-cases (suc n == 0)) [
    | inl e ↦ absurd (ground arith)
    | inr e ↦ rw e
  ]

  -- The queue goes round the end just if the head is not behind the tail.
  straight_head :
      (d : DynamicQueue A) (q : List A)
      → Represents d q
      → 0 < d.max_num
      → d.tail < d.head
      → d.tail + length q ≤ d.max_num
  unfolding wrap
  straight_head d q r pos h = ground (arith, r.head_at, r.fits)

  round_head :
      (d : DynamicQueue A) (q : List A)
      → Represents d q
      → 0 < d.max_num
      → d.head ≤ d.tail
      → length q ≢ 0
      → (d.max_num ≤ d.tail + length q)
        × (d.head + d.max_num ≡ d.tail + length q)
        × (d.tail < d.max_num)
  unfolding wrap
  round_head d q r pos h n = ground (arith, r.head_at, r.tail_in)

  -- Whether or not the queue goes round the end of a buffer that is there, its objects are copied
  -- in their order.
  copied-eq : (d : DynamicQueue A) (q : List A) → Represents d q → 0 < d.max_num → copied d ≡ q
  unfolding copied
  copied-eq d q r pos = elim (Bool-cases (ltb d.tail d.head)) [
    | inl e ↦
        rw (e, r.count)
          (unroll_straight d.buffer d.max_num d.tail q (straight_head d q r pos (ground arith))
            r.holds)
    | inr e ↦ elim (Bool-cases (d.num_entries == 0)) [
      | inl z ↦ rw (e, z) (sym (nil_of_length q (ground (arith, r.count))))
      | inr n ↦
          let (le, head, inside) = round_head d q r pos (ground arith) (ground (arith, r.count)) in
          rw (e, n, take_or_nil d.head d.buffer)
            (unroll_round d.buffer d.max_num d.tail (d.max_num - d.tail) d.head q (omega arith)
              (omega arith) (omega arith) (omega arith) r.holds)
    ]
  ]

  -- Where the allocation succeeds and the new size is larger, `ReAllocate` leaves the queue, in
  -- order, at the front of a buffer of the new size, and the former buffer as the old one.
  pub reallocate-Moved :
      (size_of_tx : ℕ) (allocate : ℕ → Option (List A)) (limit : ℕ)
      → Allocates allocate limit
      → (d : DynamicQueue A) (q : List A) (num : ℕ) → Represents d q
      → d.max_num < num
      → num < limit
      → (d' : DynamicQueue A) × (reallocate size_of_tx allocate num d ≡ ret d') × Moved d d' q num
  unfolding reallocate
  reallocate-Moved size_of_tx allocate limit allocates d q num r h small =
      let (cells, e, len) = allocates.block num small in
      elim (Bool-cases (length d.buffer == 0)) [
        | inl z ↦
            let no_buffer : d.buffer ≡ [] = nil_of_length d.buffer (ground arith) in
            let empty : q ≡ [] = nil_of_length q (ground (arith, r.size, r.fits)) in
            let zeros : (d.tail ≡ 0) × (d.head ≡ 0) = ground (arith, r.size, r.tail_in) in
            (
              record d { buffer = cells; old_buffer = []; max_num = num },
              rw (e, reallocate) (rw z),
              record {
                size = len;
                max = refl;
                tail_at = zeros.0;
                head_at = rw empty zeros.1;
                count = r.count;
                holds = rw empty tt;
                old = sym no_buffer;
              },
            )
        | inr z ↦
            let same = copied-eq d q r (ground (arith, r.size)) in
            let rest = drop (length (copied d)) cells in
            (
              record d {
                buffer = copied d ++ rest;
                old_buffer = d.buffer;
                tail = 0;
                head = d.num_entries;
                max_num = num;
              },
              rw (e, reallocate) (rw z),
              record {
                size = rw same (
                    omega (
                      arith,
                      length-append q (drop (length q) cells),
                      length-drop (length q) cells,
                      len,
                      r.fits,
                    ));
                max = refl;
                tail_at = refl;
                head_at = r.count;
                count = r.count;
                holds = rw same (
                    Holds-straight (q ++ drop (length q) cells) num 0 q (drop (length q) cells)
                      (omega (arith, r.fits)) refl);
                old = refl;
              },
            )
      ]
