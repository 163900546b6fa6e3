-- ===== src/MersenneTwister/Seed.antt =====
-- Seeding and the calls of MT19937-64.c.
use linux_multiarch_asm.Base.{
  ℕ, zero, suc, ◌+◌, ◌-◌, ◌≤◌, ◌<◌, ◌≡◌, ◌≢◌, inl, inr, refl, sym, ap, ap₂, subst, ◌∙◌, List, arith,
  leb, ltb, ◌==◌, length, set, Bool-cases, length-set, get_or-set_self, get_or-set_ne,
}
use linux_multiarch_asm.MersenneTwister.{
  Generator, word_at, seed_step, seed_loop, init_genrand64, refill, temper, genrand64_int64,
}
use linux_multiarch_asm.MersenneTwister.Recurrence.{regenerate-length}

-- The words from 0 to `i` are those of the seed.
pub record Seeded (seed : ℕ) (m : List ℕ) (i : ℕ) : Type 0 where
  pub size : length m ≡ 312
  pub first : word_at m 0 ≡ seed
  pub next : (k : ℕ) → k + 1 < i → word_at m (k + 1) ≡ seed_step (word_at m k) (k + 1)

Seeded-set :
    (seed : ℕ) (m : List ℕ) (i v : ℕ)
    → Seeded seed m i
    → 0 < i
    → i < 312
    → v ≡ seed_step (word_at m (i - 1)) i
    → Seeded seed (set m i v) (i + 1)
Seeded-set seed m i v s positive inside e = record {
  size = length-set m i v ∙ s.size;
  first = let ne : i ≢ 0 = omega arith in get_or-set_ne m i 0 v 0 ne ∙ s.first;
  next = λ k less.
      let ne : i ≢ k = omega arith in
      let before : word_at (set m i v) k ≡ word_at m k = get_or-set_ne m i k v 0 ne in
      elim (Bool-cases (ltb (k + 1) i)) [
        | inl lt ↦
            let ne' : i ≢ k + 1 = ground arith in
            get_or-set_ne m i (k + 1) v 0 ne'
            ∙ s.next k (ground arith)
            ∙ ap (λ (w : ℕ). seed_step w (k + 1)) (sym before)
        | inr ge ↦
            let same : k + 1 ≡ i = ground arith in
            let same' : i - 1 ≡ k = omega arith in
            ap (λ (j : ℕ). word_at (set m i v) j) same
            ∙ get_or-set_self m i v 0 (omega (arith, s.size))
            ∙ e
            ∙ ap₂ (λ (j l : ℕ). seed_step (word_at m j) l) same' (sym same)
            ∙ ap (λ (w : ℕ). seed_step w (k + 1)) (sym before)
      ];
}

seed_loop-Seeded :
    (seed left i : ℕ) (m : List ℕ)
    → i + left ≡ 312
    → 0 < i
    → Seeded seed m i
    → Seeded seed (seed_loop left i m) 312
unfolding seed_loop
seed_loop-Seeded seed zero i m e positive s =
    let at_end : i ≡ 312 = omega arith in subst (λ (j : ℕ). Seeded seed m j) at_end s
seed_loop-Seeded seed (suc left) i m e positive s =
    seed_loop-Seeded seed left (i + 1) (set m i _) (omega arith) (omega arith)
      (Seeded-set seed m i _ s positive (omega arith) refl)

-- On an array of 312 words, `init_genrand64` makes the first word the seed and each next one from
-- the one before it, and marks all as used.
pub init_genrand64-Seeded :
    (seed : ℕ) (g : Generator)
    → length g.mt ≡ 312
    → Seeded seed (init_genrand64 seed g).mt 312 × ((init_genrand64 seed g).mti ≡ 312)
unfolding init_genrand64
init_genrand64-Seeded seed g size = (
  seed_loop-Seeded seed 311 1 (set g.mt 0 seed) refl (omega arith) (record {
    size = length-set g.mt 0 seed ∙ size;
    first = get_or-set_self g.mt 0 seed 0 (omega arith);
    next = λ k less. absurd (omega arith);
  }),
  refl,
)

-- The array has its size, and the index stands in it, at its end, or tells that there is no seed yet.
pub record IsGenerator (g : Generator) : Type 0 where
  pub size : length g.mt ≡ 312
  pub index : g.mti ≤ 313

refill_lem : (g : Generator) → IsGenerator g → (length (refill g).mt ≡ 312) × ((refill g).mti < 312)
unfolding refill
refill_lem g h = elim (Bool-cases (leb 312 g.mti)) [
  | inl e ↦ elim (Bool-cases (g.mti == 313)) [
    | inl z ↦
        rw (e, z)
          (
            regenerate-length (init_genrand64 5489 g).mt
                (init_genrand64-Seeded 5489 g h.size).0.size,
            omega arith,
          )
    | inr z ↦ rw (e, z) (regenerate-length g.mt h.size, omega arith)
  ]
  | inr e ↦ rw e (h.size, ground arith)
]

-- A call keeps the array and the index well-formed, and reads the array at the index before the new
-- one, which is in range.
pub genrand64_int64-IsGenerator :
    (g : Generator)
    → IsGenerator g
    → (g' : Generator) × (i : ℕ) × (genrand64_int64 g ≡ (temper (word_at g'.mt i), g'))
      × (g'.mti ≡ i + 1)
      × (i < 312)
      × IsGenerator g'
unfolding genrand64_int64
genrand64_int64-IsGenerator g h =
    let (size, inside) = refill_lem g h in
    (
      record (refill g) { mti = (refill g).mti + 1 },
      (refill g).mti,
      refl,
      refl,
      inside,
      record { size = size; index = omega arith },
    )
