-- ===== src/Containers/StringPool/Vacant.antt =====
-- A pool of StringPoolS.cpp in which `Allocate` has made room for a text, and the copy of the text there.
use linux_multiarch_asm.Base.{
  ℕ, ◌+◌, ◌≤◌, ◌<◌, ◌≡◌, ◌≢◌, ◌⊎◌, inl, inr, ap, ◌∙◌, List, [], ◌∷◌, ◌++◌, arith, ◌==◌, length,
  Bool-cases, length-append,
}
use linux_multiarch_asm.Containers.Memory.{copy_bytes}
use linux_multiarch_asm.Containers.Memory.Text.{
  NoZero, Holds, Holds-of_copy, Holds-copy_bytes, length-copy_bytes,
}
use linux_multiarch_asm.Containers.StringPool.{StringPool}
use linux_multiarch_asm.Containers.StringPool.Layout.{offset, Layout, Texts, Blocks}
use linux_multiarch_asm.Containers.StringPool.Put.{put, put_self, put_ne, Spot}
use linux_multiarch_asm.Containers.StringPool.Spots.{spot-Layout}

-- There is room for `t` at index `i`, and the other texts are there.
pub record Vacant (p : StringPool) (m : ℕ → List ℕ) (i : ℕ) (t : List ℕ) : Type 0 where
  pub layout : Layout p (λ j. length (put m i t j))
  pub positive : 0 < offset p i
  pub others : (j : ℕ) → j ≢ i → 0 < offset p j → Holds p.buffer (offset p j) (m j)
  pub blank : Holds p.buffer 0 []

-- A layout does not depend on the old block, the garbage or the contents of the buffer.
pub relaid :
    (p : StringPool) (n : ℕ → ℕ) (b old : List ℕ) (g : ℕ)
    → length b ≡ length p.buffer
    → Layout p n
    → Layout (record p { buffer = b; old_buffer = old; garbage_size = g }) n
relaid p n b old g e l = record {
  started = l.started;
  size = e ∙ l.size;
  fits = l.fits;
  indices = l.indices;
  count = l.count;
  beyond = l.beyond;
  empty = l.empty;
  ends = l.ends;
  le_top = l.le_top;
  last = l.last;
  apart = l.apart;
  space = l.space;
}

pub Spot-Vacant :
    (p p' : StringPool) (m : ℕ → List ℕ) (i : ℕ) (t : List ℕ)
    → Blocks p m
    → Spot p p' m i t
    → Vacant p' m i t
Spot-Vacant p p' m i t x s = record {
  layout = spot-Layout p p' m i t x.layout s;
  positive = s.positive;
  others = λ j ne h. let e = s.others j ne in rw (s.buffer, e) (x.holds j (omega (arith, e)));
  blank = rw s.buffer x.blank;
}

module _ (p : StringPool) (m : ℕ → List ℕ) (i : ℕ) (t : List ℕ) (v : Vacant p m i t) where
  long : length (t ++ (0 ∷ [])) ≡ length t + 1
  long = length-append t (0 ∷ [])

  fits : offset p i + (length t + 1) ≤ length p.buffer
  fits =
      omega (
        arith,
        v.layout.ends i v.positive,
        ap length (put_self m i t),
        v.layout.fits,
        v.layout.size,
      )

  apart-Vacant :
      (j : ℕ)
      → j ≢ i
      → 0 < offset p j
      → (offset p j + (length (m j) + 1) ≤ offset p i)
        ⊎ (offset p i + length (t ++ (0 ∷ [])) ≤ offset p j)
  apart-Vacant j ne h =
      let (ei, ej) : (length (put m i t i) ≡ length t) × (length (put m i t j) ≡ length (m j)) =
        (ap length (put_self m i t), ap length (put_ne m i t j ne)) in
      elim (v.layout.apart j i ne h v.positive) [
        | inl le ↦ inl (omega arith)
        | inr le ↦ inr (omega (arith, long))
      ]

  -- With a text copied to its place, the pool holds the blocks of all.
  fill-Blocks :
      (old : List ℕ)
      → Blocks
          (record p { buffer = copy_bytes (offset p i) (t ++ (0 ∷ [])) p.buffer; old_buffer = old })
          (put m i t)
  fill-Blocks old =
      let le : offset p i + length (t ++ (0 ∷ [])) ≤ length p.buffer = omega (arith, long, fits) in
      record {
        layout =
            relaid p (λ j. length (put m i t j)) (copy_bytes (offset p i) (t ++ (0 ∷ [])) p.buffer)
              old p.garbage_size (length-copy_bytes (offset p i) (t ++ (0 ∷ [])) p.buffer le)
              v.layout;
        blank =
            Holds-copy_bytes (offset p i) (t ++ (0 ∷ [])) p.buffer le 0 [] v.blank
              (inl (omega (arith, v.positive)));
        holds = λ j h. elim (Bool-cases (j == i)) [
          | inl e ↦
              let same : j ≡ i = ground arith in
              rw (e, same) (Holds-of_copy (offset p i) t p.buffer fits)
          | inr e ↦
              let ne : j ≢ i = ground arith in
              rw e (
                Holds-copy_bytes (offset p i) (t ++ (0 ∷ [])) p.buffer le (offset p j) (m j)
                  (v.others j ne h) (apart-Vacant j ne h))
        ];
      }

  -- With the text copied to its place, the pool holds all texts.
  pub fill-Texts :
      (old : List ℕ)
      → ((j : ℕ) → NoZero (m j))
      → NoZero t
      → Texts
          (record p { buffer = copy_bytes (offset p i) (t ++ (0 ∷ [])) p.buffer; old_buffer = old })
          (put m i t)
  fill-Texts old clean clean_t =
      let b = fill-Blocks old in
      record {
        layout = b.layout;
        clean = λ j. elim (Bool-cases (j == i)) [ inl e ↦ rw e clean_t | inr e ↦ rw e (clean j) ];
        blank = b.blank;
        holds = b.holds;
      }
