-- ===== src/Containers/StringPool/Layout.antt =====
-- Where the strings of StringPoolS.cpp stand in the buffer.
use linux_multiarch_asm.Base.{
  ℕ, zero, suc, ◌+◌, ◌≤◌, ◌<◌, ◌≡◌, ◌≢◌, ◌⊎◌, inl, inr, refl, sym, List, [], ◌∷◌, arith, length,
  get_or,
}
use linux_multiarch_asm.Containers.Memory.Text.{NoZero, Holds}
use linux_multiarch_asm.Containers.StringPool.{StringPool}
use linux_multiarch_asm.Containers.StringPool.Compact.{live, Packed}

-- A text stands at `o`, between `from` and `end`, and not behind `high`; if it is at `high`, it is the
-- last.
pub record At (b t : List ℕ) (from end high o : ℕ) : Type 0 where
  pub above : from ≤ o
  pub held : Holds b o t
  pub below : o + (length t + 1) ≤ end
  pub le_high : o ≤ high
  pub at_high : o ≡ high → end ≡ o + (length t + 1)

module _ (b : List ℕ) (m : ℕ → List ℕ) (end high : ℕ) where
  pub Packed-le :
      (k : ℕ) (os : List ℕ) (from high0 : ℕ) → Packed b m k os from high0 end high → from ≤ end
  Packed-le k [] from high0 p = omega arith
  Packed-le k (o ∷ os) from high0 (inl (z, e, p)) = Packed-le (suc k) os from high0 p
  Packed-le k (o ∷ os) from high0 (inr (e, nz, h, p)) =
      omega (arith, Packed-le (suc k) os (from + (length (m k) + 1)) from p)

  Packed-high :
      (k : ℕ) (os : List ℕ) (from high0 : ℕ)
      → Packed b m k os from high0 end high
      → high0 ≤ from
      → high0 ≤ high
  Packed-high k [] from high0 p le = omega arith
  Packed-high k (o ∷ os) from high0 (inl (z, e, p)) le = Packed-high (suc k) os from high0 p le
  Packed-high k (o ∷ os) from high0 (inr (e, nz, h, p)) le =
      omega (arith, Packed-high (suc k) os (from + (length (m k) + 1)) from p (omega arith))

  Packed-top :
      (k : ℕ) (os : List ℕ) (from high0 : ℕ)
      → Packed b m k os from high0 end high
      → high0 < from
      → high0 ≡ high
      → end ≡ from
  Packed-top k [] from high0 p lt e = sym p.0
  Packed-top k (o ∷ os) from high0 (inl (z, n, p)) lt e = Packed-top (suc k) os from high0 p lt e
  Packed-top k (o ∷ os) from high0 (inr (e, nz, h, p)) lt same =
      absurd
        (omega (arith, Packed-high (suc k) os (from + (length (m k) + 1)) from p (omega arith)))

  pub packed-At :
      (k : ℕ) (os : List ℕ) (from high0 : ℕ)
      → Packed b m k os from high0 end high
      → high0 ≤ from
      → (j i : ℕ) → i ≡ k + j
      → 0 < get_or os j 0
      → At b (m i) from end high (get_or os j 0)
  packed-At k [] from high0 p le j i e positive = absurd (omega arith)
  packed-At k (o ∷ os) from high0 (inl (z, n, p)) le zero i e positive = absurd (omega arith)
  packed-At k (o ∷ os) from high0 (inl (z, n, p)) le (suc j) i e positive =
      packed-At (suc k) os from high0 p le j i (omega arith) positive
  packed-At k (o ∷ os) from high0 (inr (at, nz, h, p)) le zero i e positive =
      let same : i ≡ k = omega arith in
      rw (same, at)
        (record {
          above = omega arith;
          held = h;
          below = Packed-le (suc k) os (from + (length (m k) + 1)) from p;
          le_high = Packed-high (suc k) os (from + (length (m k) + 1)) from p (omega arith);
          at_high =
              λ last. Packed-top (suc k) os (from + (length (m k) + 1)) from p (omega arith) last;
        })
  packed-At k (o ∷ os) from high0 (inr (at, nz, h, p)) le (suc j) i e positive =
      let a =
        packed-At (suc k) os (from + (length (m k) + 1)) from p (omega arith) j i (omega arith)
          positive in
      record {
        above = omega (arith, a.above);
        held = a.held;
        below = a.below;
        le_high = a.le_high;
        at_high = a.at_high;
      }

  pub Packed-nil :
      (k : ℕ) (os : List ℕ) (from high0 : ℕ)
      → Packed b m k os from high0 end high
      → 0 < from
      → (j i : ℕ) → i ≡ k + j
      → j < length os
      → get_or os j 0 ≡ 0
      → m i ≡ []
  Packed-nil k [] from high0 p start j i e inside z = absurd (omega arith)
  Packed-nil k (o ∷ os) from high0 (inl (z, n, p)) start zero i e inside none_at =
      let same : i ≡ k = omega arith in rw same n
  Packed-nil k (o ∷ os) from high0 (inr (at, nz, h, p)) start zero i e inside none_at =
      absurd (omega arith)
  Packed-nil k (o ∷ os) from high0 (inl (z, n, p)) start (suc j) i e inside none_at =
      Packed-nil (suc k) os from high0 p start j i (omega arith) (omega arith) none_at
  Packed-nil k (o ∷ os) from high0 (inr (at, nz, h, p)) start (suc j) i e inside none_at =
      Packed-nil (suc k) os (from + (length (m k) + 1)) from p (omega arith) j i (omega arith)
        (omega arith) none_at

  pub Packed-apart :
      (k : ℕ) (os : List ℕ) (from high0 : ℕ)
      → Packed b m k os from high0 end high
      → high0 ≤ from
      → (j j' i : ℕ) → i ≡ k + j
      → j < j'
      → 0 < get_or os j 0
      → 0 < get_or os j' 0
      → get_or os j 0 + (length (m i) + 1) ≤ get_or os j' 0
  Packed-apart k [] from high0 p le j j' i e lt h h' = absurd (omega arith)
  Packed-apart k (o ∷ os) from high0 p le j zero i e lt h h' = absurd (omega arith)
  Packed-apart k (o ∷ os) from high0 (inl (z, n, p)) le zero (suc j') i e lt h h' =
      absurd (omega arith)
  Packed-apart k (o ∷ os) from high0 (inr (at, nz, held, p)) le zero (suc j') i e lt h h' =
      let a =
        packed-At (suc k) os (from + (length (m k) + 1)) from p (omega arith) j' (suc k + j') refl
          h' in
      let same : i ≡ k = omega arith in rw same (omega (arith, a.above))
  Packed-apart k (o ∷ os) from high0 (inl (z, n, p)) le (suc j) (suc j') i e lt h h' =
      Packed-apart (suc k) os from high0 p le j j' i (omega arith) (omega arith) h h'
  Packed-apart k (o ∷ os) from high0 (inr (at, nz, held, p)) le (suc j) (suc j') i e lt h h' =
      Packed-apart (suc k) os (from + (length (m k) + 1)) from p (omega arith) j j' i (omega arith)
        (omega arith) h h'

  pub Packed-live :
      (k : ℕ) (os : List ℕ) (from high0 : ℕ)
      → Packed b m k os from high0 end high
      → 0 < from
      → live (λ i. length (m i)) k os + from ≡ end
  unfolding live
  Packed-live k [] from high0 p start = omega (arith, p.0)
  Packed-live k (o ∷ os) from high0 (inl (z, n, p)) start =
      ground (arith, Packed-live (suc k) os from high0 p start)
  Packed-live k (o ∷ os) from high0 (inr (at, nz, h, p)) start =
      ground (arith, Packed-live (suc k) os (from + (length (m k) + 1)) from p (omega arith))

-- The offset of string `i`; 0 for an empty one.
abbrev pub offset : StringPool → ℕ → ℕ
offset p i = get_or p.offsets i 0

-- The strings, of lengths `n`, have places in the used part of the buffer that do not overlap.
pub record Layout (p : StringPool) (n : ℕ → ℕ) : Type 0 where
  pub started : 0 < p.data_size
  pub size : length p.buffer ≡ p.buffer_size
  pub fits : p.data_size ≤ p.buffer_size
  pub indices : length p.offsets ≡ p.offsets_size
  pub count : p.num ≤ p.offsets_size
  pub beyond : (i : ℕ) → p.num ≤ i → offset p i ≡ 0
  pub empty : (i : ℕ) → offset p i ≡ 0 → n i ≡ 0
  pub ends : (i : ℕ) → 0 < offset p i → offset p i + (n i + 1) ≤ p.data_size
  pub le_top : (i : ℕ) → 0 < offset p i → offset p i ≤ p.top
  pub last : (i : ℕ) → 0 < offset p i → offset p i ≡ p.top → p.data_size ≡ p.top + (n i + 1)
  pub apart :
      (i j : ℕ)
      → i ≢ j
      → 0 < offset p i
      → 0 < offset p j
      → (offset p i + (n i + 1) ≤ offset p j) ⊎ (offset p j + (n j + 1) ≤ offset p i)
  pub space : live n 0 p.offsets + 1 ≤ p.data_size

-- The buffer holds the texts.
pub record Texts (p : StringPool) (m : ℕ → List ℕ) : Type 0 where
  pub layout : Layout p (λ i. length (m i))
  pub clean : (i : ℕ) → NoZero (m i)
  pub blank : Holds p.buffer 0 []
  pub holds : (i : ℕ) → 0 < offset p i → Holds p.buffer (offset p i) (m i)

-- The buffer holds blocks of characters, each with a zero behind it.
pub record Blocks (p : StringPool) (m : ℕ → List ℕ) : Type 0 where
  pub layout : Layout p (λ i. length (m i))
  pub blank : Holds p.buffer 0 []
  pub holds : (i : ℕ) → 0 < offset p i → Holds p.buffer (offset p i) (m i)

pub Texts-Blocks : (p : StringPool) (m : ℕ → List ℕ) → Texts p m → Blocks p m
Texts-Blocks p m x = record { layout = x.layout; blank = x.blank; holds = x.holds }

-- The pool stands for the texts `m`, by their indices, between two calls.
pub record Represents (p : StringPool) (m : ℕ → List ℕ) : Type 0 where
  pub texts : Texts p m
  pub no_old : p.old_buffer ≡ []
