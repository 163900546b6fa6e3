-- ===== src/Containers/StringPool/Last.antt =====
-- The last of the strings that `ReserveBuf` of StringPoolS.cpp packs is at `Top`.
use linux_multiarch_asm.Base.{
  ℕ, zero, suc, ◌+◌, ◌≤◌, ◌<◌, ◌≡◌, inl, inr, ◌∙◌, List, [], ◌∷◌, arith, length, get_or,
}
use linux_multiarch_asm.Containers.StringPool.Compact.{Packed}

module _ (b : List ℕ) (m : ℕ → List ℕ) (end high : ℕ) where
  Packed-none :
      (k : ℕ) (os : List ℕ) (from high0 : ℕ)
      → Packed b m k os from high0 end high
      → 0 < from
      → ((a : ℕ) → get_or os a 0 ≡ 0)
      → high0 ≡ high
  Packed-none k [] from high0 p start none_at = p.1
  Packed-none k (o ∷ os) from high0 (inl (z, n, p)) start none_at =
      Packed-none (suc k) os from high0 p start (λ a. none_at (suc a))
  Packed-none k (o ∷ os) from high0 (inr (at, nz, h, p)) start none_at =
      absurd (omega (arith, none_at 0))

  -- A string with an offset is not empty.
  pub Packed-some :
      (k : ℕ) (os : List ℕ) (from high0 : ℕ)
      → Packed b m k os from high0 end high
      → (j i : ℕ) → i ≡ k + j
      → 0 < get_or os j 0
      → 0 < length (m i)
  Packed-some k [] from high0 p j i e positive = absurd (omega arith)
  Packed-some k (o ∷ os) from high0 (inl (z, n, p)) zero i e positive = absurd (omega arith)
  Packed-some k (o ∷ os) from high0 (inr (at, nz, h, p)) zero i e positive =
      let same : i ≡ k = omega arith in rw same nz
  Packed-some k (o ∷ os) from high0 (inl (z, n, p)) (suc j) i e positive =
      Packed-some (suc k) os from high0 p j i (omega arith) positive
  Packed-some k (o ∷ os) from high0 (inr (at, nz, h, p)) (suc j) i e positive =
      Packed-some (suc k) os (from + (length (m k) + 1)) from p j i (omega arith) positive

  pub Packed-last :
      (k : ℕ) (os : List ℕ) (from high0 : ℕ)
      → Packed b m k os from high0 end high
      → 0 < from
      → (j : ℕ) → 0 < get_or os j 0
      → ((a : ℕ) → j < a → get_or os a 0 ≡ 0)
      → get_or os j 0 ≡ high
  Packed-last k [] from high0 p start j positive none_at = absurd (omega arith)
  Packed-last k (o ∷ os) from high0 (inl (z, n, p)) start zero positive none_at =
      absurd (omega arith)
  Packed-last k (o ∷ os) from high0 (inr (at, nz, h, p)) start zero positive none_at =
      at
      ∙ Packed-none (suc k) os (from + (length (m k) + 1)) from p (omega arith)
          (λ a. none_at (suc a) (omega arith))
  Packed-last k (o ∷ os) from high0 (inl (z, n, p)) start (suc j) positive none_at =
      Packed-last (suc k) os from high0 p start j positive (λ a lt. none_at (suc a) (omega arith))
  Packed-last k (o ∷ os) from high0 (inr (at, nz, h, p)) start (suc j) positive none_at =
      Packed-last (suc k) os (from + (length (m k) + 1)) from p (omega arith) j positive
        (λ a lt. none_at (suc a) (omega arith))

  pub Packed-high_le :
      (k : ℕ) (os : List ℕ) (from high0 : ℕ)
      → Packed b m k os from high0 end high
      → high0 ≤ from
      → high ≤ end
  Packed-high_le k [] from high0 p le = omega (arith, p.0, p.1)
  Packed-high_le k (o ∷ os) from high0 (inl (z, n, p)) le =
      Packed-high_le (suc k) os from high0 p le
  Packed-high_le k (o ∷ os) from high0 (inr (at, nz, h, p)) le =
      Packed-high_le (suc k) os (from + (length (m k) + 1)) from p (omega arith)
