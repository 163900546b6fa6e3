-- ===== src/Containers/StringPool/Put.antt =====
-- A new place for one string of StringPoolS.cpp among the others.
use linux_multiarch_asm.Base.{
  ℕ, zero, suc, ◌+◌, ◌≤◌, ◌<◌, ◌≡◌, ◌≢◌, ◌⊎◌, refl, true, false, List, [], ◌∷◌, arith, ◌==◌,
  if◌then◌else◌, length, get_or,
}
use linux_multiarch_asm.Containers.StringPool.{StringPool}
use linux_multiarch_asm.Containers.StringPool.Compact.{live}
use linux_multiarch_asm.Containers.StringPool.Layout.{offset}

-- The texts with another one at index `i`.
abbrev pub put : (ℕ → List ℕ) → ℕ → List ℕ → ℕ → List ℕ
put m i t j = if j == i then t else m j

pub put_self : (m : ℕ → List ℕ) (i : ℕ) (t : List ℕ) → put m i t i ≡ t
put_self m i t = let e : (i == i) ≡ true = ground arith in rw e refl

pub put_ne : (m : ℕ → List ℕ) (i : ℕ) (t : List ℕ) (j : ℕ) → j ≢ i → put m i t j ≡ m j
put_ne m i t j ne = let e : (j == i) ≡ false = ground arith in rw e refl

-- The characters of one string of this length.
abbrev pub cost : ℕ → ℕ → ℕ
cost o n = if o == 0 then 0 else n + 1

live-same :
    (n n' : ℕ → ℕ) (k : ℕ) (os os' : List ℕ)
    → length os' ≡ length os
    → ((a : ℕ) → get_or os' a 0 ≡ get_or os a 0)
    → ((a : ℕ) → k ≤ a → n' a ≡ n a)
    → live n' k os' ≡ live n k os
unfolding live
live-same n n' k [] [] e h h' = refl
live-same n n' k [] (o' ∷ os') e h h' = absurd (omega arith)
live-same n n' k (o ∷ os) [] e h h' = absurd (omega arith)
live-same n n' k (o ∷ os) (o' ∷ os') e h h' =
    rw
      (
        h 0,
        h' k (omega arith),
        live-same n n' (suc k) os os' (omega arith) (λ a. h (suc a)) (λ a le. h' a (omega arith)),
      )
      refl

pub live-change :
    (n n' : ℕ → ℕ) (k : ℕ) (os os' : List ℕ) (j i : ℕ)
    → i ≡ k + j
    → j < length os
    → length os' ≡ length os
    → ((a : ℕ) → a ≢ j → get_or os' a 0 ≡ get_or os a 0)
    → ((a : ℕ) → a ≢ i → n' a ≡ n a)
    → live n' k os' + cost (get_or os j 0) (n i) ≡ live n k os + cost (get_or os' j 0) (n' i)
unfolding live
live-change n n' k [] os' j i e lt size h h' = absurd (omega arith)
live-change n n' k (o ∷ os) [] j i e lt size h h' = absurd (omega arith)
live-change n n' k (o ∷ os) (o' ∷ os') zero i e lt size h h' =
    let same : i ≡ k = omega arith in
    rw
      (
        same,
        live-same n n' (suc k) os os' (omega arith) (λ a. h (suc a) (omega arith))
            (λ a le. h' a (omega arith)),
      )
      (omega arith)
live-change n n' k (o ∷ os) (o' ∷ os') (suc j) i e lt size h h' =
    rw (h 0 (omega arith), h' k (omega arith))
      (omega (
        arith,
        live-change n n' (suc k) os os' j i (omega arith) (omega arith) (omega arith)
            (λ a ne. h (suc a) (λ e'. ne (omega arith))) h',
      ))

-- `p'` is `p` with a place for the text `t` at index `i`, clear of the other strings.
pub record Spot (p p' : StringPool) (m : ℕ → List ℕ) (i : ℕ) (t : List ℕ) : Type 0 where
  pub buffer : p'.buffer ≡ p.buffer
  pub buffer_size : p'.buffer_size ≡ p.buffer_size
  pub num : p'.num ≡ p.num
  pub indices : p'.offsets_size ≡ p.offsets_size
  pub count : length p'.offsets ≡ length p.offsets
  pub inside : i < p.num
  pub others : (j : ℕ) → j ≢ i → offset p' j ≡ offset p j
  pub positive : 0 < offset p' i
  pub ends : offset p' i + (length t + 1) ≤ p'.data_size
  pub fits : p'.data_size ≤ p.buffer_size
  pub ends_others :
      (j : ℕ) → j ≢ i → 0 < offset p j → offset p j + (length (m j) + 1) ≤ p'.data_size
  pub apart :
      (j : ℕ)
      → j ≢ i
      → 0 < offset p j
      → (offset p j + (length (m j) + 1) ≤ offset p' i)
        ⊎ (offset p' i + (length t + 1) ≤ offset p j)
  pub le_top : offset p' i ≤ p'.top
  pub le_top_others : (j : ℕ) → j ≢ i → 0 < offset p j → offset p j ≤ p'.top
  pub last : offset p' i ≡ p'.top → p'.data_size ≡ p'.top + (length t + 1)
  pub last_others :
      (j : ℕ)
      → j ≢ i
      → 0 < offset p j
      → offset p j ≡ p'.top
      → p'.data_size ≡ p'.top + (length (m j) + 1)
  pub space :
      live (λ j. length (m j)) 0 p.offsets + (length t + 1) + 1
      ≤ p'.data_size + cost (offset p i) (length (m i))
