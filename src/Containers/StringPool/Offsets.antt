-- ===== src/Containers/StringPool/Offsets.antt =====
-- Lists of offsets, for StringPoolS.cpp.
use linux_multiarch_asm.Base.{
  ℕ, zero, suc, ◌+◌, ◌≤◌, ◌<◌, ◌≡◌, ◌⊎◌, refl, sym, ap, ◌∙◌, true, List, [], ◌∷◌, ◌++◌, arith, ◌==◌,
  length, get_or, take, drop,
}
use linux_multiarch_asm.Containers.Memory.{zeroes}
use linux_multiarch_asm.Containers.Memory.Text.{Holds}
use linux_multiarch_asm.Containers.StringPool.Compact.{live, Stored}

pub get_or-append_left :
    (xs ys : List ℕ) (i : ℕ) → i < length xs → get_or (xs ++ ys) i 0 ≡ get_or xs i 0
get_or-append_left [] ys i h = absurd (omega arith)
get_or-append_left (x ∷ xs) ys zero h = refl
get_or-append_left (x ∷ xs) ys (suc i) h = get_or-append_left xs ys i (omega arith)

-- The offsets behind the first `num` are what they were.
pub get_or-append_drop :
    (xs os : List ℕ) (num i : ℕ)
    → length xs ≡ num
    → num ≤ i
    → get_or (xs ++ drop num os) i 0 ≡ get_or os i 0
get_or-append_drop [] os zero i e h = refl
get_or-append_drop [] os (suc num) i e h = absurd (omega arith)
get_or-append_drop (x ∷ xs) os zero i e h = absurd (omega arith)
get_or-append_drop (x ∷ xs) [] (suc num) zero e h = absurd (omega arith)
get_or-append_drop (x ∷ xs) (o ∷ os) (suc num) zero e h = absurd (omega arith)
get_or-append_drop (x ∷ xs) [] (suc num) (suc i) e h = beyond xs i (omega arith)
  where
    beyond : (xs : List ℕ) (i : ℕ) → length xs ≤ i → get_or (xs ++ []) i 0 ≡ 0
    beyond [] i h = refl
    beyond (x ∷ xs) zero h = absurd (omega arith)
    beyond (x ∷ xs) (suc i) h = beyond xs i (omega arith)
get_or-append_drop (x ∷ xs) (o ∷ os) (suc num) (suc i) e h =
    get_or-append_drop xs os num i (omega arith) (omega arith)

pub get_or-take : (os : List ℕ) (num i : ℕ) → i < num → get_or (take num os) i 0 ≡ get_or os i 0
get_or-take os zero i h = absurd (omega arith)
get_or-take [] (suc num) i h = refl
get_or-take (o ∷ os) (suc num) zero h = refl
get_or-take (o ∷ os) (suc num) (suc i) h = get_or-take os num i (omega arith)

pub live-take : (n : ℕ → ℕ) (k : ℕ) (os : List ℕ) (num : ℕ) → live n k (take num os) ≤ live n k os
unfolding live
live-take n k os zero = omega arith
live-take n k [] (suc num) = omega arith
live-take n k (o ∷ os) (suc num) = omega (arith, live-take n (suc k) os num)

pub live-zeroes :
    (n : ℕ → ℕ) (k : ℕ) (os : List ℕ) → ((i : ℕ) → get_or os i 0 ≡ 0) → live n k os ≡ 0
unfolding live
live-zeroes n k [] h = refl
live-zeroes n k (o ∷ os) h =
    let z : (o == 0) ≡ true = ground (arith, h 0) in
    rw z (omega (arith, live-zeroes n (suc k) os (λ i. h (suc i))))

pub live-append_zeroes :
    (n : ℕ → ℕ) (k : ℕ) (xs os : List ℕ)
    → ((i : ℕ) → get_or os i 0 ≡ 0)
    → live n k (xs ++ os) ≡ live n k xs
unfolding live
live-append_zeroes n k [] os h = live-zeroes n k os h
live-append_zeroes n k (x ∷ xs) os h = omega (arith, live-append_zeroes n (suc k) xs os h)

pub get_or-drop : (os : List ℕ) (num i : ℕ) → get_or (drop num os) i 0 ≡ get_or os (num + i) 0
get_or-drop os zero i = let e : i ≡ 0 + i = omega arith in ap (λ (j : ℕ). get_or os j 0) e
get_or-drop [] (suc num) i = refl
get_or-drop (o ∷ os) (suc num) i =
    let e : suc num + i ≡ suc (num + i) = omega arith in
    get_or-drop os num i ∙ ap (λ (j : ℕ). get_or (o ∷ os) j 0) (sym e)

pub Stored-of :
    (b : List ℕ) (m : ℕ → List ℕ) (k : ℕ) (os : List ℕ)
    → ((j i : ℕ)
        → i ≡ k + j
        → j < length os
        → ((get_or os j 0 ≡ 0) × (m i ≡ []))
          ⊎ ((0 < get_or os j 0) × Holds b (get_or os j 0) (m i)))
    → Stored b m k os
Stored-of b m k [] h = tt
Stored-of b m k (o ∷ os) h = (
  h 0 k (omega arith) (omega arith),
  Stored-of b m (suc k) os (λ j i e lt. h (suc j) i (omega arith) (omega arith)),
)

pub nil_of_length : (t : List ℕ) → length t ≡ 0 → t ≡ []
nil_of_length [] e = refl
nil_of_length (x ∷ t) e = absurd (omega arith)

pub take-all : (xs : List ℕ) (n : ℕ) → length xs ≤ n → take n xs ≡ xs
take-all [] zero h = refl
take-all [] (suc n) h = refl
take-all (x ∷ xs) zero h = absurd (omega arith)
take-all (x ∷ xs) (suc n) h = ap (λ (ys : List ℕ). x ∷ ys) (take-all xs n (omega arith))

pub drop-all : (xs : List ℕ) (n : ℕ) → length xs ≤ n → drop n xs ≡ []
drop-all [] zero h = refl
drop-all [] (suc n) h = refl
drop-all (x ∷ xs) zero h = absurd (omega arith)
drop-all (x ∷ xs) (suc n) h = drop-all xs n (omega arith)

pub get_or-zeroes : (n i : ℕ) → get_or (zeroes n) i 0 ≡ 0
get_or-zeroes zero i = refl
get_or-zeroes (suc n) zero = refl
get_or-zeroes (suc n) (suc i) = get_or-zeroes n i

pub get_or-append_zeroes :
    (xs zs : List ℕ) (i : ℕ) → ((j : ℕ) → get_or zs j 0 ≡ 0) → get_or (xs ++ zs) i 0 ≡ get_or xs i 0
get_or-append_zeroes [] zs i h = h i
get_or-append_zeroes (x ∷ xs) zs zero h = refl
get_or-append_zeroes (x ∷ xs) zs (suc i) h = get_or-append_zeroes xs zs i h
