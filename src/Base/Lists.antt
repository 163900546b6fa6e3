-- ===== src/Base/Lists.antt =====
-- C arrays as lists measured and indexed by native numbers, under the library's names.
use Prim.Native.Nat.{ℕ, zero, suc, ◌+◌, ◌-◌, ◌<◌, ◌≤◌, min}
use mathlib.Core.Path.{◌≡◌, refl, ap, ap₂}
use mathlib.Core.Logic.{◌≢◌}
use mathlib.Core.List.{List, [], ◌∷◌, ◌++◌}
use mathlib.Core.Option.{Option, none, some}
use native.Mathlib.Omega.{arith}

module _ {ℓ} {A : Type ℓ} where
  abbrev pub length : List A → ℕ
  length [] = 0
  length (x ∷ xs) = suc (length xs)

  abbrev pub get_elem? : List A → ℕ → Option A
  get_elem? [] i = none
  get_elem? (x ∷ xs) zero = some x
  get_elem? (x ∷ xs) (suc i) = get_elem? xs i

  abbrev pub get_or : List A → ℕ → A → A
  get_or [] i d = d
  get_or (x ∷ xs) zero d = x
  get_or (x ∷ xs) (suc i) d = get_or xs i d

  -- A write out of bounds changes nothing.
  abbrev pub set : List A → ℕ → A → List A
  set [] i v = []
  set (x ∷ xs) zero v = v ∷ xs
  set (x ∷ xs) (suc i) v = x ∷ set xs i v

  abbrev pub take : ℕ → List A → List A
  take zero xs = []
  take (suc n) [] = []
  take (suc n) (x ∷ xs) = x ∷ take n xs

  abbrev pub drop : ℕ → List A → List A
  drop zero xs = xs
  drop (suc n) [] = []
  drop (suc n) (x ∷ xs) = drop n xs

  abbrev pub replicate : ℕ → A → List A
  replicate zero a = []
  replicate (suc n) a = a ∷ replicate n a

module _ {ℓ} {A : Type ℓ} where
  pub length-append : (xs ys : List A) → length (xs ++ ys) ≡ length xs + length ys
  length-append [] ys = omega arith
  length-append (x ∷ xs) ys = omega (arith, length-append xs ys)

  pub length-set : (xs : List A) (i : ℕ) (v : A) → length (set xs i v) ≡ length xs
  length-set [] i v = refl
  length-set (x ∷ xs) zero v = refl
  length-set (x ∷ xs) (suc i) v = ap suc (length-set xs i v)

  pub length-take : (n : ℕ) (xs : List A) → length (take n xs) ≡ min n (length xs)
  length-take zero xs = omega arith
  length-take (suc n) [] = omega arith
  length-take (suc n) (x ∷ xs) = omega (arith, length-take n xs)

  pub length-drop : (n : ℕ) (xs : List A) → length (drop n xs) ≡ length xs - n
  length-drop zero xs = omega arith
  length-drop (suc n) [] = omega arith
  length-drop (suc n) (x ∷ xs) = omega (arith, length-drop n xs)

  pub length-replicate : (n : ℕ) (a : A) → length (replicate n a) ≡ n
  length-replicate zero a = refl
  length-replicate (suc n) a = ap suc (length-replicate n a)

  pub take-append-drop : (n : ℕ) (xs : List A) → take n xs ++ drop n xs ≡ xs
  take-append-drop zero xs = refl
  take-append-drop (suc n) [] = refl
  take-append-drop (suc n) (x ∷ xs) = ap (λ t. x ∷ t) (take-append-drop n xs)

  pub get_elem?-set_self :
      (xs : List A) (i : ℕ) (v : A) → i < length xs → get_elem? (set xs i v) i ≡ some v
  get_elem?-set_self [] i v h = absurd (omega arith)
  get_elem?-set_self (x ∷ xs) zero v h = refl
  get_elem?-set_self (x ∷ xs) (suc i) v h = get_elem?-set_self xs i v (omega arith)

  pub get_elem?-set_ne :
      (xs : List A) (i j : ℕ) (v : A) → i ≢ j → get_elem? (set xs i v) j ≡ get_elem? xs j
  get_elem?-set_ne [] i j v ne = refl
  get_elem?-set_ne (x ∷ xs) zero zero v ne = absurd (ne refl)
  get_elem?-set_ne (x ∷ xs) zero (suc j) v ne = refl
  get_elem?-set_ne (x ∷ xs) (suc i) zero v ne = refl
  get_elem?-set_ne (x ∷ xs) (suc i) (suc j) v ne = get_elem?-set_ne xs i j v (λ e. ne (ap suc e))

  pub get_or-set_self :
      (xs : List A) (i : ℕ) (v d : A) → i < length xs → get_or (set xs i v) i d ≡ v
  get_or-set_self [] i v d h = absurd (omega arith)
  get_or-set_self (x ∷ xs) zero v d h = refl
  get_or-set_self (x ∷ xs) (suc i) v d h = get_or-set_self xs i v d (omega arith)

  pub get_or-set_ne :
      (xs : List A) (i j : ℕ) (v d : A) → i ≢ j → get_or (set xs i v) j d ≡ get_or xs j d
  get_or-set_ne [] i j v d ne = refl
  get_or-set_ne (x ∷ xs) zero zero v d ne = absurd (ne refl)
  get_or-set_ne (x ∷ xs) zero (suc j) v d ne = refl
  get_or-set_ne (x ∷ xs) (suc i) zero v d ne = refl
  get_or-set_ne (x ∷ xs) (suc i) (suc j) v d ne = get_or-set_ne xs i j v d (λ e. ne (ap suc e))

  pub get_elem?-append_left :
      (q rest : List A) (i : ℕ) → i < length q → get_elem? (q ++ rest) i ≡ get_elem? q i
  get_elem?-append_left [] rest i h = absurd (omega arith)
  get_elem?-append_left (x ∷ q) rest zero h = refl
  get_elem?-append_left (x ∷ q) rest (suc i) h = get_elem?-append_left q rest i (omega arith)

  pub get_elem?-defined : (q : List A) (i : ℕ) → i < length q → (y : A) × (get_elem? q i ≡ some y)
  get_elem?-defined [] i h = absurd (omega arith)
  get_elem?-defined (x ∷ q) zero h = (x, refl)
  get_elem?-defined (x ∷ q) (suc i) h = get_elem?-defined q i (omega arith)

  pub get_elem?-none : (q : List A) (i : ℕ) → length q ≤ i → get_elem? q i ≡ none
  get_elem?-none [] i h = refl
  get_elem?-none (x ∷ q) zero h = absurd (omega arith)
  get_elem?-none (x ∷ q) (suc i) h = get_elem?-none q i (omega arith)

  pub take-length : (xs : List A) → take (length xs) xs ≡ xs
  take-length [] = refl
  take-length (x ∷ xs) = ap (λ t. x ∷ t) (take-length xs)

  pub take-append_length : (q rest : List A) → take (length q) (q ++ rest) ≡ q
  take-append_length [] rest = refl
  take-append_length (x ∷ q) rest = ap (λ t. x ∷ t) (take-append_length q rest)

  pub drop-append_length : (q rest : List A) → drop (length q) (q ++ rest) ≡ rest
  drop-append_length [] rest = refl
  drop-append_length (x ∷ q) rest = drop-append_length q rest

  -- Writing into the first cell behind a prefix.
  pub set-append_length :
      (q rest : List A) (c x : A) → set (q ++ (c ∷ rest)) (length q) x ≡ q ++ (x ∷ rest)
  set-append_length [] rest c x = refl
  set-append_length (y ∷ q) rest c x = ap (λ t. y ∷ t) (set-append_length q rest c x)

  pub get_elem?-append_length :
      (q rest : List A) (x : A) → get_elem? (q ++ (x ∷ rest)) (length q) ≡ some x
  get_elem?-append_length [] rest x = refl
  get_elem?-append_length (y ∷ q) rest x = get_elem?-append_length q rest x

  pub le_of_get_elem?-none : (q : List A) (i : ℕ) → get_elem? q i ≡ none → length q ≤ i
  le_of_get_elem?-none [] i e = omega arith
  le_of_get_elem?-none (x ∷ q) zero e = cc
  le_of_get_elem?-none (x ∷ q) (suc i) e = omega (arith, le_of_get_elem?-none q i e)

  pub get_elem?-eq-get_or :
      (xs : List A) (i : ℕ) (d : A) → i < length xs → get_elem? xs i ≡ some (get_or xs i d)
  get_elem?-eq-get_or [] i d h = absurd (omega arith)
  get_elem?-eq-get_or (x ∷ xs) zero d h = refl
  get_elem?-eq-get_or (x ∷ xs) (suc i) d h = get_elem?-eq-get_or xs i d (omega arith)

  -- Lists with the same elements at every index are equal.
  pub get_elem?_ext : (xs ys : List A) → ((i : ℕ) → get_elem? xs i ≡ get_elem? ys i) → xs ≡ ys
  get_elem?_ext [] [] h = refl
  get_elem?_ext [] (y ∷ ys) h = cc (h 0)
  get_elem?_ext (x ∷ xs) [] h = cc (h 0)
  get_elem?_ext (x ∷ xs) (y ∷ ys) h =
      ap₂ ◌∷◌ (ground (arith, h 0)) (get_elem?_ext xs ys (λ i. h (suc i)))

  pub get_elem?-append_right :
      (xs ys : List A) (n i : ℕ) → n ≡ length xs + i → get_elem? (xs ++ ys) n ≡ get_elem? ys i
  get_elem?-append_right [] ys n i e =
      let same : n ≡ i = omega arith in ap (λ (j : ℕ). get_elem? ys j) same
  get_elem?-append_right (x ∷ xs) ys zero i e = absurd (omega arith)
  get_elem?-append_right (x ∷ xs) ys (suc n) i e = get_elem?-append_right xs ys n i (omega arith)

  pub get_elem?-take :
      (n : ℕ) (xs : List A) (i : ℕ) → i < n → get_elem? (take n xs) i ≡ get_elem? xs i
  get_elem?-take zero xs i h = absurd (omega arith)
  get_elem?-take (suc n) [] i h = refl
  get_elem?-take (suc n) (x ∷ xs) zero h = refl
  get_elem?-take (suc n) (x ∷ xs) (suc i) h = get_elem?-take n xs i (omega arith)

  pub get_elem?-drop :
      (n : ℕ) (xs : List A) (i k : ℕ) → k ≡ n + i → get_elem? (drop n xs) i ≡ get_elem? xs k
  get_elem?-drop zero xs i k e =
      let same : i ≡ k = omega arith in ap (λ (j : ℕ). get_elem? xs j) same
  get_elem?-drop (suc n) [] i k e = refl
  get_elem?-drop (suc n) (x ∷ xs) i zero e = absurd (omega arith)
  get_elem?-drop (suc n) (x ∷ xs) i (suc k) e = get_elem?-drop n xs i k (omega arith)

  -- A list from an index on.
  pub drop-eq-cons :
      (xs : List A) (i : ℕ) (x : A) → get_elem? xs i ≡ some x → drop i xs ≡ x ∷ drop (suc i) xs
  drop-eq-cons [] i x e = cc e
  drop-eq-cons (y ∷ xs) zero x e = ground arith
  drop-eq-cons (y ∷ xs) (suc i) x e = drop-eq-cons xs i x e
