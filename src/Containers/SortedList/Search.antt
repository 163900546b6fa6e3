-- ===== src/Containers/SortedList/Search.antt =====
-- `SortedList::Search` is a binary search: on a sorted list it finds the first record that is not
-- below the one sought.
use linux_multiarch_asm.Base.{
  get_elem?-defined, get_elem?-none, ℕ, zero, suc, ◌+◌, ◌^◌, ◌≤◌, ◌<◌, ◌≡◌, ◌⊎◌, inl, inr, Bool,
  true, false, some, List, arith, ltb, length, get_elem?, Bool-cases, ◌∙◌,
}
use linux_multiarch_asm.Containers.Outcome.{ret}
use linux_multiarch_asm.Containers.SortedList.{SortedList, middle, search_loop, search_list}
use linux_multiarch_asm.Containers.SortedList.Contents.{Represents, record-at, size-free}

-- What the template asks of the records' `operator <`.
pub record StrictWeakOrder {ℓ} {A : Type ℓ} (less : A → A → Bool) : Type ℓ where
  pub irreflexive : (a : A) → less a a ≡ false
  pub transitive : (a b c : A) → less a b ≡ true → less b c ≡ true → less a c ≡ true
  pub comparable : (a b c : A) → less a b ≡ true → (less a c ≡ true) ⊎ (less c b ≡ true)

module _ {ℓ} {A : Type ℓ} (less : A → A → Bool) where
  -- No later record is below an earlier one.
  abbrev pub IsSorted : List A → Type ℓ
  IsSorted q =
      (i j : ℕ) (y z : A)
      → i < j
      → get_elem? q i ≡ some y
      → get_elem? q j ≡ some z
      → less z y ≡ false

  -- `a` is the number of records below `x`, and these are the first ones.
  pub record Splits (q : List A) (x : A) (a : ℕ) : Type ℓ where
    pub within : a ≤ length q
    pub below : (i : ℕ) (y : A) → i < a → get_elem? q i ≡ some y → less y x ≡ true
    pub above : (i : ℕ) (y : A) → a ≤ i → get_elem? q i ≡ some y → less y x ≡ false

  search_loop-stop :
      (f : ℕ) (l : SortedList A) (x : A) (a b : ℕ)
      → b ≤ a
      → search_loop less (suc f) l x a b ≡ ret a
  unfolding search_loop
  search_loop-stop f l x a b h = ground arith

  search_loop-right :
      (f : ℕ) (l : SortedList A) (x y : A) (a b : ℕ)
      → a < b
      → get_elem? l.list (middle a b) ≡ some y
      → less y x ≡ true
      → search_loop less (suc f) l x a b ≡ search_loop less f l x (middle a b + 1) b
  unfolding search_loop
  search_loop-right f l x y a b h e c = elim (Bool-cases (ltb a b)) [
    | inl t ↦ rw (t, e, c)
    | inr t ↦ absurd (ground arith)
  ]

  search_loop-left :
      (f : ℕ) (l : SortedList A) (x y : A) (a b : ℕ)
      → a < b
      → get_elem? l.list (middle a b) ≡ some y
      → less y x ≡ false
      → search_loop less (suc f) l x a b ≡ search_loop less f l x a (middle a b)
  unfolding search_loop
  search_loop-left f l x y a b h e c = elim (Bool-cases (ltb a b)) [
    | inl t ↦ rw (t, e, c)
    | inr t ↦ absurd (ground arith)
  ]

  module _ (order : StrictWeakOrder less) {max_size : ℕ} {l : SortedList A} {q : List A} (x : A)
      (small : max_size ≤ 2 ^ 31) (r : Represents max_size l q) (sorted : IsSorted q) where
    -- A sorted list keeps the test monotone.
    below_mono :
        (i j : ℕ) (y z : A)
        → i ≤ j
        → get_elem? q i ≡ some y
        → get_elem? q j ≡ some z
        → less z x ≡ true
        → less y x ≡ true
    below_mono i j y z h p p' c = ground (arith, sorted i j y z, order.comparable z x y)

    above_mono :
        (i j : ℕ) (y z : A)
        → i ≤ j
        → get_elem? q i ≡ some y
        → get_elem? q j ≡ some z
        → less y x ≡ false
        → less z x ≡ false
    above_mono i j y z h p p' c = elim (Bool-cases (less z x)) [
      | inl t ↦ cc (below_mono i j y z h p p' t)
      | inr t ↦ t
    ]

    middle_in : (a b : ℕ) → b ≤ length q → a < b → (a ≤ middle a b) × (middle a b < b)
    middle_in a b bq h = omega (arith, size-free max_size l q r)

    loop-Splits :
        (f a b : ℕ)
        → a ≤ b
        → b ≤ length q
        → b < f + a
        → ((i : ℕ) (y : A) → i < a → get_elem? q i ≡ some y → less y x ≡ true)
        → ((i : ℕ) (y : A) → b ≤ i → get_elem? q i ≡ some y → less y x ≡ false)
        → (s : ℕ) × (search_loop less f l x a b ≡ ret s) × Splits q x s
    loop-Splits zero a b ab bq fuel lo hi = absurd (omega arith)
    loop-Splits (suc f) a b ab bq fuel lo hi = elim (Bool-cases (ltb a b)) [
      | inr t ↦ (
        a,
        search_loop-stop f l x a b (ground arith),
        record { within = omega arith; below = lo; above = λ i y h. hi i y (ground arith) },
      )
      | inl t ↦
          let mid = middle_in a b bq (ground arith) in
          let (y, e) = get_elem?-defined q (middle a b) (omega arith) in
          let e' = record-at max_size l q r (middle a b) (omega arith) ∙ e in
          elim (Bool-cases (less y x)) [
            | inl c ↦ rw (search_loop-right f l x y a b (ground arith) e' c) (
                loop-Splits f (middle a b + 1) b (omega arith) bq (omega arith)
                  (λ i z h p. below_mono i (middle a b) z y (omega arith) p e c) hi)
            | inr c ↦ rw (search_loop-left f l x y a b (ground arith) e' c) (
                loop-Splits f a (middle a b) (omega arith) (omega arith) (omega arith) lo
                  (λ i z h p. above_mono (middle a b) i y z (omega arith) e p c))
          ]
    ]

    -- Where `less` is a strict weak order, `Search` on a sorted list of at most 2 ^ 31 records
    -- ends, reads no record out of range, and returns the position that splits the records below
    -- `x` from the others.
    pub search_list-Splits : (s : ℕ) × (search_list less l x ≡ ret s) × Splits q x s
    unfolding search_list
    search_list-Splits =
        loop-Splits (l.num + 1) 0 l.num (omega arith) (omega (arith, r.count)) (omega arith)
          (λ i y h. absurd (omega arith)) (λ i y h p. absurd (out i y h p))
      where
        out : (i : ℕ) (y : A) → l.num ≤ i → get_elem? q i ≡ some y → ⊥
        out i y h p = cc (get_elem?-none q i (omega (arith, r.count)))
