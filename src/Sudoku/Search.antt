-- ===== src/Sudoku/Search.antt =====
-- What the searching loops of the solver find.
use linux_multiarch_asm.Base.{
  ℕ, zero, suc, ◌+◌, ◌-◌, ◌%◌, ◌≤◌, ◌<◌, ◌≡◌, ◌≢◌, ◌⊎◌, inl, inr, refl, Bool, true, false, none,
  some, arith, ◌==◌, ==_iff, Bool-cases, Option-cases,
}
use linux_multiarch_asm.Sudoku.{
  Grid, cell, any_from, find_from, used_in_row, used_in_col, used_in_box, is_safe, location_from,
  get_unassigned_location,
}
use linux_multiarch_asm.Sudoku.Rules.{SameUnit}

any_from-true :
    (left first : ℕ) (test : ℕ → Bool)
    → any_from left first test ≡ true
    → (i : ℕ) × (first ≤ i) × (i < first + left) × (test i ≡ true)
unfolding any_from
any_from-true zero first test h = cc
any_from-true (suc left) first test h = elim (Bool-cases (test first)) [
  | inl e ↦ (first, omega arith, omega arith, e)
  | inr e ↦
      let (i, p, q, t) = any_from-true left (first + 1) test (ground arith) in
      (i, omega arith, omega arith, t)
]

any_from-false :
    (left first : ℕ) (test : ℕ → Bool) (i : ℕ)
    → any_from left first test ≡ false
    → first ≤ i
    → i < first + left
    → test i ≡ false
unfolding any_from
any_from-false zero first test i h p q = absurd (omega arith)
any_from-false (suc left) first test i h p q =
    ground (arith, any_from-false left (first + 1) test i)

find_from-some :
    (left first : ℕ) (test : ℕ → Bool) (i : ℕ)
    → find_from left first test ≡ some i
    → (first ≤ i) × (i < first + left) × (test i ≡ true)
unfolding find_from
find_from-some zero first test i h = cc
find_from-some (suc left) first test i h = ground (arith, find_from-some left (first + 1) test i)

find_from-none :
    (left first : ℕ) (test : ℕ → Bool) (i : ℕ)
    → find_from left first test ≡ none
    → first ≤ i
    → i < first + left
    → test i ≡ false
unfolding find_from
find_from-none zero first test i h p q = absurd (omega arith)
find_from-none (suc left) first test i h p q =
    ground (arith, find_from-none left (first + 1) test i)

used_in_row-false :
    (g : Grid) (row num c : ℕ) → used_in_row g row num ≡ false → c < 9 → cell g row c ≢ num
unfolding used_in_row
used_in_row-false g row num c h hc e =
    ground (arith, any_from-false 9 0 (λ col. cell g row col == num) c h)

used_in_col-false :
    (g : Grid) (col num r : ℕ) → used_in_col g col num ≡ false → r < 9 → cell g r col ≢ num
unfolding used_in_col
used_in_col-false g col num r h hr e =
    ground (arith, any_from-false 9 0 (λ row. cell g row col == num) r h)

used_in_box-false :
    (g : Grid) (br bc num i j : ℕ)
    → used_in_box g br bc num ≡ false
    → i < 3
    → j < 3
    → cell g (i + br) (j + bc) ≢ num
unfolding used_in_box
used_in_box-false g br bc num i j h hi hj e = ground (
  arith,
  any_from-false 3 0 (λ col. cell g (i + br) (col + bc) == num) j
      (any_from-false 3 0 (λ row. any_from 3 0 (λ col. cell g (row + br) (col + bc) == num)) i h
        (omega arith) (omega arith)),
)

used_in_row-true :
    (g : Grid) (row num : ℕ)
    → used_in_row g row num ≡ true
    → (c : ℕ) × (c < 9) × (cell g row c ≡ num)
unfolding used_in_row
used_in_row-true g row num h =
    let (c, p, q, t) = any_from-true 9 0 (λ col. cell g row col == num) h in
    (c, omega arith, (==_iff _ num).0 t)

used_in_col-true :
    (g : Grid) (col num : ℕ)
    → used_in_col g col num ≡ true
    → (r : ℕ) × (r < 9) × (cell g r col ≡ num)
unfolding used_in_col
used_in_col-true g col num h =
    let (r, p, q, t) = any_from-true 9 0 (λ row. cell g row col == num) h in
    (r, omega arith, (==_iff _ num).0 t)

used_in_box-true :
    (g : Grid) (br bc num : ℕ)
    → used_in_box g br bc num ≡ true
    → (i : ℕ) × (j : ℕ) × (i < 3) × (j < 3) × (cell g (i + br) (j + bc) ≡ num)
unfolding used_in_box
used_in_box-true g br bc num h =
    let (i, p, q, t) =
      any_from-true 3 0 (λ row. any_from 3 0 (λ col. cell g (row + br) (col + bc) == num)) h in
    let (j, p', q', t') = any_from-true 3 0 (λ col. cell g (i + br) (col + bc) == num) t in
    (i, j, omega arith, omega arith, (==_iff _ num).0 t')

-- Where the digit may be placed, no cell of the place's units has it.
pub is_safe-true :
    (g : Grid) (row col num r c : ℕ)
    → is_safe g row col num ≡ true
    → r < 9
    → c < 9
    → SameUnit row col r c
    → cell g r c ≢ num
unfolding is_safe
is_safe-true g row col num r c h hr hc (inl e) =
    rw (← e) (used_in_row-false g row num c (ground arith) hc)
is_safe-true g row col num r c h hr hc (inr (inl e)) =
    rw (← e) (used_in_col-false g col num r (ground arith) hr)
is_safe-true g row col num r c h hr hc (inr (inr (p, q))) =
    let in_box =
      used_in_box-false g (row - row % 3) (col - col % 3) num (r % 3) (c % 3) (ground arith)
        (omega arith) (omega arith) in
    let place_r : r % 3 + (row - row % 3) ≡ r = omega arith in
    let place_c : c % 3 + (col - col % 3) ≡ c = omega arith in rw (place_r, place_c) at in_box

-- Where it may not, some cell of the units has it.
pub is_safe-false :
    (g : Grid) (row col num : ℕ)
    → row < 9
    → col < 9
    → is_safe g row col num ≡ false
    → (r : ℕ) × (c : ℕ) × (r < 9) × (c < 9) × SameUnit row col r c × (cell g r c ≡ num)
unfolding is_safe
is_safe-false g row col num hr hc h = elim (Bool-cases (used_in_row g row num)) [
  | inl t ↦ let (c, p, e) = used_in_row-true g row num t in (row, c, hr, p, inl refl, e)
  | inr t ↦ elim (Bool-cases (used_in_col g col num)) [
    | inl t' ↦ let (r, p, e) = used_in_col-true g col num t' in (r, col, p, hc, inr (inl refl), e)
    | inr t' ↦
        let (i, j, p, q, e) =
          used_in_box-true g (row - row % 3) (col - col % 3) num (ground arith) in
        (
          i + (row - row % 3),
          j + (col - col % 3),
          omega arith,
          omega arith,
          inr (inr (omega arith, omega arith)),
          e,
        )
  ]
]

location_from_lem :
    (left row : ℕ) (g : Grid)
    → row + left ≡ 9
    → ((location_from left row g ≡ (9, 9)) × ((r c : ℕ) → row ≤ r → r < 9 → c < 9 → cell g r c ≢ 0))
      ⊎ ((r : ℕ) × (c : ℕ) × (location_from left row g ≡ (r, c))
          × (r < 9)
          × (c < 9)
          × (cell g r c ≡ 0))
unfolding location_from
location_from_lem zero row g e = inl (refl, λ r c p q. absurd (omega arith))
location_from_lem (suc left) row g e =
    elim (Option-cases (find_from 9 0 (λ col. cell g row col == 0))) [
      | inr (col, f) ↦
          let (p, q, t) = find_from-some 9 0 (λ col. cell g row col == 0) col f in
          inr (row, col, rw (f, location_from), omega arith, omega arith, (==_iff _ 0).0 t)
      | inl f ↦
          rw (f, location_from)
            (elim (location_from_lem left (row + 1) g (omega arith)) [
              | inl (p, n) ↦ inl (
                p,
                λ r c a hr hc z.
                    ground (arith, n r c, find_from-none 9 0 (λ col. cell g row col == 0) c f),
              )
              | inr found ↦ inr found
            ])
    ]

-- The location is that of a blank cell, or there is none.
pub get_unassigned_location_lem :
    (g : Grid)
    → ((get_unassigned_location g ≡ (9, 9)) × ((r c : ℕ) → r < 9 → c < 9 → cell g r c ≢ 0))
      ⊎ ((r : ℕ) × (c : ℕ) × (get_unassigned_location g ≡ (r, c))
          × (r < 9)
          × (c < 9)
          × (cell g r c ≡ 0))
unfolding get_unassigned_location
get_unassigned_location_lem g = elim (location_from_lem 9 0 g refl) [
  | inl (e, n) ↦ inl (e, λ r c p q. n r c (omega arith) p q)
  | inr found ↦ inr found
]
