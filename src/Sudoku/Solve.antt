-- ===== src/Sudoku/Solve.antt =====
-- The backtracking search is right: it ends, and it finds a solution exactly when there is one.
use linux_multiarch_asm.Base.{
  ℕ, zero, suc, ◌+◌, ◌*◌, ◌≤◌, ◌<◌, ◌≡◌, ◌≢◌, ◌⊎◌, inl, inr, refl, sym, ap, ◌∙◌, true, false, List,
  [], ◌∷◌, arith, Bool-cases, length, get_or, set, length-set, get_or-set_self, get_or-set_ne,
}
use native.Mathlib.Decide.{ℕ_discrete}
use linux_multiarch_asm.Sudoku.{
  Grid, cell, assign, is_safe, get_unassigned_location, Verdict, solved, unsolved, out_of_fuel,
  try_digits, solve_from, solve_soduko, blanks,
}
use linux_multiarch_asm.Sudoku.Rules.{SameUnit, SamePlace, IsGrid, IsLegal, IsSolution}
use linux_multiarch_asm.Sudoku.Search.{is_safe-true, is_safe-false, get_unassigned_location_lem}

-- What the verdict of a search from `g` must mean.
abbrev pub IsRight : Grid → Verdict → Type 0
IsRight g (solved s) = IsSolution g s
IsRight g (unsolved g') = (g' ≡ g) × ((s : Grid) → ¬ IsSolution g s)
IsRight g out_of_fuel = ⊥

set-undo : (xs : List ℕ) (i v : ℕ) → get_or xs i 0 ≡ 0 → set (set xs i v) i 0 ≡ xs
set-undo [] i v e = refl
set-undo (x ∷ xs) zero v e = ap (λ t. t ∷ xs) (sym e)
set-undo (x ∷ xs) (suc i) v e = ap (λ t. x ∷ t) (set-undo xs i v e)

blanks-set :
    (xs : List ℕ) (i v : ℕ)
    → i < length xs
    → get_or xs i 0 ≡ 0
    → v ≢ 0
    → suc (blanks (set xs i v)) ≡ blanks xs
unfolding blanks
blanks-set [] i v h e n = absurd (omega arith)
blanks-set (x ∷ xs) zero v h e n = ground arith
blanks-set (x ∷ xs) (suc i) v h e n = ground (arith, blanks-set xs i v (omega arith) e n)

pub cell-assign_ne :
    (g : Grid) (row col num r c : ℕ)
    → c < 9
    → col < 9
    → ¬ SamePlace row col r c
    → cell (assign g row col num) r c ≡ cell g r c
cell-assign_ne g row col num r c hc hcol n =
    get_or-set_ne g (row * 9 + col) (r * 9 + c) num 0 (λ e. n (omega arith, omega arith))

cell-assign_self :
    (g : Grid) (row col num : ℕ)
    → length g ≡ 81
    → row < 9
    → col < 9
    → cell (assign g row col num) row col ≡ num
cell-assign_self g row col num len hr hc = get_or-set_self g (row * 9 + col) num 0 (omega arith)

same_place? : (r c r' c' : ℕ) → SamePlace r c r' c' ⊎ (¬ SamePlace r c r' c')
same_place? r c r' c' = elim (ℕ_discrete r r') [
  | no n ↦ inr (λ e. n e.0)
  | yes e ↦ elim (ℕ_discrete c c') [ yes e' ↦ inl (e, e') | no n ↦ inr (λ f. n f.1) ]
]

SameUnit-sym : (r c r' c' : ℕ) → SameUnit r c r' c' → SameUnit r' c' r c
SameUnit-sym r c r' c' (inl e) = inl (sym e)
SameUnit-sym r c r' c' (inr (inl e)) = inr (inl (sym e))
SameUnit-sym r c r' c' (inr (inr (p, q))) = inr (inr (sym p, sym q))

SameUnit-of_place :
    (r c r' c' a b : ℕ) → SamePlace a b r c → SameUnit r c r' c' → SameUnit a b r' c'
SameUnit-of_place r c r' c' a b e u = rw (e.0, e.1) u

module _ (g : Grid) (grid : IsGrid g) (legal : IsLegal g) (row col : ℕ) (hr : row < 9)
    (hc : col < 9) (is_blank : cell g row col ≡ 0) (num : ℕ) (pos : 1 ≤ num) (small : num ≤ 9) where
  cell-assign :
      (r c : ℕ)
      → r < 9
      → c < 9
      → (SamePlace row col r c × (cell (assign g row col num) r c ≡ num))
        ⊎ ((¬ SamePlace row col r c) × (cell (assign g row col num) r c ≡ cell g r c))
  cell-assign r c p q = elim (same_place? row col r c) [
    | inl e ↦ inl (e, rw (← e.0, ← e.1) (cell-assign_self g row col num grid.size hr hc))
    | inr n ↦ inr (n, cell-assign_ne g row col num r c q hc n)
  ]

  assign-IsGrid : IsGrid (assign g row col num)
  assign-IsGrid = record {
    size = length-set g (row * 9 + col) num ∙ grid.size;
    digits = λ r c p q. ground (arith, cell-assign r c p q, grid.digits r c);
  }

  assign-IsLegal : is_safe g row col num ≡ true → IsLegal (assign g row col num)
  assign-IsLegal safe r c r' c' p q p' q' u n nz = elim (cell-assign r c p q) [
    | inl (e, k) ↦ elim (cell-assign r' c' p' q') [
      | inl (e', k') ↦ absurd (n (omega arith, omega arith))
      | inr (n', k') ↦
          let other =
            is_safe-true g row col num r' c' safe p' q' (SameUnit-of_place r c r' c' row col e u) in
          λ same. other (omega arith)
    ]
    | inr (m, k) ↦ elim (cell-assign r' c' p' q') [
      | inl (e', k') ↦
          let v = SameUnit-of_place r' c' r c row col e' (SameUnit-sym r c r' c' u) in
          let other = is_safe-true g row col num r c safe p q v in λ same. other (omega arith)
      | inr (n', k') ↦
          let other = legal r c r' c' p q p' q' u n (λ z. nz (omega arith)) in
          λ same. other (omega arith)
    ]
  ]

  -- A solution of the extended grid is one of the grid.
  IsSolution-of_assign : (s : Grid) → IsSolution (assign g row col num) s → IsSolution g s
  IsSolution-of_assign s sol = record {
    size = sol.size;
    filled = sol.filled;
    extends = λ r c p q nz. ground (arith, cell-assign r c p q, sol.extends r c, is_blank);
    legal = sol.legal;
  }

  -- A solution of the grid that has the digit in the place solves the extended grid.
  IsSolution-assign :
      (s : Grid) → IsSolution g s → cell s row col ≡ num → IsSolution (assign g row col num) s
  IsSolution-assign s sol e = record {
    size = sol.size;
    filled = sol.filled;
    extends = λ r c p q nz. ground (arith, cell-assign r c p q, sol.extends r c);
    legal = sol.legal;
  }

  -- No solution has a digit in the place that the units already have.
  unsafe-refutes :
      is_safe g row col num ≡ false → (s : Grid) → IsSolution g s → cell s row col ≢ num
  unsafe-refutes unsafe s sol e =
      let (r, c, p, q, u, k) = is_safe-false g row col num hr hc unsafe in
      let apart : ¬ SamePlace row col r c = λ f. ground (arith, place f) in
      let kept : cell s r c ≡ num = sol.extends r c p q (λ z. ground arith) ∙ k in
      sol.legal row col r c hr hc p q u apart (λ z. ground arith) (e ∙ sym kept)
    where
      place : {r c : ℕ} → SamePlace row col r c → cell g r c ≡ 0
      place f = rw (← f.0, ← f.1) is_blank

module _ (g : Grid) (grid : IsGrid g) (legal : IsLegal g) (row col : ℕ) (hr : row < 9)
    (hc : col < 9) (is_blank : cell g row col ≡ 0) (recurse : Grid → Verdict)
    (right : (num : ℕ)
      → 1 ≤ num
      → num ≤ 9
      → is_safe g row col num ≡ true
      → IsRight (assign g row col num) (recurse (assign g row col num))) where
  try_digits-skip :
      (left num : ℕ)
      → is_safe g row col num ≡ false
      → try_digits recurse (suc left) num g row col ≡ try_digits recurse left (num + 1) g row col
  unfolding try_digits
  try_digits-skip left num e = rw e

  try_digits-solved :
      (left num : ℕ) (s : Grid)
      → is_safe g row col num ≡ true
      → recurse (assign g row col num) ≡ solved s
      → try_digits recurse (suc left) num g row col ≡ solved s
  unfolding try_digits
  try_digits-solved left num s e k = rw (e, k)

  try_digits-unsolved :
      (left num : ℕ) (g' : Grid)
      → is_safe g row col num ≡ true
      → recurse (assign g row col num) ≡ unsolved g'
      → g' ≡ assign g row col num
      → try_digits recurse (suc left) num g row col ≡ try_digits recurse left (num + 1) g row col
  unfolding try_digits
  try_digits-unsolved left num g' e k p = rw (e, k, p, set-undo g (row * 9 + col) num is_blank)

  digit-IsRight :
      (left num : ℕ) (v : Verdict)
      → 1 ≤ num
      → num ≤ 9
      → is_safe g row col num ≡ true
      → recurse (assign g row col num) ≡ v
      → IsRight (assign g row col num) v
      → (((s : Grid) → IsSolution g s → cell s row col ≢ num)
          → IsRight g (try_digits recurse left (num + 1) g row col))
      → IsRight g (try_digits recurse (suc left) num g row col)
  digit-IsRight left num (solved s) pos small safe k r rest =
      rw (try_digits-solved left num s safe k)
        (IsSolution-of_assign g grid legal row col hr hc is_blank num pos small s r)
  digit-IsRight left num (unsolved g') pos small safe k r rest =
      rw (try_digits-unsolved left num g' safe k r.0) (
        rest λ s sol e.
          r.1 s (IsSolution-assign g grid legal row col hr hc is_blank num pos small s sol e))
  digit-IsRight left num out_of_fuel pos small safe k r rest = absurd r

  -- The loop over the digits is right if all digits below `num` are refuted.
  try_digits-IsRight :
      (left num : ℕ)
      → num + left ≡ 10
      → 1 ≤ num
      → ((s : Grid) → IsSolution g s → num ≤ cell s row col)
      → IsRight g (try_digits recurse left num g row col)
  try_digits-IsRight zero num e pos refuted =
      unfold try_digits in (refl, λ s sol. ground (arith, refuted s sol, sol.filled row col hr hc))
  try_digits-IsRight (suc left) num e pos refuted =
      let rest = λ (no_num : (s : Grid) → IsSolution g s → cell s row col ≢ num).
        try_digits-IsRight left (num + 1) (omega arith) (omega arith)
          (λ s sol. omega (arith, refuted s sol, no_num s sol)) in
      elim (Bool-cases (is_safe g row col num)) [
        | inl safe ↦
            digit-IsRight left num (recurse (assign g row col num)) pos (omega arith) safe refl
              (right num pos (omega arith) safe) rest
        | inr unsafe ↦
            rw (try_digits-skip left num unsafe) (
              rest
                (unsafe-refutes g grid legal row col hr hc is_blank num pos (omega arith) unsafe))
      ]

solve_from-full :
    (fuel : ℕ) (g : Grid) → get_unassigned_location g ≡ (9, 9) → solve_from (suc fuel) g ≡ solved g
unfolding solve_from
solve_from-full fuel g e = rw e

solve_from-blank :
    (fuel : ℕ) (g : Grid) (row col : ℕ)
    → row < 9
    → get_unassigned_location g ≡ (row, col)
    → solve_from (suc fuel) g ≡ try_digits (solve_from fuel) 9 1 g row col
unfolding solve_from
solve_from-blank fuel g row col h e = rw e (ground arith)

solve_from-IsRight :
    (fuel : ℕ) (g : Grid) → IsGrid g → IsLegal g → blanks g < fuel → IsRight g (solve_from fuel g)
solve_from-IsRight zero g grid legal h = absurd (omega arith)
solve_from-IsRight (suc fuel) g grid legal h = elim (get_unassigned_location_lem g) [
  | inl (e, full) ↦ rw (solve_from-full fuel g e) (record {
    size = grid.size;
    filled = λ r c p q. omega (arith, full r c p q, grid.digits r c p q);
    extends = λ r c p q nz. refl;
    legal = legal;
  })
  | inr (row, col, e, hr, hc, is_blank) ↦ rw (solve_from-blank fuel g row col hr e) (
      try_digits-IsRight g grid legal row col hr hc is_blank (solve_from fuel)
        (λ num pos small safe.
          solve_from-IsRight fuel (assign g row col num)
            (assign-IsGrid g grid legal row col hr hc is_blank num pos small)
            (assign-IsLegal g grid legal row col hr hc is_blank num pos small safe)
            (omega (
              arith,
              blanks-set g (row * 9 + col) num (omega (arith, grid.size)) is_blank (omega arith),
            )))
        9 1 refl (omega arith) (λ s sol. (sol.filled row col hr hc).0))
]

-- From a grid of digits that breaks no rule `solve_soduko` ends. If it returns true, the grid that it
-- leaves is a solution: full, by the rules, and with the given digits. If it returns false, the grid
-- is as it was, and no solution exists.
pub solve_soduko-IsRight : (g : Grid) → IsGrid g → IsLegal g → IsRight g (solve_soduko g)
unfolding solve_soduko
solve_soduko-IsRight g grid legal = solve_from-IsRight (blanks g + 1) g grid legal (omega arith)
