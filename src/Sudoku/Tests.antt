-- ===== src/Sudoku/Tests.antt =====
-- The grid of `main`, runs of the solver, and the theorem at that grid.
use linux_multiarch_asm.Base.{
  ℕ, zero, suc, ◌<◌, ◌≡◌, refl, sym, ◌∙◌, Bool, true, ◌&&◌, ◌||◌, [], ◌∷◌, arith, ◌==◌, leb, length,
}
use linux_multiarch_asm.Sudoku.{
  Grid, cell, assign, is_safe, used_in_row, used_in_col, used_in_box, any_from, find_from,
  location_from, get_unassigned_location, solved, try_digits, solve_from, solve_soduko, blanks,
}
use linux_multiarch_asm.Sudoku.Rules.{IsGrid, IsLegal}
use linux_multiarch_asm.Sudoku.Search.{is_safe-true}
use linux_multiarch_asm.Sudoku.Solve.{IsRight, solve_soduko-IsRight, cell-assign_ne}

abbrev main_grid : Grid
main_grid =
    0 ∷ 9 ∷ 0 ∷ 0 ∷ 0 ∷ 0 ∷ 8 ∷ 5 ∷ 3 ∷ 0 ∷ 0 ∷ 0 ∷ 8 ∷ 0 ∷ 0 ∷ 0 ∷ 0 ∷ 4 ∷ 0 ∷ 0 ∷ 8 ∷ 2 ∷ 0 ∷ 3
    ∷ 0 ∷ 6 ∷ 9 ∷ 5 ∷ 7 ∷ 4 ∷ 0 ∷ 0 ∷ 2 ∷ 0 ∷ 0 ∷ 0 ∷ 0 ∷ 0 ∷ 0 ∷ 0 ∷ 0 ∷ 0 ∷ 0 ∷ 0 ∷ 0 ∷ 0 ∷ 0 ∷ 0
    ∷ 9 ∷ 0 ∷ 0 ∷ 6 ∷ 4 ∷ 7 ∷ 9 ∷ 4 ∷ 0 ∷ 1 ∷ 0 ∷ 8 ∷ 5 ∷ 0 ∷ 0 ∷ 7 ∷ 0 ∷ 0 ∷ 0 ∷ 0 ∷ 6 ∷ 0 ∷ 0 ∷ 0
    ∷ 6 ∷ 8 ∷ 2 ∷ 0 ∷ 0 ∷ 0 ∷ 0 ∷ 9 ∷ 0 ∷ []

program : Unit {0}
unfolding any_from find_from used_in_row used_in_col used_in_box is_safe location_from
    get_unassigned_location try_digits solve_from solve_soduko blanks
program = tt

first_blank : get_unassigned_location main_grid ≡ (0, 0)
unfolding program
first_blank = refl

-- A check of the rules for one place: its digit could have been placed last.
place_ok : Grid → ℕ → ℕ → Bool
place_ok g r c =
    leb (cell g r c) 9 && (cell g r c == 0 || is_safe (assign g r c 0) r c (cell g r c))

row_ok : Grid → ℕ → Bool
row_ok g r =
    place_ok g r 0
    && place_ok g r 1
    && place_ok g r 2
    && place_ok g r 3
    && place_ok g r 4
    && place_ok g r 5
    && place_ok g r 6
    && place_ok g r 7
    && place_ok g r 8

rows_ok : ℕ → Grid → Bool
rows_ok zero g = true
rows_ok (suc n) g = row_ok g n && rows_ok n g

row_ok-at : (g : Grid) (r c : ℕ) → row_ok g r ≡ true → c < 9 → place_ok g r c ≡ true
unfolding row_ok
row_ok-at g r zero h p = ground arith
row_ok-at g r (suc zero) h p = ground arith
row_ok-at g r (suc (suc zero)) h p = ground arith
row_ok-at g r (suc (suc (suc zero))) h p = ground arith
row_ok-at g r (suc (suc (suc (suc zero)))) h p = ground arith
row_ok-at g r (suc (suc (suc (suc (suc zero))))) h p = ground arith
row_ok-at g r (suc (suc (suc (suc (suc (suc zero)))))) h p = ground arith
row_ok-at g r (suc (suc (suc (suc (suc (suc (suc zero))))))) h p = ground arith
row_ok-at g r (suc (suc (suc (suc (suc (suc (suc (suc zero)))))))) h p = ground arith
row_ok-at g r (suc (suc (suc (suc (suc (suc (suc (suc (suc c))))))))) h p = absurd (omega arith)

rows_ok-at : (n : ℕ) (g : Grid) (r : ℕ) → rows_ok n g ≡ true → r < n → row_ok g r ≡ true
unfolding rows_ok
rows_ok-at zero g r h p = absurd (omega arith)
rows_ok-at (suc n) g r h p = ground (arith, rows_ok-at n g r)

IsGrid-of_rows_ok : (g : Grid) → length g ≡ 81 → rows_ok 9 g ≡ true → IsGrid g
unfolding place_ok
IsGrid-of_rows_ok g len h = record {
  size = len;
  digits = λ r c p q. ground (arith, row_ok-at g r c (rows_ok-at 9 g r h p) q);
}

IsLegal-of_rows_ok : (g : Grid) → rows_ok 9 g ≡ true → IsLegal g
unfolding place_ok
IsLegal-of_rows_ok g h r c r' c' p q p' q' u n nz e =
    let ok = row_ok-at g r c (rows_ok-at 9 g r h p) q in
    let safe : is_safe (assign g r c 0) r c (cell g r c) ≡ true = ground arith in
    is_safe-true (assign g r c 0) r c (cell g r c) r' c' safe p' q' u
      (cell-assign_ne g r c 0 r' c' q' q n ∙ sym e)

main_grid_ok : rows_ok 9 main_grid ≡ true
unfolding program rows_ok row_ok place_ok
main_grid_ok = refl

solve_soduko-IsRight_example : IsRight main_grid (solve_soduko main_grid)
solve_soduko-IsRight_example =
    solve_soduko-IsRight main_grid (IsGrid-of_rows_ok main_grid refl main_grid_ok)
      (IsLegal-of_rows_ok main_grid main_grid_ok)

-- A grid with three blanks.
abbrev nearly : ℕ → ℕ → ℕ → Grid
nearly a b c =
    5 ∷ 3 ∷ a ∷ 6 ∷ 7 ∷ 8 ∷ 9 ∷ 1 ∷ 2 ∷ 6 ∷ 7 ∷ 2 ∷ 1 ∷ 9 ∷ 5 ∷ 3 ∷ 4 ∷ 8 ∷ 1 ∷ 9 ∷ 8 ∷ 3 ∷ 4 ∷ 2
    ∷ 5 ∷ 6 ∷ 7 ∷ 8 ∷ 5 ∷ 9 ∷ 7 ∷ 6 ∷ 1 ∷ 4 ∷ 2 ∷ 3 ∷ 4 ∷ 2 ∷ 6 ∷ 8 ∷ b ∷ 3 ∷ 7 ∷ 9 ∷ 1 ∷ 7 ∷ 1 ∷ 3
    ∷ 9 ∷ 2 ∷ 4 ∷ 8 ∷ 5 ∷ 6 ∷ 9 ∷ 6 ∷ 1 ∷ 5 ∷ 3 ∷ 7 ∷ 2 ∷ 8 ∷ 4 ∷ 2 ∷ 8 ∷ 7 ∷ 4 ∷ 1 ∷ 9 ∷ 6 ∷ 3 ∷ 5
    ∷ 3 ∷ 4 ∷ 5 ∷ 2 ∷ 8 ∷ 6 ∷ 1 ∷ 7 ∷ c ∷ []

solves_nearly : solve_soduko (nearly 0 0 0) ≡ solved (nearly 4 5 9)
unfolding program
solves_nearly = refl
