-- ===== src/Sudoku.antt =====
-- archive/todo/sudoku/sudoku.cpp: a sudoku solver by backtracking. `int grid[DIM][DIM]` is the list of
-- its 81 cells, row by row; a function that writes to the grid returns the new one.
pub mod Rules
pub mod Search
pub mod Solve
mod Tests
use linux_multiarch_asm.Base.{
  ℕ, zero, suc, ◌+◌, ◌-◌, ◌*◌, ◌/◌, ◌%◌, Bool, true, false, not, ◌&&◌, Option, none, some, List, [],
  ◌∷◌, ◌==◌, if◌then◌else◌, get_or, set,
}

abbrev pub Grid : Type 0
Grid = List ℕ

abbrev dim : ℕ
dim = 9

abbrev pub blank : ℕ
blank = 0

-- `grid[row][col]`
abbrev pub cell : Grid → ℕ → ℕ → ℕ
cell grid row col = get_or grid (row * 9 + col) 0

-- `grid[row][col] = num`
abbrev pub assign : Grid → ℕ → ℕ → ℕ → Grid
assign grid row col num = set grid (row * 9 + col) num

-- `for (int i = first; i < first + left; i++) if (test(i)) return true; return false;`
unfoldable pub any_from : ℕ → ℕ → (ℕ → Bool) → Bool
any_from zero first test = false
any_from (suc left) first test =
    let rest = any_from left (first + 1) test in if test first then true else rest

-- The same loop, returning the first index that passes.
unfoldable pub find_from : ℕ → ℕ → (ℕ → Bool) → Option ℕ
find_from zero first test = none
find_from (suc left) first test =
    let rest = find_from left (first + 1) test in if test first then some first else rest

pub used_in_row : Grid → ℕ → ℕ → Bool
used_in_row grid row num = any_from dim 0 (λ col. cell grid row col == num)

pub used_in_col : Grid → ℕ → ℕ → Bool
used_in_col grid col num = any_from dim 0 (λ row. cell grid row col == num)

pub used_in_box : Grid → ℕ → ℕ → ℕ → Bool
used_in_box grid box_start_row box_start_col num =
    any_from 3 0
      (λ row. any_from 3 0 (λ col. cell grid (row + box_start_row) (col + box_start_col) == num))

pub is_safe : Grid → ℕ → ℕ → ℕ → Bool
is_safe grid row col num =
    not (used_in_row grid row num)
    && (not (used_in_col grid col num)
        && not (used_in_box grid (row - row % 3) (col - col % 3) num))

abbrev grid_full : ℕ × ℕ
grid_full = (9, 9)

-- The loop over the rows of `get_unassigned_location`.
pub location_from : ℕ → ℕ → Grid → ℕ × ℕ
location_from zero row grid = grid_full
location_from (suc left) row grid =
    let rest = location_from left (row + 1) grid in
    elim (find_from dim 0 (λ col. cell grid row col == blank)) [
      | some col ↦ (row, col)
      | none ↦ rest
    ]

pub get_unassigned_location : Grid → ℕ × ℕ
get_unassigned_location grid = location_from dim 0 grid

-- What `solve_soduko` returns, with the grid that it leaves behind. `out_of_fuel` is a recursion
-- deeper than its fuel.
pub data Verdict : Type 0 where
  solved : Grid → Verdict
  unsolved : Grid → Verdict
  out_of_fuel : Verdict

-- The loop over the digits, with `left` of them to go; `recurse` is the recursive call.
pub try_digits : (Grid → Verdict) → ℕ → ℕ → Grid → ℕ → ℕ → Verdict
try_digits recurse zero num grid row col = unsolved grid
try_digits recurse (suc left) num grid row col =
    let skipped = try_digits recurse left (num + 1) grid row col in
    let retried =
      λ (g : Grid). try_digits recurse left (num + 1) (assign g row col blank) row col in
    let tried : Verdict = elim (recurse (assign grid row col num)) [
      | solved g ↦ solved g
      | unsolved g ↦ retried g
      | out_of_fuel ↦ out_of_fuel
    ] in
    if is_safe grid row col num then tried else skipped

-- Each level of the recursion fills one blank cell, so the fuel is a bound on their number.
pub solve_from : ℕ → Grid → Verdict
solve_from zero grid = out_of_fuel
solve_from (suc fuel) grid =
    let location = get_unassigned_location grid in
    let digits = try_digits (solve_from fuel) 9 1 grid location.0 location.1 in
    if location.0 == 9 && location.1 == 9 then solved grid else digits

-- the number of blank cells
pub blanks : Grid → ℕ
blanks [] = 0
blanks (x ∷ xs) = if x == 0 then suc (blanks xs) else blanks xs

pub solve_soduko : Grid → Verdict
solve_soduko grid = solve_from (blanks grid + 1) grid
