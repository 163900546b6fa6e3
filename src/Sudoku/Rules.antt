-- ===== src/Sudoku/Rules.antt =====
-- The rules of sudoku, apart from the program that plays by them.
use linux_multiarch_asm.Base.{ℕ, ◌/◌, ◌≤◌, ◌<◌, ◌≡◌, ◌≢◌, ◌⊎◌, length}
use linux_multiarch_asm.Sudoku.{Grid, cell}

-- The two places share a row, a column or a 3×3 box.
abbrev pub SameUnit : ℕ → ℕ → ℕ → ℕ → Type 0
SameUnit r c r' c' = (r ≡ r') ⊎ (c ≡ c') ⊎ ((r / 3 ≡ r' / 3) × (c / 3 ≡ c' / 3))

abbrev pub SamePlace : ℕ → ℕ → ℕ → ℕ → Type 0
SamePlace r c r' c' = (r ≡ r') × (c ≡ c')

-- 81 cells, each blank or a digit.
pub record IsGrid (g : Grid) : Type 0 where
  pub size : length g ≡ 81
  pub digits : (r c : ℕ) → r < 9 → c < 9 → cell g r c ≤ 9

-- No digit stands twice in a unit.
abbrev pub IsLegal : Grid → Type 0
IsLegal g =
    (r c r' c' : ℕ)
    → r < 9
    → c < 9
    → r' < 9
    → c' < 9
    → SameUnit r c r' c'
    → ¬ SamePlace r c r' c'
    → cell g r c ≢ 0
    → cell g r c ≢ cell g r' c'

-- `s` fills the blanks of `g` by the rules.
pub record IsSolution (g s : Grid) : Type 0 where
  pub size : length s ≡ 81
  pub filled : (r c : ℕ) → r < 9 → c < 9 → (1 ≤ cell s r c) × (cell s r c ≤ 9)
  pub extends : (r c : ℕ) → r < 9 → c < 9 → cell g r c ≢ 0 → cell s r c ≡ cell g r c
  pub legal : IsLegal s
