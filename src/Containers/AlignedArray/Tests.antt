-- ===== src/Containers/AlignedArray/Tests.antt =====
-- Runs of AlignedArray.cpp, and each theorem at an input.
use linux_multiarch_asm.Base.{
  ℕ, ◌^◌, ◌≤◌, ◌≡◌, refl, Option, some, List, [], ◌∷◌, arith, length-replicate, replicate,
}
use linux_multiarch_asm.Base.Int.{pos}
use linux_multiarch_asm.Containers.Outcome.{ret, exited}
use linux_multiarch_asm.Containers.AlignedArray.{
  AlignedArray, aligned, new_aligned, reserve_aligned, set_num_aligned, object_at, store_object,
  vect,
}
use linux_multiarch_asm.Containers.AlignedArray.Laws.{
  Represents, Allocates, reserve_aligned-Represents, set_num_aligned-Represents,
}

-- Every block is at 1004, and fresh memory is full of sevens.
abbrev somewhere : ℕ → Option ℕ
somewhere bytes = some 1004

abbrev sevens : ℕ → ℕ → List ℕ
sevens address num = replicate num 7

sevens-Allocates : Allocates somewhere sevens (2 ^ 31)
sevens-Allocates = record {
  block = λ bytes h. (1004, refl);
  fresh = λ u num. length-replicate {A = ℕ} num 7;
}

-- Two objects of four bytes, at 2000.
abbrev two : AlignedArray ℕ
two = record {
  buffer_u = 1990;
  block_size = 23;
  buffer_a = 2000;
  cells = 51 ∷ 52 ∷ [];
  max_num = 2;
  num_entries = 2;
}

two-Represents : Represents 4 two (51 ∷ 52 ∷ [])
two-Represents = record {
  free = [];
  split = refl;
  size = refl;
  count = refl;
  on_boundary = omega arith;
  from = omega arith;
  up_to = omega arith;
}

program : Unit {0}
unfolding aligned new_aligned reserve_aligned set_num_aligned object_at store_object vect
program = tt

set_num_runs :
    set_num_aligned 4 somewhere sevens 0 (pos 4) two
    ≡ ret (record {
      buffer_u = 1004;
      block_size = 31;
      buffer_a = 1008;
      cells = 51 ∷ 52 ∷ 0 ∷ 0 ∷ [];
      max_num = 4;
      num_entries = 4;
    })
unfolding program
set_num_runs = refl

store_runs : store_object (pos 1) 60 two ≡ ret (record two { cells = 51 ∷ 60 ∷ [] })
unfolding program
store_runs = refl

store_behind_exits : store_object (pos 2) 60 two ≡ exited
unfolding program
store_behind_exits = refl

unaligned_vector_exits : vect 2 (pos 1) two ≡ exited
unfolding program
unaligned_vector_exits = refl

vector_reads : vect 2 (pos 0) two ≡ ret (51 ∷ 52 ∷ [])
unfolding program
vector_reads = refl

reserve_aligned-Represents_example :
    (d' : AlignedArray ℕ) × (reserve_aligned 4 somewhere sevens 0 (pos 5) two ≡ ret d')
    × Represents 4 d' (51 ∷ 52 ∷ [])
    × (5 ≤ d'.max_num)
reserve_aligned-Represents_example =
    reserve_aligned-Represents 4 somewhere sevens 0 (2 ^ 31) sevens-Allocates two (51 ∷ 52 ∷ []) 5
      two-Represents (omega arith)

set_num_aligned-Represents_example :
    (d' : AlignedArray ℕ) × (set_num_aligned 4 somewhere sevens 0 (pos 4) two ≡ ret d')
    × Represents 4 d' (51 ∷ 52 ∷ 0 ∷ 0 ∷ [])
set_num_aligned-Represents_example =
    set_num_aligned-Represents 4 somewhere sevens 0 (2 ^ 31) sevens-Allocates two (51 ∷ 52 ∷ []) 4
      two-Represents (omega arith)
