-- ===== src/Containers/DynamicArray/Tests.antt =====
-- Runs of DynamicArray.cpp, and each theorem at an input.
use linux_multiarch_asm.Base.{
  ℕ, ◌^◌, ◌≡◌, refl, Option, some, List, [], ◌∷◌, arith, length-replicate, replicate,
}
use linux_multiarch_asm.Base.Int.{pos, negsuc}
use linux_multiarch_asm.Containers.Outcome.{ret, exited}
use linux_multiarch_asm.Containers.Growth.{Allocates, new_size}
use linux_multiarch_asm.Containers.DynamicArray.{
  DynamicArray, inside, reallocate, reserve, set_num, push_object, pop_object, get_at, set_at,
  new_array,
}
use linux_multiarch_asm.Containers.DynamicArray.Laws.{
  Represents, push_object-Represents, pop_object-Represents,
}
use linux_multiarch_asm.Containers.DynamicArray.Resize.{set_num-Represents}

-- Blocks of sevens, of any size.
abbrev sevens : ℕ → Option (List ℕ)
sevens n = some (replicate n 7)

sevens-Allocates : Allocates sevens (2 ^ 31)
sevens-Allocates = record { block = λ num h. (replicate num 7, refl, length-replicate num 7) }

abbrev two : DynamicArray ℕ
two = record { buffer = 51 ∷ 52 ∷ []; old_buffer = []; max_num = 2; num_entries = 2 }

two-Represents : Represents two (51 ∷ 52 ∷ [])
two-Represents = record { free = []; split = refl; size = refl; count = refl; no_old = refl }

program : Unit {0}
unfolding reallocate reserve set_num push_object pop_object get_at set_at new_array new_size
program = tt

-- objects of 512 bytes: a full buffer of two grows to six
push_runs :
    push_object 512 sevens 0 (inside 1) two
    ≡ ret (
      2,
      record {
        buffer = 51 ∷ 52 ∷ 52 ∷ 7 ∷ 7 ∷ 7 ∷ [];
        old_buffer = [];
        max_num = 6;
        num_entries = 3;
      },
    )
unfolding program
push_runs = refl

set_num_runs :
    set_num 512 sevens 0 (pos 4) two
    ≡ ret (record { buffer = 51 ∷ 52 ∷ 0 ∷ 0 ∷ []; old_buffer = []; max_num = 4; num_entries = 4 })
unfolding program
set_num_runs = refl

negative_index_exits : get_at 512 sevens 0 (negsuc 0) two ≡ exited
unfolding program
negative_index_exits = refl

push_object-Represents_example :
    (d' : DynamicArray ℕ) × (push_object 512 sevens 0 (inside 1) two ≡ ret (2, d'))
    × Represents d' (51 ∷ 52 ∷ 52 ∷ [])
push_object-Represents_example =
    push_object-Represents 512 sevens 0 (omega arith) sevens-Allocates two (51 ∷ 52 ∷ []) (inside 1)
      52 two-Represents refl (omega arith)

pop_object-Represents_example :
    (d' : DynamicArray ℕ) × (pop_object 512 sevens 0 two ≡ ret (52, d')) × Represents d' (51 ∷ [])
pop_object-Represents_example =
    pop_object-Represents 512 sevens 0 (omega arith) sevens-Allocates two (51 ∷ []) 52
      two-Represents

set_num-Represents_example :
    (d' : DynamicArray ℕ) × (set_num 512 sevens 0 (pos 4) two ≡ ret d')
    × Represents d' (51 ∷ 52 ∷ 0 ∷ 0 ∷ [])
set_num-Represents_example =
    set_num-Represents 512 sevens 0 (omega arith) sevens-Allocates two (51 ∷ 52 ∷ []) 4
      two-Represents (omega arith)
