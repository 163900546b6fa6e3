-- ===== src/Containers/MixedPool/Tests.antt =====
-- Runs of MixedPool.cpp, and each theorem at an input.
use linux_multiarch_asm.Base.{
  ℕ, ◌+◌, ◌%◌, ◌^◌, ◌<◌, ◌≡◌, refl, Option, some, List, [], ◌∷◌, arith, length-replicate, replicate,
}
use linux_multiarch_asm.Base.Int.{pos}
use linux_multiarch_asm.Containers.Outcome.{ret, exited, undefined}
use linux_multiarch_asm.Containers.Growth.{Allocates}
use linux_multiarch_asm.Containers.MixedPool.{
  MixedPool, within, round_up, new_pool, larger, reserve_size, set_data_size, push_bytes, align,
  get_bytes,
}
use linux_multiarch_asm.Containers.Memory.{int, zeroes}
use linux_multiarch_asm.Containers.MixedPool.Contents.{Represents}
use linux_multiarch_asm.Containers.MixedPool.Laws.{push_bytes-Represents, get_bytes-eq}
use linux_multiarch_asm.Containers.MixedPool.Resize.{set_data_size-Represents, align-Represents}

-- Blocks of sevens, of any size.
abbrev sevens : ℕ → Option (List ℕ)
sevens n = some (replicate n 7)

sevens-Allocates : Allocates sevens (2 ^ 31)
sevens-Allocates = record { block = λ num h. (replicate num 7, refl, length-replicate num 7) }

-- A pool of three bytes in a buffer of five.
abbrev small : MixedPool
small = record {
  buffer = 11 ∷ 12 ∷ 13 ∷ 0 ∷ 0 ∷ [];
  buffer_size = 5;
  num_entries = 2;
  data_size = 3;
}

small-Represents : Represents small (11 ∷ 12 ∷ 13 ∷ [])
small-Represents = record { free = 2; contents = refl; room = refl; used = refl }

program : Unit {0}
unfolding int round_up new_pool larger reserve_size set_data_size push_bytes align get_bytes
program = tt

push_runs :
    push_bytes sevens (within 1) 2 small
    ≡ ret (
      3,
      record {
        buffer = 11 ∷ 12 ∷ 13 ∷ 12 ∷ 13 ∷ [];
        buffer_size = 5;
        num_entries = 3;
        data_size = 5;
      },
    )
unfolding program
push_runs = refl

align_runs :
    align sevens 4 small
    ≡ ret (record {
      buffer = 11 ∷ 12 ∷ 13 ∷ 0 ∷ 0 ∷ [];
      buffer_size = 5;
      num_entries = 2;
      data_size = 4;
    })
unfolding program
align_runs = refl

align_to_zero : align sevens 0 small ≡ undefined
unfolding program
align_to_zero = refl

get_behind_exits : get_bytes 1 (pos 3) small ≡ exited
unfolding program
get_behind_exits = refl

push_bytes-Represents_example :
    (d' : MixedPool) × (push_bytes sevens (within 0) 3 small ≡ ret (3, d'))
    × Represents d' (11 ∷ 12 ∷ 13 ∷ 11 ∷ 12 ∷ 13 ∷ [])
push_bytes-Represents_example =
    push_bytes-Represents sevens sevens-Allocates small (11 ∷ 12 ∷ 13 ∷ []) (within 0) 3
      (11 ∷ 12 ∷ 13 ∷ []) small-Represents (omega arith, refl) (omega arith)

set_data_size-Represents_example :
    (d' : MixedPool) × (set_data_size sevens (pos 6) small ≡ ret d')
    × Represents d' (11 ∷ 12 ∷ 13 ∷ 0 ∷ 0 ∷ 0 ∷ [])
set_data_size-Represents_example =
    set_data_size-Represents sevens sevens-Allocates small (11 ∷ 12 ∷ 13 ∷ []) 6 small-Represents
      (omega arith)

align-Represents_example :
    (d' : MixedPool) × (pad : ℕ) × (align sevens 8 small ≡ ret d')
    × Represents d' (11 ∷ 12 ∷ 13 ∷ zeroes pad)
    × (pad < 8)
    × ((3 + pad) % 8 ≡ 0)
align-Represents_example =
    align-Represents sevens sevens-Allocates small (11 ∷ 12 ∷ 13 ∷ []) 8 small-Represents
      (omega arith) (omega arith)

get_bytes-eq_example : get_bytes 2 (pos 1) small ≡ ret (12 ∷ 13 ∷ [])
get_bytes-eq_example = get_bytes-eq small (11 ∷ []) (12 ∷ 13 ∷ []) [] small-Represents (omega arith)
