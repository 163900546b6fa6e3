-- ===== src/Containers/DynamicQueue/Tests.antt =====
-- Runs of DynamicQueue.cpp, and each theorem at an input.
use linux_multiarch_asm.Base.{
  ℕ, ◌^◌, ◌≡◌, refl, inl, Option, some, List, [], ◌∷◌, arith, length-replicate, replicate,
}
use linux_multiarch_asm.Base.Int.{pos}
use linux_multiarch_asm.Containers.Outcome.{ret, exited}
use linux_multiarch_asm.Containers.Circular.{advance, wrap}
use linux_multiarch_asm.Containers.Memory.{int}
use linux_multiarch_asm.Containers.Growth.{Allocates, new_size}
use linux_multiarch_asm.Containers.DynamicQueue.{
  DynamicQueue, inside, copied, reallocate, reserve, put_object, put_at_head, get_object, get_at,
  write_at, new_queue,
}
use linux_multiarch_asm.Containers.DynamicQueue.Grow.{Represents, Moved, reallocate-Moved}
use linux_multiarch_asm.Containers.DynamicQueue.Laws.{put_object-Represents, get_object-Represents}

-- Blocks of sevens, of any size.
abbrev sevens : ℕ → Option (List ℕ)
sevens n = some (replicate n 7)

sevens-Allocates : Allocates sevens (2 ^ 31)
sevens-Allocates = record { block = λ num h. (replicate num 7, refl, length-replicate num 7) }

-- A full queue of three objects that goes round the end of its buffer.
abbrev round : DynamicQueue ℕ
round = record {
  buffer = 53 ∷ 51 ∷ 52 ∷ [];
  old_buffer = [];
  head = 1;
  tail = 1;
  max_num = 3;
  num_entries = 3;
}

program : Unit {0}
unfolding copied reallocate reserve put_object put_at_head get_object get_at write_at int new_queue
    new_size wrap advance
program = tt

round-Represents : Represents round (51 ∷ 52 ∷ 53 ∷ [])
unfolding program
round-Represents = record {
  size = refl;
  tail_in = inl (omega arith);
  count = refl;
  fits = omega arith;
  head_at = refl;
  holds = (refl, (refl, (refl, tt)));
  no_old = refl;
}

put_runs :
    put_object 512 sevens (inside 1) round
    ≡ ret (record {
      buffer = 51 ∷ 52 ∷ 53 ∷ 51 ∷ 7 ∷ 7 ∷ 7 ∷ 7 ∷ [];
      old_buffer = [];
      head = 4;
      tail = 0;
      max_num = 8;
      num_entries = 4;
    })
unfolding program
put_runs = refl

-- The newest object is in the first cell.
write_runs : write_at (pos 2) 60 round ≡ ret (record round { buffer = 60 ∷ 51 ∷ 52 ∷ [] })
unfolding program
write_runs = refl

read_behind_exits : get_at (pos 3) round ≡ exited
unfolding program
read_behind_exits = refl

get_of_empty_exits : get_object (new_queue {A = ℕ}) ≡ exited
unfolding program
get_of_empty_exits = refl

put_object-Represents_example :
    (d' : DynamicQueue ℕ) × (put_object 512 sevens (inside 1) round ≡ ret d')
    × Represents d' (51 ∷ 52 ∷ 53 ∷ 51 ∷ [])
put_object-Represents_example =
    put_object-Represents 512 sevens (omega arith) sevens-Allocates round (51 ∷ 52 ∷ 53 ∷ [])
      (inside 1) 51 round-Represents refl (omega arith)

get_object-Represents_example :
    (d' : DynamicQueue ℕ) × (get_object round ≡ ret (51, d')) × Represents d' (52 ∷ 53 ∷ [])
get_object-Represents_example = get_object-Represents round 51 (52 ∷ 53 ∷ []) round-Represents

reallocate-Moved_example :
    (d' : DynamicQueue ℕ) × (reallocate 512 sevens 5 round ≡ ret d')
    × Moved round d' (51 ∷ 52 ∷ 53 ∷ []) 5
reallocate-Moved_example =
    reallocate-Moved 512 sevens (2 ^ 31) sevens-Allocates round (51 ∷ 52 ∷ 53 ∷ []) 5
      round-Represents (omega arith) (omega arith)
