-- ===== src/MersenneTwister/Tests.antt =====
-- Runs of MT19937-64.c, and each theorem at an input.
use Prim.Native.Nat.{bit_xor}
use linux_multiarch_asm.Base.{
  ℕ, ◌+◌, ◌<◌, ◌≡◌, refl, List, [], ◌∷◌, ◌++◌, ◌^◌, length, arith, length-replicate, replicate,
}
use linux_multiarch_asm.MersenneTwister.{
  Generator, initial, init_by_array64, key_loop, mix_loop, spread, next_index, carry, word_at, mix,
  twist, seed_step, temper, init_genrand64, regenerate, genrand64_int64, genrand64_int63, refill,
  seed_loop, first_loop, second_loop, last_word,
}
use linux_multiarch_asm.Containers.Outcome.{Outcome, ret, exited, undefined, diverged, bad_alloc}
use linux_multiarch_asm.MersenneTwister.Keys.{init_by_array64_lem}
use linux_multiarch_asm.MersenneTwister.Recurrence.{regenerate-recurrence}
use linux_multiarch_asm.MersenneTwister.Seed.{
  Seeded, IsGenerator, init_genrand64-Seeded, genrand64_int64-IsGenerator,
}

-- the second word of the seed 5489
seed_step_runs : seed_step 5489 1 ≡ 13057201162865595358
unfolding seed_step
seed_step_runs = refl

-- the first output with the default seed
first_output : (genrand64_int64 initial).0 ≡ 14514284786278117030
unfolding genrand64_int64 refill init_genrand64 seed_loop seed_step regenerate first_loop
    second_loop last_word mix twist temper initial
first_output = refl

-- and its upper 63 bits
first_output_63 : (genrand64_int63 initial).0 ≡ 7257142393139058515
unfolding genrand64_int63 genrand64_int64 refill init_genrand64 seed_loop seed_step regenerate
    first_loop second_loop last_word mix twist temper initial
first_output_63 = refl

-- the first output after the seeding of `main`
abbrev first_of : Outcome Generator → ℕ
first_of o = elim o [
  | ret g ↦ (genrand64_int64 g).0
  | exited ↦ 0
  | undefined ↦ 0
  | diverged ↦ 0
  | bad_alloc ↦ 0
]

array_output :
    first_of (init_by_array64 (0x12345 ∷ 0x23456 ∷ 0x34567 ∷ 0x45678 ∷ []) initial)
    ≡ 7266447313870364031
unfolding genrand64_int64 refill init_genrand64 seed_loop seed_step regenerate first_loop
    second_loop last_word mix twist temper initial init_by_array64 key_loop mix_loop spread
    next_index carry
array_output = refl

abbrev sevens : List ℕ
sevens = replicate 312 7

initial-IsGenerator : IsGenerator initial
unfolding initial
initial-IsGenerator = record { size = length-replicate {A = ℕ} 312 0; index = omega arith }

regenerate-recurrence_example :
    word_at (sevens ++ regenerate sevens) (200 + 312)
    ≡ bit_xor (word_at (sevens ++ regenerate sevens) (200 + 156)) (
        twist (
          mix
            (word_at (sevens ++ regenerate sevens) 200)
            (word_at (sevens ++ regenerate sevens) (200 + 1))))
regenerate-recurrence_example =
    regenerate-recurrence sevens 200 (length-replicate {A = ℕ} 312 7) (omega arith)

init_genrand64-Seeded_example :
    Seeded 5489 (init_genrand64 5489 initial).mt 312 × ((init_genrand64 5489 initial).mti ≡ 312)
init_genrand64-Seeded_example = init_genrand64-Seeded 5489 initial initial-IsGenerator.size

genrand64_int64-IsGenerator_example :
    (g' : Generator) × (i : ℕ) × (genrand64_int64 initial ≡ (temper (word_at g'.mt i), g'))
    × (g'.mti ≡ i + 1)
    × (i < 312)
    × IsGenerator g'
genrand64_int64-IsGenerator_example = genrand64_int64-IsGenerator initial initial-IsGenerator

empty_key : init_by_array64 [] initial ≡ undefined
unfolding init_by_array64 key_loop
empty_key = refl

init_by_array64_lem_example :
    (g' : Generator) × (init_by_array64 (0x12345 ∷ 0x23456 ∷ []) initial ≡ ret g')
    × (length g'.mt ≡ 312)
    × (word_at g'.mt 0 ≡ 2 ^ 63)
    × (g'.mti ≡ 312)
init_by_array64_lem_example =
    init_by_array64_lem (0x12345 ∷ 0x23456 ∷ []) initial (omega arith) initial-IsGenerator.size
