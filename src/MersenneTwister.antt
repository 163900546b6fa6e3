-- ===== src/MersenneTwister.antt =====
-- archive/todo/mersenne-twister/MT19937-64.c: a generator of pseudo-random numbers of 64 bits. The
-- static array `mt[NN]` is a list of 312 words, and `unsigned long long` arithmetic wraps at 2 ^ 64.
pub mod Recurrence
pub mod Keys
pub mod Seed
mod Tests
use Prim.Native.Nat.{bit_and, bit_or, bit_xor}
use linux_multiarch_asm.Base.{
  ℕ, zero, suc, ◌+◌, ◌-◌, ◌*◌, ◌/◌, ◌%◌, ◌^◌, Bool, true, false, List, [], ◌∷◌, leb, ltb, ◌==◌,
  if◌then◌else◌, get_or, set, replicate, length, get_elem?,
}
use linux_multiarch_asm.Containers.Outcome.{Outcome, ret, read, ◌>>=◌}

pub record Generator : Type 0 where
  pub mt : List ℕ
  pub mti : ℕ

abbrev nn : ℕ
nn = 312

abbrev mm : ℕ
mm = 156

abbrev matrix_a : ℕ
matrix_a = 0xB5026F5AA96619E9

abbrev um : ℕ
um = 0xFFFFFFFF80000000

abbrev lm : ℕ
lm = 0x7FFFFFFF

-- `mt[i]`
abbrev pub word_at : List ℕ → ℕ → ℕ
word_at mt i = get_or mt i 0

-- The static variables at the start of the program.
pub initial : Generator
initial = record { mt = replicate nn 0; mti = nn + 1 }

-- The word after `w` at index `i` in `init_genrand64`.
unfoldable pub seed_step : ℕ → ℕ → ℕ
seed_step w i = (6364136223846793005 * bit_xor w (w / 2 ^ 62) + i) % 2 ^ 64

-- The loop of `init_genrand64`, with `left` rounds to go.
pub seed_loop : ℕ → ℕ → List ℕ → List ℕ
seed_loop zero i mt = mt
seed_loop (suc left) i mt = seed_loop left (i + 1) (set mt i (seed_step (word_at mt (i - 1)) i))

-- `init_genrand64`
pub init_genrand64 : ℕ → Generator → Generator
init_genrand64 seed g = record { mt = seed_loop (nn - 1) 1 (set g.mt 0 seed); mti = nn }

-- `mt[i-1] ^ (mt[i-1] >> 62)) * factor`, on the word at index `i`
unfoldable pub spread : ℕ → ℕ → List ℕ → ℕ
spread factor i mt =
    let w = word_at mt (i - 1) in bit_xor (word_at mt i) (bit_xor w (w / 2 ^ 62) * factor % 2 ^ 64)

-- `i++; if (i>=NN) { mt[0] = mt[NN-1]; i=1; }`
unfoldable pub next_index : ℕ → ℕ
next_index i = if leb nn (i + 1) then 1 else i + 1

unfoldable pub carry : ℕ → List ℕ → List ℕ
carry i mt = if leb nn (i + 1) then set mt 0 (word_at mt (nn - 1)) else mt

-- The first loop of `init_by_array64`, with `left` rounds to go; it returns `i` and the array.
pub key_loop : List ℕ → ℕ → ℕ → ℕ → List ℕ → Outcome (ℕ × List ℕ)
key_loop key zero i j mt = ret (i, mt)
key_loop key (suc left) i j mt = read (get_elem? key j) >>= λ w.
    key_loop key left (next_index i) (if leb (length key) (j + 1) then 0 else j + 1)
      (carry i (set mt i ((spread 3935559000370003845 i mt + w + j) % 2 ^ 64)))

-- Its second loop.
pub mix_loop : ℕ → ℕ → List ℕ → List ℕ
mix_loop zero i mt = mt
mix_loop (suc left) i mt =
    mix_loop left (next_index i)
      (carry i (set mt i ((spread 2862933555777941757 i mt + 2 ^ 64 - i) % 2 ^ 64)))

-- `init_by_array64`, of an array and its length
pub init_by_array64 : List ℕ → Generator → Outcome Generator
init_by_array64 key g =
    let g' = init_genrand64 19650218 g in
    key_loop key (if ltb (length key) nn then nn else length key) 1 0 g'.mt >>= λ r.
    ret (record g' { mt = set (mix_loop (nn - 1) r.0 r.1) 0 (2 ^ 63) })

-- `x = (mt[i]&UM)|(mt[i+1]&LM)`, of the two words
unfoldable pub mix : ℕ → ℕ → ℕ
mix upper lower = bit_or (bit_and upper um) (bit_and lower lm)

-- `(x>>1) ^ mag01[(int)(x&1ULL)]`
unfoldable pub twist : ℕ → ℕ
twist x = bit_xor (x / 2) (if bit_and x 1 == 0 then 0 else matrix_a)

-- The first loop of `genrand64_int64`.
pub first_loop : ℕ → ℕ → List ℕ → List ℕ
first_loop zero i mt = mt
first_loop (suc left) i mt =
    first_loop left (i + 1)
      (set mt i (bit_xor (word_at mt (i + mm)) (twist (mix (word_at mt i) (word_at mt (i + 1))))))

-- The second loop, where `i+(MM-NN)` is an index below `i`.
pub second_loop : ℕ → ℕ → List ℕ → List ℕ
second_loop zero i mt = mt
second_loop (suc left) i mt = second_loop left (i + 1) (
    set mt i
      (bit_xor (word_at mt (i - (nn - mm))) (twist (mix (word_at mt i) (word_at mt (i + 1))))))

-- The assignment to the last word.
pub last_word : List ℕ → List ℕ
last_word mt =
    set mt (nn - 1)
      (bit_xor (word_at mt (mm - 1)) (twist (mix (word_at mt (nn - 1)) (word_at mt 0))))

-- The generation of `NN` words at one time.
pub regenerate : List ℕ → List ℕ
regenerate mt = last_word (second_loop (mm - 1) (nn - mm) (first_loop (nn - mm) 0 mt))

-- The end of `genrand64_int64`, which hashes a word for output.
unfoldable pub temper : ℕ → ℕ
temper x =
    let a = bit_xor x (bit_and (x / 2 ^ 29) 0x5555555555555555) in
    let b = bit_xor a (bit_and (a * 2 ^ 17 % 2 ^ 64) 0x71D67FFFEDA60000) in
    let c = bit_xor b (bit_and (b * 2 ^ 37 % 2 ^ 64) 0xFFF7EEE000000000) in bit_xor c (c / 2 ^ 43)

-- The block of words in use: a new one once all are used, from the default seed if there is none.
pub refill : Generator → Generator
refill g =
    let seeded = if g.mti == nn + 1 then init_genrand64 5489 g else g in
    if leb nn g.mti then record { mt = regenerate seeded.mt; mti = 0 } else g

-- `genrand64_int64`
pub genrand64_int64 : Generator → ℕ × Generator
genrand64_int64 g =
    let g' = refill g in (temper (word_at g'.mt g'.mti), record g' { mti = g'.mti + 1 })

-- `genrand64_int63`
pub genrand64_int63 : Generator → ℕ × Generator
genrand64_int63 g = ((genrand64_int64 g).0 / 2, (genrand64_int64 g).1)
