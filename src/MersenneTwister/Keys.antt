-- ===== src/MersenneTwister/Keys.antt =====
-- Seeding MT19937-64.c by an array.
use linux_multiarch_asm.Base.{
  ℕ, zero, suc, ◌+◌, ◌%◌, ◌^◌, ◌<◌, ◌≡◌, inl, inr, refl, ◌∙◌, List, arith, leb, ltb, if◌then◌else◌,
  length, set, Bool-cases, length-set, get_or-set_self, get_elem?-defined,
}
use linux_multiarch_asm.Containers.Outcome.{ret}
use linux_multiarch_asm.MersenneTwister.{
  Generator, word_at, spread, next_index, carry, key_loop, mix_loop, init_genrand64,
  init_by_array64,
}
use linux_multiarch_asm.MersenneTwister.Seed.{init_genrand64-Seeded}

length-carry : (i : ℕ) (m : List ℕ) → length (carry i m) ≡ length m
unfolding carry
length-carry i m = elim (Bool-cases (leb 312 (i + 1))) [
  | inl e ↦ rw e (length-set m 0 (word_at m 311))
  | inr e ↦ rw e refl
]

next_index-lt : (i : ℕ) → (0 < next_index i) × (next_index i < 312)
unfolding next_index
next_index-lt i = ground arith

-- A round writes one word of the array.
length-round : (i v : ℕ) (m : List ℕ) → length m ≡ 312 → length (carry i (set m i v)) ≡ 312
length-round i v m e = length-carry i (set m i v) ∙ length-set m i v ∙ e

-- The loop reads no word behind the end of the key.
key_loop_lem :
    (key : List ℕ) (left i j : ℕ) (m : List ℕ)
    → j < length key
    → length m ≡ 312
    → (r : ℕ × List ℕ) × (key_loop key left i j m ≡ ret r) × (length r.1 ≡ 312)
unfolding key_loop
key_loop_lem key zero i j m inside size = ((i, m), refl, size)
key_loop_lem key (suc left) i j m inside size =
    let (w, e) = get_elem?-defined key j inside in
    let (r, e', size') =
      key_loop_lem key left (next_index i) (if leb (length key) (j + 1) then 0 else j + 1)
        (carry i (set m i ((spread 3935559000370003845 i m + w + j) % 2 ^ 64))) (ground arith)
        (length-round i _ m size) in
    (r, rw e e', size')

length-mix_loop : (left i : ℕ) (m : List ℕ) → length m ≡ 312 → length (mix_loop left i m) ≡ 312
unfolding mix_loop
length-mix_loop zero i m e = e
length-mix_loop (suc left) i m e = length-mix_loop left (next_index i) _ (length-round i _ m e)

-- Of a key with a word at least, `init_by_array64` makes an array of 312 words with the highest bit
-- set in its first word, so that it is not zero, and with all words marked as used. It reads no
-- word behind the end of the key.
pub init_by_array64_lem :
    (key : List ℕ) (g : Generator)
    → 0 < length key
    → length g.mt ≡ 312
    → (g' : Generator) × (init_by_array64 key g ≡ ret g')
      × (length g'.mt ≡ 312)
      × (word_at g'.mt 0 ≡ 2 ^ 63)
      × (g'.mti ≡ 312)
unfolding init_by_array64
init_by_array64_lem key g some_key size =
    let (seeded, used) = init_genrand64-Seeded 19650218 g size in
    let (r, e, size') =
      key_loop_lem key (if ltb (length key) 312 then 312 else length key) 1 0
        (init_genrand64 19650218 g).mt some_key seeded.size in
    let size'' = length-mix_loop 311 r.0 r.1 size' in
    let m = mix_loop 311 r.0 r.1 in
    (
      record (init_genrand64 19650218 g) { mt = set m 0 (2 ^ 63) },
      rw e refl,
      length-set m 0 (2 ^ 63) ∙ size'',
      get_or-set_self m 0 (2 ^ 63) 0 (omega arith),
      used,
    )
