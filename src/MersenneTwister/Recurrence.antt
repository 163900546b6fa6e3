-- ===== src/MersenneTwister/Recurrence.antt =====
-- The loops of MT19937-64.c, which overwrite the array in place, follow the recurrence of the Mersenne
-- twister.
use Prim.Native.Nat.{bit_xor}
use linux_multiarch_asm.Base.{
  ℕ, zero, suc, ◌+◌, ◌-◌, ◌≤◌, ◌<◌, ◌≡◌, ◌≢◌, inl, inr, refl, sym, subst, ap, ap₂, ◌∙◌, List, [],
  ◌∷◌, ◌++◌, arith, ltb, if◌then◌else◌, length, set, Bool-cases, length-set, get_or-set_self,
  get_or-set_ne,
}
use linux_multiarch_asm.MersenneTwister.{
  word_at, mix, twist, first_loop, second_loop, last_word, regenerate,
}

-- The words that stand for `mt[k+MM]` and `mt[k+1]` when word `k` is made, `old` being the block
-- before and `m` the new one as far as it is made.
abbrev middle_word : List ℕ → List ℕ → ℕ → ℕ
middle_word old m k = if ltb k 156 then word_at old (k + 156) else word_at m (k - 156)

abbrev next_word : List ℕ → List ℕ → ℕ → ℕ
next_word old m k = if ltb k 311 then word_at old (k + 1) else word_at m 0

abbrev made : List ℕ → List ℕ → ℕ → ℕ
made old m k = bit_xor (middle_word old m k) (twist (mix (word_at old k) (next_word old m k)))

-- The words below `i` are made, the others are still the old ones.
record Half (old m : List ℕ) (i : ℕ) : Type 0 where
  size : length m ≡ 312
  rest : (j : ℕ) → i ≤ j → word_at m j ≡ word_at old j
  done : (k : ℕ) → k < i → word_at m k ≡ made old m k

made-set : (old m : List ℕ) (i v k : ℕ) → k ≤ i → i < 312 → made old (set m i v) k ≡ made old m k
made-set old m i v k le inside =
    ap₂ (λ (x y : ℕ). bit_xor x (twist (mix (word_at old k) y))) middle next
  where
    middle : middle_word old (set m i v) k ≡ middle_word old m k
    middle = elim (Bool-cases (ltb k 156)) [
      | inl e ↦ rw e refl
      | inr e ↦ let ne : i ≢ k - 156 = ground arith in rw e (get_or-set_ne m i (k - 156) v 0 ne)
    ]

    next : next_word old (set m i v) k ≡ next_word old m k
    next = elim (Bool-cases (ltb k 311)) [
      | inl e ↦ rw e refl
      | inr e ↦ let ne : i ≢ 0 = ground arith in rw e (get_or-set_ne m i 0 v 0 ne)
    ]

Half-set :
    (old m : List ℕ) (i v : ℕ)
    → Half old m i
    → i < 312
    → v ≡ made old m i
    → Half old (set m i v) (i + 1)
Half-set old m i v h inside e = record {
  size = length-set m i v ∙ h.size;
  rest =
      λ j le. let ne : i ≢ j = omega arith in get_or-set_ne m i j v 0 ne ∙ h.rest j (omega arith);
  done = λ k less. elim (Bool-cases (ltb k i)) [
    | inl lt ↦
        let ne : i ≢ k = ground arith in
        get_or-set_ne m i k v 0 ne
        ∙ h.done k (ground arith)
        ∙ sym (made-set old m i v k (ground arith) inside)
    | inr ge ↦
        let same : k ≡ i = ground arith in
        ap (λ (j : ℕ). word_at (set m i v) j) same
        ∙ get_or-set_self m i v 0 (omega (arith, h.size))
        ∙ e
        ∙ sym (made-set old m i v i (omega arith) inside)
        ∙ ap (λ (j : ℕ). made old (set m i v) j) (sym same)
  ];
}

module _ (old : List ℕ) where
  mixed-rest :
      (m : List ℕ) (i : ℕ) (w : ℕ)
      → Half old m i
      → bit_xor w (twist (mix (word_at m i) (word_at m (i + 1))))
        ≡ bit_xor w (twist (mix (word_at old i) (word_at old (i + 1))))
  mixed-rest m i w h =
      ap₂ (λ (x y : ℕ). bit_xor w (twist (mix x y))) (h.rest i (omega arith))
        (h.rest (i + 1) (omega arith))

  first_loop-Half :
      (left i : ℕ) (m : List ℕ) → i + left ≡ 156 → Half old m i → Half old (first_loop left i m) 156
  unfolding first_loop
  first_loop-Half zero i m e h =
      let at_end : i ≡ 156 = omega arith in subst (λ (j : ℕ). Half old m j) at_end h
  first_loop-Half (suc left) i m e h =
      let middle : middle_word old m i ≡ word_at old (i + 156) = ground arith in
      let next : next_word old m i ≡ word_at old (i + 1) = ground arith in
      let value =
        ap (λ (w : ℕ). bit_xor w (twist (mix (word_at m i) (word_at m (i + 1)))))
          (h.rest (i + 156) (omega arith))
        ∙ mixed-rest m i (word_at old (i + 156)) h
        ∙ ap₂ (λ (x y : ℕ). bit_xor x (twist (mix (word_at old i) y))) (sym middle) (sym next) in
      first_loop-Half left (i + 1) (set m i _) (omega arith)
        (Half-set old m i _ h (omega arith) value)

  second_loop-Half :
      (left i : ℕ) (m : List ℕ)
      → i + left ≡ 311
      → 156 ≤ i
      → Half old m i
      → Half old (second_loop left i m) 311
  unfolding second_loop
  second_loop-Half zero i m e le h =
      let at_end : i ≡ 311 = omega arith in subst (λ (j : ℕ). Half old m j) at_end h
  second_loop-Half (suc left) i m e le h =
      let middle : middle_word old m i ≡ word_at m (i - 156) = ground arith in
      let next : next_word old m i ≡ word_at old (i + 1) = ground arith in
      let value =
        mixed-rest m i (word_at m (i - 156)) h
        ∙ ap₂ (λ (x y : ℕ). bit_xor x (twist (mix (word_at old i) y))) (sym middle) (sym next) in
      second_loop-Half left (i + 1) (set m i _) (omega arith) (omega arith)
        (Half-set old m i _ h (omega arith) value)

  regenerate-Half : length old ≡ 312 → Half old (regenerate old) 312
  unfolding regenerate last_word
  regenerate-Half size =
      let start : Half old old 0 = record {
        size = size;
        rest = λ j le. refl;
        done = λ k less. absurd (omega arith);
      } in
      let h =
        second_loop-Half 155 156 _ refl (omega arith) (first_loop-Half 156 0 old refl start) in
      let m = second_loop 155 156 (first_loop 156 0 old) in
      Half-set old m 311 _ h (omega arith) (
        ap (λ (x : ℕ). bit_xor (word_at m 155) (twist (mix x (word_at m 0))))
          (h.rest 311 (omega arith)))

get_or-append_left : (xs ys : List ℕ) (i : ℕ) → i < length xs → word_at (xs ++ ys) i ≡ word_at xs i
get_or-append_left [] ys i h = absurd (omega arith)
get_or-append_left (x ∷ xs) ys zero h = refl
get_or-append_left (x ∷ xs) ys (suc i) h = get_or-append_left xs ys i (omega arith)

get_or-append_right :
    (xs ys : List ℕ) (n i : ℕ) → n ≡ length xs + i → word_at (xs ++ ys) n ≡ word_at ys i
get_or-append_right [] ys n i e =
    let same : n ≡ i = omega arith in ap (λ (j : ℕ). word_at ys j) same
get_or-append_right (x ∷ xs) ys zero i e = absurd (omega arith)
get_or-append_right (x ∷ xs) ys (suc n) i e = get_or-append_right xs ys n i (omega arith)

-- A block of 312 words, with the block that is generated from it in place behind it, follows the
-- recurrence of the Mersenne twister: each word of the new block is made from the words 312, 311 and
-- 156 places before it.
pub regenerate-recurrence :
    (old : List ℕ) (k : ℕ)
    → length old ≡ 312
    → k < 312
    → word_at (old ++ regenerate old) (k + 312)
      ≡ bit_xor (word_at (old ++ regenerate old) (k + 156)) (
          twist (mix (word_at (old ++ regenerate old) k) (word_at (old ++ regenerate old) (k + 1))))
regenerate-recurrence old k size inside =
    let h = regenerate-Half old size in
    let new = regenerate old in
    get_or-append_right old new (k + 312) k (omega arith)
    ∙ h.done k inside
    ∙ ap₂ (λ (x y : ℕ). bit_xor x (twist (mix (word_at old k) y))) middle next
    ∙ ap
        (λ (x : ℕ).
          bit_xor (word_at (old ++ new) (k + 156)) (twist (mix x (word_at (old ++ new) (k + 1)))))
        (sym (get_or-append_left old new k (omega arith)))
  where
    middle : middle_word old (regenerate old) k ≡ word_at (old ++ regenerate old) (k + 156)
    middle = elim (Bool-cases (ltb k 156)) [
      | inl e ↦
          let less : k + 156 < length old = ground arith in
          rw e (sym (get_or-append_left old (regenerate old) (k + 156) less))
      | inr e ↦
          let place : k + 156 ≡ length old + (k - 156) = ground arith in
          rw e (sym (get_or-append_right old (regenerate old) (k + 156) (k - 156) place))
    ]

    next : next_word old (regenerate old) k ≡ word_at (old ++ regenerate old) (k + 1)
    next = elim (Bool-cases (ltb k 311)) [
      | inl e ↦
          let less : k + 1 < length old = ground arith in
          rw e (sym (get_or-append_left old (regenerate old) (k + 1) less))
      | inr e ↦
          let place : k + 1 ≡ length old + 0 = ground arith in
          rw e (sym (get_or-append_right old (regenerate old) (k + 1) 0 place))
    ]

pub regenerate-length : (old : List ℕ) → length old ≡ 312 → length (regenerate old) ≡ 312
regenerate-length old size = (regenerate-Half old size).size
