-- ===== src/Containers/StringPool/Substring.antt =====
-- `SetToSubstring` of StringPoolS.cpp.
use linux_multiarch_asm.Base.{
  ℕ, zero, suc, ◌+◌, ◌^◌, ◌≤◌, ◌<◌, ◌≡◌, inl, inr, refl, sym, ap, ◌∙◌, false, Option, List, [], ◌∷◌,
  arith, ltb, ◌==◌, length, take, drop, Bool-cases, length-drop, length-take,
}
use linux_multiarch_asm.Base.Int.{pos}
use linux_multiarch_asm.Containers.Outcome.{ret}
use linux_multiarch_asm.Containers.Growth.{Allocates}
use linux_multiarch_asm.Containers.Memory.{int_lem}
use linux_multiarch_asm.Containers.Memory.Text.{NoZero, Holds-lt, c_string-NoZero}
use linux_multiarch_asm.Containers.StringPool.{
  StringPool, Source, null_pointer, outside, within, set_chars, set_to_substring,
}
use linux_multiarch_asm.Containers.StringPool.Layout.{offset, Texts, Represents}
use linux_multiarch_asm.Containers.StringPool.Put.{put}
use linux_multiarch_asm.Containers.StringPool.Place.{Roomy}
use linux_multiarch_asm.Containers.StringPool.Copy.{Refers, Refers-text_of}
use linux_multiarch_asm.Containers.StringPool.Chars.{Spans, take-span, set_chars-Represents}

module _ (new_chars new_ints : ℕ → Option (List ℕ)) (chars : Allocates new_chars (2 ^ 31)) where
  -- A part of a text that a pointer stands for, and the pointer to it.
  Spans-part :
      (p : StringPool) (m : ℕ → List ℕ) (i : ℕ) (w : List ℕ) (start len : ℕ)
      → Texts p m
      → start + len ≤ length w
      → (s : Source) → Refers s p m i w
      → (s' : Source) × (elim s [
        | null_pointer ↦ set_chars new_chars new_ints (pos i) null_pointer (pos len) p
        | outside u ↦ set_chars new_chars new_ints (pos i) (outside (drop start u)) (pos len) p
        | within o ↦ set_chars new_chars new_ints (pos i) (within (o + start)) (pos len) p
      ]
          ≡ set_chars new_chars new_ints (pos i) s' (pos len) p)
        × (0 < length (take len (drop start w)) → Spans s' p m i (take len (drop start w)))
  Spans-part p m i w start len x le null_pointer r = (
    null_pointer,
    refl,
    λ some_char.
        absurd (omega (arith, ap length r, length-take len (drop start w), length-drop start w)),
  )
  Spans-part p m i w start len x le (outside u) r =
      let (clean, held) = c_string-NoZero u w r in
      let long : length (take len (drop start w)) ≡ len =
        omega (arith, length-take len (drop start w), length-drop start w) in
      (
        outside (drop start u),
        refl,
        λ some_char. (
          omega (arith, long, length-drop start u, Holds-lt u 0 w held),
          rw long (
              let at : start ≡ 0 + start = omega arith in
              ap (λ (n : ℕ). take len (drop n u)) at ∙ take-span u 0 w start len held le),
        ),
      )
  Spans-part p m i w start len x le (within o) (j, ne, at, same) =
      let long : length (take len (drop start w)) ≡ len =
        omega (arith, length-take len (drop start w), length-drop start w) in
      (
        within (o + start),
        refl,
        λ some_char.
            let positive : 0 < offset p j = elim (Bool-cases (offset p j == 0)) [
              | inl z ↦ absurd (omega (arith, x.layout.empty j (ground arith), ap length same))
              | inr nz ↦ ground arith
            ] in
            (
              j,
              start,
              ne,
              positive,
              omega arith,
              omega (arith, long, ap length same),
              rw (long, same) refl,
            ),
      )

  -- On a pool that stands for texts, where allocations below 2 ^ 31 succeed, the index, the number
  -- of offsets and the characters are below 2 ^ 29, and string i, if it stands last in the buffer,
  -- either fits the block with its new text, or is not empty while all strings of higher indices
  -- are empty: `SetToSubstring` makes string i the part of the pointer's text with this start and
  -- length, which end within the text and below 2 ^ 31, and leaves the others what they are. The
  -- pointer is null, or to a string outside or of another index of the pool.
  pub set_to_substring-Represents :
      Allocates new_ints (2 ^ 31)
      → (p : StringPool) (m : ℕ → List ℕ) (i : ℕ) (w : List ℕ) (s : Source) (start len : ℕ)
      → Represents p m
      → Refers s p m i w
      → start + len ≤ length w
      → start + len < 2 ^ 31
      → i < 2 ^ 29
      → p.offsets_size < 2 ^ 29
      → p.data_size + len < 2 ^ 29
      → Roomy p m i len
      → (p' : StringPool) × (set_to_substring new_chars new_ints (pos i) s (pos start) (pos len) p
          ≡ ret p')
        × Represents p' (put m i (take len (drop start w)))
  unfolding set_to_substring
  set_to_substring-Represents ints p m i w s start len h r le no_overflow small few fits roomy =
      let (read, clean) = Refers-text_of s p m i w h.texts r in
      let inside : ltb (length w) (start + len) ≡ false = ground arith in
      let t = take len (drop start w) in
      let long : length t ≡ len =
        omega (arith, length-take len (drop start w), length-drop start w) in
      let (s', e, sp) = Spans-part p m i w start len h.texts le s r in
      let clean_part = NoZero-take len (drop start w) (NoZero-drop start w clean) in
      let roomy' : Roomy p m i (length t) = rw long roomy in
      let (p', e', h') =
        set_chars-Represents new_chars new_ints chars ints p m i t s' h sp clean_part small few
          (omega (arith, long)) roomy' in
      let same : set_chars new_chars new_ints (pos i) s' (pos len) p ≡ ret p' =
        ap (λ (n : ℕ). set_chars new_chars new_ints (pos i) s' (pos n) p) (sym long) ∙ e' in
      (p', rw (read, int_lem (start + len) no_overflow, inside) (e ∙ same), h')
    where
      NoZero-take : (n : ℕ) (t : List ℕ) → NoZero t → NoZero (take n t)
      NoZero-take zero t c = tt
      NoZero-take (suc n) [] c = tt
      NoZero-take (suc n) (x ∷ t) c = (c.0, NoZero-take n t c.1)

      NoZero-drop : (n : ℕ) (t : List ℕ) → NoZero t → NoZero (drop n t)
      NoZero-drop zero t c = c
      NoZero-drop (suc n) [] c = tt
      NoZero-drop (suc n) (x ∷ t) c = NoZero-drop n t c.1
