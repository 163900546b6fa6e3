-- ===== src/Containers/StringPool/Concatenate.antt =====
-- `Concatenate` of StringPoolS.cpp.
use linux_multiarch_asm.Base.{
  ℕ, ◌+◌, ◌^◌, ◌<◌, ◌≡◌, inl, inr, refl, sym, ap, ◌∙◌, false, Option, List, [], ◌∷◌, ◌++◌, arith,
  leb, ◌==◌, length, Bool-cases, length-append, get_elem?-eq-get_or,
}
use linux_multiarch_asm.Base.Int.{pos}
use linux_multiarch_asm.Containers.Outcome.{ret}
use linux_multiarch_asm.Containers.Growth.{Allocates}
use linux_multiarch_asm.Containers.Memory.{copy_bytes}
use linux_multiarch_asm.Containers.Memory.Text.{
  NoZero, copy_bytes-behind, length-copy_bytes, c_string-Holds,
}
use linux_multiarch_asm.Containers.StringPool.{
  StringPool, Source, within, copy_in, allocate_string, concatenate, get_string,
}
use linux_multiarch_asm.Containers.StringPool.Layout.{offset, Represents}
use linux_multiarch_asm.Containers.StringPool.Put.{put}
use linux_multiarch_asm.Containers.StringPool.Offsets.{nil_of_length}
use linux_multiarch_asm.Containers.StringPool.Vacant.{fill-Texts}
use linux_multiarch_asm.Containers.StringPool.Place.{
  Movable, Movable-Roomy, allocate_string-Allocated,
}
use linux_multiarch_asm.Containers.StringPool.Erase.{same-Texts}
use linux_multiarch_asm.Containers.StringPool.Copy.{Refers, copy_in_lem, Refers-text_of}
use linux_multiarch_asm.Containers.StringPool.Set.{set_string-Represents}
use linux_multiarch_asm.Containers.StringPool.Half.{
  long, room, first-Supplies, half, second-Supplies,
}

append_assoc : (xs ys zs : List ℕ) → (xs ++ ys) ++ zs ≡ xs ++ (ys ++ zs)
append_assoc [] ys zs = refl
append_assoc (x ∷ xs) ys zs = ap (λ (us : List ℕ). x ∷ us) (append_assoc xs ys zs)

append-nil : (xs : List ℕ) → xs ++ [] ≡ xs
append-nil [] = refl
append-nil (x ∷ xs) = ap (λ (us : List ℕ). x ∷ us) (append-nil xs)

NoZero-append : (t u : List ℕ) → NoZero t → NoZero u → NoZero (t ++ u)
NoZero-append [] u c c' = c'
NoZero-append (x ∷ t) u c c' = (c.0, NoZero-append t u c.1 c')

module _ (new_chars new_ints : ℕ → Option (List ℕ)) (chars : Allocates new_chars (2 ^ 31)) where
  -- Both texts are copied to the place for the whole.
  append-Represents :
      (p : StringPool) (m : ℕ → List ℕ) (i : ℕ) (t2 : List ℕ) (s : Source)
      → Represents p m
      → Refers s p m i t2
      → 0 < length t2
      → 0 < offset p i
      → i < p.num
      → p.data_size + length (m i ++ t2) < 2 ^ 29
      → Movable p m i (length (m i ++ t2))
      → (p' : StringPool) × (concatenate new_chars new_ints (pos i) s p ≡ ret p')
        × Represents p' (put m i (m i ++ t2))
  unfolding concatenate get_string
  append-Represents p m i t2 s h r some_char positive lt fits movable =
      let x = h.texts in
      let l = x.layout in
      let (read, clean) = Refers-text_of s p m i t2 x r in
      let nz : (length t2 == 0) ≡ false = ground arith in
      let inside : leb p.num i ≡ false = ground arith in
      let found = get_elem?-eq-get_or p.offsets i 0 (omega (arith, l.count, l.indices)) in
      let stands : (offset p i == 0) ≡ false = ground arith in
      let old = c_string-Holds p.buffer (offset p i) (m i) (x.clean i) (x.holds i positive) in
      let t = m i ++ t2 in
      let (q, e, a) =
        allocate_string-Allocated new_chars new_ints chars p m i t x lt fits
          (Movable-Roomy p m i (length t) movable) in
      let sum = long p q m i t2 x a h.no_old positive movable some_char in
      let le = room p q m i t2 x a h.no_old positive movable some_char in
      let len2 = length-append t2 (0 ∷ []) in
      let made : allocate_string new_chars new_ints i (length (m i) + length t2) p
          ≡ ret (offset q i, q) =
        ap (λ (n : ℕ). allocate_string new_chars new_ints i n p) (sym sum) ∙ e in
      let copied =
        copy_in_lem (within (offset p i)) q (offset q i) (m i)
          (first-Supplies p q m i t2 x a h.no_old positive movable some_char)
          (omega (arith, sum)) in
      let q1 = half p q m i t2 x a h.no_old positive movable some_char in
      let size = length-copy_bytes (offset q i) (m i) q.buffer (omega (arith, sum)) in
      let appended : copy_in (offset q i + length (m i)) s (length t2 + 1) q1
          ≡ ret (record q1 {
            buffer = copy_bytes (offset q i + length (m i)) (t2 ++ (0 ∷ [])) q1.buffer;
          }) =
        ap (λ (n : ℕ). copy_in (offset q i + length (m i)) s n q1) (sym len2)
        ∙ copy_in_lem s q1 (offset q i + length (m i)) (t2 ++ (0 ∷ []))
            (second-Supplies p q m i t2 x a h.no_old positive movable some_char s r)
            (omega (arith, size, len2, sum)) in
      let whole : copy_bytes (offset q i + length (m i)) (t2 ++ (0 ∷ [])) q1.buffer
          ≡ copy_bytes (offset q i) (t ++ (0 ∷ [])) q.buffer =
        copy_bytes-behind (offset q i) (m i) (t2 ++ (0 ∷ [])) q.buffer (omega (arith, len2, sum))
        ∙ ap (λ (v : List ℕ). copy_bytes (offset q i) v q.buffer)
            (sym (append_assoc (m i) t2 (0 ∷ []))) in
      (
        record q { buffer = copy_bytes (offset q i) (t ++ (0 ∷ [])) q.buffer; old_buffer = [] },
        rw (read, nz, inside, found, stands, old, made, copied, appended, whole) refl,
        record {
          texts = fill-Texts q m i t a.vacant [] x.clean (NoZero-append (m i) t2 (x.clean i) clean);
          no_old = refl;
        },
      )

  -- On a pool that stands for texts, where allocations below 2 ^ 31 succeed, the index, the number
  -- of offsets and the characters are below 2 ^ 29, and string i, if it stands last in the buffer,
  -- either is empty and fits the block with its new text, or is not empty, does not fit the block
  -- with its new text, and all strings of higher indices are empty: `Concatenate` appends the text
  -- of the pointer to string i, which is in range, and leaves the others what they are. The pointer
  -- is null, or to a string outside or of another index of the pool.
  pub concatenate-Represents :
      Allocates new_ints (2 ^ 31)
      → (p : StringPool) (m : ℕ → List ℕ) (i : ℕ) (t2 : List ℕ) (s : Source) → Represents p m
      → Refers s p m i t2
      → i < p.num
      → i < 2 ^ 29
      → p.offsets_size < 2 ^ 29
      → p.data_size + length (m i ++ t2) < 2 ^ 29
      → Movable p m i (length (m i ++ t2))
      → (p' : StringPool) × (concatenate new_chars new_ints (pos i) s p ≡ ret p')
        × Represents p' (put m i (m i ++ t2))
  unfolding concatenate get_string
  concatenate-Represents ints p m i t2 s h r lt small few fits movable =
      let x = h.texts in
      let l = x.layout in
      let (read, clean) = Refers-text_of s p m i t2 x r in
      elim (Bool-cases (length t2 == 0)) [
        | inl z ↦
            let nil : t2 ≡ [] = nil_of_length t2 (ground arith) in
            (
              p,
              rw (read, z) refl,
              rw nil (record {
                texts =
                    same-Texts p m (put m i (m i ++ []))
                      (λ j. elim (Bool-cases (j == i)) [
                        | inl e ↦ let same : j ≡ i = ground arith in rw (e, same) (append-nil (m i))
                        | inr e ↦ rw e refl
                      ])
                      x;
                no_old = h.no_old;
              }),
            )
        | inr nz ↦
            let inside : leb p.num i ≡ false = ground arith in
            let found = get_elem?-eq-get_or p.offsets i 0 (omega (arith, l.count, l.indices)) in
            elim (Bool-cases (offset p i == 0)) [
              | inl z ↦
                  let nil : m i ≡ [] = nil_of_length (m i) (l.empty i (ground arith)) in
                  let (p', e, h') =
                    set_string-Represents new_chars new_ints chars ints p m i t2 s h r small few
                      (omega (arith, length-append (m i) t2)) (λ positive. absurd (ground arith)) in
                  (p', rw (read, nz, inside, found, z) e, rw nil h')
              | inr stands ↦
                  append-Represents p m i t2 s h r (ground arith) (ground arith) lt fits movable
            ]
      ]
