-- ===== src/Containers/StringPoolL/Sized.antt =====
-- Strings with a length in the buffer of StringPoolL.cpp, and the loop of its `ReserveBuf`.
use linux_multiarch_asm.Base.{
  ℕ, suc, ◌+◌, ◌*◌, ◌/◌, ◌%◌, ◌^◌, ◌≤◌, ◌<◌, ◌≡◌, inl, inr, refl, sym, ap, ◌∙◌, true, false, some,
  List, [], ◌∷◌, ◌++◌, arith, ltb, leb, ◌==◌, length, get_elem?, get_or, take, drop, length-append,
}
use linux_multiarch_asm.Containers.Outcome.{ret}
use linux_multiarch_asm.Containers.Memory.{copy_bytes}
use linux_multiarch_asm.Containers.Memory.Text.{
  Holds, Holds-lt, take-Holds, Holds-of_copy, length-copy_bytes, copy_bytes-below,
}
use linux_multiarch_asm.Containers.StringPool.{Compacted}
use linux_multiarch_asm.Containers.StringPool.Compact.{live, Stored, Packs}
use linux_multiarch_asm.Containers.StringPoolL.{load_length, compact_sized}

-- What a string takes of the buffer, but for the zero at its end: its length and its characters.
abbrev pub sized : List ℕ → List ℕ
sized [] = []
sized (c ∷ t) = length (c ∷ t) % 256 ∷ length (c ∷ t) / 256 % 256 ∷ c ∷ t

pub length-sized : (t : List ℕ) → 0 < length t → length (sized t) ≡ length t + 2
length-sized [] h = absurd (omega arith)
length-sized (c ∷ t) h = omega arith

-- The length word of a string is its length.
load_length-sized :
    (b : List ℕ) (o : ℕ) (t : List ℕ)
    → Holds b o (sized t)
    → 0 < length t
    → length t < 2 ^ 16
    → load_length b o ≡ ret (length t)
unfolding load_length
load_length-sized b o [] h some_char short = absurd (omega arith)
load_length-sized b o (c ∷ t) h some_char short =
    let at : o ≡ o + 0 = omega arith in
    let low : get_elem? b o ≡ some (length (c ∷ t) % 256) =
      ap (λ (k : ℕ). get_elem? b k) at ∙ h 0 (omega arith) in
    let high : get_elem? b (o + 1) ≡ some (length (c ∷ t) / 256 % 256) = h 1 (omega arith) in
    let n : ℕ = length (c ∷ t) in
    let value : n % 256 + 256 * (n / 256 % 256) ≡ n = omega arith in rw (low, high) (ap ret value)

Holds-kept :
    (b b' : List ℕ) (o : ℕ) (t : List ℕ)
    → Holds b o t
    → ((n : ℕ) → n < o + (length t + 1) → get_elem? b' n ≡ get_elem? b n)
    → Holds b' o t
Holds-kept b b' o t h same k lt = same (o + k) (omega arith) ∙ h k lt

-- The loop's variables after it has copied a string.
abbrev moved : Compacted → List ℕ → Compacted
moved c t = record {
  cells = copy_bytes c.used (sized t ++ (0 ∷ [])) c.cells;
  used = c.used + (length (sized t) + 1);
  highest = c.used;
}

module _ (old : List ℕ) (m : ℕ → List ℕ) (short : (i : ℕ) → length (m i) < 2 ^ 16) where
  one_more :
      (o : ℕ) (os : List ℕ) (k : ℕ) (c : Compacted) (r : List ℕ × Compacted)
      → 0 < o
      → Holds old o (sized (m k))
      → 0 < length (m k)
      → c.used + (length (sized (m k)) + 1) ≤ length c.cells
      → length c.cells < 2 ^ 32
      → compact_sized old os (moved c (m k)) ≡ ret r
      → Packs (λ i. sized (m i)) (suc k) os (moved c (m k)) r
      → (compact_sized old (o ∷ os) c ≡ ret (c.used ∷ r.0, r.1))
        × Packs (λ i. sized (m i)) k (o ∷ os) c (c.used ∷ r.0, r.1)
  unfolding compact_sized live
  one_more o os k c r positive h chars room small e p =
      let offset : (o == 0) ≡ false = ground arith in
      let long = length-sized (m k) chars in
      let found = load_length-sized old o (m k) h chars (short k) in
      let nz : (length (m k) == 0) ≡ false = ground arith in
      let inside : ltb (length old) (o + (length (m k) + 3)) ≡ false =
        ground (arith, Holds-lt old o (sized (m k)) h) in
      let three : length (sized (m k)) + 1 ≡ length (m k) + 3 = omega arith in
      let taken : take (length (m k) + 3) (drop o old) ≡ sized (m k) ++ (0 ∷ []) =
        ap (λ (n : ℕ). take n (drop o old)) (sym three) ∙ take-Holds old o (sized (m k)) h in
      let whole = length-append (sized (m k)) (0 ∷ []) in
      let le : c.used + length (sized (m k) ++ (0 ∷ [])) ≤ length c.cells = omega arith in
      let fits : leb (c.used + length (sized (m k) ++ (0 ∷ []))) (length c.cells) ≡ true =
        ground arith in
      let sum : (c.used + length (m k) + 3) % 2 ^ 32 ≡ c.used + (length (sized (m k)) + 1) =
        omega arith in
      (
        rw (offset, found, nz, inside, taken, fits, sum, e) refl,
        record {
          packed = inr (
            refl,
            omega arith,
            Holds-kept (moved c (m k)).cells r.1.cells c.used (sized (m k))
                (Holds-of_copy c.used (sized (m k)) c.cells room) p.kept,
            p.packed,
          );
          size = p.size ∙ length-copy_bytes c.used (sized (m k) ++ (0 ∷ [])) c.cells le;
          kept = λ n lt.
              p.kept n (omega arith)
              ∙ copy_bytes-below c.used (sized (m k) ++ (0 ∷ [])) c.cells le n lt;
          count = ap suc p.count;
          within = rw offset (omega (arith, p.within));
        },
      )

  -- Where there is room for the strings in the new buffer, the loop packs them all in it.
  pub compact_sized-Packs :
      (os : List ℕ) (k : ℕ) (c : Compacted)
      → Stored old (λ i. sized (m i)) k os
      → ((j i : ℕ) → i ≡ k + j → 0 < get_or os j 0 → 0 < length (m i))
      → c.used + live (λ i. length (sized (m i))) k os ≤ length c.cells
      → length c.cells < 2 ^ 32
      → (r : List ℕ × Compacted) × (compact_sized old os c ≡ ret r)
        × Packs (λ i. sized (m i)) k os c r
  unfolding compact_sized live
  compact_sized-Packs [] k c s chars_in room small = (
    ([], c),
    refl,
    record {
      packed = (refl, refl);
      size = refl;
      kept = λ n h. refl;
      count = refl;
      within = omega arith;
    },
  )
  compact_sized-Packs (o ∷ os) k c (inl (z, empty), s) chars_in room small =
      let zero_offset : (o == 0) ≡ true = ground arith in
      let (r, e, p) =
        compact_sized-Packs os (suc k) c s (λ j i e. chars_in (suc j) i (omega arith)) (omega arith)
          small in
      (
        (0 ∷ r.0, r.1),
        rw (zero_offset, e),
        record {
          packed = inl (refl, empty, p.packed);
          size = p.size;
          kept = p.kept;
          count = ap suc p.count;
          within = rw zero_offset (omega (arith, p.within));
        },
      )
  compact_sized-Packs (o ∷ os) k c (inr (positive, h), s) chars_in room small =
      let offset : (o == 0) ≡ false = ground arith in
      let chars : 0 < length (m k) = chars_in 0 k (omega arith) positive in
      let long = length-sized (m k) chars in
      let need : c.used + (length (sized (m k)) + 1 + live (λ i. length (sized (m i))) (suc k) os)
          ≤ length c.cells =
        rw offset at room in
      let fits : c.used + (length (sized (m k)) + 1) ≤ length c.cells = omega arith in
      let size =
        length-copy_bytes c.used (sized (m k) ++ (0 ∷ [])) c.cells
          (omega (arith, length-append (sized (m k)) (0 ∷ []))) in
      let (r, e, p) =
        compact_sized-Packs os (suc k) (moved c (m k)) s (λ j i e. chars_in (suc j) i (omega arith))
          (omega arith) (omega arith) in
      let (e', p') = one_more o os k c r positive h chars fits small e p in
      ((c.used ∷ r.0, r.1), e', p')
