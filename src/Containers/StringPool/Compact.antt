-- ===== src/Containers/StringPool/Compact.antt =====
-- The loop of `ReserveBuf` in StringPoolS.cpp packs the strings, in the order of their indices.
use linux_multiarch_asm.Base.{
  ℕ, suc, ◌+◌, ◌≤◌, ◌<◌, ◌≡◌, ◌⊎◌, inl, inr, refl, ap, ◌∙◌, true, false, List, [], ◌∷◌, ◌++◌, arith,
  leb, ◌==◌, if◌then◌else◌, length, get_elem?, Bool-cases, length-append,
}
use linux_multiarch_asm.Containers.Outcome.{ret}
use linux_multiarch_asm.Containers.Memory.{copy_bytes}
use linux_multiarch_asm.Containers.Memory.Text.{
  NoZero, Holds, c_string-Holds, Holds-of_copy, length-copy_bytes, copy_bytes-below,
}
use linux_multiarch_asm.Containers.StringPool.{Compacted, compact}

-- The characters that the strings with an offset take, the first of the offsets being that of string `k`,
-- and the lengths `n`.
unfoldable pub live : (ℕ → ℕ) → ℕ → List ℕ → ℕ
live n k [] = 0
live n k (o ∷ os) = (if o == 0 then 0 else n k + 1) + live n (suc k) os

-- The old buffer holds the strings from number `k` on at these offsets; an offset 0 is an empty string.
abbrev pub Stored : List ℕ → (ℕ → List ℕ) → ℕ → List ℕ → Type 0
Stored b m k [] = Unit
Stored b m k (o ∷ os) =
    (((o ≡ 0) × (m k ≡ [])) ⊎ ((0 < o) × Holds b o (m k))) × Stored b m (suc k) os

-- The strings from number `k` on stand one behind the other between `from` and `end`; `high` is the
-- place of the last, or the given one if there is none.
abbrev pub Packed : List ℕ → (ℕ → List ℕ) → ℕ → List ℕ → ℕ → ℕ → ℕ → ℕ → Type 0
Packed b m k [] from high0 end high = (from ≡ end) × (high0 ≡ high)
Packed b m k (o ∷ os) from high0 end high =
    ((o ≡ 0) × (m k ≡ []) × Packed b m (suc k) os from high0 end high)
    ⊎ ((o ≡ from)
        × (0 < length (m k))
        × Holds b from (m k)
        × Packed b m (suc k) os (from + (length (m k) + 1)) from end high)

-- What the loop leaves, from where it started.
pub record Packs (m : ℕ → List ℕ) (k : ℕ) (os : List ℕ) (c : Compacted) (r : List ℕ × Compacted)
    : Type 0 where
  pub packed : Packed r.1.cells m k r.0 c.used c.highest r.1.used r.1.highest
  pub size : length r.1.cells ≡ length c.cells
  pub kept : (n : ℕ) → n < c.used → get_elem? r.1.cells n ≡ get_elem? c.cells n
  pub count : length r.0 ≡ length os
  pub within : r.1.used ≤ c.used + live (λ i. length (m i)) k os

-- The loop's variables after it has copied a string.
abbrev moved : Compacted → List ℕ → Compacted
moved c t = record {
  cells = copy_bytes c.used (t ++ (0 ∷ [])) c.cells;
  used = c.used + (length t + 1);
  highest = c.used;
}

Holds-kept :
    (b b' : List ℕ) (o : ℕ) (t : List ℕ)
    → Holds b o t
    → ((n : ℕ) → n < o + (length t + 1) → get_elem? b' n ≡ get_elem? b n)
    → Holds b' o t
Holds-kept b b' o t h same k lt = same (o + k) (omega arith) ∙ h k lt

module _ (old : List ℕ) (m : ℕ → List ℕ) (clean : (i : ℕ) → NoZero (m i)) where
  one_more :
      (o : ℕ) (os : List ℕ) (k : ℕ) (c : Compacted) (r : List ℕ × Compacted)
      → 0 < o
      → Holds old o (m k)
      → 0 < length (m k)
      → c.used + (length (m k) + 1) ≤ length c.cells
      → compact old os (moved c (m k)) ≡ ret r
      → Packs m (suc k) os (moved c (m k)) r
      → (compact old (o ∷ os) c ≡ ret (c.used ∷ r.0, r.1))
        × Packs m k (o ∷ os) c (c.used ∷ r.0, r.1)
  unfolding compact live
  one_more o os k c r positive h some_char fits e p =
      let offset : (o == 0) ≡ false = ground arith in
      let found = c_string-Holds old o (m k) (clean k) h in
      let nz : (length (m k) == 0) ≡ false = ground arith in
      let le : c.used + length (m k ++ (0 ∷ [])) ≤ length c.cells =
        omega (arith, length-append (m k) (0 ∷ [])) in
      let fits' : leb (c.used + length (m k ++ (0 ∷ []))) (length c.cells) ≡ true = ground arith in
      (
        rw (offset, found, nz, fits', e),
        record {
          packed = inr (
            refl,
            some_char,
            Holds-kept (moved c (m k)).cells r.1.cells c.used (m k)
                (Holds-of_copy c.used (m k) c.cells fits) p.kept,
            p.packed,
          );
          size = p.size ∙ length-copy_bytes c.used (m k ++ (0 ∷ [])) c.cells le;
          kept = λ n lt.
              p.kept n (omega arith) ∙ copy_bytes-below c.used (m k ++ (0 ∷ [])) c.cells le n lt;
          count = ap suc p.count;
          within = rw offset (omega (arith, p.within));
        },
      )

  -- Where there is room for the strings in the new buffer, the loop packs them all in it.
  pub compact-Packs :
      (os : List ℕ) (k : ℕ) (c : Compacted)
      → Stored old m k os
      → c.used + live (λ i. length (m i)) k os ≤ length c.cells
      → (r : List ℕ × Compacted) × (compact old os c ≡ ret r) × Packs m k os c r
  unfolding compact live
  compact-Packs [] k c s room = (
    ([], c),
    refl,
    record {
      packed = (refl, refl);
      size = refl;
      kept = λ n h. refl;
      count = refl;
      within = omega arith;
    },
  )
  compact-Packs (o ∷ os) k c (inl (z, empty), s) room =
      let zero_offset : (o == 0) ≡ true = ground arith in
      let (r, e, p) = compact-Packs os (suc k) c s (omega arith) in
      (
        (0 ∷ r.0, r.1),
        rw (zero_offset, e),
        record {
          packed = inl (refl, empty, p.packed);
          size = p.size;
          kept = p.kept;
          count = ap suc p.count;
          within = rw zero_offset (omega (arith, p.within));
        },
      )
  compact-Packs (o ∷ os) k c (inr (positive, h), s) room =
      let offset : (o == 0) ≡ false = ground arith in
      let found = c_string-Holds old o (m k) (clean k) h in
      elim (Bool-cases (length (m k) == 0)) [
        | inl z ↦
            let empty : m k ≡ [] = nil_of_length (m k) (ground arith) in
            let (r, e, p) = compact-Packs os (suc k) c s (omega arith) in
            (
              (0 ∷ r.0, r.1),
              rw (offset, found, z, e),
              record {
                packed = inl (refl, empty, p.packed);
                size = p.size;
                kept = p.kept;
                count = ap suc p.count;
                within = rw offset (omega (arith, p.within));
              },
            )
        | inr nz ↦
            let need : c.used + (length (m k) + 1 + live (λ i. length (m i)) (suc k) os)
                ≤ length c.cells =
              rw offset at room in
            let fits : c.used + (length (m k) + 1) ≤ length c.cells = omega arith in
            let size =
              length-copy_bytes c.used (m k ++ (0 ∷ [])) c.cells
                (omega (arith, length-append (m k) (0 ∷ []))) in
            let (r, e, p) = compact-Packs os (suc k) (moved c (m k)) s (omega arith) in
            let (e', p') = one_more o os k c r positive h (ground arith) fits e p in
            ((c.used ∷ r.0, r.1), e', p')
      ]
    where
      nil_of_length : (t : List ℕ) → length t ≡ 0 → t ≡ []
      nil_of_length [] e = refl
      nil_of_length (x ∷ t) e = absurd (omega arith)
