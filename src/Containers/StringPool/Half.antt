-- ===== src/Containers/StringPool/Half.antt =====
-- The two copies of `Concatenate` in StringPoolS.cpp.
use linux_multiarch_asm.Base.{
  ℕ, ◌+◌, ◌-◌, ◌≤◌, ◌<◌, ◌≡◌, ◌≢◌, inl, inr, refl, sym, ap, ◌∙◌, true, false, List, [], ◌∷◌, ◌++◌,
  arith, leb, ◌==◌, length, take, drop, Bool-cases, length-append,
}
use linux_multiarch_asm.Containers.Outcome.{ret}
use linux_multiarch_asm.Containers.Memory.{copy_bytes}
use linux_multiarch_asm.Containers.Memory.Text.{Holds, Holds-lt, Holds-copy_bytes}
use linux_multiarch_asm.Containers.StringPool.{
  StringPool, Source, null_pointer, outside, within, chars_at,
}
use linux_multiarch_asm.Containers.StringPool.Layout.{offset, Texts}
use linux_multiarch_asm.Containers.StringPool.Put.{put, put_self, put_ne}
use linux_multiarch_asm.Containers.StringPool.Offsets.{take-all}
use linux_multiarch_asm.Containers.StringPool.Allocate.{Allocated}
use linux_multiarch_asm.Containers.StringPool.Place.{Movable}
use linux_multiarch_asm.Containers.StringPool.Copy.{
  Refers, Supplies, source_block, source_lem, clear-within, chars_at-outside, chars_at-within,
}
use linux_multiarch_asm.Containers.StringPool.Chars.{take-span}

module _ (p q : StringPool) (m : ℕ → List ℕ) (i : ℕ) (t2 : List ℕ) (x : Texts p m)
    (a : Allocated p q m i (m i ++ t2)) (none_old : p.old_buffer ≡ []) (positive : 0 < offset p i)
    (movable : Movable p m i (length (m i ++ t2))) (some_char : 0 < length t2) where
  pub long : length (m i ++ t2) ≡ length (m i) + length t2
  long = length-append (m i) t2

  pub room : offset q i + (length (m i ++ t2) + 1) ≤ length q.buffer
  room =
      let l = a.vacant.layout in
      omega
        (arith, l.ends i a.vacant.positive, ap length (put_self m i (m i ++ t2)), l.fits, l.size)

  -- The first string is copied from its old place.
  pub first-Supplies : Supplies (within (offset p i)) q (offset q i) (m i)
  first-Supplies =
      let held = x.holds i positive in
      let inside : leb (length (m i)) (length p.buffer - offset p i) ≡ true =
        ground (arith, Holds-lt p.buffer (offset p i) (m i) held) in
      let at : offset p i + 0 ≡ offset p i = omega arith in
      let text : take (length (m i)) (drop (offset p i) p.buffer) ≡ m i =
        ap (λ (n : ℕ). take (length (m i)) (drop n p.buffer)) (sym at)
        ∙ take-span p.buffer (offset p i) (m i) 0 (length (m i)) held (omega arith)
        ∙ take-all (m i) (length (m i)) (omega arith) in
      let bytes : chars_at (within (offset p i)) (length (m i)) p.buffer ≡ ret (m i) =
        rw (inside, text) refl in
      record {
        bytes = rw (source_lem p q m i (m i ++ t2) x a none_old) bytes;
        clear = λ unmoved. elim a.beside [
          | inl u ↦ elim (u.own positive) [
            | inl (same, inl (at_top, fits)) ↦ elim (movable positive at_top) [
              | inl (nil, left) ↦ ground (arith, ap length nil)
              | inr (short, chars, nil) ↦ absurd (omega arith)
            ]
            | inl (same, inr le) ↦ absurd (omega (arith, long))
            | inr behind ↦ ground arith
          ]
          | inr old ↦
              absurd (ground (arith, ap length old, x.layout.size, x.layout.fits, x.layout.started))
        ];
      }

  -- The pool with the first string at the new place.
  abbrev pub half : StringPool
  half = record q { buffer = copy_bytes (offset q i) (m i) q.buffer }

  -- Another string is still there.
  half-Holds : (j : ℕ) → j ≢ i → 0 < offset p j → Holds (source_block half) (offset p j) (m j)
  half-Holds j ne h = elim a.beside [
    | inl u ↦
        let z : q.old_buffer ≡ [] = u.old ∙ none_old in
        let e = u.others j ne in
        let (ei, ej) : (length (put m i (m i ++ t2) i) ≡ length (m i ++ t2))
            × (length (put m i (m i ++ t2) j) ≡ length (m j)) =
          (ap length (put_self m i (m i ++ t2)), ap length (put_ne m i (m i ++ t2) j ne)) in
        let held : Holds q.buffer (offset p j) (m j) = rw u.buffer (x.holds j h) in
        rw z (
          Holds-copy_bytes (offset q i) (m i) q.buffer (omega (arith, room, long)) (offset p j)
            (m j) held
            (elim (a.vacant.layout.apart j i ne (omega arith) a.vacant.positive) [
              | inl le ↦ inl (omega arith)
              | inr le ↦ inr (omega (arith, long))
            ]))
    | inr old ↦
        let nz : (length p.buffer == 0) ≡ false =
          ground (arith, x.layout.size, x.layout.fits, x.layout.started) in
        rw (old, nz) (x.holds j h)
  ]

  pub second-Supplies :
      (s : Source)
      → Refers s p m i t2
      → Supplies s half (offset q i + length (m i)) (t2 ++ (0 ∷ []))
  second-Supplies null_pointer r = absurd (omega (arith, ap length r))
  second-Supplies (outside u) r = record {
    bytes = chars_at-outside u t2 (source_block half) _ (length-append t2 (0 ∷ [])) r;
    clear = λ e. refl;
  }
  second-Supplies (within o) (j, ne, at, same) =
      let there : 0 < offset p j = elim (Bool-cases (offset p j == 0)) [
        | inl z ↦ absurd (omega (arith, x.layout.empty j (ground arith), ap length same))
        | inr nz ↦ ground arith
      ] in
      let held : Holds (source_block half) (offset p j) t2 = rw same (half-Holds j ne there) in
      let len2 = length-append t2 (0 ∷ []) in
      rw at (record {
        bytes = chars_at-within (offset p j) t2 (source_block half) _ len2 held;
        clear =
            clear-within p q m i (m i ++ t2) x a none_old j ne there (offset p j)
              (offset q i + length (m i)) (length (t2 ++ (0 ∷ []))) (omega arith)
              (omega (arith, len2, ap length same)) (omega arith) (omega (arith, len2, long));
      })
