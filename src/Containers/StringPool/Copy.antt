-- ===== src/Containers/StringPool/Copy.antt =====
-- The `memcpy` of a string into a pool of StringPoolS.cpp, from outside or from the pool itself.
use linux_multiarch_asm.Base.{
  ℕ, ◌+◌, ◌-◌, ◌≤◌, ◌<◌, ◌≡◌, ◌≢◌, inl, inr, refl, ap, ◌∙◌, true, false, not, some, List, [], ◌∷◌,
  ◌++◌, arith, leb, ◌==◌, if◌then◌else◌, length, Bool-cases, length-append,
}
use linux_multiarch_asm.Containers.Outcome.{ret}
use linux_multiarch_asm.Containers.Memory.{copy_bytes}
use linux_multiarch_asm.Containers.Memory.Text.{
  c_string, NoZero, Holds, take-Holds, Holds-lt, c_string-NoZero, c_string-Holds,
}
use linux_multiarch_asm.Containers.StringPool.{
  StringPool, Source, null_pointer, outside, within, chars_at, clashes, copy_in, text_of,
}
use linux_multiarch_asm.Containers.StringPool.Layout.{offset, Texts}
use linux_multiarch_asm.Containers.StringPool.Put.{put, put_self, put_ne}
use linux_multiarch_asm.Containers.StringPool.Offsets.{nil_of_length}
use linux_multiarch_asm.Containers.StringPool.Allocate.{Allocated}

-- The pointer is to the text `t`, which is not that of index `i` in the pool itself.
abbrev pub Refers : Source → StringPool → (ℕ → List ℕ) → ℕ → List ℕ → Type 0
Refers null_pointer p m i t = t ≡ []
Refers (outside u) p m i t = c_string u ≡ some t
Refers (within o) p m i t = (j : ℕ) × (j ≢ i) × (o ≡ offset p j) × (t ≡ m j)

-- The block that a pointer into the pool points into after `Allocate`.
abbrev pub source_block : StringPool → List ℕ
source_block p = if not (length p.old_buffer == 0) then p.old_buffer else p.buffer

-- The pointer gives these bytes, and their copy to `to` does not overlap.
pub record Supplies (s : Source) (p : StringPool) (to : ℕ) (v : List ℕ) : Type 0 where
  pub bytes : chars_at s (length v) (source_block p) ≡ ret v
  pub clear : (length p.old_buffer == 0) ≡ true → clashes s (length v) to ≡ false

pub copy_in_lem :
    (s : Source) (p : StringPool) (to : ℕ) (v : List ℕ)
    → Supplies s p to v
    → to + length v ≤ length p.buffer
    → copy_in to s (length v) p ≡ ret (record p { buffer = copy_bytes to v p.buffer })
copy_in_lem s p to v h fits =
    let room : leb (to + length v) (length p.buffer) ≡ true = ground arith in
    elim (Bool-cases (length p.old_buffer == 0)) [
      | inl none_old ↦
          let b : chars_at s (length v) p.buffer ≡ ret v = let b = h.bytes in rw none_old at b in
          rw (none_old, h.clear none_old, b, room) refl
      | inr moved ↦
          let b : chars_at s (length v) p.old_buffer ≡ ret v = let b = h.bytes in rw moved at b in
          rw (moved, b, room) refl
    ]

-- The bytes of a string outside.
pub chars_at-outside :
    (u t b : List ℕ) (n : ℕ)
    → n ≡ length t + 1
    → c_string u ≡ some t
    → chars_at (outside u) n b ≡ ret (t ++ (0 ∷ []))
chars_at-outside u t b n count e =
    let held = (c_string-NoZero u t e).1 in
    let room : leb (length t + 1) (length u) ≡ true = ground (arith, Holds-lt u 0 t held) in
    rw (count, room, take-Holds u 0 t held) refl

pub chars_at-within :
    (o : ℕ) (t b : List ℕ) (n : ℕ)
    → n ≡ length t + 1
    → Holds b o t
    → chars_at (within o) n b ≡ ret (t ++ (0 ∷ []))
chars_at-within o t b n count held =
    let room : leb (length t + 1) (length b - o) ≡ true = ground (arith, Holds-lt b o t held) in
    rw (count, room, take-Holds b o t held) refl

module _ (p p' : StringPool) (m : ℕ → List ℕ) (i : ℕ) (t : List ℕ) (x : Texts p m)
    (a : Allocated p p' m i t) (none_old : p.old_buffer ≡ []) where
  pub source_lem : source_block p' ≡ p.buffer
  source_lem = elim a.beside [
    | inl u ↦ let z : p'.old_buffer ≡ [] = u.old ∙ none_old in rw z u.buffer
    | inr old ↦
        let nz : (length p.buffer == 0) ≡ false =
          ground (arith, x.layout.size, x.layout.fits, x.layout.started) in
        rw (old, nz) refl
  ]

  -- What is read of another string does not overlap with the new place.
  pub clear-within :
      (j : ℕ)
      → j ≢ i
      → 0 < offset p j
      → (o to n : ℕ) → offset p j ≤ o
      → o + n ≤ offset p j + (length (m j) + 1)
      → offset p' i ≤ to
      → to + n ≤ offset p' i + (length t + 1)
      → (length p'.old_buffer == 0) ≡ true
      → clashes (within o) n to ≡ false
  clear-within j ne h o to n from_j end_j from_i end_i unmoved = elim a.beside [
    | inl u ↦
        let e = u.others j ne in
        let (ei, ej) : (length (put m i t i) ≡ length t) × (length (put m i t j) ≡ length (m j)) =
          (ap length (put_self m i t), ap length (put_ne m i t j ne)) in
        elim (a.vacant.layout.apart j i ne (omega arith) a.vacant.positive) [
          | inl le ↦ ground arith
          | inr le ↦ ground arith
        ]
    | inr old ↦
        absurd (ground (arith, ap length old, x.layout.size, x.layout.fits, x.layout.started))
  ]

  pub Refers-Supplies :
      (s : Source) → Refers s p m i t → 0 < length t → Supplies s p' (offset p' i) (t ++ (0 ∷ []))
  Refers-Supplies null_pointer r some_char = absurd (omega (arith, ap length r))
  Refers-Supplies (outside u) r some_char = record {
    bytes = chars_at-outside u t (source_block p') _ (length-append t (0 ∷ [])) r;
    clear = λ e. refl;
  }
  Refers-Supplies (within o) (j, ne, at, same) some_char =
      let positive : 0 < offset p j = elim (Bool-cases (offset p j == 0)) [
        | inl z ↦ absurd (omega (arith, x.layout.empty j (ground arith), ap length same))
        | inr nz ↦ ground arith
      ] in
      let held : Holds p.buffer (offset p j) t = rw same (x.holds j positive) in
      rw at (record {
        bytes =
            rw source_lem
              (chars_at-within (offset p j) t p.buffer _ (length-append t (0 ∷ [])) held);
        clear =
            let long = length-append t (0 ∷ []) in
            clear-within j ne positive (offset p j) (offset p' i) (length (t ++ (0 ∷ [])))
              (omega arith) (omega (arith, long, ap length same)) (omega arith)
              (omega (arith, long));
      })

-- What the pointer stands for.
pub Refers-text_of :
    (s : Source) (p : StringPool) (m : ℕ → List ℕ) (i : ℕ) (t : List ℕ)
    → Texts p m
    → Refers s p m i t
    → (text_of s p.buffer ≡ ret t) × NoZero t
Refers-text_of null_pointer p m i t x r = rw r (refl, tt)
Refers-text_of (outside u) p m i t x r = (rw r refl, (c_string-NoZero u t r).0)
Refers-text_of (within o) p m i t x (j, ne, at, same) = elim (Bool-cases (offset p j == 0)) [
  | inl z ↦
      let zero_at : o ≡ 0 = at ∙ ground arith in
      let nil : t ≡ [] = same ∙ nil_of_length (m j) (x.layout.empty j (ground arith)) in
      rw (zero_at, c_string-Holds p.buffer 0 [] tt x.blank, nil) (refl, tt)
  | inr nz ↦
      let found =
        c_string-Holds p.buffer (offset p j) (m j) (x.clean j) (x.holds j (ground arith)) in
      rw (at, found, same) (refl, x.clean j)
]
