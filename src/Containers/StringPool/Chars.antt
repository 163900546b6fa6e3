-- ===== src/Containers/StringPool/Chars.antt =====
-- `Set` with a length, of StringPoolS.cpp.
use linux_multiarch_asm.Base.{
  ℕ, ◌+◌, ◌-◌, ◌^◌, ◌≤◌, ◌<◌, ◌≡◌, ◌≢◌, inl, inr, refl, sym, ap, ◌∙◌, true, Option, List, [], ◌∷◌,
  ◌++◌, arith, ltb, leb, ◌==◌, length, get_elem?, take, drop, Bool-cases, length-take,
  get_elem?_ext, get_elem?-take, get_elem?-drop, get_elem?-none, get_elem?-append_left,
}
use linux_multiarch_asm.Base.Int.{pos}
use linux_multiarch_asm.Containers.Outcome.{ret, ◌>>=◌}
use linux_multiarch_asm.Containers.Growth.{Allocates}
use linux_multiarch_asm.Containers.Memory.{copy_bytes}
use linux_multiarch_asm.Containers.Memory.Text.{
  NoZero, Holds, Holds-lt, copy_bytes-behind, length-copy_bytes,
}
use linux_multiarch_asm.Containers.StringPool.{
  StringPool, Source, null_pointer, outside, within, copy_in, allocate_string, set_chars, release,
  store_bytes, chars_at,
}
use linux_multiarch_asm.Containers.StringPool.Layout.{offset, Texts, Represents}
use linux_multiarch_asm.Containers.StringPool.Put.{put, put_self}
use linux_multiarch_asm.Containers.StringPool.Offsets.{nil_of_length}
use linux_multiarch_asm.Containers.StringPool.Vacant.{fill-Texts}
use linux_multiarch_asm.Containers.StringPool.Allocate.{Allocated}
use linux_multiarch_asm.Containers.StringPool.Place.{Roomy, allocate_string-Allocated}
use linux_multiarch_asm.Containers.StringPool.Index.{Grown, Grown-Texts, grow_num-Grown}
use linux_multiarch_asm.Containers.StringPool.Erase.{erase_string-Texts}
use linux_multiarch_asm.Containers.StringPool.Copy.{Supplies, copy_in_lem, source_lem, clear-within}
use linux_multiarch_asm.Containers.StringPool.Set.{Grown-Roomy}

-- At the pointer stand the characters `t`, which may be a part of a string of another index than `i`.
abbrev pub Spans : Source → StringPool → (ℕ → List ℕ) → ℕ → List ℕ → Type 0
Spans null_pointer p m i t = t ≡ []
Spans (outside u) p m i t = (length t ≤ length u) × (take (length t) u ≡ t)
Spans (within o) p m i t =
    (j : ℕ) × (d : ℕ) × (j ≢ i)
    × (0 < offset p j)
    × (o ≡ offset p j + d)
    × (d + length t ≤ length (m j))
    × (t ≡ take (length t) (drop d (m j)))

-- A part of a string in the buffer.
pub take-span :
    (b : List ℕ) (a : ℕ) (w : List ℕ) (d n : ℕ)
    → Holds b a w
    → d + n ≤ length w
    → take n (drop (a + d) b) ≡ take n (drop d w)
take-span b a w d n h le = get_elem?_ext _ _ (λ k. elim (Bool-cases (ltb k n)) [
  | inl lt ↦
      let under : k < n = ground arith in
      let at : a + d + k ≡ a + (d + k) = omega arith in
      get_elem?-take n (drop (a + d) b) k under
      ∙ get_elem?-drop (a + d) b k (a + d + k) refl
      ∙ ap (λ (x : ℕ). get_elem? b x) at
      ∙ h (d + k) (omega arith)
      ∙ get_elem?-append_left w (0 ∷ []) (d + k) (omega arith)
      ∙ sym (get_elem?-drop d w k (d + k) refl)
      ∙ sym (get_elem?-take n (drop d w) k under)
  | inr ge ↦
      get_elem?-none (take n (drop (a + d) b)) k (ground (arith, length-take n (drop (a + d) b)))
      ∙ sym (get_elem?-none (take n (drop d w)) k (ground (arith, length-take n (drop d w))))
])

module _ (p p' : StringPool) (m : ℕ → List ℕ) (i : ℕ) (t : List ℕ) (x : Texts p m)
    (a : Allocated p p' m i t) (none_old : p.old_buffer ≡ []) where
  Spans-Supplies : (s : Source) → Spans s p m i t → 0 < length t → Supplies s p' (offset p' i) t
  Spans-Supplies null_pointer r some_char = absurd (omega (arith, ap length r))
  Spans-Supplies (outside u) (le, e) some_char = record {
    bytes = let room : leb (length t) (length u) ≡ true = ground arith in rw (room, e) refl;
    clear = λ e'. refl;
  }
  Spans-Supplies (within o) (j, d, ne, positive, at, le, same) some_char =
      let held = x.holds j positive in
      let inside : leb (length t) (length p.buffer - (offset p j + d)) ≡ true =
        ground (arith, Holds-lt p.buffer (offset p j) (m j) held) in
      let bytes : chars_at (within (offset p j + d)) (length t) p.buffer ≡ ret t =
        rw (inside, take-span p.buffer (offset p j) (m j) d (length t) held le)
          (ap ret (sym same)) in
      rw at (record {
        bytes = rw (source_lem p p' m i t x a none_old) bytes;
        clear =
            clear-within p p' m i t x a none_old j ne positive (offset p j + d) (offset p' i)
              (length t) (omega arith) (omega arith) (omega arith) (omega arith);
      })

module _ (new_chars new_ints : ℕ → Option (List ℕ)) (chars : Allocates new_chars (2 ^ 31)) where
  store-chars :
      (p : StringPool) (m : ℕ → List ℕ) (i : ℕ) (t : List ℕ) (s : Source)
      → Texts p m
      → p.old_buffer ≡ []
      → i < p.num
      → 0 < length t
      → p.data_size + length t < 2 ^ 29
      → Roomy p m i (length t)
      → NoZero t
      → Spans s p m i t
      → (p' : StringPool) × ((allocate_string new_chars new_ints i (length t) p >>= λ r.
            copy_in r.0 s (length t) r.1 >>= λ p2.
            store_bytes (r.0 + length t) (0 ∷ []) p2.buffer >>= λ b.
            ret (release (record p2 { buffer = b })))
          ≡ ret p')
        × Represents p' (put m i t)
  store-chars p m i t s x none_old lt some_char small roomy clean r =
      let (q, e, a) = allocate_string-Allocated new_chars new_ints chars p m i t x lt small roomy in
      let l = a.vacant.layout in
      let fits : offset q i + (length t + 1) ≤ length q.buffer =
        omega (arith, l.ends i a.vacant.positive, ap length (put_self m i t), l.fits, l.size) in
      let copied =
        copy_in_lem s q (offset q i) t (Spans-Supplies p q m i t x a none_old s r some_char)
          (omega arith) in
      let size = length-copy_bytes (offset q i) t q.buffer (omega arith) in
      let room : leb (offset q i + length t + length {A = ℕ} (0 ∷ []))
            (length (copy_bytes (offset q i) t q.buffer))
          ≡ true =
        ground (arith, size) in
      let ended = copy_bytes-behind (offset q i) t (0 ∷ []) q.buffer (omega arith) in
      (
        record q { buffer = copy_bytes (offset q i) (t ++ (0 ∷ [])) q.buffer; old_buffer = [] },
        rw (e, copied, room, ended) refl,
        record { texts = fill-Texts q m i t a.vacant [] x.clean clean; no_old = refl },
      )

  pub set_chars-Represents :
      Allocates new_ints (2 ^ 31)
      → (p : StringPool) (m : ℕ → List ℕ) (i : ℕ) (t : List ℕ) (s : Source) → Represents p m
      → (0 < length t → Spans s p m i t)
      → NoZero t
      → i < 2 ^ 29
      → p.offsets_size < 2 ^ 29
      → p.data_size + length t < 2 ^ 29
      → Roomy p m i (length t)
      → (p' : StringPool) × (set_chars new_chars new_ints (pos i) s (pos (length t)) p ≡ ret p')
        × Represents p' (put m i t)
  unfolding set_chars
  set_chars-Represents ints p m i t s h r clean small few fits roomy =
      let x = h.texts in
      let (q, e, g, lt) =
        grow_num-Grown new_chars new_ints ints p i
          (record { size = x.layout.indices; count = x.layout.count }) small few in
      let y = Grown-Texts p q m x g in
      elim (Bool-cases (length t == 0)) [
        | inl z ↦
            let (p', e', y', old) = erase_string-Texts q m i y lt in
            let nil : t ≡ [] = nil_of_length t (ground arith) in
            (p', rw (e, z) e', rw nil (record { texts = y'; no_old = old ∙ g.old ∙ h.no_old }))
        | inr nz ↦
            let (p', e', h') =
              store-chars q m i t s y (g.old ∙ h.no_old) lt (ground arith)
                (omega (arith, g.data_size)) (Grown-Roomy p q m i (length t) g roomy) clean
                (grown-Spans p q m i t s g (r (ground arith))) in
            (p', rw (e, nz) e', h')
      ]
    where
      grown-Spans :
          (p p' : StringPool) (m : ℕ → List ℕ) (i : ℕ) (t : List ℕ) (s : Source)
          → Grown p p'
          → Spans s p m i t
          → Spans s p' m i t
      grown-Spans p p' m i t null_pointer g r = r
      grown-Spans p p' m i t (outside u) g r = r
      grown-Spans p p' m i t (within o) g (j, d, ne, positive, at, le, same) =
          let e = g.same j in (j, d, ne, omega arith, omega arith, le, same)
