-- ===== src/Containers/StringPool/Set.antt =====
-- `Set` of StringPoolS.cpp, for zero-terminated strings.
use linux_multiarch_asm.Base.{
  ℕ, ◌+◌, ◌^◌, ◌≤◌, ◌<◌, ◌≡◌, inl, inr, refl, sym, ap, ◌∙◌, Option, List, [], ◌∷◌, ◌++◌, arith,
  ◌==◌, length, Bool-cases, length-append,
}
use linux_multiarch_asm.Base.Int.{pos}
use linux_multiarch_asm.Containers.Outcome.{ret, ◌>>=◌}
use linux_multiarch_asm.Containers.Growth.{Allocates}
use linux_multiarch_asm.Containers.Memory.{copy_bytes}
use linux_multiarch_asm.Containers.Memory.Text.{NoZero}
use linux_multiarch_asm.Containers.StringPool.{
  StringPool, Source, null_pointer, outside, within, copy_in, allocate_string, set_string, release,
}
use linux_multiarch_asm.Containers.StringPool.Layout.{offset, Texts, Represents}
use linux_multiarch_asm.Containers.StringPool.Put.{put, put_self}
use linux_multiarch_asm.Containers.StringPool.Offsets.{nil_of_length}
use linux_multiarch_asm.Containers.StringPool.Vacant.{fill-Texts}
use linux_multiarch_asm.Containers.StringPool.Place.{Roomy, allocate_string-Allocated}
use linux_multiarch_asm.Containers.StringPool.Index.{Grown, Grown-Texts, grow_num-Grown}
use linux_multiarch_asm.Containers.StringPool.Erase.{erase_string-Texts}
use linux_multiarch_asm.Containers.StringPool.Copy.{
  Refers, Refers-Supplies, Refers-text_of, copy_in_lem,
}

-- The same pointer in a pool with more indices.
Grown-Refers :
    (p p' : StringPool) (m : ℕ → List ℕ) (i : ℕ) (t : List ℕ) (s : Source)
    → Grown p p'
    → Refers s p m i t
    → Refers s p' m i t
Grown-Refers p p' m i t null_pointer g r = r
Grown-Refers p p' m i t (outside u) g r = r
Grown-Refers p p' m i t (within o) g (j, ne, at, same) = (j, ne, at ∙ sym (g.same j), same)

pub Grown-Roomy :
    (p p' : StringPool) (m : ℕ → List ℕ) (i len : ℕ)
    → Grown p p'
    → Roomy p m i len
    → Roomy p' m i len
Grown-Roomy p p' m i len g r h top =
    let e = g.same i in
    elim (r (omega arith) (omega (arith, g.top))) [
      | inl le ↦ inl (omega (arith, g.top, g.buffer_size))
      | inr last ↦ inr last
    ]

module _ (new_chars new_ints : ℕ → Option (List ℕ)) (chars : Allocates new_chars (2 ^ 31)) where
  -- Room for the text, and its copy there.
  pub store-Texts :
      (p : StringPool) (m : ℕ → List ℕ) (i : ℕ) (t : List ℕ) (s : Source)
      → Texts p m
      → p.old_buffer ≡ []
      → i < p.num
      → 0 < length t
      → p.data_size + length t < 2 ^ 29
      → Roomy p m i (length t)
      → NoZero t
      → Refers s p m i t
      → (p' : StringPool) × ((allocate_string new_chars new_ints i (length t) p >>= λ r.
            copy_in r.0 s (length t + 1) r.1 >>= λ p2. ret (release p2))
          ≡ ret p')
        × Represents p' (put m i t)
  store-Texts p m i t s x none_old lt some_char small roomy clean r =
      let (q, e, a) = allocate_string-Allocated new_chars new_ints chars p m i t x lt small roomy in
      let long = length-append t (0 ∷ []) in
      let fits : offset q i + length (t ++ (0 ∷ [])) ≤ length q.buffer =
        let l = a.vacant.layout in
        omega
          (arith, long, l.ends i a.vacant.positive, ap length (put_self m i t), l.fits, l.size) in
      let copied : copy_in (offset q i) s (length t + 1) q
          ≡ ret (record q { buffer = copy_bytes (offset q i) (t ++ (0 ∷ [])) q.buffer }) =
        ap (λ (n : ℕ). copy_in (offset q i) s n q) (sym long)
        ∙ copy_in_lem s q (offset q i) (t ++ (0 ∷ []))
            (Refers-Supplies p q m i t x a none_old s r some_char) fits in
      (
        record q { buffer = copy_bytes (offset q i) (t ++ (0 ∷ [])) q.buffer; old_buffer = [] },
        rw (e, copied) refl,
        record { texts = fill-Texts q m i t a.vacant [] x.clean clean; no_old = refl },
      )

  -- On a pool that stands for texts by their indices, where allocations below 2 ^ 31 succeed, the
  -- index, the number of offsets and the characters are below 2 ^ 29, and string i, if it stands
  -- last in the buffer, either fits the block with its new text, or is not empty while all strings
  -- of higher indices are empty: `Set` makes string i the text of the pointer and leaves the others
  -- what they are. The pointer is null, or to a string outside or of another index of the pool.
  pub set_string-Represents :
      Allocates new_ints (2 ^ 31)
      → (p : StringPool) (m : ℕ → List ℕ) (i : ℕ) (t : List ℕ) (s : Source) → Represents p m
      → Refers s p m i t
      → i < 2 ^ 29
      → p.offsets_size < 2 ^ 29
      → p.data_size + length t < 2 ^ 29
      → Roomy p m i (length t)
      → (p' : StringPool) × (set_string new_chars new_ints (pos i) s p ≡ ret p')
        × Represents p' (put m i t)
  unfolding set_string
  set_string-Represents ints p m i t s h r small few fits roomy =
      let x = h.texts in
      let (q, e, g, lt) =
        grow_num-Grown new_chars new_ints ints p i
          (record { size = x.layout.indices; count = x.layout.count }) small few in
      let y = Grown-Texts p q m x g in
      let r' = Grown-Refers p q m i t s g r in
      let (read, clean) = Refers-text_of s q m i t y r' in
      elim (Bool-cases (length t == 0)) [
        | inl z ↦
            let (p', e', y', old) = erase_string-Texts q m i y lt in
            let nil : t ≡ [] = nil_of_length t (ground arith) in
            (
              p',
              rw (e, read, z) e',
              rw nil (record { texts = y'; no_old = old ∙ g.old ∙ h.no_old }),
            )
        | inr nz ↦
            let (p', e', h') =
              store-Texts q m i t s y (g.old ∙ h.no_old) lt (ground arith)
                (omega (arith, g.data_size)) (Grown-Roomy p q m i (length t) g roomy) clean r' in
            (p', rw (e, read, nz) e', h')
      ]
