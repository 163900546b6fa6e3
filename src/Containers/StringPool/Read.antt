-- ===== src/Containers/StringPool/Read.antt =====
-- Reading the strings of StringPoolS.cpp, and `Clear`.
use linux_multiarch_asm.Base.{
  ℕ, ◌+◌, ◌^◌, ◌≤◌, ◌<◌, ◌≡◌, inl, inr, refl, sym, ap, ◌∙◌, true, false, Option, some, List, [],
  ◌∷◌, ◌++◌, arith, ltb, leb, ◌==◌, length, set, drop, Bool-cases, length-append, length-drop,
  length-set, get_elem?-eq-get_or, length-replicate, get_or-set_self, get_or-set_ne,
}
use linux_multiarch_asm.Base.Int.{pos}
use linux_multiarch_asm.Containers.Outcome.{Outcome, ret, ◌>>=◌}
use linux_multiarch_asm.Containers.Growth.{Allocates}
use linux_multiarch_asm.Containers.Memory.{int_lem, zeroes, copy_bytes}
use linux_multiarch_asm.Containers.Memory.Text.{
  c_string, c_string-NoZero, c_string-Holds, Holds-of_copy,
}
use linux_multiarch_asm.Containers.StringPool.{
  StringPool, outside, allocate_string, set_string, clear_strings, read_string, get_string,
  string_at, copy_in, release,
}
use linux_multiarch_asm.Containers.StringPool.Layout.{offset, Represents}
use linux_multiarch_asm.Containers.StringPool.Offsets.{
  nil_of_length, get_or-append_left, get_or-append_drop, get_or-zeroes,
}
use linux_multiarch_asm.Containers.StringPool.Index.{Indexed, grow_num-Grown}
use linux_multiarch_asm.Containers.StringPool.Copy.{
  Supplies, copy_in_lem, chars_at-outside, source_block,
}

-- A string is read at the offset of its index.
read_at :
    (p : StringPool) (i : ℕ) (t : List ℕ)
    → i < p.num
    → Indexed p
    → string_at p.buffer (offset p i) ≡ ret t
    → read_string (pos i) p ≡ ret t
unfolding read_string get_string
read_at p i t lt ix e =
    let found = get_elem?-eq-get_or p.offsets i 0 (omega (arith, ix.size, ix.count)) in
    let inside : leb p.num i ≡ false = ground arith in rw (inside, found) e

-- On a pool that stands for texts, an index in range reads its text.
pub read_string-Represents :
    (p : StringPool) (m : ℕ → List ℕ) (i : ℕ)
    → Represents p m
    → i < p.num
    → read_string (pos i) p ≡ ret (m i)
read_string-Represents p m i h lt =
    let x = h.texts in
    read_at p i (m i) lt (record { size = x.layout.indices; count = x.layout.count })
      (elim (Bool-cases (offset p i == 0)) [
        | inl z ↦
            let at_zero : offset p i ≡ 0 = ground arith in
            let nil = nil_of_length (m i) (x.layout.empty i at_zero) in
            rw (at_zero, nil, c_string-Holds p.buffer 0 [] tt x.blank) refl
        | inr nz ↦
            rw (c_string-Holds p.buffer (offset p i) (m i) (x.clean i) (x.holds i (ground arith)))
              refl
      ])

-- An index out of range ends the program.
read_string-out_of_range :
    (p : StringPool) (i : ℕ) → p.num ≤ i → read_string (pos i) p ≡ Outcome.exited
unfolding read_string get_string
read_string-out_of_range p i le = let e : leb p.num i ≡ true = ground arith in rw e refl

cleared :
    (p : StringPool) (m : ℕ → List ℕ)
    → Represents p m
    → Indexed (clear_strings p) × ((j : ℕ) → offset (clear_strings p) j ≡ 0)
unfolding clear_strings
cleared p m h =
    let l = h.texts.layout in
    let size = length-replicate {A = ℕ} p.num 0 in
    (
      record {
        size =
            length-append (zeroes p.num) (drop p.num p.offsets)
            ∙ omega (arith, size, length-drop p.num p.offsets, l.indices, l.count);
        count = l.count;
      },
      λ j. elim (Bool-cases (ltb j p.num)) [
        | inl lt ↦
            get_or-append_left (zeroes p.num) (drop p.num p.offsets) j (ground (arith, size))
            ∙ get_or-zeroes p.num j
        | inr ge ↦
            get_or-append_drop (zeroes p.num) p.offsets p.num j size (ground arith)
            ∙ l.beyond j (ground arith)
      ],
    )

module _ (new_chars new_ints : ℕ → Option (List ℕ)) where
  -- A text that is stored at the beginning of the block is read at every index without an offset.
  stored-first :
      (p : StringPool) (i : ℕ) (u t : List ℕ)
      → Indexed p
      → ((j : ℕ) → offset p j ≡ 0)
      → p.data_size ≡ 0
      → p.old_buffer ≡ []
      → i < p.num
      → c_string u ≡ some t
      → length t < 2 ^ 29
      → length t + 1 ≤ p.buffer_size
      → length p.buffer ≡ p.buffer_size
      → (p' : StringPool) × ((allocate_string new_chars new_ints i (length t) p >>= λ r.
            copy_in r.0 (outside u) (length t + 1) r.1 >>= λ p2. ret (release p2))
          ≡ ret p')
        × (p'.num ≡ p.num)
        × ((j : ℕ) → j < p'.num → read_string (pos j) p' ≡ ret t)
  unfolding allocate_string
  stored-first p i u t ix zero_at none_used none_old lt read small room size =
      let found = get_elem?-eq-get_or p.offsets i 0 (omega (arith, ix.size, ix.count)) in
      let z : (offset p i == 0) ≡ true = ground (arith, zero_at i) in
      let need = int_lem (0 + length t + 1) (omega arith) in
      let stays : ltb p.buffer_size (0 + length t + 1) ≡ false = ground arith in
      let v = t ++ (0 ∷ []) in
      let long : length v ≡ length t + 1 = length-append t (0 ∷ []) in
      let (clean, held) = c_string-NoZero u t read in
      let q : StringPool = record p {
        offsets = set p.offsets i 0;
        top = 0;
        data_size = 0 + length t + 1;
      } in
      let no_old : (length p.old_buffer == 0) ≡ true = ground (arith, ap length none_old) in
      let supplies : Supplies (outside u) q 0 v = record {
        bytes = chars_at-outside u t (source_block q) (length v) long read;
        clear = λ e. refl;
      } in
      let copied = copy_in_lem (outside u) q 0 v supplies (omega (arith, long)) in
      let p' : StringPool = record q { buffer = copy_bytes 0 v p.buffer; old_buffer = [] } in
      let all_zero : (j : ℕ) → offset p' j ≡ 0 = λ j. elim (Bool-cases (j == i)) [
        | inl e ↦
            let same : j ≡ i = ground arith in
            rw same (get_or-set_self p.offsets i 0 0 (omega (arith, ix.size, ix.count)))
        | inr e ↦ get_or-set_ne p.offsets i j 0 0 (ground arith) ∙ zero_at j
      ] in
      let stands : string_at p'.buffer 0 ≡ ret t =
        rw (c_string-Holds p'.buffer 0 t clean (Holds-of_copy 0 t p.buffer (omega arith))) refl in
      (
        p',
        rw (found, z, none_used, need, stays, need)
            (ap (λ (n : ℕ). copy_in 0 (outside u) n q >>= λ p2. ret (release p2)) (sym long)
              ∙ rw copied refl),
        refl,
        λ j below.
            read_at p' j t below
              (record { size = length-set p.offsets i 0 ∙ ix.size; count = ix.count })
              (ap (λ (o : ℕ). string_at p'.buffer o) (all_zero j) ∙ stands),
      )

  -- On a pool that stands for texts, after `Clear`, `Set` of a string from outside that is not
  -- empty and fits the block makes every index in range read that string. Allocations of offsets
  -- below 2 ^ 31 succeed, and the index, the number of offsets and the characters are below 2 ^ 29.
  pub set_string-cleared :
      Allocates new_ints (2 ^ 31)
      → (p : StringPool) (m : ℕ → List ℕ) (i : ℕ) (u t : List ℕ) → Represents p m
      → c_string u ≡ some t
      → 0 < length t
      → length t + 1 ≤ p.buffer_size
      → length t < 2 ^ 29
      → i < 2 ^ 29
      → p.offsets_size < 2 ^ 29
      → (p' : StringPool) × (set_string new_chars new_ints (pos i) (outside u) (clear_strings p)
          ≡ ret p')
        × (i < p'.num)
        × ((j : ℕ) → j < p'.num → read_string (pos j) p' ≡ ret t)
  unfolding set_string clear_strings
  set_string-cleared ints p m i u t h read some_char room small few many =
      let (ix, zero_at) = cleared p m h in
      let l = h.texts.layout in
      let (q, e, g, lt) = grow_num-Grown new_chars new_ints ints (clear_strings p) i ix few many in
      let nz : (length t == 0) ≡ false = ground arith in
      let (p', e', num, reads) =
        stored-first q i u t g.indexed (λ j. g.same j ∙ zero_at j) g.data_size (g.old ∙ h.no_old) lt
          read small (omega (arith, g.buffer_size))
          (ap length g.buffer ∙ l.size ∙ sym g.buffer_size) in
      (p', rw (e, read, nz) e', omega (arith, num), reads)
