-- ===== src/Containers/StringPool/Reserve.antt =====
-- The pool that `ReserveBuf` of StringPoolS.cpp makes.
use linux_multiarch_asm.Base.{
  ℕ, zero, suc, ◌+◌, ◌≤◌, ◌<◌, ◌≡◌, inl, inr, refl, sym, ap, ◌∙◌, some, List, [], ◌∷◌, ◌++◌, arith,
  ltb, ◌==◌, length, get_elem?, get_or, take, drop, Bool-cases, length-append, length-take,
  length-drop,
}
use linux_multiarch_asm.Containers.StringPool.{StringPool, Compacted}
use linux_multiarch_asm.Containers.StringPool.Compact.{live, Stored, Packed, Packs}
use linux_multiarch_asm.Containers.StringPool.Layout.{
  At, packed-At, Packed-nil, Packed-apart, Packed-live, Packed-le, offset, Layout, Blocks,
}
use linux_multiarch_asm.Containers.StringPool.Last.{Packed-some, Packed-last, Packed-high_le}
use linux_multiarch_asm.Containers.StringPool.Offsets.{
  get_or-append_left, get_or-append_drop, get_or-take, live-take, live-append_zeroes, get_or-drop,
  Stored-of, nil_of_length,
}

module _ (p : StringPool) (m : ℕ → List ℕ) (t : Blocks p m) where
  pub stored : Stored p.buffer m 0 (take p.num p.offsets)
  stored = Stored-of p.buffer m 0 (take p.num p.offsets) (λ j i e lt.
      let inside : j < p.num = omega (arith, length-take p.num p.offsets) in
      let same : i ≡ j = omega arith in
      let at : get_or (take p.num p.offsets) j 0 ≡ offset p j =
        get_or-take p.offsets p.num j inside in
      elim (Bool-cases (offset p j == 0)) [
        | inl z ↦
            inl (at ∙ ground arith, rw same (nil_of_length (m j) (t.layout.empty j (ground arith))))
        | inr nz ↦
            let positive : 0 < offset p j = ground arith in
            inr (rw at positive, rw (same, at) (t.holds j positive))
      ])

  -- The pool after the strings have been packed.
  abbrev pub packed_pool : ℕ → List ℕ × Compacted → StringPool
  packed_pool n r = record p {
    buffer = r.1.cells;
    old_buffer = p.buffer;
    offsets = r.0 ++ drop p.num p.offsets;
    buffer_size = n;
    data_size = r.1.used;
    garbage_size = 0;
    top = r.1.highest;
  }

  module _ (n first : ℕ) (c : Compacted) (r : List ℕ × Compacted)
      (packs : Packs m 0 (take p.num p.offsets) c r)
      (start : (c.used ≡ first)
        × (c.highest ≡ first)
        × (length c.cells ≡ n)
        × (get_elem? c.cells 0 ≡ some 0))
      (positive_first : 0 < first) (fits : p.data_size + first ≤ n + 1) where
    count : length r.0 ≡ p.num
    count =
        omega (arith, packs.count, length-take p.num p.offsets, t.layout.indices, t.layout.count)

    packed : Packed r.1.cells m 0 r.0 first first r.1.used r.1.highest
    packed = let e = packs.packed in let (u, h, s, z) = start in rw (u, h) at e

    offset-below : (i : ℕ) → i < p.num → offset (packed_pool n r) i ≡ get_or r.0 i 0
    offset-below i lt = get_or-append_left r.0 (drop p.num p.offsets) i (omega (arith, count))

    offset-beyond : (i : ℕ) → p.num ≤ i → offset (packed_pool n r) i ≡ 0
    offset-beyond i le = get_or-append_drop r.0 p.offsets p.num i count le ∙ t.layout.beyond i le

    inside : (i : ℕ) → 0 < offset (packed_pool n r) i → i < p.num
    inside i positive = elim (Bool-cases (ltb i p.num)) [
      | inl lt ↦ ground arith
      | inr ge ↦ absurd (omega (arith, offset-beyond i (ground arith)))
    ]

    at :
        (i : ℕ)
        → 0 < offset (packed_pool n r) i
        → At r.1.cells (m i) first r.1.used r.1.highest (offset (packed_pool n r) i)
    at i positive =
        let e = offset-below i (inside i positive) in
        rw e (
          packed-At r.1.cells m r.1.used r.1.highest 0 r.0 first first packed (omega arith) i i
            (omega arith) (omega (arith, e)))

    nil_text : (i : ℕ) → offset (packed_pool n r) i ≡ 0 → m i ≡ []
    nil_text i z = elim (Bool-cases (ltb i p.num)) [
      | inl lt ↦
          let below : i < p.num = ground arith in
          Packed-nil r.1.cells m r.1.used r.1.highest 0 r.0 first first packed (omega arith) i i
            (omega arith) (omega (arith, count)) (sym (offset-below i below) ∙ z)
      | inr ge ↦ nil_of_length (m i) (t.layout.empty i (t.layout.beyond i (ground arith)))
    ]

    apart :
        (i j : ℕ)
        → i < j
        → 0 < offset (packed_pool n r) i
        → 0 < offset (packed_pool n r) j
        → offset (packed_pool n r) i + (length (m i) + 1) ≤ offset (packed_pool n r) j
    apart i j lt h h' =
        let e = offset-below i (inside i h) in
        let e' = offset-below j (inside j h') in
        rw (e, e')
          (Packed-apart r.1.cells m r.1.used r.1.highest 0 r.0 first first packed (omega arith) i j
            i (omega arith) lt (omega (arith, e)) (omega (arith, e')))

    pub space : live (λ i. length (m i)) 0 (r.0 ++ drop p.num p.offsets) + first ≡ r.1.used
    space =
        ap (λ (k : ℕ). k + first)
          (live-append_zeroes (λ i. length (m i)) 0 r.0 (drop p.num p.offsets)
            (λ i. get_or-drop p.offsets p.num i ∙ t.layout.beyond (p.num + i) (omega arith)))
        ∙ Packed-live r.1.cells m r.1.used r.1.highest 0 r.0 first first packed (omega arith)

    pub used-le : r.1.used + 1 ≤ p.data_size + first
    used-le =
        let (u, h, s, z) = start in
        omega (arith, packs.within, t.layout.space, live-take (λ i. length (m i)) 0 p.offsets p.num)

    packed-Layout : Layout (packed_pool n r) (λ i. length (m i))
    packed-Layout =
        let (u, h, s, z) = start in
        record {
          started =
              omega (arith, Packed-le r.1.cells m r.1.used r.1.highest 0 r.0 first first packed);
          size = packs.size ∙ s;
          fits = omega (arith, used-le);
          indices =
              length-append r.0 (drop p.num p.offsets)
              ∙ omega (arith, count, length-drop p.num p.offsets, t.layout.indices, t.layout.count);
          count = t.layout.count;
          beyond = offset-beyond;
          empty = λ i e. ap length (nil_text i e);
          ends = λ i e. (at i e).below;
          le_top = λ i e. (at i e).le_high;
          last = λ i e same. (at i e).at_high same ∙ ap (λ (o : ℕ). o + (length (m i) + 1)) same;
          apart = λ i j ne h h'. elim (Bool-cases (ltb i j)) [
            | inl lt ↦ inl (apart i j (ground arith) h h')
            | inr ge ↦ inr (apart j i (ground arith) h' h)
          ];
          space = omega (arith, space);
        }

    pub packed-Blocks : Blocks (packed_pool n r) m
    packed-Blocks =
        let (u, h, s, z) = start in
        record {
          layout = packed-Layout;
          blank =
              λ k lt. let first : k ≡ 0 = omega arith in rw first (packs.kept 0 (omega arith) ∙ z);
          holds = λ i e. (at i e).held;
        }

    pub offset-nil : (i : ℕ) → m i ≡ [] → offset (packed_pool n r) i ≡ 0
    offset-nil i nil = elim (Bool-cases (offset (packed_pool n r) i == 0)) [
      | inl z ↦ ground arith
      | inr nz ↦
          let positive : 0 < offset (packed_pool n r) i = ground arith in
          absurd (
            omega (
              arith,
              ap length nil,
              Packed-some r.1.cells m r.1.used r.1.highest 0 r.0 first first packed i i
                  (omega arith) (omega (arith, offset-below i (inside i positive))),
            ))
    ]

    -- The last of the strings that are not empty is at `Top`.
    pub packed-highest :
        (k : ℕ)
        → 0 < length (m k)
        → ((j : ℕ) → k < j → m j ≡ [])
        → offset (packed_pool n r) k ≡ r.1.highest
    packed-highest k some_char nil = elim (Bool-cases (offset (packed_pool n r) k == 0)) [
      | inl z ↦ absurd (omega (arith, ap length (nil_text k (ground arith))))
      | inr nz ↦
          let positive : 0 < offset (packed_pool n r) k = ground arith in
          let below = offset-below k (inside k positive) in
          below
          ∙ Packed-last r.1.cells m r.1.used r.1.highest 0 r.0 first first packed (omega arith) k
              (omega (arith, below))
              (λ a lt. elim (Bool-cases (ltb a p.num)) [
                | inl under ↦ sym (offset-below a (ground arith)) ∙ offset-nil a (nil a lt)
                | inr over ↦ get_or-none r.0 a (ground (arith, count))
              ])
    ]
      where
        get_or-none : (xs : List ℕ) (a : ℕ) → length xs ≤ a → get_or xs a 0 ≡ 0
        get_or-none [] a h = refl
        get_or-none (x ∷ xs) zero h = absurd (omega arith)
        get_or-none (x ∷ xs) (suc a) h = get_or-none xs a (omega arith)

    pub packed-top_le : r.1.highest ≤ r.1.used
    packed-top_le =
        Packed-high_le r.1.cells m r.1.used r.1.highest 0 r.0 first first packed (omega arith)
