-- ===== src/Containers/StringPool/Spots.antt =====
-- A pool of StringPoolS.cpp in which one string has a new place keeps its layout.
use linux_multiarch_asm.Base.{
  ℕ, ◌+◌, ◌≤◌, ◌<◌, ◌≡◌, ◌≢◌, ◌⊎◌, inl, inr, sym, ap, ◌∙◌, List, arith, ◌==◌, length, Bool-cases,
}
use linux_multiarch_asm.Containers.StringPool.{StringPool}
use linux_multiarch_asm.Containers.StringPool.Layout.{offset, Layout}
use linux_multiarch_asm.Containers.StringPool.Put.{put, put_self, put_ne, live-change, cost, Spot}

swap {ℓ κ} : {A : Type ℓ} {B : Type κ} → A ⊎ B → B ⊎ A
swap (inl a) = inr a
swap (inr b) = inl b

module _ (p p' : StringPool) (m : ℕ → List ℕ) (i : ℕ) (t : List ℕ)
    (l : Layout p (λ j. length (m j))) (s : Spot p p' m i t) where
  abbrev size : ℕ → ℕ
  size j = length (put m i t j)

  size_self : size i ≡ length t
  size_self = ap length (put_self m i t)

  size_ne : (j : ℕ) → j ≢ i → size j ≡ length (m j)
  size_ne j ne = ap length (put_ne m i t j ne)

  decide : (j : ℕ) → (j ≡ i) ⊎ (j ≢ i)
  decide j = elim (Bool-cases (j == i)) [ inl e ↦ inl (ground arith) | inr e ↦ inr (ground arith) ]

  held_others : (j : ℕ) → j ≢ i → 0 < offset p' j → 0 < offset p j
  held_others j ne h = omega (arith, s.others j ne)

  ends : (j : ℕ) → 0 < offset p' j → offset p' j + (size j + 1) ≤ p'.data_size
  ends j h = elim (decide j) [
    | inl same ↦ rw same (omega (arith, size_self, s.ends))
    | inr ne ↦ omega (arith, s.others j ne, size_ne j ne, s.ends_others j ne (held_others j ne h))
  ]

  le_top : (j : ℕ) → 0 < offset p' j → offset p' j ≤ p'.top
  le_top j h = elim (decide j) [
    | inl same ↦ rw same s.le_top
    | inr ne ↦ omega (arith, s.others j ne, s.le_top_others j ne (held_others j ne h))
  ]

  last : (j : ℕ) → 0 < offset p' j → offset p' j ≡ p'.top → p'.data_size ≡ p'.top + (size j + 1)
  last j h e = elim (decide j) [
    | inl same ↦
        let e' : offset p' i ≡ p'.top = ap (λ (k : ℕ). offset p' k) (sym same) ∙ e in
        rw same (omega (arith, size_self, s.last e'))
    | inr ne ↦
        let e' : offset p j ≡ p'.top = sym (s.others j ne) ∙ e in
        omega (arith, size_ne j ne, s.last_others j ne (held_others j ne h) e')
  ]

  apart-new :
      (j : ℕ)
      → j ≢ i
      → 0 < offset p' j
      → (offset p' j + (size j + 1) ≤ offset p' i) ⊎ (offset p' i + (size i + 1) ≤ offset p' j)
  apart-new j ne h = elim (s.apart j ne (held_others j ne h)) [
    | inl le ↦ inl (omega (arith, s.others j ne, size_ne j ne))
    | inr le ↦ inr (omega (arith, s.others j ne, size_self))
  ]

  apart :
      (j k : ℕ)
      → j ≢ k
      → 0 < offset p' j
      → 0 < offset p' k
      → (offset p' j + (size j + 1) ≤ offset p' k) ⊎ (offset p' k + (size k + 1) ≤ offset p' j)
  apart j k ne h h' = elim (decide j) [
    | inl same ↦ let ne' : k ≢ i = λ e. ne (same ∙ sym e) in rw same (swap (apart-new k ne' h'))
    | inr nj ↦ elim (decide k) [
      | inl same ↦ rw same (apart-new j nj h)
      | inr nk ↦
          let (ej, ek, sj, sk) : (offset p' j ≡ offset p j)
              × (offset p' k ≡ offset p k)
              × (size j ≡ length (m j))
              × (size k ≡ length (m k)) =
            (s.others j nj, s.others k nk, size_ne j nj, size_ne k nk) in
          elim (l.apart j k ne (held_others j nj h) (held_others k nk h')) [
            | inl le ↦ inl (omega arith)
            | inr le ↦ inr (omega arith)
          ]
    ]
  ]

  pub spot-Layout : Layout p' size
  spot-Layout = record {
    started = omega (arith, s.ends);
    size = ap length s.buffer ∙ l.size ∙ sym s.buffer_size;
    fits = omega (arith, s.fits, s.buffer_size);
    indices = s.count ∙ l.indices ∙ sym s.indices;
    count = omega (arith, l.count, s.num, s.indices);
    beyond = λ j le.
        let outside : p.num ≤ j = omega (arith, s.num) in
        s.others j (omega (arith, s.inside)) ∙ l.beyond j outside;
    empty = λ j z. elim (decide j) [
      | inl same ↦
          absurd (let z' = ap (λ (k : ℕ). offset p' k) (sym same) ∙ z in omega (arith, s.positive))
      | inr ne ↦ size_ne j ne ∙ l.empty j (sym (s.others j ne) ∙ z)
    ];
    ends = ends;
    le_top = le_top;
    last = last;
    apart = apart;
    space =
        let c =
          live-change (λ j. length (m j)) size 0 p.offsets p'.offsets i i (omega arith)
            (omega (arith, s.inside, l.count, l.indices)) s.count s.others size_ne in
        let e : cost (offset p' i) (size i) ≡ length t + 1 =
          ground (arith, s.positive, size_self) in
        omega (arith, c, e, s.space);
  }
