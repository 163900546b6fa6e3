-- ===== src/Containers/StringPool/Erase.antt =====
-- The empty string's branch of `Set` in StringPoolS.cpp.
use linux_multiarch_asm.Base.{
  ℕ, ◌+◌, ◌<◌, ◌≡◌, ◌≢◌, inl, inr, refl, sym, ap, ◌∙◌, List, [], arith, ◌==◌, length, set,
  Bool-cases, get_or-set_self, get_or-set_ne, length-set, get_elem?-eq-get_or,
}
use linux_multiarch_asm.Containers.Outcome.{ret}
use linux_multiarch_asm.Containers.Memory.Text.{c_string-Holds}
use linux_multiarch_asm.Containers.StringPool.{StringPool, erase_string}
use linux_multiarch_asm.Containers.StringPool.Layout.{offset, Texts}
use linux_multiarch_asm.Containers.StringPool.Put.{put, put_ne, cost, live-change}
use linux_multiarch_asm.Containers.StringPool.Offsets.{nil_of_length}

-- The same texts by other words.
pub same-Texts :
    (p : StringPool) (m m' : ℕ → List ℕ) → ((j : ℕ) → m' j ≡ m j) → Texts p m → Texts p m'
same-Texts p m m' e x = let same : m' ≡ m = λ k j. e j k in rw same x

put-nil : (m : ℕ → List ℕ) (i : ℕ) → m i ≡ [] → (j : ℕ) → put m i [] j ≡ m j
put-nil m i e j = elim (Bool-cases (j == i)) [
  | inl z ↦ let same : j ≡ i = ground arith in rw (z, same) (sym e)
  | inr z ↦ rw z refl
]

-- The pool without the string at `i`.
abbrev without : ℕ → ℕ → StringPool → StringPool
without i g p = record p { garbage_size = g; offsets = set p.offsets i 0 }

module _ (p : StringPool) (m : ℕ → List ℕ) (i g : ℕ) (x : Texts p m) (lt : i < p.num) where
  here : offset (without i g p) i ≡ 0
  here = get_or-set_self p.offsets i 0 0 (omega (arith, x.layout.indices, x.layout.count))

  other : (j : ℕ) → j ≢ i → offset (without i g p) j ≡ offset p j
  other j ne = get_or-set_ne p.offsets i j 0 0 (λ e. ne (sym e))

  -- A string that is still there is another one, where it was, with its text.
  left :
      (j : ℕ)
      → 0 < offset (without i g p) j
      → (offset (without i g p) j ≡ offset p j) × (put m i [] j ≡ m j)
  left j h = elim (Bool-cases (j == i)) [
    | inl e ↦ absurd (
        let same : j ≡ i = ground arith in
        let z = ap (λ (k : ℕ). offset (without i g p) k) same ∙ here in omega arith)
    | inr e ↦ let ne : j ≢ i = ground arith in (other j ne, put_ne m i [] j ne)
  ]

  without-Texts : Texts (without i g p) (put m i [])
  without-Texts =
      let l = x.layout in
      record {
        layout = record {
          started = l.started;
          size = l.size;
          fits = l.fits;
          indices = length-set p.offsets i 0 ∙ l.indices;
          count = l.count;
          beyond = λ j le. other j (omega arith) ∙ l.beyond j le;
          empty = λ j z. elim (Bool-cases (j == i)) [
            | inl e ↦ rw e refl
            | inr e ↦ let ne : j ≢ i = ground arith in rw e (l.empty j (sym (other j ne) ∙ z))
          ];
          ends = λ j h. let (o, e) = left j h in rw (o, e) (l.ends j (omega arith));
          le_top = λ j h. let (o, e) = left j h in rw o (l.le_top j (omega arith));
          last = λ j h top. let (o, e) = left j h in rw e (l.last j (omega arith) (sym o ∙ top));
          apart = λ j k ne h h'.
              let (o, e) = left j h in
              let (o', e') = left k h' in
              rw (o, e, o', e') (l.apart j k ne (omega arith) (omega arith));
          space =
              let c =
                live-change (λ j. length (m j)) (λ j. length (put m i [] j)) 0 p.offsets
                  (set p.offsets i 0) i i (omega arith) (omega (arith, l.indices, l.count))
                  (length-set p.offsets i 0) other (λ j ne. ap length (put_ne m i [] j ne)) in
              let z : cost (offset (without i g p) i) (length (put m i [] i)) ≡ 0 = rw here refl in
              omega (arith, c, z, l.space);
        };
        clean = λ j. elim (Bool-cases (j == i)) [ inl e ↦ rw e tt | inr e ↦ rw e (x.clean j) ];
        blank = x.blank;
        holds = λ j h. let (o, e) = left j h in rw (o, e) (x.holds j (omega arith));
      }

pub erase_string-Texts :
    (p : StringPool) (m : ℕ → List ℕ) (i : ℕ)
    → Texts p m
    → i < p.num
    → (p' : StringPool) × (erase_string i p ≡ ret p')
      × Texts p' (put m i [])
      × (p'.old_buffer ≡ p.old_buffer)
erase_string-Texts p m i x lt =
    let l = x.layout in
    let found = get_elem?-eq-get_or p.offsets i 0 (omega (arith, l.count, l.indices)) in
    elim (Bool-cases (offset p i == 0)) [
      | inl z ↦
          let nil = nil_of_length (m i) (l.empty i (ground arith)) in
          (p, rw (found, z) refl, same-Texts p m (put m i []) (put-nil m i nil) x, refl)
      | inr nz ↦
          let old =
            c_string-Holds p.buffer (offset p i) (m i) (x.clean i) (x.holds i (ground arith)) in
          let g = p.garbage_size + (length (m i) + 1) in
          (without i g p, rw (found, nz, old) refl, without-Texts p m i g x lt, refl)
    ]
