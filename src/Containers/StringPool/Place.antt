-- ===== src/Containers/StringPool/Place.antt =====
-- Each branch of `Allocate` of StringPoolS.cpp makes room for the text.
use linux_multiarch_asm.Base.{
  ℕ, ◌+◌, ◌-◌, ◌^◌, ◌≤◌, ◌<◌, ◌≡◌, ◌≢◌, ◌⊎◌, inl, inr, refl, sym, ap, ◌∙◌, true, false, Option,
  List, [], arith, ltb, leb, ◌==◌, length, Bool-cases, get_elem?-eq-get_or,
}
use linux_multiarch_asm.Containers.Outcome.{ret}
use linux_multiarch_asm.Containers.Growth.{Allocates}
use linux_multiarch_asm.Containers.Memory.{int_lem}
use linux_multiarch_asm.Containers.Memory.Text.{c_string-Holds}
use linux_multiarch_asm.Containers.StringPool.{StringPool, allocate_string}
use linux_multiarch_asm.Containers.StringPool.Grow.{Reserved, reserve_buf-Reserved}
use linux_multiarch_asm.Containers.StringPool.Layout.{offset, Texts, Texts-Blocks}
use linux_multiarch_asm.Containers.StringPool.Vacant.{Spot-Vacant}
use linux_multiarch_asm.Containers.StringPool.Allocate.{
  Allocated, regarbaged, top-Spot, same-Spot, allocate_end-Allocated,
}

-- If string `i` stands last in the buffer, the buffer has room for `len` characters in its place, or all
-- strings of higher indices are empty.
abbrev pub Roomy : StringPool → (ℕ → List ℕ) → ℕ → ℕ → Type 0
Roomy p m i len =
    0 < offset p i
    → offset p i ≡ p.top
    → (p.top + len + 1 ≤ p.buffer_size) ⊎ ((0 < length (m i)) × ((j : ℕ) → i < j → m j ≡ []))

-- If the string of `Concatenate` stands last in the buffer, it is empty and has room for `len`
-- characters in its place, or it moves with the block, as the last one by index.
abbrev pub Movable : StringPool → (ℕ → List ℕ) → ℕ → ℕ → Type 0
Movable p m i len =
    0 < offset p i
    → offset p i ≡ p.top
    → ((m i ≡ []) × (p.top + len + 1 ≤ p.buffer_size))
      ⊎ ((p.buffer_size < p.top + len + 1) × (0 < length (m i)) × ((j : ℕ) → i < j → m j ≡ []))

pub Movable-Roomy :
    (p : StringPool) (m : ℕ → List ℕ) (i len : ℕ) → Movable p m i len → Roomy p m i len
Movable-Roomy p m i len h positive at_top = elim (h positive at_top) [
  | inl e ↦ inl e.1
  | inr (short, some_char, nil) ↦ inr (some_char, nil)
]

from_garbage :
    (p p' : StringPool) (m : ℕ → List ℕ) (i : ℕ) (t : List ℕ) (g : ℕ)
    → Allocated (record p { garbage_size = g }) p' m i t
    → Allocated p p' m i t
from_garbage p p' m i t g a = record {
  vacant = a.vacant;
  beside = elim a.beside [
    | inl b ↦ inl (record { old = b.old; buffer = b.buffer; others = b.others; own = b.own })
    | inr b ↦ inr b
  ];
  same_num = a.same_num;
  same_indices = a.same_indices;
  used = a.used;
}

module _ (new_chars new_ints : ℕ → Option (List ℕ)) (chars : Allocates new_chars (2 ^ 31)) where
  -- The string at `Top` stays there while the block is large enough.
  top-stays :
      (p : StringPool) (m : ℕ → List ℕ) (i : ℕ) (t : List ℕ)
      → Texts p m
      → i < p.num
      → p.data_size + length t < 2 ^ 29
      → 0 < offset p i
      → offset p i ≡ p.top
      → p.top + length t + 1 ≤ p.buffer_size
      → (p' : StringPool) × (allocate_string new_chars new_ints i (length t) p
          ≡ ret (offset p' i, p'))
        × Allocated p p' m i t
  unfolding allocate_string
  top-stays p m i t x lt small positive at_top room =
      let l = x.layout in
      let found = get_elem?-eq-get_or p.offsets i 0 (omega (arith, l.count, l.indices)) in
      let nz : (offset p i == 0) ≡ false = ground arith in
      let top : (offset p i == p.top) ≡ true = ground arith in
      let need = int_lem (p.top + length t + 1) (omega (arith, l.ends i positive)) in
      let stays : ltb p.buffer_size (p.top + length t + 1) ≡ false = ground arith in
      let p' : StringPool = record p { data_size = p.top + length t + 1 } in
      (
        p',
        rw (found, nz, top, need, stays, need) (ap (λ (o : ℕ). ret (o, p')) (sym at_top)),
        record {
          vacant =
              Spot-Vacant p p' m i t (Texts-Blocks p m x)
                (top-Spot p m i t x.layout lt positive at_top room);
          beside = inl (record {
            old = refl;
            buffer = refl;
            others = λ j ne. refl;
            own = λ h. inl (refl, inl (at_top, room));
          });
          same_num = refl;
          same_indices = refl;
          used = omega (arith, l.ends i positive);
        },
      )

  -- Where the block is not large enough, what is returned is the new `Top`.
  pub top-grows :
      (p : StringPool) (m : ℕ → List ℕ) (i : ℕ) (t : List ℕ)
      → Texts p m
      → i < p.num
      → p.data_size + length t < 2 ^ 29
      → 0 < offset p i
      → offset p i ≡ p.top
      → p.buffer_size < p.top + length t + 1
      → (q : StringPool) × (allocate_string new_chars new_ints i (length t) p
          ≡ ret (q.top, record q { data_size = q.top + length t + 1 }))
        × Reserved (p.top + length t + 1) p q m
  unfolding allocate_string
  top-grows p m i t x lt small positive at_top short =
      let l = x.layout in
      let found = get_elem?-eq-get_or p.offsets i 0 (omega (arith, l.count, l.indices)) in
      let nz : (offset p i == 0) ≡ false = ground arith in
      let top : (offset p i == p.top) ≡ true = ground arith in
      let ends = l.last i positive at_top in
      let need = int_lem (p.top + length t + 1) (omega (arith, l.ends i positive)) in
      let grows : ltb p.buffer_size (p.top + length t + 1) ≡ true = ground arith in
      let (q, e, res) =
        reserve_buf-Reserved new_chars new_ints chars (p.top + length t + 1) p m x
          (omega (arith, l.fits)) (omega (arith, l.fits)) (omega arith) in
      let used = int_lem (q.top + length t + 1) (omega (arith, res.top_le, res.shrinks)) in
      (q, rw (found, nz, top, need, grows, e, used) refl, res)

  top-moves :
      (p : StringPool) (m : ℕ → List ℕ) (i : ℕ) (t : List ℕ)
      → Texts p m
      → i < p.num
      → p.data_size + length t < 2 ^ 29
      → 0 < offset p i
      → offset p i ≡ p.top
      → p.buffer_size < p.top + length t + 1
      → 0 < length (m i)
      → ((j : ℕ) → i < j → m j ≡ [])
      → (p' : StringPool) × (allocate_string new_chars new_ints i (length t) p
          ≡ ret (offset p' i, p'))
        × Allocated p p' m i t
  top-moves p m i t x lt small positive at_top short some_char nil =
      let (q, e, res) = top-grows p m i t x lt small positive at_top short in
      let high = res.highest i some_char nil in
      let l = res.texts.layout in
      let placed : 0 < offset q i = elim (Bool-cases (offset q i == 0)) [
        | inl z ↦ absurd (omega (arith, l.empty i (ground arith)))
        | inr nz ↦ ground arith
      ] in
      let lower : q.top ≤ p.top =
        omega (arith, l.last i placed high, x.layout.last i positive at_top, res.shrinks) in
      let p' : StringPool = record q { data_size = q.top + length t + 1 } in
      (
        p',
        e ∙ ap (λ (o : ℕ). ret (o, p')) (sym high),
        record {
          vacant = Spot-Vacant q p' m i t (Texts-Blocks q m res.texts) (
              top-Spot q m i t res.texts.layout (omega (arith, res.same_num)) placed high
                (omega (arith, res.room)));
          beside = inr res.old;
          same_num = res.same_num;
          same_indices = res.same_indices;
          used = omega (arith, x.layout.ends i positive);
        },
      )

  pub allocate_string-Allocated :
      (p : StringPool) (m : ℕ → List ℕ) (i : ℕ) (t : List ℕ)
      → Texts p m
      → i < p.num
      → p.data_size + length t < 2 ^ 29
      → Roomy p m i (length t)
      → (p' : StringPool) × (allocate_string new_chars new_ints i (length t) p
          ≡ ret (offset p' i, p'))
        × Allocated p p' m i t
  unfolding allocate_string
  allocate_string-Allocated p m i t x lt small roomy =
      let l = x.layout in
      let found = get_elem?-eq-get_or p.offsets i 0 (omega (arith, l.count, l.indices)) in
      elim (Bool-cases (offset p i == 0)) [
        | inl z ↦
            let (p', e, a) = allocate_end-Allocated new_chars new_ints chars p m i t x lt small in
            (p', rw (found, z) e, a)
        | inr nz ↦
            let positive : 0 < offset p i = ground arith in
            elim (Bool-cases (offset p i == p.top)) [
              | inl top ↦
                  let at_top : offset p i ≡ p.top = ground arith in
                  elim (Bool-cases (leb (p.top + length t + 1) p.buffer_size)) [
                    | inl room ↦ top-stays p m i t x lt small positive at_top (ground arith)
                    | inr short ↦ elim (roomy positive at_top) [
                      | inl le ↦ absurd (ground arith)
                      | inr (some_char, nil) ↦
                          top-moves p m i t x lt small positive at_top (ground arith) some_char nil
                    ]
                  ]
              | inr under ↦
                  let not_top : offset p i ≢ p.top = ground arith in
                  let old =
                    c_string-Holds p.buffer (offset p i) (m i) (x.clean i) (x.holds i positive) in
                  elim (Bool-cases (leb (length t) (length (m i)))) [
                    | inl shorter ↦
                        let g = p.garbage_size + (length (m i) - length t) in
                        let q : StringPool = record p { garbage_size = g } in
                        (
                          q,
                          rw (found, nz, under, old, shorter) refl,
                          record {
                            vacant = Spot-Vacant q q m i t (Texts-Blocks q m (regarbaged p m g x)) (
                                same-Spot q m i t (regarbaged p m g x).layout lt positive not_top
                                  (ground arith));
                            beside = inl (record {
                              old = refl;
                              buffer = refl;
                              others = λ j ne. refl;
                              own = λ h. inl (refl, inr (ground arith));
                            });
                            same_num = refl;
                            same_indices = refl;
                            used = omega arith;
                          },
                        )
                    | inr longer ↦
                        let g = p.garbage_size + (length (m i) + 1) in
                        let (p', e, a) =
                          allocate_end-Allocated new_chars new_ints chars
                            (record p { garbage_size = g }) m i t (regarbaged p m g x) lt small in
                        (p', rw (found, nz, under, old, longer) e, from_garbage p p' m i t g a)
                  ]
            ]
      ]
