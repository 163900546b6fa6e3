-- ===== src/Containers/StringPool/Allocate.antt =====
-- `Allocate` of StringPoolS.cpp makes room for a text.
use linux_multiarch_asm.Base.{
  ℕ, ◌+◌, ◌^◌, ◌≤◌, ◌<◌, ◌≡◌, ◌≢◌, ◌⊎◌, inl, inr, refl, sym, Option, List, arith, ltb, length,
  get_or, set, Bool-cases, get_or-set_self, get_or-set_ne, length-set,
}
use linux_multiarch_asm.Containers.Outcome.{ret}
use linux_multiarch_asm.Containers.Growth.{Allocates}
use linux_multiarch_asm.Containers.Memory.{int_lem}
use linux_multiarch_asm.Containers.StringPool.{StringPool, allocate_end}
use linux_multiarch_asm.Containers.StringPool.Grow.{reserve_buf-Reserved}
use linux_multiarch_asm.Containers.StringPool.Layout.{offset, Layout, Texts, Texts-Blocks}
use linux_multiarch_asm.Containers.StringPool.Put.{Spot}
use linux_multiarch_asm.Containers.StringPool.Vacant.{Vacant, relaid, Spot-Vacant}

-- Whether a text stays in the place of string `i`: it fits the block behind `Top`, or is not longer.
abbrev pub Stays : StringPool → (ℕ → List ℕ) → ℕ → ℕ → Type 0
Stays p m i len = ((offset p i ≡ p.top) × (p.top + len + 1 ≤ p.buffer_size)) ⊎ (len ≤ length (m i))

-- After `Allocate` either nothing else has moved, and the place is the old one or behind it, or the old
-- block is beside the new one.
pub record Unmoved (p p' : StringPool) (m : ℕ → List ℕ) (i : ℕ) (t : List ℕ) : Type 0 where
  pub old : p'.old_buffer ≡ p.old_buffer
  pub buffer : p'.buffer ≡ p.buffer
  pub others : (j : ℕ) → j ≢ i → offset p' j ≡ offset p j
  pub own :
      0 < offset p i
      → ((offset p' i ≡ offset p i) × Stays p m i (length t))
        ⊎ (offset p i + (length (m i) + 1) ≤ offset p' i)

abbrev Beside : StringPool → StringPool → (ℕ → List ℕ) → ℕ → List ℕ → Type 0
Beside p p' m i t = Unmoved p p' m i t ⊎ (p'.old_buffer ≡ p.buffer)

-- What `Allocate` leaves: a place for the text `t`.
pub record Allocated (p p' : StringPool) (m : ℕ → List ℕ) (i : ℕ) (t : List ℕ) : Type 0 where
  pub vacant : Vacant p' m i t
  pub beside : Beside p p' m i t
  pub same_num : p'.num ≡ p.num
  pub same_indices : p'.offsets_size ≡ p.offsets_size
  pub used : p'.data_size ≤ p.data_size + (length t + 1)

-- The pool with the new place behind all strings.
abbrev placed : ℕ → ℕ → StringPool → StringPool
placed i len p = record p {
  offsets = set p.offsets i p.data_size;
  top = p.data_size;
  data_size = p.data_size + len + 1;
}

end-Spot :
    (p : StringPool) (m : ℕ → List ℕ) (i : ℕ) (t : List ℕ)
    → Layout p (λ j. length (m j))
    → i < p.num
    → p.data_size + length t + 1 ≤ p.buffer_size
    → Spot p (placed i (length t) p) m i t
end-Spot p m i t l lt room =
    let here : get_or (set p.offsets i p.data_size) i 0 ≡ p.data_size =
      get_or-set_self p.offsets i p.data_size 0 (omega (arith, l.count, l.indices)) in
    record {
      buffer = refl;
      buffer_size = refl;
      num = refl;
      indices = refl;
      count = length-set p.offsets i p.data_size;
      inside = lt;
      others = λ j ne. get_or-set_ne p.offsets i j p.data_size 0 (λ e. ne (sym e));
      positive = omega (arith, here, l.started);
      ends = omega (arith, here);
      fits = room;
      ends_others = λ j ne h. omega (arith, l.ends j h);
      apart = λ j ne h. inl (omega (arith, here, l.ends j h));
      le_top = omega (arith, here);
      le_top_others = λ j ne h. omega (arith, l.ends j h);
      last = λ e. omega arith;
      last_others = λ j ne h e. absurd (omega (arith, l.ends j h));
      space = omega (arith, l.space);
    }

-- The last string grows or shrinks where it stands.
pub top-Spot :
    (p : StringPool) (m : ℕ → List ℕ) (i : ℕ) (t : List ℕ)
    → Layout p (λ j. length (m j))
    → i < p.num
    → 0 < offset p i
    → offset p i ≡ p.top
    → p.top + length t + 1 ≤ p.buffer_size
    → Spot p (record p { data_size = p.top + length t + 1 }) m i t
top-Spot p m i t l lt positive at_top room =
    let before : (j : ℕ) → j ≢ i → 0 < offset p j → offset p j + (length (m j) + 1) ≤ p.top =
      λ j ne h. elim (l.apart j i ne h positive) [
        | inl le ↦ omega arith
        | inr le ↦ absurd (omega (arith, l.le_top j h))
      ] in
    record {
      buffer = refl;
      buffer_size = refl;
      num = refl;
      indices = refl;
      count = refl;
      inside = lt;
      others = λ j ne. refl;
      positive = positive;
      ends = omega arith;
      fits = room;
      ends_others = λ j ne h. omega (arith, before j ne h);
      apart = λ j ne h. inl (omega (arith, before j ne h));
      le_top = omega arith;
      le_top_others = λ j ne h. l.le_top j h;
      last = λ e. omega arith;
      last_others = λ j ne h e. absurd (omega (arith, before j ne h));
      space = ground (arith, l.space, l.last i positive at_top);
    }

-- A text that is not longer takes the place of the old one.
pub same-Spot :
    (p : StringPool) (m : ℕ → List ℕ) (i : ℕ) (t : List ℕ)
    → Layout p (λ j. length (m j))
    → i < p.num
    → 0 < offset p i
    → offset p i ≢ p.top
    → length t ≤ length (m i)
    → Spot p p m i t
same-Spot p m i t l lt positive not_top shorter = record {
  buffer = refl;
  buffer_size = refl;
  num = refl;
  indices = refl;
  count = refl;
  inside = lt;
  others = λ j ne. refl;
  positive = positive;
  ends = omega (arith, l.ends i positive);
  fits = l.fits;
  ends_others = λ j ne h. l.ends j h;
  apart =
      λ j ne h. elim (l.apart j i ne h positive) [ inl le ↦ inl le | inr le ↦ inr (omega arith) ];
  le_top = l.le_top i positive;
  le_top_others = λ j ne h. l.le_top j h;
  last = λ e. absurd (not_top e);
  last_others = λ j ne h e. l.last j h e;
  space = ground (arith, l.space);
}

pub regarbaged :
    (p : StringPool) (m : ℕ → List ℕ) (g : ℕ) → Texts p m → Texts (record p { garbage_size = g }) m
regarbaged p m g x = record {
  layout = relaid p (λ j. length (m j)) p.buffer p.old_buffer g refl x.layout;
  clean = x.clean;
  blank = x.blank;
  holds = x.holds;
}

module _ (new_chars new_ints : ℕ → Option (List ℕ)) (chars : Allocates new_chars (2 ^ 31)) where
  pub allocate_end-Allocated :
      (p : StringPool) (m : ℕ → List ℕ) (i : ℕ) (t : List ℕ)
      → Texts p m
      → i < p.num
      → p.data_size + length t < 2 ^ 29
      → (p' : StringPool) × (allocate_end new_chars new_ints i (length t) p ≡ ret (offset p' i, p'))
        × Allocated p p' m i t
  allocate_end-Allocated p m i t x lt small =
      let need = int_lem (p.data_size + length t + 1) (omega arith) in
      elim (Bool-cases (ltb p.buffer_size (p.data_size + length t + 1))) [
        | inl grows ↦
            let (q, e, res) =
              reserve_buf-Reserved new_chars new_ints chars (p.data_size + length t + 1) p m x
                (omega arith) (omega arith) (omega arith) in
            let used = int_lem (q.data_size + length t + 1) (omega (arith, res.shrinks)) in
            let inside : i < q.num = omega (arith, res.same_num) in
            let here =
              get_or-set_self q.offsets i q.data_size 0
                (omega (arith, res.texts.layout.count, res.texts.layout.indices)) in
            (
              placed i (length t) q,
              rw (need, grows, e, used, here) refl,
              record {
                vacant = Spot-Vacant q (placed i (length t) q) m i t (Texts-Blocks q m res.texts) (
                    end-Spot q m i t res.texts.layout inside
                      (omega (arith, res.room, res.shrinks)));
                beside = inr res.old;
                same_num = res.same_num;
                same_indices = res.same_indices;
                used = omega (arith, res.shrinks);
              },
            )
        | inr stays ↦
            let here =
              get_or-set_self p.offsets i p.data_size 0
                (omega (arith, x.layout.count, x.layout.indices)) in
            (
              placed i (length t) p,
              rw (need, stays, need, here) refl,
              record {
                vacant =
                    Spot-Vacant p (placed i (length t) p) m i t (Texts-Blocks p m x)
                      (end-Spot p m i t x.layout lt (ground arith));
                beside = inl (record {
                  old = refl;
                  buffer = refl;
                  others = λ j ne. get_or-set_ne p.offsets i j p.data_size 0 (λ e. ne (sym e));
                  own = λ h. inr (omega (arith, here, x.layout.ends i h));
                });
                same_num = refl;
                same_indices = refl;
                used = omega arith;
              },
            )
      ]
