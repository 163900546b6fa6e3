-- ===== src/Containers/StringPool/Index.antt =====
-- Offsets for more indices: `ReserveNum` of StringPoolS.cpp, and the beginning of its `Set` functions.
use linux_multiarch_asm.Base.{
  ℕ, ◌+◌, ◌-◌, ◌*◌, ◌^◌, ◌≤◌, ◌<◌, ◌≡◌, inl, inr, refl, sym, ap, ◌∙◌, false, Option, List, [], ◌∷◌,
  ◌++◌, arith, ltb, leb, if◌then◌else◌, length, get_or, Bool-cases, length-append, length-replicate,
}
use linux_multiarch_asm.Containers.Outcome.{ret}
use linux_multiarch_asm.Containers.Growth.{Allocates}
use linux_multiarch_asm.Containers.Memory.{int_lem, zeroes}
use linux_multiarch_asm.Containers.StringPool.{StringPool, reserve_num, grow_num}
use linux_multiarch_asm.Containers.StringPool.Compact.{live}
use linux_multiarch_asm.Containers.StringPool.Layout.{offset, Texts}
use linux_multiarch_asm.Containers.StringPool.Offsets.{
  take-all, drop-all, get_or-zeroes, get_or-append_zeroes, live-append_zeroes,
}

-- The offsets are in a block of the size that the pool says.
pub record Indexed (p : StringPool) : Type 0 where
  pub size : length p.offsets ≡ p.offsets_size
  pub count : p.num ≤ p.offsets_size

-- `p'` is `p` with offset 0 at more indices.
pub record Grown (p p' : StringPool) : Type 0 where
  pub indexed : Indexed p'
  pub more : p.num ≤ p'.num
  pub same : (j : ℕ) → offset p' j ≡ offset p j
  pub live_same : (n : ℕ → ℕ) → live n 0 p'.offsets ≡ live n 0 p.offsets
  pub buffer : p'.buffer ≡ p.buffer
  pub old : p'.old_buffer ≡ p.old_buffer
  pub buffer_size : p'.buffer_size ≡ p.buffer_size
  pub data_size : p'.data_size ≡ p.data_size
  pub top : p'.top ≡ p.top

pub Grown-Texts : (p p' : StringPool) (m : ℕ → List ℕ) → Texts p m → Grown p p' → Texts p' m
Grown-Texts p p' m x g =
    let l = x.layout in
    record {
      layout = record {
        started = omega (arith, g.data_size, l.started);
        size = ap length g.buffer ∙ l.size ∙ sym g.buffer_size;
        fits = omega (arith, g.data_size, g.buffer_size, l.fits);
        indices = g.indexed.size;
        count = g.indexed.count;
        beyond = λ i le. g.same i ∙ l.beyond i (omega (arith, g.more));
        empty = λ i e. l.empty i (sym (g.same i) ∙ e);
        ends = λ i h. omega (arith, g.same i, g.data_size, l.ends i (omega (arith, g.same i)));
        le_top = λ i h. omega (arith, g.same i, g.top, l.le_top i (omega (arith, g.same i)));
        last = λ i h e. omega (
          arith,
          g.same i,
          g.top,
          g.data_size,
          l.last i (omega (arith, g.same i)) (omega (arith, g.same i, g.top)),
        );
        apart = λ i j ne h h'.
            let (ei, ej) : (offset p' i ≡ offset p i) × (offset p' j ≡ offset p j) =
              (g.same i, g.same j) in
            rw (ei, ej) (l.apart i j ne (omega arith) (omega arith));
        space = omega (arith, g.live_same (λ j. length (m j)), g.data_size, l.space);
      };
      clean = x.clean;
      blank = rw g.buffer x.blank;
      holds = λ i h. let e = g.same i in rw (e, g.buffer) (x.holds i (omega (arith, e)));
    }

more_num :
    (p : StringPool) (num : ℕ)
    → Indexed p
    → p.num ≤ num
    → num ≤ p.offsets_size
    → Grown p (record p { num = num })
more_num p num ix le le' = record {
  indexed = record { size = ix.size; count = le' };
  more = le;
  same = λ j. refl;
  live_same = λ n. refl;
  buffer = refl;
  old = refl;
  buffer_size = refl;
  data_size = refl;
  top = refl;
}

-- The pool that `ReserveNum` makes, with `n` offsets.
abbrev more_indices : ℕ → ℕ → StringPool → StringPool
more_indices num n p = record p {
  offsets = p.offsets ++ zeroes (n - p.offsets_size);
  offsets_size = n;
  num = num;
}

more_indices-Grown :
    (p : StringPool) (num n : ℕ)
    → Indexed p
    → p.num ≤ num
    → num ≤ n
    → p.offsets_size ≤ n
    → Grown p (more_indices num n p)
more_indices-Grown p num n ix le le' more =
    let zs = zeroes (n - p.offsets_size) in
    let z : (j : ℕ) → get_or zs j 0 ≡ 0 = get_or-zeroes (n - p.offsets_size) in
    record {
      indexed = record {
        size =
            length-append p.offsets zs
            ∙ omega (arith, ix.size, length-replicate {A = ℕ} (n - p.offsets_size) 0);
        count = le';
      };
      more = le;
      same = λ j. get_or-append_zeroes p.offsets zs j z;
      live_same = λ k. live-append_zeroes k 0 p.offsets zs z;
      buffer = refl;
      old = refl;
      buffer_size = refl;
      data_size = refl;
      top = refl;
    }

module _ (new_chars new_ints : ℕ → Option (List ℕ)) (ints : Allocates new_ints (2 ^ 31)) where
  -- `ReserveNum` adds offsets 0.
  reserve_num-more_indices :
      (p : StringPool) (newsize num : ℕ)
      → Indexed p
      → p.offsets_size < newsize
      → newsize < 2 ^ 30
      → p.offsets_size < 2 ^ 29
      → (n : ℕ) × (reserve_num new_chars new_ints newsize (record p { num = num })
          ≡ ret (more_indices num n p))
        × (newsize ≤ n)
  unfolding reserve_num
  reserve_num-more_indices p newsize num ix gt small few =
      let least = p.offsets_size * 2 + 1024 in
      let n = if ltb newsize least then least else newsize in
      let grows : leb newsize p.offsets_size ≡ false = ground arith in
      let ge : newsize ≤ n = ground arith in
      let (fresh, e, size) = ints.block n (ground arith) in
      let none_left = drop-all fresh n (omega (arith, size)) in
      let all = take-all p.offsets p.offsets_size (omega (arith, ix.size)) in
      let unit = append_nil (zeroes (n - p.offsets_size)) in
      let inside : ltb (length fresh) n ≡ false = ground (arith, size) in
      (n, rw (grows, int_lem least (omega arith), e, inside, none_left, all, unit) refl, ge)
    where
      append_nil : (xs : List ℕ) → xs ++ [] ≡ xs
      append_nil [] = refl
      append_nil (x ∷ xs) = ap (λ (ys : List ℕ). x ∷ ys) (append_nil xs)

  pub grow_num-Grown :
      (p : StringPool) (i : ℕ)
      → Indexed p
      → i < 2 ^ 29
      → p.offsets_size < 2 ^ 29
      → (p' : StringPool) × (grow_num new_chars new_ints i p ≡ ret p') × Grown p p' × (i < p'.num)
  grow_num-Grown p i ix small few = elim (Bool-cases (leb p.num i)) [
    | inl grows ↦ elim (Bool-cases (leb p.offsets_size i)) [
      | inl more ↦
          let (n, e, le) =
            reserve_num-more_indices p (i + 1) (i + 1) ix (ground arith) (omega arith) few in
          (
            more_indices (i + 1) n p,
            rw (grows, int_lem (i + 1) (omega arith), more) e,
            more_indices-Grown p (i + 1) n ix (ground arith) le (ground arith),
            omega arith,
          )
      | inr enough ↦ (
        record p { num = i + 1 },
        rw (grows, int_lem (i + 1) (omega arith), enough) refl,
        more_num p (i + 1) ix (ground arith) (ground arith),
        omega arith,
      )
    ]
    | inr inside ↦ (p, rw inside refl, more_num p p.num ix (omega arith) ix.count, ground arith)
  ]
