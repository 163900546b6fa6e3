-- ===== src/Containers/DynamicQueue/Laws.antt =====
-- DynamicQueue.cpp behaves as a queue without a bound.
use linux_multiarch_asm.Base.{
  ℕ, ◌+◌, ◌-◌, ◌^◌, ◌≤◌, ◌<◌, ◌≡◌, inl, inr, refl, sym, ap, ◌∙◌, true, false, Option, none, some,
  List, [], ◌∷◌, ◌++◌, arith, leb, ◌==◌, if◌then◌else◌, length, get_elem?, set, Bool-cases,
  Option-cases, length-append, length-set, lt→ltb, le_of_get_elem?-none, get_elem?-none,
}
use linux_multiarch_asm.Base.Int.{pos}
use linux_multiarch_asm.Containers.Outcome.{ret, exited}
use linux_multiarch_asm.Containers.Memory.{int_lem}
use linux_multiarch_asm.Containers.Growth.{Allocates, new_size_lem}
use linux_multiarch_asm.Containers.Circular.{
  advance, wrap, Holds, Holds-append, advance-lt, advance-wrap, wrap-advance, wrap-lt,
}
use linux_multiarch_asm.Containers.Circular.Unroll.{Holds-at}
use linux_multiarch_asm.Containers.DynamicQueue.{
  DynamicQueue, Reference, elsewhere, inside, new_queue, delete_old, reserve, put_object,
  put_at_head, get_object, get_at, dereference,
}
use linux_multiarch_asm.Containers.DynamicQueue.Grow.{Represents, Moved, reallocate-Moved}

-- What the reference of a `Put` stands for.
abbrev pub Refers {ℓ} : {A : Type ℓ} → Reference A → DynamicQueue A → A → Type ℓ
Refers (elsewhere y) d x = y ≡ x
Refers (inside i) d x = get_elem? d.buffer i ≡ some x

module _ {ℓ} {A : Type ℓ} where
  -- A new queue is empty.
  new_queue-Represents : Represents (new_queue {A = A}) []
  unfolding new_queue wrap
  new_queue-Represents = record {
    size = refl;
    tail_in = inr (refl, refl, refl);
    count = refl;
    fits = omega arith;
    head_at = ground arith;
    holds = tt;
    no_old = refl;
  }

  -- The end of `Put` adds the object behind the queue, where there is room for it.
  put_at_head-Represents :
      (d : DynamicQueue A) (q : List A) (x : A)
      → length d.buffer ≡ d.max_num
      → d.tail < d.max_num
      → d.num_entries ≡ length q
      → length q < d.max_num
      → d.head ≡ wrap d.max_num (d.tail + length q)
      → Holds d.buffer d.max_num d.tail q
      → (d' : DynamicQueue A) × (put_at_head d x ≡ ret d') × Represents d' (q ++ (x ∷ []))
  unfolding put_at_head
  put_at_head-Represents d q x size tail count room head holds = (
    record d {
      buffer = set d.buffer d.head x;
      old_buffer = [];
      head = advance d.max_num d.head;
      num_entries = d.num_entries + 1;
    },
    rw (lt→ltb d.head (length d.buffer) (omega (arith, wrap-lt d.max_num d.tail (length q) tail))),
    record {
      size = length-set d.buffer d.head x ∙ size;
      tail_in = inl tail;
      count = omega (arith, length-append q (x ∷ []));
      fits = omega (arith, length-append q (x ∷ []));
      head_at = ground (arith, advance-wrap d.max_num d.tail (length q), length-append q (x ∷ []));
      holds = Holds-append d.buffer d.max_num d.tail d.head x q size tail room head holds;
      no_old = refl;
    },
  )

  -- `Get` of a queue that is not empty returns and removes the oldest object.
  pub get_object-Represents :
      (d : DynamicQueue A) (x : A) (q : List A)
      → Represents d (x ∷ q)
      → (d' : DynamicQueue A) × (get_object d ≡ ret (x, d')) × Represents d' q
  unfolding get_object
  get_object-Represents d x q r = (
    record d { tail = advance d.max_num d.tail; num_entries = d.num_entries - 1 },
    ground (arith, r.holds.0, r.count),
    record {
      size = r.size;
      tail_in = inl (advance-lt d.max_num d.tail (omega (arith, r.fits)));
      count = omega (arith, r.count);
      fits = omega (arith, r.fits);
      head_at =
          ground (arith, wrap-advance d.max_num d.tail (length q), r.tail_in, r.head_at, r.fits);
      holds = r.holds.1;
      no_old = r.no_old;
    },
  )

  -- In a buffer of at most 2 ^ 30 objects, `operator[]`, of an index that is not negative, reads
  -- the object at that place from the tail, and exits where there is none.
  get_at-eq :
      (d : DynamicQueue A) (q : List A) (i : ℕ)
      → Represents d q
      → d.max_num ≤ 2 ^ 30
      → get_at (pos i) d ≡ elim (get_elem? q i) [ none ↦ exited | some x ↦ ret x ]
  unfolding get_at
  get_at-eq d q i r small = elim (Option-cases (get_elem? q i)) [
    | inl e ↦
        let out : leb d.num_entries i ≡ true =
          ground (arith, r.count, le_of_get_elem?-none q i e) in
        rw (e, out)
    | inr (x, e) ↦
        let inside_q : i < length q = ground (arith, e, get_elem?-none q i) in
        let below : leb d.num_entries i ≡ false = ground (arith, r.count) in
        let tail : d.tail < d.max_num = ground (arith, r.tail_in, r.fits) in
        let sum = int_lem (d.tail + i) (omega (arith, tail, r.fits)) in
        rw (e, below, sum, Holds-at d.buffer d.max_num d.tail q i tail r.fits inside_q r.holds, e)
  ]

module _ {ℓ} {A : Type ℓ} (size_of_tx : ℕ) (allocate : ℕ → Option (List A))
    (positive : 0 < size_of_tx) (allocates : Allocates allocate (2 ^ 31)) where
  -- Where allocations below 2 ^ 31 objects succeed and the queue has fewer than 2 ^ 29 objects,
  -- `Put` adds the object at the end of the queue, growing the buffer where it is full. This holds
  -- for a reference into the queue's own buffer too.
  pub put_object-Represents :
      (d : DynamicQueue A) (q : List A) (obj : Reference A) (x : A)
      → Represents d q
      → Refers obj d x
      → length q < 2 ^ 29
      → (d' : DynamicQueue A) × (put_object size_of_tx allocate obj d ≡ ret d')
        × Represents d' (q ++ (x ∷ []))
  unfolding put_object
  put_object-Represents d q obj x r refers small = elim (Bool-cases (leb d.max_num d.num_entries)) [
    | inl full ↦
        let (n, e, more, fits) =
          new_size_lem size_of_tx d.max_num positive (ground (arith, r.fits, r.count)) in
        let (d', g, m) =
          reallocate-Moved size_of_tx allocate (2 ^ 31) allocates d q n r (omega arith) fits in
        let room : length q < d'.max_num = omega (arith, m.max, r.fits) in
        let (d'', p, r') =
          put_at_head-Represents d' q x (m.size ∙ sym m.max) (omega (arith, m.tail_at)) m.count room
            (straight d' q m.tail_at m.head_at room) (rw (m.tail_at, m.max) m.holds) in
        (d'', rw (full, e, g, from_old d' obj refers m.old, p), r')
    | inr room ↦
        let inside_buffer : d.tail < d.max_num = ground (arith, r.tail_in) in
        let (d'', p, r') =
          put_at_head-Represents d q x r.size inside_buffer r.count (ground (arith, r.count))
            r.head_at r.holds in
        (d'', rw (room, from_buffer obj refers, p), r')
  ]
    where
      from_old :
          (d' : DynamicQueue A) (obj : Reference A)
          → Refers obj d x
          → d'.old_buffer ≡ d.buffer
          → dereference true d' obj ≡ ret x
      from_old d' (elsewhere y) e o = ap ret e
      from_old d' (inside i) e o = rw (o, e)

      from_buffer : (obj : Reference A) → Refers obj d x → dereference false d obj ≡ ret x
      from_buffer (elsewhere y) e = ap ret e
      from_buffer (inside i) e = rw e

      straight :
          (d' : DynamicQueue A) (q : List A)
          → d'.tail ≡ 0
          → d'.head ≡ length q
          → length q < d'.max_num
          → d'.head ≡ wrap d'.max_num (d'.tail + length q)
      straight d' q t h m = unfold wrap in ground arith

  -- Where allocations below 2 ^ 31 objects succeed, `Reserve` of a number below 2 ^ 31 makes room
  -- for as many objects and keeps the queue, except that zero discards it.
  reserve_queue-Represents :
      (d : DynamicQueue A) (q : List A) (num : ℕ)
      → Represents d q
      → num < 2 ^ 31
      → (d' : DynamicQueue A) × (reserve size_of_tx allocate (pos num) d ≡ ret d')
        × Represents d' (if num == 0 then [] else q)
        × (num ≤ d'.max_num)
  unfolding reserve
  reserve_queue-Represents d q num r small = elim (Bool-cases (leb num d.max_num)) [
    | inl e ↦ elim (Bool-cases (num == 0)) [
      | inl z ↦ (
        record d { buffer = []; head = 0; tail = 0; max_num = 0; num_entries = 0 },
        rw (e, z),
        rw z (record {
          size = refl;
          tail_in = inr (refl, refl, refl);
          count = refl;
          fits = omega arith;
          head_at = unfold wrap in ground arith;
          holds = tt;
          no_old = r.no_old;
        }),
        ground arith,
      )
      | inr z ↦ (d, rw (e, z), rw z r, ground arith)
    ]
    | inr e ↦
        let (d', g, m) =
          reallocate-Moved size_of_tx allocate (2 ^ 31) allocates d q num r (ground arith)
            (omega arith) in
        let z : (num == 0) ≡ false = ground arith in
        (
          delete_old d',
          rw (e, g),
          rw z (settled d' m (ground (arith, r.fits))),
          omega (arith, m.max),
        )
  ]
    where
      settled :
          {q : List A}
          → (d' : DynamicQueue A) → Moved d d' q num
          → length q < num
          → Represents (delete_old d') q
      settled {q} d' m room = record {
        size = m.size ∙ sym m.max;
        tail_in = inl (omega (arith, m.tail_at, m.max));
        count = m.count;
        fits = omega (arith, m.max);
        head_at = unfold wrap in ground (arith, m.tail_at, m.head_at, m.max);
        holds = rw (m.tail_at, m.max) m.holds;
        no_old = refl;
      }
