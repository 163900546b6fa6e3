-- ===== src/Containers/DynamicArray/Laws.antt =====
-- DynamicArray.cpp behaves as a list that grows at its end.
use mathlib.Core.List.{append_assoc}
use linux_multiarch_asm.Base.{
  ℕ, ◌+◌, ◌-◌, ◌^◌, ◌≤◌, ◌<◌, ◌≡◌, refl, sym, ap, ◌∙◌, Bool, true, false, Option, none, some, List,
  [], ◌∷◌, ◌++◌, arith, leb, length, get_elem?, set, take, drop, Bool-cases, inl, inr,
  length-append, length-drop, length-set, get_elem?-append_left, get_elem?-none,
  le_of_get_elem?-none, get_elem?-append_length, Option-cases, lt→ltb, ◌⊎◌, take-length,
  set-append_length,
}
use linux_multiarch_asm.Base.Int.{pos}
use linux_multiarch_asm.Containers.Outcome.{ret, exited}
use linux_multiarch_asm.Containers.Growth.{Allocates, new_size_lem}
use linux_multiarch_asm.Containers.DynamicArray.{
  DynamicArray, Reference, elsewhere, inside, delete_old, reallocate, push_object, pop_object,
  get_at, store, dereference,
}

-- The array holds the objects `q`, in a buffer of `max_num` objects, and no old buffer is left.
pub record Represents {ℓ} {A : Type ℓ} (d : DynamicArray A) (q : List A) : Type ℓ where
  pub free : List A
  pub split : d.buffer ≡ q ++ free
  pub size : length d.buffer ≡ d.max_num
  pub count : d.num_entries ≡ length q
  pub no_old : d.old_buffer ≡ []

-- What the reference of a `Push` stands for.
abbrev pub Refers {ℓ} : {A : Type ℓ} → Reference A → List A → A → Type ℓ
Refers (elsewhere y) q x = y ≡ x
Refers (inside i) q x = get_elem? q i ≡ some x

module _ {ℓ} {A : Type ℓ} where
  lt_of_some : (q : List A) (i : ℕ) {x : A} → get_elem? q i ≡ some x → i < length q
  lt_of_some q i e = ground (arith, e, get_elem?-none q i)

module _ {ℓ} {A : Type ℓ} (size_of_tx : ℕ) (allocate : ℕ → Option (List A)) (zero_object : A)
    (positive : 0 < size_of_tx) (allocates : Allocates allocate (2 ^ 31)) where
  pub grown :
      (d : DynamicArray A) (q : List A) (num : ℕ)
      → Represents d q
      → d.max_num < num
      → num < 2 ^ 31
      → (d' : DynamicArray A) × (reallocate size_of_tx allocate zero_object num d ≡ ret d')
        × (free : List A) × (d'.buffer ≡ q ++ free)
        × (length d'.buffer ≡ num)
        × (d'.max_num ≡ num)
        × (d'.num_entries ≡ length q)
        × (d'.old_buffer ≡ d.buffer)
  unfolding reallocate
  grown d q num r h small =
      let (cells, e, len) = allocates.block num small in
      let keep : take d.max_num d.buffer ≡ d.buffer = rw (← r.size) (take-length d.buffer) in
      let d' : DynamicArray A = record {
        buffer = take d.max_num d.buffer ++ drop d.max_num cells;
        old_buffer = d.buffer;
        max_num = num;
        num_entries = d.num_entries;
      } in
      (
        d',
        rw (e, reallocate),
        r.free ++ drop d.max_num cells,
        rw (keep, r.split) (append_assoc q r.free (drop d.max_num cells)),
        rw keep (
            omega (
              arith,
              length-append d.buffer (drop d.max_num cells),
              length-drop d.max_num cells,
              r.size,
              len,
            )),
        refl,
        r.count,
        refl,
      )

  size-count : (d : DynamicArray A) (q : List A) → Represents d q → length q ≤ d.max_num
  size-count d q r = omega (arith, r.size, ap length r.split, length-append q r.free)

  -- The end of `Push`: the object goes into the first free cell.
  stored :
      (d : DynamicArray A) (q free : List A) (x : A)
      → d.buffer ≡ q ++ free
      → length d.buffer ≡ d.max_num
      → d.num_entries ≡ length q
      → length q < d.max_num
      → (b : List A) × (store d.buffer d.num_entries x ≡ ret b)
        × Represents
            (delete_old size_of_tx allocate zero_object
              (record d { buffer = b; num_entries = d.num_entries + 1 }))
            (q ++ (x ∷ []))
  stored d q [] x e len n room = absurd (omega (arith, ap length e, length-append q []))
  stored d q (c ∷ rest) x e len n room =
      let placed : set d.buffer d.num_entries x ≡ (q ++ (x ∷ [])) ++ rest =
        rw (e, n) (set-append_length q rest c x ∙ sym (append_assoc q (x ∷ []) rest)) in
      (
        set d.buffer d.num_entries x,
        rw (lt→ltb d.num_entries (length d.buffer) (omega arith)),
        record {
          free = rest;
          split = placed;
          size = length-set d.buffer d.num_entries x ∙ len;
          count = omega (arith, length-append q (x ∷ []));
          no_old = refl;
        },
      )

  Refers-read :
      (obj : Reference A) (d : DynamicArray A) (q : List A) (x : A) (moved : Bool) (b free : List A)
      → b ≡ q ++ free
      → ((moved ≡ true) × (d.old_buffer ≡ b)) ⊎ ((moved ≡ false) × (d.buffer ≡ b))
      → Refers obj q x
      → dereference size_of_tx allocate zero_object moved d obj ≡ ret x
  Refers-read (elsewhere y) d q x moved b free e m r = ap ret r
  Refers-read (inside i) d q x moved b free e (inl (m, o)) r =
      rw (m, o, e, get_elem?-append_left q free i (lt_of_some q i r), r)
  Refers-read (inside i) d q x moved b free e (inr (m, o)) r =
      rw (m, o, e, get_elem?-append_left q free i (lt_of_some q i r), r)

  -- Where allocations below 2 ^ 31 objects succeed and the array has fewer than 2 ^ 29 objects,
  -- `Push` returns the index behind the last object and adds the object there, growing the buffer
  -- where it is full. This holds for a reference into the array itself too, whose object is read
  -- from the old buffer after the array has moved.
  pub push_object-Represents :
      (d : DynamicArray A) (q : List A) (obj : Reference A) (x : A)
      → Represents d q
      → Refers obj q x
      → length q < 2 ^ 29
      → (d' : DynamicArray A) × (push_object size_of_tx allocate zero_object obj d
          ≡ ret (length q, d'))
        × Represents d' (q ++ (x ∷ []))
  unfolding push_object
  push_object-Represents d q obj x r refers small =
      elim (Bool-cases (leb d.max_num d.num_entries)) [
        | inl full ↦
            let (n, e, more, fits) =
              new_size_lem size_of_tx d.max_num positive
                (ground (arith, size-count d q r, r.count)) in
            let (d', g, free, split, len, max, num, old) = grown d q n r (omega arith) fits in
            let (b, st, r') =
              stored d' q free x split (len ∙ sym max) num (omega (arith, size-count d q r)) in
            let at = Refers-read obj d' q x true d.buffer r.free r.split (inl (refl, old)) refers in
            (_, rw (full, e, g, at, st, num), r')
        | inr room ↦
            let (b, st, r') =
              stored d q r.free x r.split r.size r.count (ground (arith, r.count)) in
            let at =
              Refers-read obj d q x false d.buffer r.free r.split (inr (refl, refl)) refers in
            (_, rw (room, at, st, r.count), r')
      ]

  -- `Pop` of an array that is not empty returns and removes the last object.
  pub pop_object-Represents :
      (d : DynamicArray A) (q : List A) (x : A)
      → Represents d (q ++ (x ∷ []))
      → (d' : DynamicArray A) × (pop_object size_of_tx allocate zero_object d ≡ ret (x, d'))
        × Represents d' q
  unfolding pop_object
  pop_object-Represents d q x r =
      let last : d.num_entries - 1 ≡ length q = omega (arith, r.count, length-append q (x ∷ [])) in
      let split : d.buffer ≡ q ++ (x ∷ r.free) = r.split ∙ append_assoc q (x ∷ []) r.free in
      let there : get_elem? d.buffer (d.num_entries - 1) ≡ some x =
        rw (last, split) (get_elem?-append_length q r.free x) in
      let some_left : leb d.num_entries 0 ≡ false =
        ground (arith, r.count, length-append q (x ∷ [])) in
      (
        record d { num_entries = d.num_entries - 1 },
        rw (some_left, there),
        record { free = x ∷ r.free; split = split; size = r.size; count = last; no_old = r.no_old },
      )

  -- `operator[]` reads the object at an index below the number of objects, and exits at any other
  -- that is not negative.
  get_at_lem :
      (d : DynamicArray A) (q : List A) (i : ℕ)
      → Represents d q
      → get_at size_of_tx allocate zero_object (pos i) d
        ≡ elim (get_elem? q i) [ none ↦ exited | some x ↦ ret x ]
  unfolding get_at
  get_at_lem d q i r = elim (Option-cases (get_elem? q i)) [
    | inl e ↦
        let out : leb d.num_entries i ≡ true =
          ground (arith, r.count, le_of_get_elem?-none q i e) in
        rw (e, out)
    | inr (x, e) ↦
        let inside = lt_of_some q i e in
        let below : leb d.num_entries i ≡ false = ground (arith, r.count) in
        rw (e, below, r.split, get_elem?-append_left q r.free i inside, e)
  ]
