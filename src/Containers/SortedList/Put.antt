-- ===== src/Containers/SortedList/Put.antt =====
-- `Put`, `PutUnique`, `Exists` and `Remove` of SortedList.cpp on the list of records.
use mathlib.Core.List.{Perm}
use mathlib.Core.List.Perm
use linux_multiarch_asm.Base.{
  get_elem?-defined, get_elem?-none, ℕ, zero, suc, ◌-◌, ◌^◌, ◌≤◌, ◌<◌, ◌≡◌, ◌∙◌, ◌⊎◌, inl, inr,
  Bool, true, false, some, none, List, [], ◌∷◌, arith, ltb, leb, length, get_elem?, Bool-cases,
  if◌then◌else◌,
}
use linux_multiarch_asm.Containers.Outcome.{ret}
use linux_multiarch_asm.Containers.SortedList.{
  SortedList, apart_record, insert_reference, insert_record, put, put_unique, exists, remove,
}
use linux_multiarch_asm.Containers.SortedList.Contents.{
  Represents, record-at, insert_at, erase_at, get_elem?-insert_at, insert_record-Represents,
  remove-Represents,
}
use linux_multiarch_asm.Containers.SortedList.Search.{
  StrictWeakOrder, IsSorted, Splits, search_list-Splits,
}

module _ {ℓ} {A : Type ℓ} where
  insert_at-perm : (a : ℕ) (x : A) (q : List A) → Perm (insert_at a x q) (x ∷ q)
  insert_at-perm zero x q = Perm.refl _
  insert_at-perm (suc a) x [] = Perm.refl _
  insert_at-perm (suc a) x (y ∷ q) =
      Perm.trans (Perm.cons y (insert_at-perm a x q)) (Perm.swap x y q)

  get_elem?-erase_at :
      (i : ℕ) (q : List A) (j : ℕ)
      → get_elem? (erase_at i q) j ≡ (if ltb j i then get_elem? q j else get_elem? q (suc j))
  get_elem?-erase_at i [] j = ground arith
  get_elem?-erase_at zero (x ∷ q) j = ground arith
  get_elem?-erase_at (suc i) (x ∷ q) zero = ground arith
  get_elem?-erase_at (suc i) (x ∷ q) (suc j) = ground (arith, get_elem?-erase_at i q j)

-- A list that stands for sorted records.
pub record Ordered {ℓ} {A : Type ℓ} (less : A → A → Bool) (max_size : ℕ) (l : SortedList A)
    (q : List A) : Type ℓ where
  pub records : Represents max_size l q
  pub sorted : IsSorted less q

module _ {ℓ} {A : Type ℓ} (less : A → A → Bool) where
  -- Records that neither comes before count as equal.
  abbrev pub Equal : A → A → Type 0
  Equal x y = (less x y ≡ false) × (less y x ≡ false)

module _ {ℓ} {A : Type ℓ} (less : A → A → Bool) (order : StrictWeakOrder less) (max_size : ℕ)
    (small : max_size ≤ 2 ^ 31) where
  less_asymm : (a b : A) → less a b ≡ true → less b a ≡ false
  less_asymm a b h = ground (arith, order.transitive a b a, order.irreflexive a)

  insert_at-IsSorted :
      (q : List A) (x : A) (a : ℕ)
      → IsSorted less q
      → Splits less q x a
      → IsSorted less (insert_at a x q)
  insert_at-IsSorted q x a sorted s i j y z h p p' = ground (
    arith,
    get_elem?-insert_at a x q i s.within,
    get_elem?-insert_at a x q j s.within,
    sorted i j y z,
    sorted i (j - 1) y z,
    sorted (i - 1) (j - 1) y z,
    s.below i y,
    s.above (j - 1) z,
    less_asymm y x,
  )

  insert_record-Ordered :
      (l : SortedList A) (q : List A) (x : A) (a : ℕ)
      → Ordered less max_size l q
      → length q < max_size
      → Splits less q x a
      → Ordered less max_size (insert_record l a x) (insert_at a x q)
  insert_record-Ordered l q x a o room s = record {
    records = insert_record-Represents max_size l q o.records a x s.within room;
    sorted = insert_at-IsSorted q x a o.sorted s;
  }

  -- Where `less` is a strict weak order and `MAXSIZE` at most 2 ^ 31: on a full list `Put` of a
  -- record outside the list returns false and changes nothing. Otherwise it returns true, the new
  -- list is in order, and its records are those of the old one and the new record.
  pub put_lem :
      (l : SortedList A) (q : List A) (x : A)
      → Ordered less max_size l q
      → ((max_size ≤ length q) × (put less max_size l (apart_record x) ≡ ret (false, l)))
        ⊎ ((l' : SortedList A) × (q' : List A) × (put less max_size l (apart_record x)
              ≡ ret (true, l'))
            × Ordered less max_size l' q'
            × Perm q' (x ∷ q))
  unfolding put insert_reference
  put_lem l q x o = elim (Bool-cases (leb max_size l.num)) [
    | inl e ↦ inl (ground (arith, o.records.count), rw e)
    | inr e ↦
        let (a, p, s) = search_list-Splits less order x small o.records o.sorted in
        inr (
          insert_record l a x,
          insert_at a x q,
          rw (e, p),
          insert_record-Ordered l q x a o (ground (arith, o.records.count)) s,
          insert_at-perm a x q,
        )
  ]

  -- What the record at the position of a search tells about the whole list.
  data Found (q : List A) (x : A) (a : ℕ) : Type ℓ where
    at_end :
        length q ≤ a → ((i : ℕ) (y : A) → get_elem? q i ≡ some y → ¬ Equal less x y) → Found q x a
    above_it :
        (y : A)
        → get_elem? q a ≡ some y
        → less x y ≡ true
        → ((i : ℕ) (z : A) → get_elem? q i ≡ some z → ¬ Equal less x z)
        → Found q x a
    equal_to_it :
        (y : A) → get_elem? q a ≡ some y → less x y ≡ false → less y x ≡ false → Found q x a

  Found-at : (q : List A) (x : A) (a : ℕ) → IsSorted less q → Splits less q x a → Found q x a
  Found-at q x a sorted s = elim (Bool-cases (leb (length q) a)) [
    | inl e ↦ at_end (ground arith) (λ i y g n. ground (arith, s.below i y, get_elem?-none q i))
    | inr e ↦
        let (y, g) = get_elem?-defined q a (ground arith) in
        elim (Bool-cases (less x y)) [
          | inl c ↦
              above_it y g c
                (λ i z k n. ground (arith, s.below i z, sorted a i y z, order.comparable x y z))
          | inr c ↦ equal_to_it y g c (s.above a y (omega arith) g)
        ]
  ]

  -- A record of the list stands in the array, at an index below `num`.
  cell_at :
      (l : SortedList A) (q : List A)
      → Represents max_size l q
      → (a : ℕ) (y : A) → get_elem? q a ≡ some y
      → (ltb a l.num ≡ true) × (get_elem? l.list a ≡ some y)
  cell_at l q r a y g =
      let inside : a < length q = ground (arith, get_elem?-none q a) in
      (ground (arith, r.count), record-at max_size l q r a inside ∙ g)

  -- Where `less` is a strict weak order and `MAXSIZE` at most 2 ^ 31, `Exists` tells whether an
  -- equal record is in the list, and returns the index of the first one.
  pub exists_lem :
      (l : SortedList A) (q : List A) (x : A)
      → Ordered less max_size l q
      → ((exists less l x ≡ ret none)
          × ((i : ℕ) (y : A) → get_elem? q i ≡ some y → ¬ Equal less x y))
        ⊎ ((i : ℕ) × (y : A) × (exists less l x ≡ ret (some i))
            × (get_elem? q i ≡ some y)
            × Equal less x y
            × ((j : ℕ) (z : A) → j < i → get_elem? q j ≡ some z → less z x ≡ true))
  unfolding exists
  exists_lem l q x o =
      let (a, p, s) = search_list-Splits less order x small o.records o.sorted in
      let at = record-at max_size l q o.records a in
      let count = o.records.count in
      elim (Found-at q x a o.sorted s) [
        | at_end h absent ↦ inl (ground (arith, p, count), absent)
        | above_it y g c absent ↦ inl (ground (arith, p, count, at, g, get_elem?-none q a), absent)
        | equal_to_it y g c c' ↦
            inr (a, y, ground (arith, p, count, at, g, get_elem?-none q a), g, (c, c'), s.below)
      ]

  -- Where `less` is a strict weak order and `MAXSIZE` at most 2 ^ 31: `PutUnique` of a record
  -- outside the list, on a list with room, returns true. It changes nothing if an equal record is
  -- in the list; otherwise the new list is in order and has the new record besides the old ones.
  pub put_unique_lem :
      (l : SortedList A) (q : List A) (x : A)
      → Ordered less max_size l q
      → length q < max_size
      → ((put_unique less max_size l (apart_record x) ≡ ret (true, l))
          × ((i : ℕ) × (y : A) × (get_elem? q i ≡ some y) × Equal less x y))
        ⊎ (((i : ℕ) (y : A) → get_elem? q i ≡ some y → ¬ Equal less x y)
            × ((l' : SortedList A) × (q' : List A) × (put_unique less max_size l (apart_record x)
                  ≡ ret (true, l'))
                × Ordered less max_size l' q'
                × Perm q' (x ∷ q)))
  unfolding put_unique insert_reference
  put_unique_lem l q x o room =
      let (a, p, s) = search_list-Splits less order x small o.records o.sorted in
      let roomy : leb max_size l.num ≡ false = ground (arith, o.records.count) in
      let stored = insert_record-Ordered l q x a o room s in
      elim (Found-at q x a o.sorted s) [
        | at_end h absent ↦
            let out : ltb a l.num ≡ false = ground (arith, o.records.count) in
            inr (
              absent,
              (
                insert_record l a x,
                insert_at a x q,
                rw (roomy, p, out),
                stored,
                insert_at-perm a x q,
              ),
            )
        | above_it y g c absent ↦
            let (inside, g') = cell_at l q o.records a y g in
            inr (
              absent,
              (
                insert_record l a x,
                insert_at a x q,
                rw (roomy, p, inside, g', c),
                stored,
                insert_at-perm a x q,
              ),
            )
        | equal_to_it y g c c' ↦
            let (inside, g') = cell_at l q o.records a y g in
            inl (rw (roomy, p, inside, g', c), (a, y, g, (c, c')))
      ]

  -- `Remove` of an index in range erases that record and keeps the list in order; of any other
  -- index it changes nothing.
  pub remove-Ordered :
      (l : SortedList A) (q : List A) (i : ℕ)
      → Ordered less max_size l q
      → Ordered less max_size (remove l i) (if ltb i (length q) then erase_at i q else q)
  remove-Ordered l q i o = record {
    records = remove-Represents max_size l q o.records i;
    sorted = elim (Bool-cases (ltb i (length q))) [
      | inl e ↦ rw e (λ a b y z h p p'. ground (
        arith,
        get_elem?-erase_at i q a,
        get_elem?-erase_at i q b,
        o.sorted a b y z,
        o.sorted a (suc b) y z,
        o.sorted (suc a) (suc b) y z,
      ))
      | inr e ↦ rw e o.sorted
    ];
  }
