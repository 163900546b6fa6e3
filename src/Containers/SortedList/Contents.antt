-- ===== src/Containers/SortedList/Contents.antt =====
-- The records of a SortedList as a plain list, and what the moves of records do to it.
use linux_multiarch_asm.Base.{
  get_elem?-append_left, ℕ, zero, suc, ◌+◌, ◌-◌, ◌≤◌, ◌<◌, ◌≡◌, refl, ap, some, List, [], ◌∷◌, ◌++◌,
  arith, leb, ltb, if◌then◌else◌, length, get_elem?, set, take, drop, length-append, Bool-cases,
  inl, inr,
}
use linux_multiarch_asm.Containers.SortedList.{
  SortedList, move_up, move_down, insert_record, remove,
}

module _ {ℓ} {A : Type ℓ} where
  -- `x` in front of the record with index `a`
  abbrev pub insert_at : ℕ → A → List A → List A
  insert_at zero x q = x ∷ q
  insert_at (suc a) x [] = x ∷ []
  insert_at (suc a) x (y ∷ q) = y ∷ insert_at a x q

  -- without the record with index `i`
  abbrev pub erase_at : ℕ → List A → List A
  erase_at i [] = []
  erase_at zero (x ∷ q) = q
  erase_at (suc i) (x ∷ q) = x ∷ erase_at i q

  length-insert_at : (a : ℕ) (x : A) (q : List A) → length (insert_at a x q) ≡ suc (length q)
  length-insert_at zero x q = refl
  length-insert_at (suc a) x [] = refl
  length-insert_at (suc a) x (y ∷ q) = ap suc (length-insert_at a x q)

  length-erase_at : (i : ℕ) (q : List A) → i < length q → suc (length (erase_at i q)) ≡ length q
  length-erase_at i [] h = absurd (omega arith)
  length-erase_at zero (x ∷ q) h = refl
  length-erase_at (suc i) (x ∷ q) h = ap suc (length-erase_at i q (omega arith))

  pub get_elem?-insert_at :
      (a : ℕ) (x : A) (q : List A) (i : ℕ)
      → a ≤ length q
      → get_elem? (insert_at a x q) i
        ≡ (if ltb i a then get_elem? q i else if leb i a then some x else get_elem? q (i - 1))
  get_elem?-insert_at zero x q zero h = refl
  get_elem?-insert_at zero x q (suc i) h = ground arith
  get_elem?-insert_at (suc a) x [] i h = absurd (omega arith)
  get_elem?-insert_at (suc a) x (y ∷ q) zero h = ground arith
  get_elem?-insert_at (suc a) x (y ∷ q) (suc i) h =
      ground (arith, get_elem?-insert_at a x q i (omega arith))

  take_all : (q : List A) (rest : List A) → take (length q) (q ++ rest) ≡ q
  take_all [] rest = refl
  take_all (x ∷ q) rest = ap (λ t. x ∷ t) (take_all q rest)

  drop_all : (q : List A) (rest : List A) → drop (length q) (q ++ rest) ≡ rest
  drop_all [] rest = refl
  drop_all (x ∷ q) rest = drop_all q rest

  drop-suc_all :
      (q : List A) (r : A) (rest : List A) → drop (suc (length q)) (q ++ (r ∷ rest)) ≡ rest
  drop-suc_all [] r rest = refl
  drop-suc_all (x ∷ q) r rest = drop-suc_all q r rest

  -- Moving up and storing is an insertion; the cell behind the records is used up.
  set-moved :
      (a n : ℕ) (q : List A) (r : A) (rest : List A) (x : A)
      → a < length q
      → n ≡ length q - a
      → set
          (take (suc a) (q ++ (r ∷ rest))
            ++ (take n (drop a (q ++ (r ∷ rest))) ++ drop (suc (length q)) (q ++ (r ∷ rest))))
          a
          x
        ≡ insert_at a x q ++ rest
  set-moved a n [] r rest x h e = absurd (omega arith)
  set-moved zero n (y ∷ q) r rest x h e =
      let e' : n ≡ suc (length q) = omega arith in
      rw e' (simp (take_all q (r ∷ rest), drop-suc_all q r rest))
  set-moved (suc a) n (y ∷ q) r rest x h e =
      ap (λ t. y ∷ t) (set-moved a n q r rest x (omega arith) (omega arith))

  set-end :
      (q : List A) (r : A) (rest : List A) (x : A)
      → set (q ++ (r ∷ rest)) (length q) x ≡ insert_at (length q) x q ++ rest
  set-end [] r rest x = refl
  set-end (y ∷ q) r rest x = ap (λ t. y ∷ t) (set-end q r rest x)

  last_cell : (y : A) (q rest : List A) → (r : A) × (drop (length q) (y ∷ (q ++ rest)) ≡ r ∷ rest)
  last_cell y [] rest = (y, refl)
  last_cell y (z ∷ q) rest = last_cell z q rest

  -- Moving down erases a record; the vacated last cell keeps its old one.
  moved_down :
      (i n m : ℕ) (q rest : List A)
      → suc i < length q
      → n ≡ length q - i - 1
      → m ≡ length q - 1
      → (r : A) × (take i (q ++ rest) ++ (take n (drop (suc i) (q ++ rest)) ++ drop m (q ++ rest))
          ≡ erase_at i q ++ (r ∷ rest))
  moved_down i n m [] rest h e k = absurd (omega arith)
  moved_down zero n m (y ∷ q) rest h e k =
      let e' : n ≡ length q = omega arith in
      let k' : m ≡ length q = omega arith in
      let (r, p) = last_cell y q rest in (r, rw (e', k', take_all q rest, p))
  moved_down (suc i) n zero (y ∷ q) rest h e k = absurd (omega arith)
  moved_down (suc i) n (suc m) (y ∷ q) rest h e k =
      let (r, p) = moved_down i n m q rest (omega arith) (omega arith) (omega arith) in
      (r, ap (λ t. y ∷ t) p)

  erase_last :
      (i : ℕ) (q rest : List A)
      → suc i ≡ length q
      → (r : A) × (q ++ rest ≡ erase_at i q ++ (r ∷ rest))
  erase_last i [] rest h = absurd (omega arith)
  erase_last zero (y ∷ []) rest h = (y, refl)
  erase_last zero (y ∷ z ∷ q) rest h = absurd (omega arith)
  erase_last (suc i) (y ∷ q) rest h =
      let (r, p) = erase_last i q rest (omega arith) in (r, ap (λ t. y ∷ t) p)

-- The first `num` cells of the array are the records `q`, in order.
pub record Represents {ℓ} {A : Type ℓ} (max_size : ℕ) (l : SortedList A) (q : List A) : Type ℓ where
  pub free : List A
  pub split : l.list ≡ q ++ free
  pub size : length l.list ≡ max_size
  pub count : l.num ≡ length q

module _ {ℓ} {A : Type ℓ} (max_size : ℕ) (l : SortedList A) (q : List A)
    (r : Represents max_size l q) where
  pub record-at : (i : ℕ) → i < length q → get_elem? l.list i ≡ get_elem? q i
  record-at i h = rw r.split (get_elem?-append_left q r.free i h)

  pub size-free : length q + length r.free ≡ max_size
  size-free = omega (arith, ap length r.split, r.size, length-append q r.free)

  -- Storing a record at `a` inserts it there.
  pub insert_record-Represents :
      (a : ℕ) (x : A)
      → a ≤ length q
      → length q < max_size
      → Represents max_size (insert_record l a x) (insert_at a x q)
  unfolding insert_record move_up
  insert_record-Represents a x h room = stored r.free r.split size-free
    where
      shape :
          (c : A) (rest : List A)
          → set
              (if ltb a (length q) then move_up a (length q) (q ++ (c ∷ rest)) else q ++ (c ∷ rest))
              a
              x
            ≡ insert_at a x q ++ rest
      shape c rest = elim (Bool-cases (ltb a (length q))) [
        | inl e ↦ rw e (set-moved a (length q - a) q c rest x (ground arith) refl)
        | inr e ↦ let e' : a ≡ length q = ground arith in rw (e, e') (set-end q c rest x)
      ]

      stored :
          (free : List A)
          → l.list ≡ q ++ free
          → length q + length free ≡ max_size
          → Represents max_size (insert_record l a x) (insert_at a x q)
      stored [] p s = absurd (omega arith)
      stored (c ∷ rest) p s = record {
        free = rest;
        split = rw (r.count, p) (shape c rest);
        size =
            rw (r.count, p, shape c rest)
              (omega (arith, length-append (insert_at a x q) rest, length-insert_at a x q));
        count = omega (arith, r.count, length-insert_at a x q);
      }

  erased :
      (i : ℕ)
      → i < length q
      → (c : A) × ((if ltb (i + 1) l.num then move_down i l.num l.list else l.list)
          ≡ erase_at i q ++ (c ∷ r.free))
  unfolding move_down
  erased i h = elim (Bool-cases (ltb (i + 1) l.num)) [
    | inl e ↦
        rw (e, r.count, r.split)
          (moved_down i (length q - i - 1) (length q - 1) q r.free (ground (arith, r.count)) refl
            refl)
    | inr e ↦ rw (e, r.split) (erase_last i q r.free (ground (arith, r.count)))
  ]

  remove_in : (i : ℕ) → i < length q → Represents max_size (remove l i) (erase_at i q)
  unfolding remove
  remove_in i h = elim (Bool-cases (leb l.num i)) [
    | inl e ↦ absurd (ground (arith, r.count))
    | inr e ↦
        let (c, p) = erased i h in
        rw e (record {
          free = c ∷ r.free;
          split = p;
          size = rw p (
              omega (
                arith,
                length-append (erase_at i q) (c ∷ r.free),
                length-erase_at i q h,
                size-free,
              ));
          count = omega (arith, r.count, length-erase_at i q h);
        })
  ]

  remove_out : (i : ℕ) → length q ≤ i → remove l i ≡ l
  unfolding remove
  remove_out i h = ground (arith, r.count)

  -- Removing a record of the list leaves the others; another index changes nothing.
  pub remove-Represents :
      (i : ℕ) → Represents max_size (remove l i) (if ltb i (length q) then erase_at i q else q)
  remove-Represents i = elim (Bool-cases (ltb i (length q))) [
    | inl e ↦ rw e (remove_in i (ground arith))
    | inr e ↦ rw (e, remove_out i (ground arith)) r
  ]
