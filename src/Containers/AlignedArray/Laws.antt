-- ===== src/Containers/AlignedArray/Laws.antt =====
-- AlignedArray.cpp keeps its objects, aligned and inside the memory that it asked for.
use mathlib.Core.List.{append_assoc}
use linux_multiarch_asm.Base.{
  ℕ, ◌+◌, ◌-◌, ◌*◌, ◌%◌, ◌≤◌, ◌<◌, ◌≡◌, inl, inr, refl, sym, ap, ap₂, ◌∙◌, true, false, Option,
  some, List, [], ◌++◌, arith, ltb, leb, ◌==◌, if◌then◌else◌, length, take, drop, replicate,
  Bool-cases, length-append, length-drop, length-replicate, length-take, take-append_length,
  take-append-drop, ltb→lt,
}
use linux_multiarch_asm.Base.Int.{pos}
use linux_multiarch_asm.Containers.Outcome.{ret}
use linux_multiarch_asm.Containers.AlignedArray.{
  AlignedArray, aligned, new_aligned, reserve_aligned, set_num_aligned,
}

-- The array holds the objects `q`. Its first object is aligned, and the cells lie inside the block
-- that was asked for.
pub record Represents {ℓ} {A : Type ℓ} (size_of_tx : ℕ) (d : AlignedArray A) (q : List A)
    : Type ℓ where
  pub free : List A
  pub split : d.cells ≡ q ++ free
  pub size : length d.cells ≡ d.max_num
  pub count : d.num_entries ≡ length q
  pub on_boundary : d.buffer_a % 16 ≡ 0
  pub from : d.buffer_u ≤ d.buffer_a
  pub up_to : d.buffer_a + d.max_num * size_of_tx ≤ d.buffer_u + d.block_size

-- What the array asks of `new char[bytes]`: it returns an address for any size below the limit. Fresh
-- memory has as many objects as it is read for.
pub record Allocates {ℓ} {A : Type ℓ} (allocate : ℕ → Option ℕ) (contents : ℕ → ℕ → List A)
    (limit : ℕ) : Type ℓ where
  pub block : (bytes : ℕ) → bytes < limit → (u : ℕ) × (allocate bytes ≡ some u)
  pub fresh : (u num : ℕ) → length (contents u num) ≡ num

module _ {ℓ} {A : Type ℓ} (size_of_tx : ℕ) (allocate : ℕ → Option ℕ) (contents : ℕ → ℕ → List A)
    (zero_object : A) (limit : ℕ) (allocates : Allocates allocate contents limit) where
  -- Where allocations below the limit succeed, and the array asks for fewer bytes, `Reserve` makes
  -- room for as many objects and keeps the array, except that zero discards it. It keeps the room
  -- for the objects on a multiple of 16, inside the block that was asked for.
  pub reserve_aligned-Represents :
      (d : AlignedArray A) (q : List A) (num : ℕ)
      → Represents size_of_tx d q
      → num * size_of_tx + 15 < limit
      → (d' : AlignedArray A) × (reserve_aligned size_of_tx allocate contents zero_object
            (pos num)
            d
          ≡ ret d')
        × Represents size_of_tx d' (if num == 0 then [] else q)
        × (num ≤ d'.max_num)
  unfolding reserve_aligned new_aligned
  reserve_aligned-Represents d q num r small = elim (Bool-cases (leb num d.max_num)) [
    | inl e ↦ elim (Bool-cases (num == 0)) [
      | inl z ↦ (
        new_aligned,
        rw (e, z),
        rw z (record {
          free = [];
          split = refl;
          size = refl;
          count = refl;
          on_boundary = omega arith;
          from = omega arith;
          up_to = omega arith;
        }),
        ground arith,
      )
      | inr z ↦ (d, rw (e, z), rw z r, ground arith)
    ]
    | inr e ↦
        let (u, g) = allocates.block (num * size_of_tx + 16 - 1) (omega arith) in
        let z : (num == 0) ≡ false = ground arith in
        let fresh = contents (aligned u) num in
        let whole : take d.num_entries d.cells ≡ q =
          ap₂ (λ (n : ℕ) (b : List A). take n b) r.count r.split ∙ take-append_length q r.free in
        let fits : length q ≤ d.max_num =
          omega (arith, r.size, ap length r.split, length-append q r.free) in
        (
          record {
            buffer_u = u;
            block_size = num * size_of_tx + 16 - 1;
            buffer_a = aligned u;
            cells = take d.num_entries d.cells ++ drop d.num_entries fresh;
            max_num = num;
            num_entries = d.num_entries;
          },
          rw (e, g),
          rw z (record {
            free = drop d.num_entries fresh;
            split = ap (λ (t : List A). t ++ drop d.num_entries fresh) whole;
            size =
                length-append (take d.num_entries d.cells) (drop d.num_entries fresh)
                ∙ omega (
                  arith,
                  ap length whole,
                  length-drop d.num_entries fresh,
                  allocates.fresh (aligned u) num,
                  r.count,
                  fits,
                  ltb→lt d.max_num num (ground arith),
                );
            count = r.count;
            on_boundary = unfold aligned in omega arith;
            from = unfold aligned in omega arith;
            up_to = unfold aligned in omega arith;
          }),
          omega arith,
        )
  ]

  roomy :
      (d : AlignedArray A) (q : List A) (num : ℕ)
      → Represents size_of_tx d q
      → num * size_of_tx + 15 < limit
      → (d' : AlignedArray A) × ((if ltb d.max_num num
            then reserve_aligned size_of_tx allocate contents zero_object (pos num) d
            else ret d)
          ≡ ret d')
        × Represents size_of_tx d' q
        × (num ≤ d'.max_num)
  roomy d q num r small = elim (Bool-cases (ltb d.max_num num)) [
    | inl e ↦
        let z : (num == 0) ≡ false = ground arith in
        let (d', g, r', fits) = reserve_aligned-Represents d q num r small in
        (d', rw e g, rw z at r', fits)
    | inr e ↦ (d, rw e, r, ground arith)
  ]

  -- Where allocations below the limit succeed, and the array asks for fewer bytes, `SetNum` cuts
  -- the objects from the new number on, or adds objects of zero bytes up to it. It keeps the
  -- objects on a multiple of 16, inside the block that was asked for.
  pub set_num_aligned-Represents :
      (d : AlignedArray A) (q : List A) (num : ℕ)
      → Represents size_of_tx d q
      → num * size_of_tx + 15 < limit
      → (d' : AlignedArray A) × (set_num_aligned size_of_tx allocate contents zero_object
            (pos num)
            d
          ≡ ret d')
        × Represents size_of_tx d'
            (if ltb (length q) num then q ++ replicate (num - length q) zero_object else take num q)
  unfolding set_num_aligned
  set_num_aligned-Represents d q num r small =
      let (d1, g, r1, fits) = roomy d q num r small in
      elim (Bool-cases (ltb (length q) num)) [
        | inl e ↦
            let less : ltb d1.num_entries num ≡ true = rw r1.count e in
            let held : ltb (length d1.cells) num ≡ false = ground (arith, r1.size) in
            let whole : take d1.num_entries d1.cells ≡ q =
              ap₂ (λ (n : ℕ) (b : List A). take n b) r1.count r1.split
              ∙ take-append_length q r1.free in
            let same : num - d1.num_entries ≡ num - length q = omega (arith, r1.count) in
            let zeros = replicate (num - length q) zero_object in
            let cells_at : take d1.num_entries d1.cells
                  ++ (replicate (num - d1.num_entries) zero_object ++ drop num d1.cells)
                ≡ q ++ (zeros ++ drop num d1.cells) =
              ap₂ (λ (t : List A) (n : ℕ). t ++ (replicate n zero_object ++ drop num d1.cells))
                whole same in
            (
              record d1 {
                cells =
                    take d1.num_entries d1.cells
                    ++ (replicate (num - d1.num_entries) zero_object ++ drop num d1.cells);
                num_entries = num;
              },
              rw (g, less, held),
              rw e (record {
                free = drop num d1.cells;
                split = cells_at ∙ sym (append_assoc q zeros (drop num d1.cells));
                size =
                    ap length cells_at
                    ∙ omega (
                      arith,
                      length-append q (zeros ++ drop num d1.cells),
                      length-append zeros (drop num d1.cells),
                      length-replicate (num - length q) zero_object,
                      length-drop num d1.cells,
                      r1.size,
                      ltb→lt (length q) num e,
                    );
                count = omega (
                  arith,
                  length-append q zeros,
                  length-replicate (num - length q) zero_object,
                  ltb→lt (length q) num e,
                );
                on_boundary = r1.on_boundary;
                from = r1.from;
                up_to = r1.up_to;
              }),
            )
        | inr e ↦
            let not_less : ltb d1.num_entries num ≡ false = rw r1.count e in
            let le : num ≤ length q = ground arith in
            (
              record d1 { num_entries = num },
              rw (g, not_less),
              rw e (record {
                free = drop num q ++ r1.free;
                split =
                    r1.split
                    ∙ ap (λ (t : List A). t ++ r1.free) (sym (take-append-drop num q))
                    ∙ append_assoc (take num q) (drop num q) r1.free;
                size = r1.size;
                count = omega (arith, length-take num q);
                on_boundary = r1.on_boundary;
                from = r1.from;
                up_to = r1.up_to;
              }),
            )
      ]
