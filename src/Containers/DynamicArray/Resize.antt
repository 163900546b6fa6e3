-- ===== src/Containers/DynamicArray/Resize.antt =====
-- `Reserve` and `SetNum` of DynamicArray.cpp.
use mathlib.Core.List.{append_assoc}
use linux_multiarch_asm.Base.{
  ℕ, ◌-◌, ◌^◌, ◌≤◌, ◌<◌, ◌≡◌, refl, sym, ap, ◌∙◌, true, false, Option, List, [], ◌++◌, arith, ltb,
  leb, ◌==◌, if◌then◌else◌, length, take, drop, replicate, Bool-cases, inl, inr, length-append,
  length-drop, length-replicate, length-take, ltb→lt, take-append_length, take-append-drop,
}
use linux_multiarch_asm.Base.Int.{pos}
use linux_multiarch_asm.Containers.Outcome.{ret}
use linux_multiarch_asm.Containers.Growth.{Allocates}
use linux_multiarch_asm.Containers.DynamicArray.{DynamicArray, delete_old, reserve, set_num}
use linux_multiarch_asm.Containers.DynamicArray.Laws.{Represents, grown}

module _ {ℓ} {A : Type ℓ} (size_of_tx : ℕ) (allocate : ℕ → Option (List A)) (zero_object : A)
    (positive : 0 < size_of_tx) (allocates : Allocates allocate (2 ^ 31)) where
  -- Where allocations below 2 ^ 31 objects succeed, `Reserve` of a number below 2 ^ 31 makes room
  -- for as many objects and keeps the array, except that zero discards it.
  reserve-Represents :
      (d : DynamicArray A) (q : List A) (num : ℕ)
      → Represents d q
      → num < 2 ^ 31
      → (d' : DynamicArray A) × (reserve size_of_tx allocate zero_object (pos num) d ≡ ret d')
        × Represents d' (if num == 0 then [] else q)
        × (num ≤ d'.max_num)
  unfolding reserve
  reserve-Represents d q num r small = elim (Bool-cases (leb num d.max_num)) [
    | inl e ↦ elim (Bool-cases (num == 0)) [
      | inl z ↦ (
        record d { buffer = []; max_num = 0; num_entries = 0 },
        rw (e, z),
        rw z (record { free = []; split = refl; size = refl; count = refl; no_old = r.no_old }),
        ground arith,
      )
      | inr z ↦ (d, rw (e, z), rw z r, ground arith)
    ]
    | inr e ↦
        let (d', g, free, split, len, max, n, old) =
          grown size_of_tx allocate zero_object positive allocates d q num r (ground arith) small in
        let z : (num == 0) ≡ false = ground arith in
        (
          delete_old size_of_tx allocate zero_object d',
          rw (e, g),
          rw z (record {
            free = free;
            split = split;
            size = len ∙ sym max;
            count = n;
            no_old = refl;
          }),
          omega arith,
        )
  ]

  roomy :
      (d : DynamicArray A) (q : List A) (num : ℕ)
      → Represents d q
      → num < 2 ^ 31
      → (d' : DynamicArray A) × ((if ltb d.max_num num
            then reserve size_of_tx allocate zero_object (pos num) d
            else ret d)
          ≡ ret d')
        × Represents d' q
        × (num ≤ d'.max_num)
  roomy d q num r small = elim (Bool-cases (ltb d.max_num num)) [
    | inl e ↦
        let z : (num == 0) ≡ false = ground arith in
        let (d', g, r', fits) = reserve-Represents d q num r small in (d', rw e g, rw z at r', fits)
    | inr e ↦ (d, rw e, r, ground arith)
  ]

  -- Where allocations below 2 ^ 31 objects succeed, `SetNum` to a number below 2 ^ 31 cuts the
  -- objects from that number on, or adds objects of zero bytes up to it.
  pub set_num-Represents :
      (d : DynamicArray A) (q : List A) (num : ℕ)
      → Represents d q
      → num < 2 ^ 31
      → (d' : DynamicArray A) × (set_num size_of_tx allocate zero_object (pos num) d ≡ ret d')
        × Represents d'
            (if ltb (length q) num then q ++ replicate (num - length q) zero_object else take num q)
  unfolding set_num
  set_num-Represents d q num r small =
      let (d1, g, r1, fits) = roomy d q num r small in
      elim (Bool-cases (ltb (length q) num)) [
        | inl e ↦
            let less : ltb d1.num_entries num ≡ true = rw r1.count e in
            let held : ltb (length d1.buffer) num ≡ false = ground (arith, r1.size) in
            let whole : take (length q) d1.buffer ≡ q =
              rw r1.split (take-append_length q r1.free) in
            let zeros = replicate (num - length q) zero_object in
            (
              record d1 {
                buffer =
                    take d1.num_entries d1.buffer
                    ++ (replicate (num - d1.num_entries) zero_object ++ drop num d1.buffer);
                num_entries = num;
              },
              rw (g, less, held),
              rw e (record {
                free = drop num d1.buffer;
                split = rw (r1.count, whole) (sym (append_assoc q zeros (drop num d1.buffer)));
                size =
                    rw (r1.count, whole)
                      (omega (
                        arith,
                        length-append q (zeros ++ drop num d1.buffer),
                        length-append zeros (drop num d1.buffer),
                        length-replicate (num - length q) zero_object,
                        length-drop num d1.buffer,
                        r1.size,
                        ltb→lt (length q) num e,
                      ));
                count = omega (
                  arith,
                  length-append q zeros,
                  length-replicate (num - length q) zero_object,
                  ltb→lt (length q) num e,
                );
                no_old = r1.no_old;
              }),
            )
        | inr e ↦
            let not_less : ltb d1.num_entries num ≡ false = rw r1.count e in
            let le : num ≤ length q = ground arith in
            (
              record d1 { num_entries = num },
              rw (g, not_less),
              rw e (record {
                free = drop num q ++ r1.free;
                split =
                    r1.split
                    ∙ ap (λ (t : List A). t ++ r1.free) (sym (take-append-drop num q))
                    ∙ append_assoc (take num q) (drop num q) r1.free;
                size = r1.size;
                count = omega (arith, length-take num q);
                no_old = r1.no_old;
              }),
            )
      ]
