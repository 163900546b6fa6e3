-- ===== src/Containers/MixedPool/Resize.antt =====
-- `ReserveSize`, `SetDataSize` and `Align` of MixedPool.cpp.
use linux_multiarch_asm.Base.{
  ℕ, zero, suc, ◌+◌, ◌-◌, ◌*◌, ◌/◌, ◌%◌, ◌^◌, ◌≤◌, ◌<◌, ◌≡◌, refl, ap, ltb→lt, true, false, Option,
  List, [], ◌++◌, arith, leb, ltb, ◌==◌, if◌then◌else◌, length, take, Bool-cases,
}
use mathlib.Core.Logic.{inl, inr}
use linux_multiarch_asm.Base.Int.{pos}
use linux_multiarch_asm.Containers.Outcome.{ret}
use linux_multiarch_asm.Containers.Growth.{Allocates}
use linux_multiarch_asm.Containers.MixedPool.{
  MixedPool, new_pool, reserve_size, set_data_size, align,
}
use linux_multiarch_asm.Containers.Memory.{int, clear_bytes, zeroes, int_lem}
use linux_multiarch_asm.Containers.MixedPool.Contents.{
  Represents, extended, shortened, length-filled,
}
use linux_multiarch_asm.Containers.MixedPool.Laws.{round_up_lem, larger_lem}

multiple_lem :
    (n a : ℕ)
    → 0 < a
    → (n ≤ (n + a - 1) / a * a) × ((n + a - 1) / a * a < n + a) × ((n + a - 1) / a * a % a ≡ 0)
multiple_lem n a h = (grind arith, grind arith, grind arith)

module _ (allocate : ℕ → Option (List ℕ)) (allocates : Allocates allocate (2 ^ 31)) where
  -- Where allocations below 2 ^ 31 bytes succeed, `ReserveSize` of fewer than 2 ^ 31 - 15 bytes
  -- makes room for as many and keeps the data, except that zero discards it.
  reserve_size-Represents :
      (d : MixedPool) (q : List ℕ) (size : ℕ)
      → Represents d q
      → size + 15 < 2 ^ 31
      → (d' : MixedPool) × (reserve_size allocate (pos size) d ≡ ret d')
        × Represents d' (if size == 0 then [] else q)
        × (size ≤ d'.buffer_size)
  unfolding reserve_size new_pool
  reserve_size-Represents d q size r small = elim (Bool-cases (leb size d.buffer_size)) [
    | inl e ↦ elim (Bool-cases (size == 0)) [
      | inl z ↦ (
        new_pool,
        rw (e, z),
        rw z (record { free = 0; contents = refl; room = refl; used = refl }),
        ground arith,
      )
      | inr z ↦ (d, rw (e, z), rw z r, ground arith)
    ]
    | inr e ↦
        let z : (size == 0) ≡ false = ground arith in
        let (n, g, more, less, _) = round_up_lem size small in
        let big = larger_lem allocate allocates d q n r (ground arith) (omega arith) in
        (
          record d { buffer = q ++ zeroes (n - length q); buffer_size = n },
          rw (e, g, big),
          rw z (record {
            free = n - length q;
            contents = refl;
            room = ground (arith, r.room);
            used = r.used;
          }),
          more,
        )
  ]

  -- Where allocations below 2 ^ 31 bytes succeed, `SetDataSize` below 2 ^ 30 cuts the data from the
  -- new size on, or adds zeroes up to it.
  pub set_data_size-Represents :
      (d : MixedPool) (q : List ℕ) (size : ℕ)
      → Represents d q
      → size < 2 ^ 30
      → (d' : MixedPool) × (set_data_size allocate (pos size) d ≡ ret d')
        × Represents d' (if ltb size (length q) then take size q else q ++ zeroes (size - length q))
  unfolding set_data_size
  set_data_size-Represents d q size r small = elim (Bool-cases (ltb d.buffer_size size)) [
    | inl e ↦
        let (n, g, more, less, _) = round_up_lem (size + 1024) (omega arith) in
        let z : (n == 0) ≡ false = ground arith in
        let (d', p, r', fits) = reserve_size-Represents d q n r (omega arith) in
        let longer : ltb size (length q) ≡ false = ground (arith, r.room) in
        (
          record d' { data_size = size },
          rw (e, g, p),
          rw longer (extended d' q size (rw z at r') (ground (arith, r.room)) (omega arith)),
        )
    | inr e ↦ elim (Bool-cases (ltb size (length q))) [
      | inl c ↦
          let shorter : ltb size d.data_size ≡ true = rw r.used c in
          let inside : ltb (length d.buffer) d.data_size ≡ false =
            ground (arith, r.used, ap length r.contents, length-filled q r.free) in
          (
            record d { buffer = clear_bytes size (d.data_size - size) d.buffer; data_size = size },
            rw (e, shorter, inside),
            rw c (shortened d q size r (ltb→lt size (length q) c)),
          )
      | inr c ↦
          let longer : ltb size d.data_size ≡ false = rw r.used c in
          (
            record d { data_size = size },
            rw (e, longer),
            rw c (extended d q size r (ground arith) (ground arith)),
          )
    ]
  ]

  -- Where allocations below 2 ^ 31 bytes succeed, `Align` to a positive number `a`, with `a` and
  -- the data below 2 ^ 29 in all, adds the fewest zeroes with which the data ends at a multiple of
  -- `a`.
  pub align-Represents :
      (d : MixedPool) (q : List ℕ) (a : ℕ)
      → Represents d q
      → 0 < a
      → length q + a < 2 ^ 29
      → (d' : MixedPool) × (pad : ℕ) × (align allocate a d ≡ ret d')
        × Represents d' (q ++ zeroes pad)
        × (pad < a)
        × ((length q + pad) % a ≡ 0)
  unfolding align
  align-Represents d q zero r positive small = absurd (omega arith)
  align-Represents d q (suc a) r positive small =
      let end = (d.data_size + suc a - 1) / suc a * suc a in
      let (more, less, multiple) = multiple_lem d.data_size (suc a) positive in
      let i : int (d.data_size + suc a) ≡ ret (d.data_size + suc a) =
        int_lem (d.data_size + suc a) (omega (arith, r.used)) in
      let last : (length q + (end - length q)) % suc a ≡ 0 =
        let same : length q + (end - length q) ≡ end = omega (arith, r.used) in rw same multiple in
      elim (Bool-cases (ltb d.buffer_size end)) [
        | inl e ↦
            let g : int (end * 2 + 1024) ≡ ret (end * 2 + 1024) =
              int_lem (end * 2 + 1024) (omega (arith, r.used)) in
            let z : (end * 2 + 1024 == 0) ≡ false = ground arith in
            let (d', p, r', fits) =
              reserve_size-Represents d q (end * 2 + 1024) r (omega (arith, r.used)) in
            (
              record d' { data_size = end },
              end - length q,
              rw (i, e, g, p),
              extended d' q end (rw z at r') (omega (arith, r.used)) (omega arith),
              omega (arith, r.used),
              last,
            )
        | inr e ↦ (
          record d { data_size = end },
          end - length q,
          rw (i, e),
          extended d q end r (omega (arith, r.used)) (ground arith),
          omega (arith, r.used),
          last,
        )
      ]
