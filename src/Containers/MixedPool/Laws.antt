-- ===== src/Containers/MixedPool/Laws.antt =====
-- The operations of MixedPool.cpp keep the bytes pushed, in order.
use mathlib.Core.List.{append_assoc, append-nil}
use linux_multiarch_asm.Base.{
  ℕ, ◌+◌, ◌-◌, ◌*◌, ◌/◌, ◌%◌, ◌^◌, ◌≤◌, ◌<◌, ◌≡◌, refl, sym, ap, ◌∙◌, true, false, ◌||◌, Option,
  List, ◌++◌, arith, leb, ltb, ◌==◌, length, take, Bool-cases, length-append, length-replicate,
  take-length, take-append_length, drop-append_length,
}
use mathlib.Core.Logic.{inl, inr}
use linux_multiarch_asm.Base.Int.{pos}
use linux_multiarch_asm.Containers.Outcome.{ret}
use linux_multiarch_asm.Containers.Growth.{Allocates}
use linux_multiarch_asm.Containers.MixedPool.{
  MixedPool, Source, round_up, larger, push_bytes, count_object, get_bytes,
}
use linux_multiarch_asm.Containers.Memory.{int, clear_bytes, copy_bytes, zeroes, int_lem}
use linux_multiarch_asm.Containers.MixedPool.Contents.{
  Represents, Refers, copied_object, Refers-length, Refers-apart, drop-all, drop-zeroes,
  zeroes-append, length-filled,
}

pub round_up_lem :
    (n : ℕ)
    → n + 15 < 2 ^ 31
    → (m : ℕ) × (round_up n ≡ ret m) × (n ≤ m) × (m ≤ n + 15) × (m % 16 ≡ 0)
unfolding round_up
round_up_lem n h =
    ((n + 15) / 16 * 16, rw (int_lem (n + 15) h) refl, omega arith, omega arith, omega arith)

module _ (allocate : ℕ → Option (List ℕ)) (allocates : Allocates allocate (2 ^ 31)) where
  -- The new buffer has the data of the old one and zeroes.
  pub larger_lem :
      (d : MixedPool) (q : List ℕ) (n : ℕ)
      → Represents d q
      → d.buffer_size ≤ n
      → n < 2 ^ 31
      → larger allocate n d ≡ ret (q ++ zeroes (n - length q))
  unfolding larger
  larger_lem d q n r fits small =
      let (cells, e, len) = allocates.block n small in
      let old = q ++ zeroes r.free in
      let size : length old ≡ length q + r.free =
        omega (arith, length-append q (zeroes r.free), length-replicate {A = ℕ} r.free 0) in
      let whole : take d.buffer_size d.buffer ≡ old =
        ap (λ (b : List ℕ). take d.buffer_size b) r.contents
        ∙ ap (λ (m : ℕ). take m old) (r.room ∙ sym size)
        ∙ take-length old in
      let cleared : clear_bytes 0 n cells ≡ zeroes n =
        ap (λ (t : List ℕ). zeroes n ++ t) (drop-all (0 + n) cells (omega arith))
        ∙ append-nil (zeroes n) in
      let left : r.free + (n - (0 + length old)) ≡ n - length q = omega (arith, r.room) in
      let copied : copy_bytes 0 old (zeroes n) ≡ q ++ zeroes (n - length q) =
        ap (λ (t : List ℕ). old ++ t) (drop-zeroes (0 + length old) n)
        ∙ append_assoc q (zeroes r.free) (zeroes (n - (0 + length old)))
        ∙ ap (λ (t : List ℕ). q ++ t)
            (zeroes-append r.free (n - (0 + length old)) ∙ ap zeroes left) in
      let inside : (ltb (length cells) n || ltb (length cells) d.buffer_size) ≡ false =
        ground arith in
      rw (e, larger, inside) (rw (whole, cleared) (ap ret copied))

  -- With the object behind the data, the end of `Push` counts it.
  counted :
      (d : MixedPool) (q v : List ℕ) (size free used : ℕ)
      → d.buffer ≡ (q ++ v) ++ zeroes free
      → d.buffer_size ≡ length q + size + free
      → d.data_size ≡ length q
      → length v ≡ size
      → used ≡ length q + size
      → (d' : MixedPool) × (count_object allocate size used d ≡ (length q, d'))
        × Represents d' (q ++ v)
  counted d q v size free used contents room data_at len all = elim (Bool-cases (size == 0)) [
    | inl z ↦ (
      d,
      rw (z, data_at) refl,
      record {
        free = free;
        contents = contents;
        room = omega (arith, length-append q v);
        used = ground (arith, length-append q v);
      },
    )
    | inr z ↦ (
      record d { data_size = used; num_entries = d.num_entries + 1 },
      rw (z, data_at) refl,
      record {
        free = free;
        contents = contents;
        room = omega (arith, length-append q v);
        used = omega (arith, length-append q v);
      },
    )
  ]

  -- Where allocations below 2 ^ 31 bytes succeed and the data with the object has fewer than 2 ^ 29
  -- bytes, `Push` returns the offset behind the data and adds the bytes of the object there, or
  -- zeroes for a null pointer, growing the buffer where it is too small. The pointer may lead into
  -- the pool.
  pub push_bytes-Represents :
      (d : MixedPool) (q : List ℕ) (obj : Source) (size : ℕ) (v : List ℕ)
      → Represents d q
      → Refers obj size q v
      → length q + size < 2 ^ 29
      → (d' : MixedPool) × (push_bytes allocate obj size d ≡ ret (length q, d'))
        × Represents d' (q ++ v)
  unfolding push_bytes
  push_bytes-Represents d q obj size v r refers small =
      let len = Refers-length obj size q v refers in
      let i : int (d.data_size + size) ≡ ret (d.data_size + size) =
        int_lem (d.data_size + size) (omega (arith, r.used)) in
      elim (Bool-cases (ltb d.buffer_size (d.data_size + size))) [
        | inl e ↦
            let (n, g, more, less, _) =
              round_up_lem ((d.data_size + size) * 2 + 1024) (omega (arith, r.used)) in
            let big = larger_lem d q n r (ground arith) (omega (arith, r.used)) in
            let (bytes, b, le, c) =
              copied_object obj size q v d.buffer r.free (n - length q) refers r.contents
                (omega (arith, r.used)) in
            let inside : ltb (length (q ++ zeroes (n - length q))) (d.data_size + length bytes)
                ≡ false =
              ground (arith, r.used, length-filled q (n - length q)) in
            let (d', p, r') =
              counted
                (record d {
                  buffer = copy_bytes d.data_size bytes (q ++ zeroes (n - length q));
                  buffer_size = n;
                })
                q v size (n - length q - size) (d.data_size + size)
                (ap (λ (m : ℕ). copy_bytes m bytes (q ++ zeroes (n - length q))) r.used ∙ c)
                (omega (arith, r.used)) r.used len (omega (arith, r.used)) in
            (d', rw (i, e, g, big, b, inside) (ap ret p), r')
        | inr e ↦
            let (bytes, b, le, c) =
              copied_object obj size q v d.buffer r.free r.free refers r.contents
                (ground (arith, r.used, r.room)) in
            let inside : ltb (length d.buffer) (d.data_size + length bytes) ≡ false =
              ground (arith, r.used, r.room, ap length r.contents, length-filled q r.free) in
            let apart = Refers-apart obj size q v d.data_size refers r.used in
            let (d', p, r') =
              counted (record d { buffer = copy_bytes d.data_size bytes d.buffer }) q v size
                (r.free - size) (d.data_size + size)
                (ap (λ (m : ℕ). copy_bytes m bytes d.buffer) r.used
                  ∙ ap (λ (b : List ℕ). copy_bytes (length q) bytes b) r.contents
                  ∙ c)
                (ground (arith, r.used, r.room)) r.used len (omega (arith, r.used)) in
            (d', rw (i, e, apart, b, inside) (ap ret p), r')
      ]

-- `Get` reads back the bytes of an object, one at least, that the pool holds, from the offset where
-- it starts.
pub get_bytes-eq :
    (d : MixedPool) (q v rest : List ℕ)
    → Represents d (q ++ (v ++ rest))
    → 0 < length v
    → get_bytes (length v) (pos (length q)) d ≡ ret v
unfolding get_bytes
get_bytes-eq d q v rest r some_bytes =
    let z = zeroes r.free in
    let same : d.buffer ≡ q ++ (v ++ (rest ++ z)) =
      r.contents
      ∙ append_assoc q (v ++ rest) z
      ∙ ap (λ (t : List ℕ). q ++ t) (append_assoc v rest z) in
    let below : leb d.data_size (length q) ≡ false =
      ground (arith, r.used, length-append q (v ++ rest), length-append v rest) in
    let inside : leb (length q + length v) (length (q ++ (v ++ (rest ++ z)))) ≡ true =
      ground (arith, length-append q (v ++ (rest ++ z)), length-append v (rest ++ z)) in
    rw (below, same, inside, drop-append_length q (v ++ (rest ++ z)))
      (ap ret (take-append_length v (rest ++ z)))
