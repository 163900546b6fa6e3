-- ===== src/Containers/MixedPool/Contents.antt =====
-- The contents of MixedPool.cpp's buffer: the bytes pushed, and zeroes behind them.
use mathlib.Core.List.{append_assoc}
use linux_multiarch_asm.Base.{
  ℕ, zero, suc, ◌+◌, ◌-◌, ◌≤◌, ◌<◌, ◌≡◌, refl, sym, ap, ap₂, ◌∙◌, true, false, List, [], ◌∷◌, ◌++◌,
  arith, leb, length, take, drop, length-append, length-replicate, length-take, length-drop,
  take-append_length,
}
use linux_multiarch_asm.Containers.Outcome.{ret}
use linux_multiarch_asm.Containers.MixedPool.{
  MixedPool, Source, null_pointer, outside, within, bytes_at, overlaps,
}
use linux_multiarch_asm.Containers.Memory.{clear_bytes, copy_bytes, zeroes}

-- The pool holds the bytes `q`, and zeroes up to the end of its buffer.
pub record Represents (d : MixedPool) (q : List ℕ) : Type 0 where
  pub free : ℕ
  pub contents : d.buffer ≡ q ++ zeroes free
  pub room : d.buffer_size ≡ length q + free
  pub used : d.data_size ≡ length q

pub drop-all : (n : ℕ) (xs : List ℕ) → length xs ≤ n → drop n xs ≡ []
drop-all zero [] h = refl
drop-all zero (x ∷ xs) h = absurd (omega arith)
drop-all (suc n) [] h = refl
drop-all (suc n) (x ∷ xs) h = drop-all n xs (omega arith)

pub drop-zeroes : (k n : ℕ) → drop k (zeroes n) ≡ zeroes (n - k)
drop-zeroes zero n = let e : n ≡ n - 0 = omega arith in ap zeroes e
drop-zeroes (suc k) zero = let e : 0 ≡ 0 - suc k = omega arith in ap zeroes e
drop-zeroes (suc k) (suc n) =
    let e : n - k ≡ suc n - suc k = omega arith in drop-zeroes k n ∙ ap zeroes e

pub zeroes-append : (m n : ℕ) → zeroes m ++ zeroes n ≡ zeroes (m + n)
zeroes-append zero n = let e : n ≡ 0 + n = omega arith in ap zeroes e
zeroes-append (suc m) n =
    let e : suc (m + n) ≡ suc m + n = omega arith in
    ap (λ (t : List ℕ). 0 ∷ t) (zeroes-append m n) ∙ ap zeroes e

drop-append_beyond : (q r : List ℕ) (n k : ℕ) → n ≡ length q + k → drop n (q ++ r) ≡ drop k r
drop-append_beyond [] r n k e = ap (λ m. drop m r) (omega arith)
drop-append_beyond (x ∷ q) r zero k e = absurd (omega arith)
drop-append_beyond (x ∷ q) r (suc n) k e = drop-append_beyond q r n k (omega arith)

take-append_le : (q r : List ℕ) (n : ℕ) → n ≤ length q → take n (q ++ r) ≡ take n q
take-append_le q r zero h = refl
take-append_le [] r (suc n) h = absurd (omega arith)
take-append_le (x ∷ q) r (suc n) h = ap (λ t. x ∷ t) (take-append_le q r n (omega arith))

pub length-filled : (q : List ℕ) (n : ℕ) → length (q ++ zeroes n) ≡ length q + n
length-filled q n = omega (arith, length-append q (zeroes n), length-replicate {A = ℕ} n 0)

-- Bytes copied behind the data take the place of zeroes.
copy_bytes-append :
    (q v : List ℕ) (free : ℕ)
    → copy_bytes (length q) v (q ++ zeroes free) ≡ (q ++ v) ++ zeroes (free - length v)
copy_bytes-append q v free =
    rw
      (
        take-append_length q (zeroes free),
        drop-append_beyond q (zeroes free) (length q + length v) (length v) refl,
        drop-zeroes (length v) free,
      )
      (sym (append_assoc q v (zeroes (free - length v))))

drop-append_le : (q r : List ℕ) (n : ℕ) → n ≤ length q → drop n (q ++ r) ≡ drop n q ++ r
drop-append_le q r zero h = refl
drop-append_le [] r (suc n) h = absurd (omega arith)
drop-append_le (x ∷ q) r (suc n) h = drop-append_le q r n (omega arith)

-- What an argument of `Push` stands for: a null pointer for zeroes, and one into the pool for the
-- bytes that it holds there.
abbrev pub Refers : Source → ℕ → List ℕ → List ℕ → Type 0
Refers null_pointer size q v = v ≡ zeroes size
Refers (outside bytes) size q v = (size ≤ length bytes) × (v ≡ take size bytes)
Refers (within o) size q v = (o + size ≤ length q) × (v ≡ take size (drop o q))

pub Refers-length : (obj : Source) (size : ℕ) (q v : List ℕ) → Refers obj size q v → length v ≡ size
Refers-length null_pointer size q v e = rw e (length-replicate size 0)
Refers-length (outside bytes) size q v (fits, e) = rw e (omega (arith, length-take size bytes))
Refers-length (within o) size q v (fits, e) =
    rw e (omega (arith, length-take size (drop o q), length-drop o q))

-- The object is read from the old buffer and stands behind the data in the new one.
pub copied_object :
    (obj : Source) (size : ℕ) (q v b : List ℕ) (old free : ℕ)
    → Refers obj size q v
    → b ≡ q ++ zeroes old
    → size ≤ free
    → (bytes : List ℕ) × (bytes_at obj size b ≡ ret bytes)
      × (length bytes ≤ size)
      × (copy_bytes (length q) bytes (q ++ zeroes free) ≡ (q ++ v) ++ zeroes (free - size))
copied_object null_pointer size q v b old free e same room =
    let all : size + (free - size) ≡ free - 0 = omega arith in
    (
      [],
      refl,
      omega arith,
      copy_bytes-append q [] free
          ∙ append_assoc q [] (zeroes (free - 0))
          ∙ rw e (
              sym (
                append_assoc q (zeroes size) (zeroes (free - size))
                ∙ ap (λ (t : List ℕ). q ++ t) (zeroes-append size (free - size) ∙ ap zeroes all))),
    )
copied_object (outside bytes) size q v b old free (fits, e) same room =
    let enough : leb size (length bytes) ≡ true = ground arith in
    let len : length (take size bytes) ≡ size = omega (arith, length-take size bytes) in
    (
      take size bytes,
      rw enough refl,
      omega arith,
      rw e (copy_bytes-append q (take size bytes) free ∙ rw len refl),
    )
copied_object (within o) size q v b old free (fits, e) same room =
    let len : length (take size (drop o q)) ≡ size =
      omega (arith, length-take size (drop o q), length-drop o q) in
    let read_bytes : take size (drop o (q ++ zeroes old)) ≡ take size (drop o q) =
      rw (drop-append_le q (zeroes old) o (omega arith))
        (take-append_le (drop o q) (zeroes old) size (omega (arith, length-drop o q))) in
    let enough : leb size (length (q ++ zeroes old) - o) ≡ true =
      ground (arith, length-append q (zeroes old)) in
    (
      take size (drop o q),
      rw (same, enough) (ap ret read_bytes),
      omega arith,
      rw e (copy_bytes-append q (take size (drop o q)) free ∙ rw len refl),
    )

-- Where an object that the pool holds is copied within it, the places do not overlap.
pub Refers-apart :
    (obj : Source) (size : ℕ) (q v : List ℕ) (used : ℕ)
    → Refers obj size q v
    → used ≡ length q
    → overlaps obj size used ≡ false
Refers-apart null_pointer size q v used e u = refl
Refers-apart (outside bytes) size q v used e u = refl
Refers-apart (within o) size q v used (fits, e) u = ground arith

-- Within the buffer the data ends in zeroes already.
pub extended :
    (d : MixedPool) (q : List ℕ) (n : ℕ)
    → Represents d q
    → length q ≤ n
    → n ≤ d.buffer_size
    → Represents (record d { data_size = n }) (q ++ zeroes (n - length q))
extended d q n r more fits =
    let free = r.free - (n - length q) in
    let all : r.free ≡ n - length q + free = omega (arith, r.room) in
    let len : length (q ++ zeroes (n - length q)) ≡ n =
      omega (
        arith,
        length-append q (zeroes (n - length q)),
        length-replicate {A = ℕ} (n - length q) 0,
      ) in
    record {
      free = free;
      contents =
          r.contents
          ∙ ap (λ (t : List ℕ). q ++ t) (ap zeroes all ∙ sym (zeroes-append (n - length q) free))
          ∙ sym (append_assoc q (zeroes (n - length q)) (zeroes free));
      room = omega (arith, r.room);
      used = sym len;
    }

pub shortened :
    (d : MixedPool) (q : List ℕ) (n : ℕ)
    → Represents d q
    → n < length q
    → Represents
        (record d { buffer = clear_bytes n (d.data_size - n) d.buffer; data_size = n })
        (take n q)
shortened d q n r less =
    let all = q ++ zeroes r.free in
    let gone = d.data_size - n in
    let kept : take n all ≡ take n q = take-append_le q (zeroes r.free) n (omega arith) in
    let rest : drop (n + gone) all ≡ zeroes r.free =
      drop-append_beyond q (zeroes r.free) (n + gone) 0 (omega (arith, r.used)) in
    record {
      free = gone + r.free;
      contents =
          ap (λ (b : List ℕ). clear_bytes n gone b) r.contents
          ∙ ap₂ (λ (s t : List ℕ). s ++ (zeroes gone ++ t)) kept rest
          ∙ ap (λ (t : List ℕ). take n q ++ t) (zeroes-append gone r.free);
      room = omega (arith, length-take n q, r.room, r.used);
      used = omega (arith, length-take n q);
    }
