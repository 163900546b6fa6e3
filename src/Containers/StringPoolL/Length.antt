-- ===== src/Containers/StringPoolL/Length.antt =====
-- The length words of StringPoolL.cpp.
use linux_multiarch_asm.Base.{
  ℕ, ◌+◌, ◌*◌, ◌/◌, ◌%◌, ◌^◌, ◌≤◌, ◌<◌, ◌≡◌, refl, ap, ◌∙◌, true, some, List, [], ◌∷◌, arith, leb,
  length, get_elem?,
}
use linux_multiarch_asm.Containers.Outcome.{ret}
use linux_multiarch_asm.Containers.Memory.{copy_bytes}
use linux_multiarch_asm.Containers.Memory.Text.{
  copy_bytes-inside, copy_bytes-below, copy_bytes-above,
}
use linux_multiarch_asm.Containers.StringPool.{StringPool}
use linux_multiarch_asm.Containers.StringPoolL.{load_length, store_length}

two_bytes : (n : ℕ) → n % 256 + 256 * (n / 256 % 256) ≡ n % 2 ^ 16
two_bytes n = omega arith

-- A `LengthType` of 16 bits that is written inside the buffer is read back modulo 2 ^ 16, and the
-- bytes before and behind it are what they were.
store_length-load_length :
    (o len : ℕ) (p : StringPool)
    → o + 2 ≤ length p.buffer
    → (p' : StringPool) × (store_length o len p ≡ ret p')
      × (load_length p'.buffer o ≡ ret (len % 2 ^ 16))
      × ((k : ℕ) → k < o → get_elem? p'.buffer k ≡ get_elem? p.buffer k)
      × ((k : ℕ) → o + 2 ≤ k → get_elem? p'.buffer k ≡ get_elem? p.buffer k)
unfolding store_length load_length
store_length-load_length o len p fits =
    let v : List ℕ = len % 256 ∷ len / 256 % 256 ∷ [] in
    let room : leb (o + 2) (length p.buffer) ≡ true = ground arith in
    let at : o ≡ o + 0 = omega arith in
    let low : get_elem? (copy_bytes o v p.buffer) o ≡ some (len % 256) =
      ap (λ (k : ℕ). get_elem? (copy_bytes o v p.buffer) k) at
      ∙ copy_bytes-inside o v p.buffer fits 0 (omega arith) in
    let high : get_elem? (copy_bytes o v p.buffer) (o + 1) ≡ some (len / 256 % 256) =
      copy_bytes-inside o v p.buffer fits 1 (omega arith) in
    (
      record p { buffer = copy_bytes o v p.buffer },
      rw room refl,
      rw (low, high) (ap ret (two_bytes len)),
      copy_bytes-below o v p.buffer fits,
      copy_bytes-above o v p.buffer fits,
    )
