-- ===== src/Containers/StringPool/Misplaced.antt =====
-- Where `Allocate` of StringPoolS.cpp returns another string's place.
use linux_multiarch_asm.Base.{
  ℕ, ◌+◌, ◌^◌, ◌<◌, ◌≡◌, ◌≢◌, inl, inr, sym, ap, ◌∙◌, Option, List, [], arith, ltb, ◌==◌, length,
  Bool-cases,
}
use linux_multiarch_asm.Containers.Outcome.{ret}
use linux_multiarch_asm.Containers.Growth.{Allocates}
use linux_multiarch_asm.Containers.Memory.Text.{Holds}
use linux_multiarch_asm.Containers.StringPool.{StringPool, allocate_string}
use linux_multiarch_asm.Containers.StringPool.Layout.{offset, Texts}
use linux_multiarch_asm.Containers.StringPool.Place.{top-grows}

module _ (new_chars new_ints : ℕ → Option (List ℕ)) (chars : Allocates new_chars (2 ^ 31)) where
  -- On a pool that holds texts, where the block must grow for a string at `Top` and a string of a
  -- higher index is not empty, `Allocate` returns the place where the last such string now stands,
  -- which is not that of string i. Allocations below 2 ^ 31 succeed, and there are fewer than 2 ^
  -- 29 characters.
  pub allocate_string-misplaced :
      (p : StringPool) (m : ℕ → List ℕ) (i k : ℕ) (t : List ℕ)
      → Texts p m
      → p.data_size + length t < 2 ^ 29
      → 0 < offset p i
      → offset p i ≡ p.top
      → p.buffer_size < p.top + length t + 1
      → i < k
      → 0 < length (m k)
      → ((j : ℕ) → k < j → m j ≡ [])
      → (p' : StringPool) × (allocate_string new_chars new_ints i (length t) p
          ≡ ret (offset p' k, p'))
        × Holds p'.buffer (offset p' k) (m k)
        × (offset p' i ≢ offset p' k)
  allocate_string-misplaced p m i k t x small positive at_top short lt some_char nil =
      let inside : i < p.num = elim (Bool-cases (ltb i p.num)) [
        | inl under ↦ ground arith
        | inr over ↦ absurd (omega (arith, x.layout.beyond i (ground arith)))
      ] in
      let (q, e, res) =
        top-grows new_chars new_ints chars p m i t x inside small positive at_top short in
      let high = res.highest k some_char nil in
      let l = res.texts.layout in
      let there : 0 < offset q k = elim (Bool-cases (offset q k == 0)) [
        | inl z ↦ absurd (omega (arith, l.empty k (ground arith)))
        | inr nz ↦ ground arith
      ] in
      let p' : StringPool = record q { data_size = q.top + length t + 1 } in
      (
        p',
        e ∙ ap (λ (o : ℕ). ret (o, p')) (sym high),
        res.texts.holds k there,
        λ same. elim (l.apart i k (omega arith) (omega arith) there) [
          | inl le ↦ omega arith
          | inr le ↦ omega arith
        ],
      )
