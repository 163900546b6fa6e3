-- ===== src/Containers/Memory.antt =====
-- Memory that the pools share: `int` arithmetic, and `memset` and `memcpy` on a buffer of characters.
pub mod Text
use linux_multiarch_asm.Base.{
  ℕ, ◌+◌, ◌-◌, ◌^◌, ◌<◌, ◌≡◌, List, ◌++◌, arith, ltb, if◌then◌else◌, length, take, drop, replicate,
}
use linux_multiarch_asm.Containers.Outcome.{Outcome, ret, undefined}

abbrev pub zeroes : ℕ → List ℕ
zeroes n = replicate n 0

-- an `int` that is not negative
unfoldable pub int : ℕ → Outcome ℕ
int n = if ltb n (2 ^ 31) then ret n else undefined

-- `memset(b + from, 0, count)`
abbrev pub clear_bytes : ℕ → ℕ → List ℕ → List ℕ
clear_bytes from count b = take from b ++ (zeroes count ++ drop (from + count) b)

-- `memcpy(b + to, bytes, length)`
abbrev pub copy_bytes : ℕ → List ℕ → List ℕ → List ℕ
copy_bytes to bytes b = take to b ++ (bytes ++ drop (to + length bytes) b)

pub int_lem : (n : ℕ) → n < 2 ^ 31 → int n ≡ ret n
unfolding int
int_lem n h = ground arith
