-- ===== src/Containers/Growth.antt =====
-- Allocation, shared by DynamicArray.cpp and DynamicQueue.cpp.
use linux_multiarch_asm.Base.{
  ℕ, ◌+◌, ◌-◌, ◌*◌, ◌/◌, ◌^◌, ◌≤◌, ◌<◌, ◌≡◌, Option, some, List, arith, ltb, if◌then◌else◌, length,
}
use linux_multiarch_asm.Containers.Outcome.{Outcome, ret, undefined, bad_alloc}

-- `AllocateSpace`
abbrev allocate_space : ℕ
allocate_space = 1024

-- `int NewSize = MaxNum * 2 + (AllocateSpace + sizeof(TX) - 1) / sizeof(TX);`
-- The product is an `int`, whose overflow is undefined. The sum is a `size_t`; where it does not fit
-- the `int`, the size becomes negative, and `new` throws `std::bad_array_new_length`.
unfoldable pub new_size : ℕ → ℕ → Outcome ℕ
new_size size_of_tx max_num =
    let sum = max_num * 2 + (allocate_space + size_of_tx - 1) / size_of_tx in
    if ltb (max_num * 2) (2 ^ 31)
    then (if ltb sum (2 ^ 31) then ret sum else bad_alloc)
    else undefined

-- What the containers ask of `new TX[num]`: it returns a block of that many objects, with whatever
-- contents, if the count is below the limit.
pub record Allocates {ℓ} {A : Type ℓ} (allocate : ℕ → Option (List A)) (limit : ℕ) : Type ℓ where
  pub block :
      (num : ℕ)
      → num < limit
      → (cells : List A) × (allocate num ≡ some cells) × (length cells ≡ num)

extra-pos : (s : ℕ) → 0 < s → 0 < (1024 + s - 1) / s
extra-pos s h = grind arith

extra-le : (s : ℕ) → 0 < s → (1024 + s - 1) / s ≤ 1024
extra-le s h = grind arith

-- From a capacity below 2 ^ 29 objects, the new size of a growing buffer fits an `int`, with no
-- overflow on the way, and is more than twice the capacity.
pub new_size_lem :
    (size_of_tx max_num : ℕ)
    → 0 < size_of_tx
    → max_num < 2 ^ 29
    → (n : ℕ) × (new_size size_of_tx max_num ≡ ret n) × (max_num * 2 < n) × (n < 2 ^ 31)
unfolding new_size
new_size_lem size_of_tx max_num h small = (
  max_num * 2 + (1024 + size_of_tx - 1) / size_of_tx,
  ground (arith, extra-le size_of_tx h),
  omega (arith, extra-pos size_of_tx h),
  omega (arith, extra-le size_of_tx h),
)
