-- ===== src/Containers/AlignedArray.antt =====
-- AlignedArray.cpp (archive/todo/optimization-examples/cppexamples): a growing array whose objects start
-- at an address that is a multiple of 16. A null pointer is the address 0, with no cells. The block
-- at `buffer_u` has `block_size` bytes, those that `new char[]` was asked for.
pub mod Laws
mod Tests
use Prim.Native.Nat.{bit_and}
use linux_multiarch_asm.Base.{
  ℕ, zero, suc, ◌+◌, ◌-◌, ◌*◌, ◌/◌, Bool, true, false, not, Option, none, some, List, [], ◌∷◌, ◌++◌,
  ltb, leb, ◌==◌, if◌then◌else◌, length, get_elem?, take, drop, replicate,
}
use linux_multiarch_asm.Base.Int.{ℤ, pos, negsuc}
use linux_multiarch_asm.Containers.Outcome.{Outcome, ret, exited, undefined, bad_alloc, read, ◌>>=◌}

pub record AlignedArray {ℓ} (A : Type ℓ) : Type ℓ where
  pub buffer_u : ℕ
  pub block_size : ℕ
  pub buffer_a : ℕ
  pub cells : List A
  pub max_num : ℕ
  pub num_entries : ℕ

-- `AlignBy`
abbrev align_by : ℕ
align_by = 16

-- `buffer2A.b = buffer2U + AlignBy - 1; buffer2A.i &= - (long int)AlignBy;`
unfoldable pub aligned : ℕ → ℕ
aligned u = (u + align_by - 1) / align_by * align_by

-- `AlignedArray()`
pub new_aligned {ℓ} : {A : Type ℓ} → AlignedArray A
new_aligned = record {
  buffer_u = 0;
  block_size = 0;
  buffer_a = 0;
  cells = [];
  max_num = 0;
  num_entries = 0;
}

-- `allocate bytes` is the address that `new char[bytes]` returns, `contents address num` what `num`
-- objects of fresh memory read as, and `zero_object` an object of zero bytes.
module _ {ℓ} {A : Type ℓ} (size_of_tx : ℕ) (allocate : ℕ → Option ℕ) (contents : ℕ → ℕ → List A)
    (zero_object : A) where
  -- `Reserve`
  pub reserve_aligned : ℤ → AlignedArray A → Outcome (AlignedArray A)
  reserve_aligned (negsuc k) d = exited
  reserve_aligned (pos num) d =
      if leb num d.max_num
      then (if num == 0 then ret new_aligned else ret d)
      else let bytes = num * size_of_tx + align_by - 1 in
        elim (allocate bytes) [
          | none ↦ bad_alloc
          | some u ↦ ret (record {
            buffer_u = u;
            block_size = bytes;
            buffer_a = aligned u;
            cells = take d.num_entries d.cells ++ drop d.num_entries (contents (aligned u) num);
            max_num = num;
            num_entries = d.num_entries;
          })
        ]

  -- `SetNum`
  pub set_num_aligned : ℤ → AlignedArray A → Outcome (AlignedArray A)
  set_num_aligned (negsuc k) d = exited
  set_num_aligned (pos num) d =
      (if ltb d.max_num num then reserve_aligned (pos num) d else ret d) >>= λ d'.
      if ltb d'.num_entries num
      then (if ltb (length d'.cells) num
          then undefined
          else ret (record d' {
            cells =
                take d'.num_entries d'.cells
                ++ (replicate (num - d'.num_entries) zero_object ++ drop num d'.cells);
            num_entries = num;
          }))
      else ret (record d' { num_entries = num })

module _ {ℓ} {A : Type ℓ} where
  -- `operator[]`
  pub object_at : ℤ → AlignedArray A → Outcome A
  object_at (negsuc k) d = exited
  object_at (pos i) d = if leb d.num_entries i then exited else read (get_elem? d.cells i)

  -- An object written through the reference that `operator[]` returns.
  pub store_object : ℤ → A → AlignedArray A → Outcome (AlignedArray A)
  store_object (negsuc k) x d = exited
  store_object (pos i) x d =
      if leb d.num_entries i
      then exited
      else if ltb i (length d.cells)
      then ret (record d { cells = take i d.cells ++ (x ∷ drop (i + 1) d.cells) })
      else undefined

  -- `Vect<VEC>`, of vectors of `per` objects: the objects that it refers to.
  pub vect : ℕ → ℤ → AlignedArray A → Outcome (List A)
  vect per (negsuc k) d = exited
  vect per (pos i) d =
      if not (bit_and i (per - 1) == 0)
      then exited
      else if leb d.num_entries (per - 1 + i)
      then exited
      else ret (take per (drop i d.cells))
