-- ===== src/Containers/DynamicArray.antt =====
-- DynamicArray.cpp (archive/todo/optimization-examples/cppexamples): an array that grows. A buffer is
-- the list of its objects, and a null pointer the empty list, since no block of no objects is ever
-- allocated.
pub mod Laws
pub mod Resize
mod Tests
use linux_multiarch_asm.Base.{
  ℕ, zero, suc, ◌+◌, ◌-◌, Bool, true, false, Option, none, some, List, [], ◌∷◌, ◌++◌, ltb, leb,
  ◌==◌, if◌then◌else◌, length, get_elem?, set, take, drop, replicate,
}
use linux_multiarch_asm.Base.Int.{ℤ, pos, negsuc}
use linux_multiarch_asm.Containers.Outcome.{Outcome, ret, exited, undefined, bad_alloc, read, ◌>>=◌}
use linux_multiarch_asm.Containers.Growth.{new_size}

pub record DynamicArray {ℓ} (A : Type ℓ) : Type ℓ where
  pub buffer : List A
  pub old_buffer : List A
  pub max_num : ℕ
  pub num_entries : ℕ

-- The argument of `Push`, a reference: to an object elsewhere, or to one in the array's own buffer.
pub data Reference {ℓ} (A : Type ℓ) : Type ℓ where
  elsewhere : A → Reference A
  inside : ℕ → Reference A

-- A write into a buffer.
abbrev pub store {ℓ} : {A : Type ℓ} → List A → ℕ → A → Outcome (List A)
store b i x = if ltb i (length b) then ret (set b i x) else undefined

-- `allocate n` is what `new TX[n]` returns, `zero_object` an object of zero bytes.
module _ {ℓ} {A : Type ℓ} (size_of_tx : ℕ) (allocate : ℕ → Option (List A)) (zero_object : A) where
  -- `DynamicArray()`
  pub new_array : DynamicArray A
  new_array = record { buffer = []; old_buffer = []; max_num = 0; num_entries = 0 }

  -- `delete[] OldBuffer; OldBuffer = 0;`
  abbrev delete_old : DynamicArray A → DynamicArray A
  delete_old d = record d { old_buffer = [] }

  -- `ReAllocate`
  pub reallocate : ℕ → DynamicArray A → Outcome (DynamicArray A)
  reallocate num d = elim (allocate num) [
    | none ↦ bad_alloc
    | some cells ↦ ret (record {
      buffer = take d.max_num d.buffer ++ drop d.max_num cells;
      old_buffer = d.buffer;
      max_num = num;
      num_entries = d.num_entries;
    })
  ]

  -- `Reserve`
  pub reserve : ℤ → DynamicArray A → Outcome (DynamicArray A)
  reserve (negsuc k) d = exited
  reserve (pos num) d =
      if leb num d.max_num
      then (if num == 0
          then ret (record d { buffer = []; max_num = 0; num_entries = 0 })
          else ret d)
      else (reallocate num d >>= λ d'. ret (delete_old d'))

  -- `SetNum`
  pub set_num : ℤ → DynamicArray A → Outcome (DynamicArray A)
  set_num (negsuc k) d = exited
  set_num (pos num) d = (if ltb d.max_num num then reserve (pos num) d else ret d) >>= λ d'.
      if ltb d'.num_entries num
      then (if ltb (length d'.buffer) num
          then undefined
          else ret (record d' {
            buffer =
                take d'.num_entries d'.buffer
                ++ (replicate (num - d'.num_entries) zero_object ++ drop num d'.buffer);
            num_entries = num;
          }))
      else ret (record d' { num_entries = num })

  -- The object that a reference into the buffer of the call's beginning reads: that buffer is the
  -- old one once the array has moved.
  abbrev dereference : Bool → DynamicArray A → Reference A → Outcome A
  dereference moved d (elsewhere x) = ret x
  dereference true d (inside i) = read (get_elem? d.old_buffer i)
  dereference false d (inside i) = read (get_elem? d.buffer i)

  -- `Push` returns the index of the new object.
  pub push_object : Reference A → DynamicArray A → Outcome (ℕ × DynamicArray A)
  push_object obj d =
      let moved = leb d.max_num d.num_entries in
      (if moved then (new_size size_of_tx d.max_num >>= λ n. reallocate n d) else ret d) >>= λ d'.
      dereference moved d' obj >>= λ x. store d'.buffer d'.num_entries x >>= λ b.
      ret (d'.num_entries, delete_old (record d' { buffer = b; num_entries = d'.num_entries + 1 }))

  -- `Pop`
  pub pop_object : DynamicArray A → Outcome (A × DynamicArray A)
  pop_object d =
      if leb d.num_entries 0
      then exited
      else (read (get_elem? d.buffer (d.num_entries - 1)) >>= λ x.
          ret (x, record d { num_entries = d.num_entries - 1 }))

  -- `operator[]`, read and written through. A negative index is a large one as an `unsigned int`.
  pub get_at : ℤ → DynamicArray A → Outcome A
  get_at (negsuc k) d = exited
  get_at (pos i) d = if leb d.num_entries i then exited else read (get_elem? d.buffer i)

  pub set_at : ℤ → A → DynamicArray A → Outcome (DynamicArray A)
  set_at (negsuc k) x d = exited
  set_at (pos i) x d =
      if leb d.num_entries i
      then exited
      else (store d.buffer i x >>= λ b. ret (record d { buffer = b }))
