-- ===== src/Containers/MixedPool.antt =====
-- MixedPool.cpp (archive/todo/optimization-examples/cppexamples): a growing buffer of bytes that holds
-- objects of mixed types. A null buffer is the empty list. Sizes and offsets are an `int`, whose
-- overflow is undefined.
pub mod Contents
pub mod Laws
pub mod Resize
mod Tests
use linux_multiarch_asm.Base.{
  ℕ, zero, suc, ◌+◌, ◌-◌, ◌*◌, ◌/◌, ◌^◌, Bool, true, false, ◌&&◌, ◌||◌, Option, none, some, List,
  [], ◌∷◌, ◌++◌, ltb, leb, ◌==◌, if◌then◌else◌, length, take, drop,
}
use linux_multiarch_asm.Containers.Memory.{int, zeroes, clear_bytes, copy_bytes}
use linux_multiarch_asm.Base.Int.{ℤ, pos, negsuc}
use linux_multiarch_asm.Containers.Outcome.{Outcome, ret, exited, undefined, bad_alloc, ◌>>=◌}

pub record MixedPool : Type 0 where
  pub buffer : List ℕ
  pub buffer_size : ℕ
  pub num_entries : ℕ
  pub data_size : ℕ

-- The argument `void const * obj`: null, a pointer to bytes elsewhere, or an offset into the pool's
-- own buffer.
pub data Source : Type 0 where
  null_pointer : Source
  outside : List ℕ → Source
  within : ℕ → Source

-- `(n + 15) & (-16)`
unfoldable pub round_up : ℕ → Outcome ℕ
round_up n = int (n + 15) >>= λ m. ret (m / 16 * 16)

-- `memcpy` of bytes to an offset of a block, which may not go beyond its end.
abbrev copy_into : ℕ → List ℕ → List ℕ → Outcome (List ℕ)
copy_into to bytes block =
    if ltb (length block) (to + length bytes) then undefined else ret (copy_bytes to bytes block)

-- The `size` bytes at the pointer, with the buffer that it may point into.
abbrev pub bytes_at : Source → ℕ → List ℕ → Outcome (List ℕ)
bytes_at null_pointer size b = ret []
bytes_at (outside bytes) size b =
    if leb size (length bytes) then ret (take size bytes) else undefined
bytes_at (within o) size b =
    if leb size (length b - o) then ret (take size (drop o b)) else undefined

-- Whether a `memcpy` of `size` bytes from the pointer to offset `to` of the same buffer overlaps.
abbrev pub overlaps : Source → ℕ → ℕ → Bool
overlaps null_pointer size to = false
overlaps (outside bytes) size to = false
overlaps (within o) size to = ltb o (to + size) && ltb to (o + size)

-- `MixedPool()`
pub new_pool : MixedPool
new_pool = record { buffer = []; buffer_size = 0; num_entries = 0; data_size = 0 }

-- `allocate n` is what `new char[n]` returns.
module _ (allocate : ℕ → Option (List ℕ)) where
  -- A new block of zeroes, with the contents of the old buffer copied into it. Neither may go beyond
  -- the block.
  pub larger : ℕ → MixedPool → Outcome (List ℕ)
  larger n d = elim (allocate n) [
    | none ↦ bad_alloc
    | some cells ↦
        if ltb (length cells) n || ltb (length cells) d.buffer_size
        then undefined
        else ret (copy_bytes 0 (take d.buffer_size d.buffer) (clear_bytes 0 n cells))
  ]

  -- `ReserveSize`
  pub reserve_size : ℤ → MixedPool → Outcome MixedPool
  reserve_size (negsuc k) d = exited
  reserve_size (pos size) d =
      if leb size d.buffer_size
      then (if size == 0 then ret new_pool else ret d)
      else (round_up size >>= λ n.
          larger n d >>= λ b. ret (record d { buffer = b; buffer_size = n }))

  -- `SetDataSize`
  pub set_data_size : ℤ → MixedPool → Outcome MixedPool
  set_data_size (negsuc k) d = exited
  set_data_size (pos size) d =
      (if ltb d.buffer_size size
        then (round_up (size + 1024) >>= λ n. reserve_size (pos n) d)
        else if ltb size d.data_size
        then (if ltb (length d.buffer) d.data_size
            then undefined
            else ret (record d { buffer = clear_bytes size (d.data_size - size) d.buffer }))
        else ret d)
      >>= λ d'. ret (record d' { data_size = size })

  -- The end of `Push`, which counts the object and returns its offset.
  abbrev pub count_object : ℕ → ℕ → MixedPool → ℕ × MixedPool
  count_object size new_offset d =
      if size == 0
      then (d.data_size, d)
      else (d.data_size, record d { data_size = new_offset; num_entries = d.num_entries + 1 })

  -- `Push` of a number of bytes that is not negative. After a move to a larger buffer the object is
  -- copied from where it was, before the old buffer is deleted.
  pub push_bytes : Source → ℕ → MixedPool → Outcome (ℕ × MixedPool)
  push_bytes obj size d = int (d.data_size + size) >>= λ new_offset.
      (if ltb d.buffer_size new_offset
        then (round_up (new_offset * 2 + 1024) >>= λ n. larger n d >>= λ b.
            bytes_at obj size d.buffer >>= λ bytes.
            copy_into d.data_size bytes b >>= λ b'. ret (record d { buffer = b'; buffer_size = n }))
        else if overlaps obj size d.data_size
        then undefined
        else (bytes_at obj size d.buffer >>= λ bytes.
            copy_into d.data_size bytes d.buffer >>= λ b'. ret (record d { buffer = b' })))
      >>= λ d'. ret (count_object size new_offset d')

  -- `Align` to a number of bytes that is not negative: a division by zero is undefined.
  pub align : ℕ → MixedPool → Outcome MixedPool
  align zero d = undefined
  align (suc a) d = int (d.data_size + suc a) >>= λ sum.
      let new_offset = (sum - 1) / suc a * suc a in
      (if ltb d.buffer_size new_offset
        then (int (new_offset * 2 + 1024) >>= λ n. reserve_size (pos n) d)
        else ret d)
      >>= λ d'. ret (record d' { data_size = new_offset })

-- `Get<TX>` of a type that needs no alignment: the bytes of the object. An offset that is negative
-- passes the check.
pub get_bytes : ℕ → ℤ → MixedPool → Outcome (List ℕ)
get_bytes size_of_tx (negsuc k) d = undefined
get_bytes size_of_tx (pos offset) d =
    if leb d.data_size offset
    then exited
    else if leb (offset + size_of_tx) (length d.buffer)
    then ret (take size_of_tx (drop offset d.buffer))
    else undefined
