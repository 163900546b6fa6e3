-- ===== src/Containers/DynamicQueue.antt =====
-- DynamicQueue.cpp (archive/todo/optimization-examples/cppexamples): a first-in-first-out queue in a
-- circular buffer that grows. A buffer is the list of its objects, and a null pointer the empty list,
-- since no block of no objects is ever allocated.
pub mod Grow
pub mod Laws
mod Tests
use linux_multiarch_asm.Base.{
  ℕ, zero, suc, ◌+◌, ◌-◌, Bool, true, false, Option, none, some, List, [], ◌∷◌, ◌++◌, ltb, leb,
  ◌==◌, if◌then◌else◌, length, get_elem?, set, take, drop,
}
use linux_multiarch_asm.Base.Int.{ℤ, pos, negsuc}
use linux_multiarch_asm.Containers.Outcome.{Outcome, ret, exited, undefined, bad_alloc, read, ◌>>=◌}
use linux_multiarch_asm.Containers.Growth.{new_size}
use linux_multiarch_asm.Containers.Memory.{int}
use linux_multiarch_asm.Containers.Circular.{advance, wrap}

pub record DynamicQueue {ℓ} (A : Type ℓ) : Type ℓ where
  pub buffer : List A
  pub old_buffer : List A
  pub head : ℕ
  pub tail : ℕ
  pub max_num : ℕ
  pub num_entries : ℕ

-- The argument of `Put`, a reference: to an object elsewhere, or to the one in that cell of the
-- queue's own buffer.
pub data Reference {ℓ} (A : Type ℓ) : Type ℓ where
  elsewhere : A → Reference A
  inside : ℕ → Reference A

module _ {ℓ} {A : Type ℓ} where
  -- What `ReAllocate` copies to the front of the new buffer: one block if the queue does not go round
  -- the end of the buffer, and else two.
  pub copied : DynamicQueue A → List A
  copied d =
      if ltb d.tail d.head
      then take d.num_entries (drop d.tail d.buffer)
      else if d.num_entries == 0
      then []
      else take (d.max_num - d.tail) (drop d.tail d.buffer)
        ++ (if d.head == 0 then [] else take d.head d.buffer)

  -- `DynamicQueue()`
  pub new_queue : DynamicQueue A
  new_queue = record {
    buffer = [];
    old_buffer = [];
    head = 0;
    tail = 0;
    max_num = 0;
    num_entries = 0;
  }

  -- `delete[] OldBuffer; OldBuffer = 0;`
  abbrev pub delete_old : DynamicQueue A → DynamicQueue A
  delete_old d = record d { old_buffer = [] }

  -- `Get`
  pub get_object : DynamicQueue A → Outcome (A × DynamicQueue A)
  get_object d =
      if leb d.num_entries 0
      then exited
      else (read (get_elem? d.buffer d.tail) >>= λ x.
          ret (x, record d { tail = advance d.max_num d.tail; num_entries = d.num_entries - 1 }))

  -- The cell that `operator[]` refers to. A negative index is a large one as an `unsigned int`; the
  -- sum is one of `int`s.
  abbrev pub cell_of : ℤ → DynamicQueue A → Outcome ℕ
  cell_of (negsuc k) d = exited
  cell_of (pos i) d =
      if leb d.num_entries i then exited else (int (d.tail + i) >>= λ n. ret (wrap d.max_num n))

  -- `operator[]`, read
  pub get_at : ℤ → DynamicQueue A → Outcome A
  get_at i d = cell_of i d >>= λ n. read (get_elem? d.buffer n)

  -- `operator[]`, written through
  pub write_at : ℤ → A → DynamicQueue A → Outcome (DynamicQueue A)
  write_at i x d = cell_of i d >>= λ n.
      if ltb n (length d.buffer) then ret (record d { buffer = set d.buffer n x }) else undefined

  -- The object that a reference into the buffer of the call's beginning reads: that buffer is the
  -- old one once the queue has moved.
  abbrev pub dereference : Bool → DynamicQueue A → Reference A → Outcome A
  dereference moved d (elsewhere x) = ret x
  dereference true d (inside i) = read (get_elem? d.old_buffer i)
  dereference false d (inside i) = read (get_elem? d.buffer i)

  -- The end of `Put`, with the object in hand.
  pub put_at_head : DynamicQueue A → A → Outcome (DynamicQueue A)
  put_at_head d x =
      if ltb d.head (length d.buffer)
      then ret (record d {
        buffer = set d.buffer d.head x;
        old_buffer = [];
        head = advance d.max_num d.head;
        num_entries = d.num_entries + 1;
      })
      else undefined

-- `allocate n` is what `new TX[n]` returns.
module _ {ℓ} {A : Type ℓ} (size_of_tx : ℕ) (allocate : ℕ → Option (List A)) where
  -- `ReAllocate`; `num` is larger than `MaxNum` in every call.
  pub reallocate : ℕ → DynamicQueue A → Outcome (DynamicQueue A)
  reallocate num d = elim (allocate num) [
    | none ↦ bad_alloc
    | some cells ↦
        if length d.buffer == 0
        then ret (record d { buffer = cells; old_buffer = []; max_num = num })
        else ret (record d {
          buffer = copied d ++ drop (length (copied d)) cells;
          old_buffer = d.buffer;
          tail = 0;
          head = d.num_entries;
          max_num = num;
        })
  ]

  -- `Reserve`
  pub reserve : ℤ → DynamicQueue A → Outcome (DynamicQueue A)
  reserve (negsuc k) d = exited
  reserve (pos num) d =
      if leb num d.max_num
      then (if num == 0
          then ret (record d { buffer = []; head = 0; tail = 0; max_num = 0; num_entries = 0 })
          else ret d)
      else (reallocate num d >>= λ d'. ret (delete_old d'))

  -- `Put`
  pub put_object : Reference A → DynamicQueue A → Outcome (DynamicQueue A)
  put_object obj d =
      let moved = leb d.max_num d.num_entries in
      (if moved then (new_size size_of_tx d.max_num >>= λ n. reallocate n d) else ret d) >>= λ d'.
      dereference moved d' obj >>= λ x. put_at_head d' x
