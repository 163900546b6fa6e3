-- ===== src/Containers/StringPoolL.antt =====
-- StringPoolL.cpp (archive/todo/optimization-examples/cppexamples): the pool of StringPoolS.cpp with the
-- length of each string in a `LengthType` of 16 bits in front of it, the low byte first. The fields are
-- those of StringPoolS, all but `Num` of type `unsigned int`.
pub mod Length
pub mod Sized
pub mod Grow
mod Tests
use linux_multiarch_asm.Base.{
  ◌||◌, ℕ, zero, suc, ◌+◌, ◌-◌, ◌*◌, ◌/◌, ◌%◌, ◌^◌, Bool, true, false, Option, none, some, List, [],
  ◌∷◌, ◌++◌, ltb, leb, ◌==◌, if◌then◌else◌, length, get_elem?, set, take, drop,
}
use linux_multiarch_asm.Base.Int.{ℤ, pos, negsuc}
use linux_multiarch_asm.Containers.Outcome.{Outcome, ret, exited, undefined, bad_alloc, read, ◌>>=◌}
use linux_multiarch_asm.Containers.Memory.{zeroes}
use linux_multiarch_asm.Containers.Memory.Text.{c_string}
use linux_multiarch_asm.Containers.StringPool.{
  StringPool, Source, null_pointer, outside, within, Compacted, text_of, store_bytes, copy_in,
  release, allocate_space1, allocate_space2,
}

-- `StringPoolL()`
abbrev pub new_sized : StringPool
new_sized = record {
  buffer = [];
  old_buffer = [];
  offsets = [];
  buffer_size = 0;
  offsets_size = 0;
  data_size = 0;
  garbage_size = 0;
  top = 0;
  num = 0;
}

-- `Clear`
abbrev pub clear_sized : StringPool → StringPool
clear_sized p = record p {
  offsets = zeroes p.num ++ drop p.num p.offsets;
  data_size = 0;
  garbage_size = 0;
}

-- an `unsigned int`
abbrev word : ℕ → ℕ
word n = n % 2 ^ 32

-- `(size_t)(LengthType)(-1)`
abbrev max_length : ℕ
max_length = 2 ^ 16 - 1

-- `*(LengthType*)(b + o)`
pub load_length : List ℕ → ℕ → Outcome ℕ
load_length b o =
    read (get_elem? b o) >>= λ low. read (get_elem? b (o + 1)) >>= λ high. ret (low + 256 * high)

-- `*(LengthType*)(Buffer + o) = (LengthType)len`
pub store_length : ℕ → ℕ → StringPool → Outcome StringPool
store_length o len p =
    store_bytes o (len % 256 ∷ len / 256 % 256 ∷ []) p.buffer >>= λ b. ret (record p { buffer = b })

-- `Len`
pub len_of : ℤ → StringPool → Outcome ℕ
len_of (negsuc k) p = exited
len_of (pos i) p =
    if leb p.num i then exited else (read (get_elem? p.offsets i) >>= λ o. load_length p.buffer o)

-- `Get`: the address of the characters, as an offset.
pub get_chars : ℤ → StringPool → Outcome ℕ
get_chars (negsuc k) p = exited
get_chars (pos i) p =
    if leb p.num i then exited else (read (get_elem? p.offsets i) >>= λ o. ret (2 + o))

-- `operator PChar`, and what is read there
pub read_chars : ℤ → StringPool → Outcome (List ℕ)
read_chars i p = get_chars i p >>= λ o. read (c_string (drop o p.buffer))

-- `StringElement::operator[]`, written through
pub set_char_at : ℤ → ℤ → ℕ → StringPool → Outcome StringPool
set_char_at index (negsuc k) c p = len_of index p >>= λ len. exited
set_char_at index (pos i) c p = len_of index p >>= λ len.
    if leb len i
    then exited
    else (get_chars index p >>= λ o.
        store_bytes (o + i) (c ∷ []) p.buffer >>= λ b. ret (record p { buffer = b }))

-- The loop of `ReserveBuf`.
pub compact_sized : List ℕ → List ℕ → Compacted → Outcome (List ℕ × Compacted)
compact_sized old [] c = ret ([], c)
compact_sized old (o ∷ os) c =
    let skipped = compact_sized old os c >>= λ r. ret (0 ∷ r.0, r.1) in
    if o == 0
    then skipped
    else (load_length old o >>= λ n.
        if n == 0
        then skipped
        else if ltb (length old) (o + (n + 3))
        then undefined
        else (store_bytes c.used (take (n + 3) (drop o old)) c.cells >>= λ b.
            compact_sized old os
              (record { cells = b; used = word (c.used + n + 3); highest = c.used })
            >>= λ r. ret (c.used ∷ r.0, r.1)))

-- The empty string's branch of `Set`.
abbrev erase_sized : ℕ → StringPool → Outcome StringPool
erase_sized i p = read (get_elem? p.offsets i) >>= λ o.
    if o == 0
    then ret p
    else (len_of (pos i) p >>= λ len. ret (record p {
      garbage_size = word (p.garbage_size + (len + 3));
      offsets = set p.offsets i 0;
    }))

-- What `new` returns, or the exception that it throws.
abbrev fresh_block : Option (List ℕ) → Outcome (List ℕ)
fresh_block none = bad_alloc
fresh_block (some fresh) = ret fresh

-- The size that `ReserveBuf` decides on.
pub decided_size : ℕ → StringPool → ℕ
decided_size newsize p =
    let wanted = word (word (p.data_size + 2 ^ 32 - p.garbage_size) * 2 + allocate_space1) in
    if ltb newsize wanted then wanted else newsize

-- `new_chars n` is what `new char[n]` returns, `new_ints n` what `new unsigned int[n]` does.
module _ (new_chars new_ints : ℕ → Option (List ℕ)) where
  -- `ReserveBuf`
  pub reserve_sized : ℕ → StringPool → Outcome StringPool
  reserve_sized newsize p =
      let n = decided_size newsize p in
      fresh_block (new_chars (n + 3)) >>= λ fresh.
      let start : Compacted = record {
        cells = set (set (set fresh 0 0) 1 0) 2 0;
        used = 3;
        highest = 3;
      } in
      if length p.buffer == 0
      then ret (record p {
        buffer = start.cells;
        buffer_size = word (n + 3);
        data_size = 3;
        garbage_size = 0;
        top = 3;
      })
      else if ltb (length p.offsets) p.num
      then undefined
      else (compact_sized p.buffer (take p.num p.offsets) start >>= λ r. ret (record p {
        buffer = r.1.cells;
        old_buffer = p.buffer;
        offsets = r.0 ++ drop p.num p.offsets;
        buffer_size = word (n + 3);
        data_size = r.1.used;
        garbage_size = 0;
        top = r.1.highest;
      }))

  -- `ReserveNum`
  reserve_offsets : ℕ → StringPool → Outcome StringPool
  reserve_offsets newsize p =
      if leb newsize p.offsets_size
      then ret p
      else (let least = word (p.offsets_size * 2 + allocate_space2) in
          let n = if ltb newsize least then least else newsize in
          elim (new_ints n) [
            | none ↦ bad_alloc
            | some fresh ↦
                if ltb (length fresh) n || ltb n p.offsets_size
                then undefined
                else ret (record p {
                  offsets =
                      take p.offsets_size p.offsets
                      ++ (zeroes (n - p.offsets_size) ++ drop n fresh);
                  offsets_size = n;
                })
          ])

  -- The beginning of both `Set` functions.
  abbrev grow_offsets : ℕ → StringPool → Outcome StringPool
  grow_offsets i p =
      if leb p.num i
      then (let p' = record p { num = i + 1 } in
          if leb p.offsets_size i then reserve_offsets (i + 1) p' else ret p')
      else ret p

  -- The end of `Allocate`: a new place behind all strings. The sums are of type `size_t`.
  abbrev allocate_behind : ℕ → ℕ → StringPool → Outcome (ℕ × StringPool)
  allocate_behind i len p =
      let need = p.data_size + 3 + len in
      (if ltb p.buffer_size need then reserve_sized (word need) p else ret p) >>= λ p'. ret (
        p'.data_size,
        record p' {
          offsets = set p'.offsets i p'.data_size;
          top = p'.data_size;
          data_size = word (p'.data_size + 3 + len);
        },
      )

  -- `Allocate`: the place of the length word, as an offset.
  pub allocate_sized : ℕ → ℕ → StringPool → Outcome (ℕ × StringPool)
  allocate_sized i len p = read (get_elem? p.offsets i) >>= λ o.
      if o == 0
      then allocate_behind i len p
      else if o == p.top
      then (let need = p.top + 3 + len in
          (if ltb p.buffer_size need then reserve_sized (word need) p else ret p) >>= λ p'.
          ret (p'.top, record p' { data_size = word (p'.top + 3 + len) }))
      else (len_of (pos i) p >>= λ old_len.
          if leb len old_len
          then ret (o, record p { garbage_size = word (p.garbage_size + (old_len - len)) })
          else allocate_behind i len
              (record p { garbage_size = word (p.garbage_size + (old_len + 3)) }))

  -- `Set(i, s)`
  pub set_sized : ℤ → Source → StringPool → Outcome StringPool
  set_sized (negsuc k) s p = exited
  set_sized (pos i) s p = grow_offsets i p >>= λ p1. text_of s p1.buffer >>= λ t.
      if length t == 0
      then erase_sized i p1
      else if ltb max_length (length t)
      then exited
      else (allocate_sized i (length t) p1 >>= λ r. store_length r.0 (length t) r.1 >>= λ p2.
          copy_in (r.0 + 2) s (length t + 1) p2 >>= λ p3. ret (release p3))

  -- `Set(i, s, len)`
  pub set_chars_sized : ℤ → Source → ℕ → StringPool → Outcome StringPool
  set_chars_sized (negsuc k) s len p = exited
  set_chars_sized (pos i) s len p = grow_offsets i p >>= λ p1.
      if len == 0
      then erase_sized i p1
      else (allocate_sized i len p1 >>= λ r. store_length r.0 len r.1 >>= λ p2.
          copy_in (r.0 + 2) s len p2 >>= λ p3.
          store_bytes (r.0 + (len + 2)) (0 ∷ []) p3.buffer >>= λ b.
          ret (release (record p3 { buffer = b })))

  -- `Concatenate`
  pub concatenate_sized : ℤ → Source → StringPool → Outcome StringPool
  concatenate_sized (negsuc k) s p = exited
  concatenate_sized (pos i) s p = len_of (pos i) p >>= λ len1. text_of s p.buffer >>= λ t2.
      if length t2 == 0
      then ret p
      else if ltb max_length (length t2)
      then exited
      else if leb p.num i
      then exited
      else if len1 == 0
      then set_sized (pos i) s p
      else (get_chars (pos i) p >>= λ string1. allocate_sized i (word (len1 + length t2)) p >>= λ r.
          store_length r.0 (word (len1 + length t2)) r.1 >>= λ p1.
          copy_in (r.0 + 2) (within string1) len1 p1 >>= λ p2.
          copy_in (r.0 + (2 + len1)) s (length t2 + 1) p2 >>= λ p3. ret (release p3))

  -- `SetToSubstring`. The sum of the two `unsigned int`s wraps.
  pub set_to_part : ℤ → Source → ℕ → ℕ → StringPool → Outcome StringPool
  set_to_part index s start len p = text_of s p.buffer >>= λ t.
      if ltb (length t) (word (start + len)) then exited else (elim s [
        | null_pointer ↦ if start == 0 then set_chars_sized index null_pointer len p else undefined
        | outside u ↦ set_chars_sized index (outside (drop start u)) len p
        | within o ↦ set_chars_sized index (within (o + start)) len p
      ])
