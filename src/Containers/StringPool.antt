-- ===== src/Containers/StringPool.antt =====
-- StringPoolS.cpp (archive/todo/optimization-examples/cppexamples): strings in one shared buffer, each
-- with an offset by its index. A character is a number, a null pointer to a block the empty list.
pub mod Compact
pub mod Layout
pub mod Last
pub mod Offsets
pub mod Reserve
pub mod Grow
pub mod Put
pub mod Spots
pub mod Vacant
pub mod Allocate
pub mod Place
pub mod Misplaced
pub mod Index
pub mod Erase
pub mod Copy
pub mod Set
pub mod Fresh
pub mod Read
pub mod Element
pub mod Chars
pub mod Substring
pub mod Half
pub mod Concatenate
mod Tests
use linux_multiarch_asm.Base.{
  ℕ, zero, suc, ◌+◌, ◌-◌, ◌*◌, Bool, true, false, not, ◌&&◌, Option, none, some, List, [], ◌∷◌,
  ◌++◌, ltb, leb, ◌==◌, if◌then◌else◌, length, get_elem?, set, take, drop, replicate,
}
use linux_multiarch_asm.Base.Int.{ℤ, pos, negsuc}
use linux_multiarch_asm.Containers.Outcome.{Outcome, ret, exited, undefined, bad_alloc, read, ◌>>=◌}
use linux_multiarch_asm.Containers.Memory.{int, zeroes, copy_bytes}
use linux_multiarch_asm.Containers.Memory.Text.{c_string}

pub record StringPool : Type 0 where
  pub buffer : List ℕ
  pub old_buffer : List ℕ
  pub offsets : List ℕ
  pub buffer_size : ℕ
  pub offsets_size : ℕ
  pub data_size : ℕ
  pub garbage_size : ℕ
  pub top : ℕ
  pub num : ℕ

-- A `PChar` argument: null, the characters at a place outside the pool, or an offset into its buffer.
pub data Source : Type 0 where
  null_pointer : Source
  outside : List ℕ → Source
  within : ℕ → Source

abbrev pub allocate_space1 : ℕ
allocate_space1 = 4096

abbrev pub allocate_space2 : ℕ
allocate_space2 = 1024

-- `StringPoolS()`
pub new_strings : StringPool
new_strings = record {
  buffer = [];
  old_buffer = [];
  offsets = [];
  buffer_size = 0;
  offsets_size = 0;
  data_size = 0;
  garbage_size = 0;
  top = 0;
  num = 0;
}

-- `Clear`
pub clear_strings : StringPool → StringPool
clear_strings p = record p {
  offsets = zeroes p.num ++ drop p.num p.offsets;
  data_size = 0;
  garbage_size = 0;
}

-- The string at an offset of the buffer.
abbrev pub string_at : List ℕ → ℕ → Outcome (List ℕ)
string_at b o = read (c_string (drop o b))

-- `memcpy(b + to, bytes, length)`
abbrev pub store_bytes : ℕ → List ℕ → List ℕ → Outcome (List ℕ)
store_bytes to bytes b =
    if leb (to + length bytes) (length b) then ret (copy_bytes to bytes b) else undefined

-- The variables that the loop of `ReserveBuf` carries: `Buffer2`, `DataSize2` and `Top`.
pub record Compacted : Type 0 where
  pub cells : List ℕ
  pub used : ℕ
  pub highest : ℕ

-- The loop of `ReserveBuf` over the offsets, which returns the new ones.
pub compact : List ℕ → List ℕ → Compacted → Outcome (List ℕ × Compacted)
compact old [] c = ret ([], c)
compact old (o ∷ os) c =
    let skipped = compact old os c >>= λ r. ret (0 ∷ r.0, r.1) in
    if o == 0
    then skipped
    else (string_at old o >>= λ t.
        if length t == 0
        then skipped
        else (store_bytes c.used (t ++ (0 ∷ [])) c.cells >>= λ b.
            compact old os (record { cells = b; used = c.used + (length t + 1); highest = c.used })
            >>= λ r. ret (c.used ∷ r.0, r.1)))

-- What a pointer argument stands for at the call.
abbrev pub text_of : Source → List ℕ → Outcome (List ℕ)
text_of null_pointer b = ret []
text_of (outside t) b = read (c_string t)
text_of (within o) b = string_at b o

-- The `count` characters at the pointer.
abbrev pub chars_at : Source → ℕ → List ℕ → Outcome (List ℕ)
chars_at null_pointer count b = undefined
chars_at (outside t) count b = if leb count (length t) then ret (take count t) else undefined
chars_at (within o) count b =
    if leb count (length b - o) then ret (take count (drop o b)) else undefined

-- Whether a `memcpy` of `count` characters to `to` within one buffer overlaps, which is undefined, also
-- where a block is copied onto itself.
abbrev pub clashes : Source → ℕ → ℕ → Bool
clashes null_pointer count to = false
clashes (outside t) count to = false
clashes (within o) count to = ltb o (to + count) && ltb to (o + count)

-- `memcpy(p, s, count)` into the pool. A pointer into the buffer of the call's beginning points into
-- the old buffer once the strings have moved.
abbrev pub copy_in : ℕ → Source → ℕ → StringPool → Outcome StringPool
copy_in to s count p =
    let moved = not (length p.old_buffer == 0) in
    if not moved && clashes s count to
    then undefined
    else (chars_at s count (if moved then p.old_buffer else p.buffer) >>= λ bytes.
        store_bytes to bytes p.buffer >>= λ b. ret (record p { buffer = b }))

-- `if (OldBuffer) { delete[] OldBuffer;  OldBuffer = 0; }`
abbrev pub release : StringPool → StringPool
release p = record p { old_buffer = [] }

-- `Get`: the address of the string, as an offset.
pub get_string : ℤ → StringPool → Outcome ℕ
get_string (negsuc k) p = exited
get_string (pos i) p = if leb p.num i then exited else read (get_elem? p.offsets i)

-- What is read at that address; a null buffer has no characters.
pub read_string : ℤ → StringPool → Outcome (List ℕ)
read_string i p = get_string i p >>= λ o. string_at p.buffer o

-- `StringElement::operator[]`, written through
pub set_char : ℤ → ℤ → ℕ → StringPool → Outcome StringPool
set_char index (negsuc k) c p = read_string index p >>= λ t. exited
set_char index (pos i) c p = read_string index p >>= λ t.
    if leb (length t) i
    then exited
    else (get_string index p >>= λ o. ret (record p { buffer = set p.buffer (o + i) c }))

-- The empty string's branch of `Set`.
abbrev pub erase_string : ℕ → StringPool → Outcome StringPool
erase_string i p = read (get_elem? p.offsets i) >>= λ o.
    if o == 0
    then ret p
    else (string_at p.buffer o >>= λ t.
        ret (record p {
          garbage_size = p.garbage_size + (length t + 1);
          offsets = set p.offsets i 0;
        }))

-- `new_chars n` is what `new char[n]` returns, `new_ints n` what `new unsigned int[n]` does.
module _ (new_chars new_ints : ℕ → Option (List ℕ)) where
  -- `ReserveBuf`. The size that it decides on is not negative, and is computed in `int`s.
  pub reserve_buf : ℕ → StringPool → Outcome StringPool
  reserve_buf newsize p =
      let wanted = p.data_size * 2 + allocate_space1 - p.garbage_size * 2 in
      int (
        if ltb (newsize + p.garbage_size * 2) (p.data_size * 2 + allocate_space1)
        then wanted + 1
        else newsize + 1)
      >>= λ n. elim (new_chars n) [
        | none ↦ bad_alloc
        | some fresh ↦
            let start : Compacted = record { cells = set fresh 0 0; used = 1; highest = 1 } in
            if length p.buffer == 0
            then ret (record p {
              buffer = start.cells;
              buffer_size = n;
              data_size = 1;
              garbage_size = 0;
              top = 1;
            })
            else if ltb (length p.offsets) p.num
            then undefined
            else (compact p.buffer (take p.num p.offsets) start >>= λ r. ret (record p {
              buffer = r.1.cells;
              old_buffer = p.buffer;
              offsets = r.0 ++ drop p.num p.offsets;
              buffer_size = n;
              data_size = r.1.used;
              garbage_size = 0;
              top = r.1.highest;
            }))
      ]

  -- `ReserveNum`
  pub reserve_num : ℕ → StringPool → Outcome StringPool
  reserve_num newsize p =
      if leb newsize p.offsets_size
      then ret p
      else (int (p.offsets_size * 2 + allocate_space2) >>= λ least.
          let n = if ltb newsize least then least else newsize in
          elim (new_ints n) [
            | none ↦ bad_alloc
            | some fresh ↦
                if ltb (length fresh) n
                then undefined
                else ret (record p {
                  offsets =
                      take p.offsets_size p.offsets
                      ++ (zeroes (n - p.offsets_size) ++ drop n fresh);
                  offsets_size = n;
                })
          ])

  -- The end of `Allocate`: a new place behind all strings.
  abbrev pub allocate_end : ℕ → ℕ → StringPool → Outcome (ℕ × StringPool)
  allocate_end i len p = int (p.data_size + len + 1) >>= λ need.
      (if ltb p.buffer_size need then reserve_buf need p else ret p) >>= λ p'.
      int (p'.data_size + len + 1) >>= λ used. ret (
        p'.data_size,
        record p' { offsets = set p'.offsets i p'.data_size; top = p'.data_size; data_size = used },
      )

  -- `Allocate`: the place for the new string, as an offset.
  pub allocate_string : ℕ → ℕ → StringPool → Outcome (ℕ × StringPool)
  allocate_string i len p = read (get_elem? p.offsets i) >>= λ o.
      if o == 0
      then allocate_end i len p
      else if o == p.top
      then (int (p.top + len + 1) >>= λ need.
          (if ltb p.buffer_size need then reserve_buf need p else ret p) >>= λ p'.
          int (p'.top + len + 1) >>= λ used. ret (p'.top, record p' { data_size = used }))
      else (string_at p.buffer o >>= λ t.
          if leb len (length t)
          then ret (o, record p { garbage_size = p.garbage_size + (length t - len) })
          else allocate_end i len (record p { garbage_size = p.garbage_size + (length t + 1) }))

  -- The beginning of both `Set` functions.
  abbrev pub grow_num : ℕ → StringPool → Outcome StringPool
  grow_num i p =
      if leb p.num i
      then (int (i + 1) >>= λ n.
          let p' = record p { num = n } in
          if leb p.offsets_size i then reserve_num n p' else ret p')
      else ret p

  -- `Set(i, s)`
  pub set_string : ℤ → Source → StringPool → Outcome StringPool
  set_string (negsuc k) s p = exited
  set_string (pos i) s p = grow_num i p >>= λ p1. text_of s p1.buffer >>= λ t.
      if length t == 0
      then erase_string i p1
      else (allocate_string i (length t) p1 >>= λ r.
          copy_in r.0 s (length t + 1) r.1 >>= λ p2. ret (release p2))

  -- `Set(i, s, Len)`
  pub set_chars : ℤ → Source → ℤ → StringPool → Outcome StringPool
  set_chars (negsuc k) s len p = exited
  set_chars (pos i) s (negsuc k) p = grow_num i p >>= λ p1. erase_string i p1
  set_chars (pos i) s (pos len) p = grow_num i p >>= λ p1.
      if len == 0
      then erase_string i p1
      else (allocate_string i len p1 >>= λ r. copy_in r.0 s len r.1 >>= λ p2.
          store_bytes (r.0 + len) (0 ∷ []) p2.buffer >>= λ b.
          ret (release (record p2 { buffer = b })))

  -- `Concatenate`
  pub concatenate : ℤ → Source → StringPool → Outcome StringPool
  concatenate i s p = text_of s p.buffer >>= λ t2.
      if length t2 == 0
      then ret p
      else (get_string i p >>= λ o.
          if o == 0
          then set_string i s p
          else (string_at p.buffer o >>= λ t1. elim i [
            | negsuc k ↦ exited
            | pos i' ↦ allocate_string i' (length t1 + length t2) p >>= λ r.
                copy_in r.0 (within o) (length t1) r.1 >>= λ p1.
                copy_in (r.0 + length t1) s (length t2 + 1) p1 >>= λ p2. ret (release p2)
          ]))

  -- `SetToSubstring`
  pub set_to_substring : ℤ → Source → ℤ → ℤ → StringPool → Outcome StringPool
  set_to_substring index s (negsuc k) len p = text_of s p.buffer >>= λ t. exited
  set_to_substring index s (pos start) (negsuc k) p = text_of s p.buffer >>= λ t. exited
  set_to_substring index s (pos start) (pos len) p = text_of s p.buffer >>= λ t.
      int (start + len) >>= λ end. if ltb (length t) end then exited else (elim s [
        | null_pointer ↦ set_chars index null_pointer (pos len) p
        | outside u ↦ set_chars index (outside (drop start u)) (pos len) p
        | within o ↦ set_chars index (within (o + start)) (pos len) p
      ])
