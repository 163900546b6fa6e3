-- ===== src/Containers/StringPoolL/Tests.antt =====
-- Runs of StringPoolL.cpp on a small pool.
use linux_multiarch_asm.Base.{◌++◌, ℕ, zero, suc, ◌-◌, ◌^◌, ◌≡◌, refl, Option, some, List, [], ◌∷◌}
use linux_multiarch_asm.Base.Int.{pos}
use linux_multiarch_asm.Containers.Outcome.{ret, exited, undefined, ◌>>=◌}
use linux_multiarch_asm.Containers.Memory.{zeroes}
use linux_multiarch_asm.Containers.Memory.Text.{c_string}
use linux_multiarch_asm.Containers.StringPool.{StringPool, null_pointer, outside, within}
use linux_multiarch_asm.Containers.StringPoolL.{
  new_sized, clear_sized, load_length, store_length, len_of, get_chars, read_chars, set_char_at,
  set_sized, set_chars_sized, concatenate_sized, set_to_part, allocate_sized,
}
use linux_multiarch_asm.Containers.StringPool.Layout.{Layout}

-- What `new` gives: a block of zeroes.
abbrev blocks : ℕ → Option (List ℕ)
blocks n = some (zeroes n)

-- String 0 is "a", string 1 is "b", and there are three more characters of room.
abbrev two_sized : StringPool
two_sized = record {
  buffer = 0 ∷ 0 ∷ 0 ∷ 1 ∷ 0 ∷ 97 ∷ 0 ∷ 1 ∷ 0 ∷ 98 ∷ 0 ∷ 7 ∷ 7 ∷ 7 ∷ [];
  old_buffer = [];
  offsets = 3 ∷ 7 ∷ [];
  buffer_size = 14;
  offsets_size = 2;
  data_size = 11;
  garbage_size = 0;
  top = 7;
  num = 2;
}

abbrev a_and_b : ℕ → List ℕ
a_and_b zero = 97 ∷ []
a_and_b (suc zero) = 98 ∷ []
a_and_b (suc (suc i)) = []

-- "b" stands last and would stay there: it is copied onto itself, which is undefined.
concatenate_last_run : concatenate_sized blocks blocks (pos 1) (within 5) two_sized ≡ undefined
unfolding concatenate_sized len_of get_chars load_length store_length allocate_sized c_string
concatenate_last_run = refl

-- With two more characters of room "a" becomes "ab" behind the others.
concatenate_run :
    concatenate_sized blocks blocks
      (pos 0)
      (within 9)
      (record two_sized { buffer = two_sized.buffer ++ (7 ∷ 7 ∷ []); buffer_size = 16 })
    ≡ ret (record {
      buffer = 0 ∷ 0 ∷ 0 ∷ 1 ∷ 0 ∷ 97 ∷ 0 ∷ 1 ∷ 0 ∷ 98 ∷ 0 ∷ 2 ∷ 0 ∷ 97 ∷ 98 ∷ 0 ∷ [];
      old_buffer = [];
      offsets = 11 ∷ 7 ∷ [];
      buffer_size = 16;
      offsets_size = 2;
      data_size = 16;
      garbage_size = 4;
      top = 11;
      num = 2;
    })
unfolding concatenate_sized len_of get_chars load_length store_length allocate_sized c_string
concatenate_run = refl

-- An index out of range ends the program.
concatenate_out_of_range_run : concatenate_sized blocks blocks (pos 2) (within 5) two_sized ≡ exited
unfolding concatenate_sized len_of
concatenate_out_of_range_run = refl

-- The empty string makes the old one garbage, with its length and its zero.
erase_sized_run :
    set_sized blocks blocks (pos 1) null_pointer two_sized
    ≡ ret (record two_sized { offsets = 3 ∷ 0 ∷ []; garbage_size = 4 })
unfolding set_sized len_of load_length
erase_sized_run = refl

-- A shorter part takes the old string's place.
set_chars_run :
    set_chars_sized blocks blocks (pos 0) (outside (120 ∷ 121 ∷ [])) 1 two_sized
    ≡ ret (record two_sized {
      buffer = 0 ∷ 0 ∷ 0 ∷ 1 ∷ 0 ∷ 120 ∷ 0 ∷ 1 ∷ 0 ∷ 98 ∷ 0 ∷ 7 ∷ 7 ∷ 7 ∷ [];
    })
unfolding set_chars_sized allocate_sized len_of load_length store_length
set_chars_run = refl

set_char_at_run :
    (set_char_at (pos 1) (pos 0) 120 two_sized >>= λ p. read_chars (pos 1) p) ≡ ret (120 ∷ [])
unfolding set_char_at read_chars get_chars len_of load_length c_string
set_char_at_run = refl

-- A start and a length whose sum wraps to 0 pass the test, and characters outside the buffer are read.
wrapped_run : set_to_part blocks blocks (pos 0) (within 9) (2 ^ 32 - 1) 1 two_sized ≡ undefined
unfolding set_to_part set_chars_sized allocate_sized len_of load_length store_length c_string
wrapped_run = refl

-- After `Clear` the next string is at offset 0, and other indices read it as well.
cleared_run :
    (set_sized blocks blocks (pos 0) (outside (120 ∷ 0 ∷ [])) (clear_sized two_sized) >>= λ p.
    read_chars (pos 1) p)
    ≡ ret (120 ∷ [])
unfolding set_sized allocate_sized load_length store_length read_chars get_chars c_string
cleared_run = refl

-- A new pool has no index to read.
new_run : read_chars (pos 0) new_sized ≡ exited
unfolding read_chars get_chars
new_run = refl
