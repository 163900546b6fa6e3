-- ===== src/Containers/StringPool/Tests.antt =====
-- Runs of StringPoolS.cpp on a small pool.
use linux_multiarch_asm.Base.{
  ℕ, zero, suc, ◌+◌, ◌^◌, ◌≤◌, ◌<◌, ◌≡◌, ◌≢◌, ◌⊎◌, inl, inr, refl, Option, some, List, [], ◌∷◌,
  arith, length, get_elem?, length-replicate,
}
use linux_multiarch_asm.Base.Int.{pos}
use linux_multiarch_asm.Containers.Outcome.{exited, undefined, ◌>>=◌, ret}
use linux_multiarch_asm.Containers.Growth.{Allocates}
use linux_multiarch_asm.Containers.Memory.{int, zeroes}
use linux_multiarch_asm.Containers.Memory.Text.{c_string, NoZero, Holds}
use linux_multiarch_asm.Containers.StringPool.{
  StringPool, set_char, null_pointer, reserve_num, get_string, outside, within, new_strings,
  clear_strings, set_string, concatenate, set_to_substring, read_string, allocate_string,
  reserve_buf,
}
use linux_multiarch_asm.Containers.StringPool.Compact.{live}
use linux_multiarch_asm.Containers.StringPool.Layout.{offset, Layout, Represents}
use linux_multiarch_asm.Containers.StringPool.Element.{set_char-Represents}
use linux_multiarch_asm.Containers.StringPool.Grow.{Reserved, reserve_buf-Reserved}
use linux_multiarch_asm.Containers.StringPool.Put.{put}
use linux_multiarch_asm.Containers.StringPool.Misplaced.{allocate_string-misplaced}
use linux_multiarch_asm.Containers.StringPool.Set.{set_string-Represents}
use linux_multiarch_asm.Containers.StringPool.Fresh.{new_strings-Fresh, set_string-first}
use linux_multiarch_asm.Containers.StringPool.Read.{read_string-Represents, set_string-cleared}
use linux_multiarch_asm.Containers.StringPool.Substring.{set_to_substring-Represents}
use linux_multiarch_asm.Containers.StringPool.Concatenate.{concatenate-Represents}

-- What `new` gives: a block of zeroes.
abbrev blocks : ℕ → Option (List ℕ)
blocks n = some (zeroes n)

blocks-Allocates : Allocates blocks (2 ^ 31)
blocks-Allocates = record { block = λ n h. (zeroes n, refl, length-replicate {A = ℕ} n 0) }

-- String 0 is "a" and string 1 "b", which stands before it; the block is full.
abbrev two_strings : StringPool
two_strings = record {
  buffer = 0 ∷ 98 ∷ 0 ∷ 97 ∷ 0 ∷ [];
  old_buffer = [];
  offsets = 3 ∷ 1 ∷ [];
  buffer_size = 5;
  offsets_size = 2;
  data_size = 5;
  garbage_size = 0;
  top = 3;
  num = 2;
}

abbrev a_and_b : ℕ → List ℕ
a_and_b zero = 97 ∷ []
a_and_b (suc zero) = 98 ∷ []
a_and_b (suc (suc i)) = []

two_strings-Layout : Layout two_strings (λ i. length (a_and_b i))
unfolding live
two_strings-Layout = record {
  started = omega arith;
  size = refl;
  fits = omega arith;
  indices = refl;
  count = omega arith;
  beyond = beyond;
  empty = empty;
  ends = ends;
  le_top = le_top;
  last = last;
  apart = apart;
  space = omega arith;
}
  where
    beyond : (i : ℕ) → 2 ≤ i → offset two_strings i ≡ 0
    beyond zero h = absurd (omega arith)
    beyond (suc zero) h = absurd (omega arith)
    beyond (suc (suc i)) h = refl

    empty : (i : ℕ) → offset two_strings i ≡ 0 → length (a_and_b i) ≡ 0
    empty zero h = absurd (omega arith)
    empty (suc zero) h = absurd (omega arith)
    empty (suc (suc i)) h = refl

    ends : (i : ℕ) → 0 < offset two_strings i → offset two_strings i + (length (a_and_b i) + 1) ≤ 5
    ends zero h = omega arith
    ends (suc zero) h = omega arith
    ends (suc (suc i)) h = absurd (omega arith)

    le_top : (i : ℕ) → 0 < offset two_strings i → offset two_strings i ≤ 3
    le_top zero h = omega arith
    le_top (suc zero) h = omega arith
    le_top (suc (suc i)) h = absurd (omega arith)

    last :
        (i : ℕ)
        → 0 < offset two_strings i
        → offset two_strings i ≡ 3
        → 5 ≡ 3 + (length (a_and_b i) + 1)
    last zero h e = omega arith
    last (suc zero) h e = absurd (omega arith)
    last (suc (suc i)) h e = absurd (omega arith)

    apart :
        (i j : ℕ)
        → i ≢ j
        → 0 < offset two_strings i
        → 0 < offset two_strings j
        → (offset two_strings i + (length (a_and_b i) + 1) ≤ offset two_strings j)
          ⊎ (offset two_strings j + (length (a_and_b j) + 1) ≤ offset two_strings i)
    apart zero zero ne h h' = absurd (ne refl)
    apart zero (suc zero) ne h h' = inr (omega arith)
    apart (suc zero) zero ne h h' = inl (omega arith)
    apart (suc zero) (suc zero) ne h h' = absurd (ne refl)
    apart (suc (suc i)) j ne h h' = absurd (omega arith)
    apart zero (suc (suc j)) ne h h' = absurd (omega arith)
    apart (suc zero) (suc (suc j)) ne h h' = absurd (omega arith)

two_strings-Represents : Represents two_strings a_and_b
two_strings-Represents = record {
  texts = record { layout = two_strings-Layout; clean = clean; blank = blank; holds = holds };
  no_old = refl;
}
  where
    clean : (i : ℕ) → NoZero (a_and_b i)
    clean zero = (omega arith, tt)
    clean (suc zero) = (omega arith, tt)
    clean (suc (suc i)) = tt

    blank : Holds two_strings.buffer 0 []
    blank k lt = let first : k ≡ 0 = omega arith in rw first refl

    at_three : (k : ℕ) → k < 2 → get_elem? two_strings.buffer (3 + k) ≡ get_elem? (97 ∷ 0 ∷ []) k
    at_three zero lt = refl
    at_three (suc zero) lt = refl
    at_three (suc (suc k)) lt = absurd (omega arith)

    at_one : (k : ℕ) → k < 2 → get_elem? two_strings.buffer (1 + k) ≡ get_elem? (98 ∷ 0 ∷ []) k
    at_one zero lt = refl
    at_one (suc zero) lt = refl
    at_one (suc (suc k)) lt = absurd (omega arith)

    holds :
        (i : ℕ)
        → 0 < offset two_strings i
        → Holds two_strings.buffer (offset two_strings i) (a_and_b i)
    holds zero h = at_three
    holds (suc zero) h = at_one
    holds (suc (suc i)) h = absurd (omega arith)

cd_lem : c_string (99 ∷ 100 ∷ 0 ∷ []) ≡ some (99 ∷ 100 ∷ [])
unfolding c_string
cd_lem = refl

set_string-Represents_example :
    (p' : StringPool) × (set_string blocks blocks (pos 1) (outside (99 ∷ 100 ∷ 0 ∷ [])) two_strings
      ≡ ret p')
    × Represents p' (put a_and_b 1 (99 ∷ 100 ∷ []))
set_string-Represents_example =
    set_string-Represents blocks blocks blocks-Allocates blocks-Allocates two_strings a_and_b 1
      (99 ∷ 100 ∷ []) (outside (99 ∷ 100 ∷ 0 ∷ [])) two_strings-Represents cd_lem (omega arith)
      (omega arith) (omega arith) (λ h e. absurd (omega arith))

set_string-first_example :
    (p' : StringPool) × (set_string blocks blocks (pos 3) (outside (99 ∷ 100 ∷ 0 ∷ [])) new_strings
      ≡ ret p')
    × Represents p' (put (λ j. []) 3 (99 ∷ 100 ∷ []))
unfolding new_strings
set_string-first_example =
    set_string-first blocks blocks blocks-Allocates blocks-Allocates new_strings 3
      (99 ∷ 100 ∷ 0 ∷ []) (99 ∷ 100 ∷ []) new_strings-Fresh cd_lem (omega arith) (omega arith)
      (omega arith) (omega arith)

concatenate-Represents_example :
    (p' : StringPool) × (concatenate blocks blocks (pos 1) (within 3) two_strings ≡ ret p')
    × Represents p' (put a_and_b 1 (98 ∷ 97 ∷ []))
concatenate-Represents_example =
    concatenate-Represents blocks blocks blocks-Allocates blocks-Allocates two_strings a_and_b 1
      (97 ∷ []) (within 3) two_strings-Represents (0, omega arith, refl, refl) (omega arith)
      (omega arith) (omega arith) (omega arith) (λ h e. absurd (omega arith))

set_to_substring-Represents_example :
    (p' : StringPool) × (set_to_substring blocks blocks
        (pos 0)
        (outside (99 ∷ 100 ∷ 0 ∷ []))
        (pos 1)
        (pos 1)
        two_strings
      ≡ ret p')
    × Represents p' (put a_and_b 0 (100 ∷ []))
set_to_substring-Represents_example =
    set_to_substring-Represents blocks blocks blocks-Allocates blocks-Allocates two_strings a_and_b
      0 (99 ∷ 100 ∷ []) (outside (99 ∷ 100 ∷ 0 ∷ [])) 1 1 two_strings-Represents cd_lem
      (omega arith) (omega arith) (omega arith) (omega arith) (omega arith)
      (λ h e. inl (omega arith))

set_char-Represents_example :
    (p' : StringPool) × (set_char (pos 1) (pos 0) 120 two_strings ≡ ret p')
    × Represents p' (put a_and_b 1 (120 ∷ []))
set_char-Represents_example =
    set_char-Represents two_strings a_and_b 1 0 120 two_strings-Represents (omega arith)
      (omega arith) (omega arith)

read_string-Represents_example : read_string (pos 1) two_strings ≡ ret (98 ∷ [])
read_string-Represents_example =
    read_string-Represents two_strings a_and_b 1 two_strings-Represents (omega arith)

set_string-cleared_example :
    (p' : StringPool) × (set_string blocks blocks
        (pos 0)
        (outside (99 ∷ 100 ∷ 0 ∷ []))
        (clear_strings two_strings)
      ≡ ret p')
    × (0 < p'.num)
    × ((j : ℕ) → j < p'.num → read_string (pos j) p' ≡ ret (99 ∷ 100 ∷ []))
set_string-cleared_example =
    set_string-cleared blocks blocks blocks-Allocates two_strings a_and_b 0 (99 ∷ 100 ∷ 0 ∷ [])
      (99 ∷ 100 ∷ []) two_strings-Represents cd_lem (omega arith) (omega arith) (omega arith)
      (omega arith) (omega arith)

reserve_buf-Reserved_example :
    (p' : StringPool) × (reserve_buf blocks blocks 10 two_strings ≡ ret p')
    × Reserved 10 two_strings p' a_and_b
reserve_buf-Reserved_example =
    reserve_buf-Reserved blocks blocks blocks-Allocates 10 two_strings a_and_b
      two_strings-Represents.texts (omega arith) (omega arith) (omega arith)

allocate_string-misplaced_example :
    (p' : StringPool) × (allocate_string blocks blocks 0 2 two_strings ≡ ret (offset p' 1, p'))
    × Holds p'.buffer (offset p' 1) (98 ∷ [])
    × (offset p' 0 ≢ offset p' 1)
allocate_string-misplaced_example =
    allocate_string-misplaced blocks blocks blocks-Allocates two_strings a_and_b 0 1 (99 ∷ 100 ∷ [])
      two_strings-Represents.texts (omega arith) (omega arith) refl (omega arith) (omega arith)
      (omega arith) none_behind
  where
    none_behind : (j : ℕ) → 1 < j → a_and_b j ≡ []
    none_behind zero h = absurd (omega arith)
    none_behind (suc zero) h = absurd (omega arith)
    none_behind (suc (suc j)) h = refl

-- A character of string 0, and one behind its end.
set_char_run :
    set_char (pos 0) (pos 0) 120 two_strings
    ≡ ret (record two_strings { buffer = 0 ∷ 98 ∷ 0 ∷ 120 ∷ 0 ∷ [] })
unfolding set_char read_string get_string c_string
set_char_run = refl

set_char_behind_run : set_char (pos 0) (pos 1) 120 two_strings ≡ exited
unfolding set_char read_string get_string c_string
set_char_behind_run = refl

-- A string that fits takes the old one's place; the empty string takes none.
set_string_run :
    set_string blocks blocks (pos 1) (within 3) two_strings
    ≡ ret (record two_strings { buffer = 0 ∷ 97 ∷ 0 ∷ 97 ∷ 0 ∷ [] })
unfolding set_string allocate_string c_string
set_string_run = refl

erase_run :
    set_string blocks blocks (pos 1) null_pointer two_strings
    ≡ ret (record two_strings { offsets = 3 ∷ 0 ∷ []; garbage_size = 2 })
unfolding set_string allocate_string c_string
erase_run = refl

-- The string at `Top` would stay there: it is copied onto itself, which is undefined.
concatenate_last_run :
    concatenate blocks blocks
      (pos 0)
      (within 1)
      (record two_strings { buffer = 0 ∷ 98 ∷ 0 ∷ 97 ∷ 0 ∷ 7 ∷ []; buffer_size = 6 })
    ≡ undefined
unfolding concatenate get_string allocate_string int c_string
concatenate_last_run = refl

-- A pool whose only string is empty has no buffer to read it from.
no_buffer_run :
    (set_string blocks blocks (pos 0) null_pointer new_strings >>= λ p. read_string (pos 0) p)
    ≡ undefined
unfolding set_string reserve_num int new_strings read_string get_string c_string
no_buffer_run = refl
