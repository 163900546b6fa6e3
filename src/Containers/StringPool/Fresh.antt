-- ===== src/Containers/StringPool/Fresh.antt =====
-- The first string of a pool of StringPoolS.cpp.
use linux_multiarch_asm.Base.{
  ℕ, ◌+◌, ◌^◌, ◌≤◌, ◌<◌, ◌≡◌, refl, ap, ◌∙◌, true, false, Option, some, List, [], arith, ltb, ◌==◌,
  length, set, length-set, get_elem?-set_self, get_elem?-eq-get_or,
}
use linux_multiarch_asm.Base.Int.{pos}
use linux_multiarch_asm.Containers.Outcome.{ret}
use linux_multiarch_asm.Containers.Growth.{Allocates}
use linux_multiarch_asm.Containers.Memory.{int_lem}
use linux_multiarch_asm.Containers.Memory.Text.{c_string, c_string-NoZero}
use linux_multiarch_asm.Containers.StringPool.{
  StringPool, outside, reserve_buf, allocate_string, set_string, new_strings,
}
use linux_multiarch_asm.Containers.StringPool.Layout.{offset, Texts, Represents}
use linux_multiarch_asm.Containers.StringPool.Offsets.{live-zeroes}
use linux_multiarch_asm.Containers.StringPool.Grow.{new_block, new_block-lt, new_block-ge}
use linux_multiarch_asm.Containers.StringPool.Put.{put}
use linux_multiarch_asm.Containers.StringPool.Index.{Indexed, Grown, grow_num-Grown}
use linux_multiarch_asm.Containers.StringPool.Set.{store-Texts}

-- A pool without a buffer.
pub record Fresh (p : StringPool) : Type 0 where
  pub indexed : Indexed p
  pub buffer : p.buffer ≡ []
  pub old : p.old_buffer ≡ []
  pub buffer_size : p.buffer_size ≡ 0
  pub data_size : p.data_size ≡ 0
  pub zero : (j : ℕ) → offset p j ≡ 0

pub new_strings-Fresh : Fresh new_strings
unfolding new_strings
new_strings-Fresh = record {
  indexed = record { size = refl; count = omega arith };
  buffer = refl;
  old = refl;
  buffer_size = refl;
  data_size = refl;
  zero = λ j. refl;
}

Grown-Fresh : (p p' : StringPool) → Fresh p → Grown p p' → Fresh p'
Grown-Fresh p p' f g = record {
  indexed = g.indexed;
  buffer = g.buffer ∙ f.buffer;
  old = g.old ∙ f.old;
  buffer_size = g.buffer_size ∙ f.buffer_size;
  data_size = g.data_size ∙ f.data_size;
  zero = λ j. g.same j ∙ f.zero j;
}

-- The pool with a block that holds the empty string.
abbrev first_block : ℕ → List ℕ → StringPool → StringPool
first_block n fresh p = record p {
  buffer = set fresh 0 0;
  buffer_size = n;
  data_size = 1;
  garbage_size = 0;
  top = 1;
}

first_block-Texts :
    (p : StringPool) (n : ℕ) (fresh : List ℕ)
    → Fresh p
    → 0 < n
    → length fresh ≡ n
    → Texts (first_block n fresh p) (λ j. [])
first_block-Texts p n fresh f positive size = record {
  layout = record {
    started = omega arith;
    size = length-set fresh 0 0 ∙ size;
    fits = omega arith;
    indices = f.indexed.size;
    count = f.indexed.count;
    beyond = λ j le. f.zero j;
    empty = λ j e. refl;
    ends = λ j h. absurd (omega (arith, f.zero j));
    le_top = λ j h. absurd (omega (arith, f.zero j));
    last = λ j h e. absurd (omega (arith, f.zero j));
    apart = λ j k ne h h'. absurd (omega (arith, f.zero j));
    space = omega (arith, live-zeroes (λ j. 0) 0 p.offsets f.zero);
  };
  clean = λ j. tt;
  blank = λ k lt.
      let first : k ≡ 0 = omega arith in
      rw first (get_elem?-set_self fresh 0 0 (omega (arith, size)));
  holds = λ j h. absurd (omega (arith, f.zero j));
}

module _ (new_chars new_ints : ℕ → Option (List ℕ)) (chars : Allocates new_chars (2 ^ 31)) where
  reserve_buf-first :
      (newsize : ℕ) (p : StringPool)
      → Fresh p
      → newsize < 2 ^ 30
      → (n : ℕ) × (fresh : List ℕ) × (reserve_buf new_chars new_ints newsize p
          ≡ ret (first_block n fresh p))
        × (length fresh ≡ n)
        × (newsize + 1 ≤ n)
  unfolding reserve_buf
  reserve_buf-first newsize p f small =
      let n = new_block newsize p in
      let lt = new_block-lt newsize p small (omega (arith, f.data_size)) in
      let (fresh, e, size) = chars.block n lt in
      let no_buffer : (length p.buffer == 0) ≡ true = ground (arith, ap length f.buffer) in
      (n, fresh, rw (int_lem n lt, e, no_buffer) refl, size, new_block-ge newsize p)

  -- The first string goes where it would go in the new block.
  allocate_string-first :
      (p : StringPool) (i len : ℕ)
      → Fresh p
      → i < p.num
      → len < 2 ^ 29
      → (n : ℕ) × (fresh : List ℕ) × (allocate_string new_chars new_ints i len p
          ≡ allocate_string new_chars new_ints i len (first_block n fresh p))
        × (length fresh ≡ n)
        × (0 < n)
  unfolding allocate_string
  allocate_string-first p i len f lt small =
      let found =
        get_elem?-eq-get_or p.offsets i 0 (omega (arith, f.indexed.size, f.indexed.count)) in
      let z : (offset p i == 0) ≡ true = ground (arith, f.zero i) in
      let newsize = p.data_size + len + 1 in
      let (n, fresh, e, size, ge) = reserve_buf-first newsize p f (omega (arith, f.data_size)) in
      let need = int_lem newsize (omega (arith, f.data_size)) in
      let used = int_lem (1 + len + 1) (omega arith) in
      let grows : ltb p.buffer_size newsize ≡ true = ground (arith, f.buffer_size) in
      let stays : ltb n (1 + len + 1) ≡ false = ground (arith, f.data_size) in
      (n, fresh, rw (found, z, need, grows, e, used, stays, used) refl, size, omega arith)

  -- Where allocations below 2 ^ 31 succeed and the index, the number of offsets and the characters
  -- are below 2 ^ 29, `Set` of a string from outside that is not empty, on a pool without a buffer,
  -- gives a pool that stands for that text at its index and empty ones at all others.
  pub set_string-first :
      Allocates new_ints (2 ^ 31)
      → (p : StringPool) (i : ℕ) (u t : List ℕ) → Fresh p
      → c_string u ≡ some t
      → 0 < length t
      → i < 2 ^ 29
      → p.offsets_size < 2 ^ 29
      → 1 + length t < 2 ^ 29
      → (p' : StringPool) × (set_string new_chars new_ints (pos i) (outside u) p ≡ ret p')
        × Represents p' (put (λ j. []) i t)
  unfolding set_string
  set_string-first ints p i u t f read some_char small few fits =
      let (q, e, g, lt) = grow_num-Grown new_chars new_ints ints p i f.indexed small few in
      let f' = Grown-Fresh p q f g in
      let nz : (length t == 0) ≡ false = ground arith in
      let (n, fresh, same, size, positive) =
        allocate_string-first q i (length t) f' lt (omega arith) in
      let (p', e', h) =
        store-Texts new_chars new_ints chars (first_block n fresh q) (λ j. []) i t (outside u)
          (first_block-Texts q n fresh f' positive size) f'.old lt some_char fits
          (λ h. absurd (omega (arith, f'.zero i))) (c_string-NoZero u t read).0 read in
      (p', rw (e, read, nz, same) e', h)
