-- ===== src/Containers/StringPoolL/Grow.antt =====
-- `ReserveBuf` of StringPoolL.cpp.
use linux_multiarch_asm.Base.{ℕ, ◌+◌, ◌^◌, ◌≤◌, ◌<◌, ◌≡◌, List, [], length, set}
use linux_multiarch_asm.Containers.StringPool.{StringPool, Compacted}
use linux_multiarch_asm.Containers.StringPool.Compact.{live}
use linux_multiarch_asm.Containers.StringPool.Layout.{offset, Blocks}
use linux_multiarch_asm.Containers.StringPoolL.Sized.{sized}

-- The pool holds the texts `m`, each with its length in front of it.
pub record SizedTexts (p : StringPool) (m : ℕ → List ℕ) : Type 0 where
  pub blocks : Blocks p (λ i. sized (m i))
  pub short : (i : ℕ) → length (m i) < 2 ^ 16
  pub chars : (i : ℕ) → 0 < offset p i → 0 < length (m i)

-- What `ReserveBuf` leaves.
pub record ReservedSized (newsize : ℕ) (p p' : StringPool) (m : ℕ → List ℕ) : Type 0 where
  pub texts : SizedTexts p' m
  pub old : p'.old_buffer ≡ p.buffer
  pub room : newsize + 3 ≤ p'.buffer_size
  pub no_garbage :
      (live (λ i. length (sized (m i))) 0 p'.offsets + 3 ≡ p'.data_size) × (p'.garbage_size ≡ 0)
  pub highest : (k : ℕ) → 0 < length (m k) → ((j : ℕ) → k < j → m j ≡ []) → offset p' k ≡ p'.top
  pub same_num : p'.num ≡ p.num
  pub same_indices : p'.offsets_size ≡ p.offsets_size

-- The new block with the empty string at its beginning.
abbrev start : List ℕ → Compacted
start fresh = record { cells = set (set (set fresh 0 0) 1 0) 2 0; used = 3; highest = 3 }
