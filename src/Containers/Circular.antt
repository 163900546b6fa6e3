-- ===== src/Containers/Circular.antt =====
-- Positions in a circular buffer, and the queue that such a buffer holds. FIFOlist.cpp and
-- DynamicQueue.cpp share the representation.
pub mod Unroll
use linux_multiarch_asm.Base.{
  ℕ, suc, ◌+◌, ◌-◌, ◌≤◌, ◌<◌, ◌≡◌, ◌≢◌, some, List, [], ◌∷◌, ◌++◌, arith, leb, if◌then◌else◌,
  length, get_elem?, set, get_elem?-set_self, get_elem?-set_ne,
}

-- `if (++i >= cap) i = 0;`
unfoldable pub advance : ℕ → ℕ → ℕ
advance cap i = if leb cap (i + 1) then 0 else i + 1

-- `if (i >= cap) i -= cap;`
unfoldable pub wrap : ℕ → ℕ → ℕ
wrap cap i = if leb cap i then i - cap else i

pub advance-lt : (cap i : ℕ) → 0 < cap → advance cap i < cap
unfolding advance
advance-lt cap i h = ground arith

pub advance-wrap :
    (cap t n : ℕ) → t < cap → n < cap → advance cap (wrap cap (t + n)) ≡ wrap cap (t + suc n)
unfolding advance wrap
advance-wrap cap t n ht hn = ground arith

pub wrap-advance :
    (cap t n : ℕ) → t < cap → n < cap → wrap cap (advance cap t + n) ≡ wrap cap (t + suc n)
unfolding advance wrap
wrap-advance cap t n ht hn = ground arith

pub wrap-lt : (cap t n : ℕ) → t < cap → n ≤ cap → wrap cap (t + n) < cap
unfolding wrap
wrap-lt cap t n ht hn = ground arith

pub wrap-zero : (cap t : ℕ) → t < cap → wrap cap (t + 0) ≡ t
unfolding wrap
wrap-zero cap t ht = ground arith

-- Fewer than `cap` steps do not come back to the start.
wrap-ne : (cap t n : ℕ) → t < cap → suc n < cap → wrap cap (t + suc n) ≢ t
unfolding wrap
wrap-ne cap t n ht hn = ground arith

module _ {ℓ} {A : Type ℓ} where
  -- From position `t` on, going round at `cap`, the buffer holds the elements of the queue.
  abbrev pub Holds : List A → ℕ → ℕ → List A → Type ℓ
  Holds buf cap t [] = Unit
  Holds buf cap t (x ∷ q) = (get_elem? buf t ≡ some x) × Holds buf cap (advance cap t) q

  -- Writing at the free position behind the queue adds an element at its end.
  pub Holds-append :
      (buf : List A) (cap t h : ℕ) (x : A) (q : List A)
      → length buf ≡ cap
      → t < cap
      → length q < cap
      → h ≡ wrap cap (t + length q)
      → Holds buf cap t q
      → Holds (set buf h x) cap t (q ++ (x ∷ []))
  Holds-append buf cap t h x [] len ht hq e holds =
      ((ground (arith, wrap-zero cap t ht, get_elem?-set_self buf t x (omega arith))), tt)
  Holds-append buf cap t h x (y ∷ q) len ht hq e holds = (
    ground (
      arith,
      holds.0,
      wrap-ne cap t (length q) ht hq,
      get_elem?-set_ne buf h t x (omega (arith, wrap-ne cap t (length q) ht hq)),
    ),
    Holds-append buf cap (advance cap t) h x q len (advance-lt cap t (omega arith)) (omega arith)
        (omega (arith, wrap-advance cap t (length q) ht (omega arith))) holds.1,
  )
