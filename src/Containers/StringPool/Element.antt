-- ===== src/Containers/StringPool/Element.antt =====
-- `operator[]` on a string of StringPoolS.cpp.
use linux_multiarch_asm.Base.{
  ℕ, zero, suc, ◌+◌, ◌≤◌, ◌<◌, ◌≡◌, ◌≢◌, ◌⊎◌, inl, inr, refl, sym, ap, ◌∙◌, true, false, List, [],
  ◌∷◌, ◌++◌, arith, leb, ◌==◌, length, get_elem?, set, Bool-cases, length-append, length-set,
  get_elem?-set_self, get_elem?-set_ne, get_elem?-eq-get_or,
}
use linux_multiarch_asm.Base.Int.{pos}
use linux_multiarch_asm.Containers.Outcome.{ret, exited}
use linux_multiarch_asm.Containers.Memory.Text.{NoZero, Holds, Holds-lt}
use linux_multiarch_asm.Containers.StringPool.{StringPool, set_char, get_string}
use linux_multiarch_asm.Containers.StringPool.Layout.{offset, Texts, Represents}
use linux_multiarch_asm.Containers.StringPool.Put.{put}
use linux_multiarch_asm.Containers.StringPool.Vacant.{relaid}
use linux_multiarch_asm.Containers.StringPool.Read.{read_string-Represents}

set-append : (t : List ℕ) (k c : ℕ) → k < length t → set (t ++ (0 ∷ [])) k c ≡ set t k c ++ (0 ∷ [])
set-append [] k c h = absurd (omega arith)
set-append (x ∷ t) zero c h = refl
set-append (x ∷ t) (suc k) c h = ap (λ (u : List ℕ). x ∷ u) (set-append t k c (omega arith))

set-NoZero : (t : List ℕ) (k c : ℕ) → c ≢ 0 → NoZero t → NoZero (set t k c)
set-NoZero [] k c ne clean = tt
set-NoZero (x ∷ t) zero c ne clean = (ne, clean.1)
set-NoZero (x ∷ t) (suc k) c ne clean = (clean.0, set-NoZero t k c ne clean.1)

-- A character of a string that the buffer holds is written.
set-Holds :
    (b : List ℕ) (o : ℕ) (t : List ℕ) (k c : ℕ)
    → Holds b o t
    → k < length t
    → Holds (set b (o + k) c) o (set t k c)
set-Holds b o t k c h lt a under =
    let e = set-append t k c lt in
    let inside : o + k < length b = omega (arith, Holds-lt b o t h) in
    elim (Bool-cases (a == k)) [
      | inl at ↦
          let at_k : a ≡ k = ground arith in
          rw at_k (
            get_elem?-set_self b (o + k) c inside
            ∙ sym (get_elem?-set_self (t ++ (0 ∷ [])) k c (omega (arith, length-append t (0 ∷ []))))
            ∙ ap (λ (v : List ℕ). get_elem? v k) e)
      | inr beside ↦
          get_elem?-set_ne b (o + k) (o + a) c (ground arith)
          ∙ h a (omega (arith, length-set t k c))
          ∙ sym (get_elem?-set_ne (t ++ (0 ∷ [])) k a c (ground arith))
          ∙ ap (λ (v : List ℕ). get_elem? v a) e
    ]

-- A string beside the character that is written stays.
kept-Holds :
    (b : List ℕ) (o : ℕ) (t : List ℕ) (k c : ℕ)
    → Holds b o t
    → (k < o) ⊎ (o + (length t + 1) ≤ k)
    → Holds (set b k c) o t
kept-Holds b o t k c h (inl before) a under =
    get_elem?-set_ne b k (o + a) c (omega arith) ∙ h a under
kept-Holds b o t k c h (inr behind) a under =
    get_elem?-set_ne b k (o + a) c (omega arith) ∙ h a under

module _ (p : StringPool) (m : ℕ → List ℕ) (i k c : ℕ) (x : Texts p m) (lt : k < length (m i))
    (ne : c ≢ 0) where
  abbrev text : List ℕ
  text = set (m i) k c

  stands : 0 < offset p i
  stands = elim (Bool-cases (offset p i == 0)) [
    | inl z ↦ absurd (omega (arith, x.layout.empty i (ground arith)))
    | inr nz ↦ ground arith
  ]

  size : (j : ℕ) → length (put m i text j) ≡ length (m j)
  size j = elim (Bool-cases (j == i)) [
    | inl e ↦ let same : j ≡ i = ground arith in rw (e, same) (length-set (m i) k c)
    | inr e ↦ rw e refl
  ]

  written-Texts : Texts (record p { buffer = set p.buffer (offset p i + k) c }) (put m i text)
  written-Texts =
      let n : ℕ → ℕ = λ j. length (m j) in
      let n' : ℕ → ℕ = λ j. length (put m i text j) in
      let sizes : n' ≡ n = λ a j. size j a in
      record {
        layout = rw sizes (
            relaid p (λ j. length (m j)) (set p.buffer (offset p i + k) c) p.old_buffer
              p.garbage_size (length-set p.buffer (offset p i + k) c) x.layout);
        clean = λ j. elim (Bool-cases (j == i)) [
          | inl e ↦ rw e (set-NoZero (m i) k c ne (x.clean i))
          | inr e ↦ rw e (x.clean j)
        ];
        blank = kept-Holds p.buffer 0 [] (offset p i + k) c x.blank (inr (omega (arith, stands)));
        holds = λ j h. elim (Bool-cases (j == i)) [
          | inl e ↦
              let same : j ≡ i = ground arith in
              rw (e, same) (set-Holds p.buffer (offset p i) (m i) k c (x.holds i stands) lt)
          | inr e ↦ rw e (
              kept-Holds p.buffer (offset p j) (m j) (offset p i + k) c (x.holds j h)
                (elim (x.layout.apart j i (ground arith) h stands) [
                  | inl le ↦ inr (omega arith)
                  | inr le ↦ inl (omega arith)
                ]))
        ];
      }

-- Behind the end of the string `operator[]` ends the program.
set_char-out_of_range :
    (p : StringPool) (m : ℕ → List ℕ) (i k c : ℕ)
    → Represents p m
    → i < p.num
    → length (m i) ≤ k
    → set_char (pos i) (pos k) c p ≡ exited
unfolding set_char
set_char-out_of_range p m i k c h under le =
    let found = read_string-Represents p m i h under in
    let e : leb (length (m i)) k ≡ true = ground arith in rw (found, e) refl

-- On a pool that stands for texts, a character that is not zero, written through `operator[]`
-- within a string whose index is in range, changes that character of that text and nothing else.
pub set_char-Represents :
    (p : StringPool) (m : ℕ → List ℕ) (i k c : ℕ)
    → Represents p m
    → i < p.num
    → k < length (m i)
    → c ≢ 0
    → (p' : StringPool) × (set_char (pos i) (pos k) c p ≡ ret p')
      × Represents p' (put m i (set (m i) k c))
unfolding set_char get_string
set_char-Represents p m i k c h under lt ne =
    let x = h.texts in
    let found = read_string-Represents p m i h under in
    let e : leb (length (m i)) k ≡ false = ground arith in
    let inside : leb p.num i ≡ false = ground arith in
    let at = get_elem?-eq-get_or p.offsets i 0 (omega (arith, x.layout.count, x.layout.indices)) in
    (
      record p { buffer = set p.buffer (offset p i + k) c },
      rw (found, e, inside, at) refl,
      record { texts = written-Texts p m i k c x lt ne; no_old = h.no_old },
    )
