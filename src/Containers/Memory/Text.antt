-- ===== src/Containers/Memory/Text.antt =====
-- Zero-terminated strings in a buffer.
use linux_multiarch_asm.Base.{
  ℕ, zero, suc, ◌+◌, ◌-◌, ◌≤◌, ◌<◌, ◌≡◌, ◌≢◌, ◌⊎◌, inl, inr, refl, sym, ap, ◌∙◌, false, Option,
  none, some, List, [], ◌∷◌, ◌++◌, arith, ltb, ◌==◌, if◌then◌else◌, length, get_elem?, take, drop,
  Bool-cases, length-append, length-take, length-drop, Option-cases, get_elem?_ext,
  get_elem?-append_left, get_elem?-append_right, get_elem?-take, get_elem?-drop, drop-eq-cons,
  get_elem?-none, get_elem?-append_length,
}
use linux_multiarch_asm.Containers.Memory.{copy_bytes}

-- The string that a pointer to these characters stands for, up to the first zero; none if there is no
-- zero.
unfoldable pub c_string : List ℕ → Option (List ℕ)
c_string [] = none
c_string (c ∷ b) =
    let rest = c_string b in
    if c == 0 then some [] else elim rest [ none ↦ none | some t ↦ some (c ∷ t) ]

abbrev pub NoZero : List ℕ → Type 0
NoZero [] = Unit
NoZero (c ∷ t) = (c ≢ 0) × NoZero t

-- At `o` the buffer holds the text and a zero behind it.
abbrev pub Holds : List ℕ → ℕ → List ℕ → Type 0
Holds b o t = (k : ℕ) → k < suc (length t) → get_elem? b (o + k) ≡ get_elem? (t ++ (0 ∷ [])) k

module _ (to : ℕ) (v b : List ℕ) (fits : to + length v ≤ length b) where
  before : length (take to b) ≡ to
  before = omega (arith, length-take to b)

  pub length-copy_bytes : length (copy_bytes to v b) ≡ length b
  length-copy_bytes =
      length-append (take to b) (v ++ drop (to + length v) b)
      ∙ omega
          (arith, before, length-append v (drop (to + length v) b), length-drop (to + length v) b)

  pub copy_bytes-below : (k : ℕ) → k < to → get_elem? (copy_bytes to v b) k ≡ get_elem? b k
  copy_bytes-below k h =
      get_elem?-append_left (take to b) (v ++ drop (to + length v) b) k (omega (arith, before))
      ∙ get_elem?-take to b k h

  pub copy_bytes-inside :
      (k : ℕ) → k < length v → get_elem? (copy_bytes to v b) (to + k) ≡ get_elem? v k
  copy_bytes-inside k h =
      get_elem?-append_right (take to b) (v ++ drop (to + length v) b) (to + k) k
        (omega (arith, before))
      ∙ get_elem?-append_left v (drop (to + length v) b) k h

  pub copy_bytes-above :
      (k : ℕ) → to + length v ≤ k → get_elem? (copy_bytes to v b) k ≡ get_elem? b k
  copy_bytes-above k h =
      get_elem?-append_right (take to b) (v ++ drop (to + length v) b) k (k - to)
        (omega (arith, before))
      ∙ get_elem?-append_right v (drop (to + length v) b) (k - to) (k - to - length v) (omega arith)
      ∙ get_elem?-drop (to + length v) b (k - to - length v) k (omega arith)

  -- A copy beside a string leaves it alone.
  pub Holds-copy_bytes :
      (o : ℕ) (t : List ℕ)
      → Holds b o t
      → (o + (length t + 1) ≤ to) ⊎ (to + length v ≤ o)
      → Holds (copy_bytes to v b) o t
  Holds-copy_bytes o t h (inl before_it) k lt = copy_bytes-below (o + k) (omega arith) ∙ h k lt
  Holds-copy_bytes o t h (inr behind_it) k lt = copy_bytes-above (o + k) (omega arith) ∙ h k lt

-- Two copies, the second directly behind the first, are one.
pub copy_bytes-behind :
    (to : ℕ) (v w b : List ℕ)
    → to + length v + length w ≤ length b
    → copy_bytes (to + length v) w (copy_bytes to v b) ≡ copy_bytes to (v ++ w) b
copy_bytes-behind to v w b fits =
    let first : to + length v ≤ length b = omega arith in
    let size = length-copy_bytes to v b first in
    let second : to + length v + length w ≤ length (copy_bytes to v b) = omega (arith, size) in
    let long = length-append v w in
    let both : to + length (v ++ w) ≤ length b = omega (arith, long) in
    get_elem?_ext _ _ (λ k. elim (Bool-cases (ltb k (to + length v))) [
      | inl lt ↦
          let below : k < to + length v = ground arith in
          copy_bytes-below (to + length v) w (copy_bytes to v b) second k below
          ∙ elim (Bool-cases (ltb k to)) [
            | inl before_all ↦
                copy_bytes-below to v b first k (ground arith)
                ∙ sym (copy_bytes-below to (v ++ w) b both k (ground arith))
            | inr behind ↦
                let at : k ≡ to + (k - to) = ground arith in
                ap (λ (n : ℕ). get_elem? (copy_bytes to v b) n) at
                ∙ copy_bytes-inside to v b first (k - to) (ground arith)
                ∙ sym (get_elem?-append_left v w (k - to) (ground arith))
                ∙ sym (copy_bytes-inside to (v ++ w) b both (k - to) (ground (arith, long)))
                ∙ ap (λ (n : ℕ). get_elem? (copy_bytes to (v ++ w) b) n) (sym at)
          ]
      | inr ge ↦ elim (Bool-cases (ltb k (to + length v + length w))) [
        | inl lt ↦
            let at : k ≡ to + length v + (k - (to + length v)) = ground arith in
            let at' : k ≡ to + (k - to) = ground arith in
            ap (λ (n : ℕ). get_elem? (copy_bytes (to + length v) w (copy_bytes to v b)) n) at
            ∙ copy_bytes-inside (to + length v) w (copy_bytes to v b) second (k - (to + length v))
                (ground arith)
            ∙ sym (get_elem?-append_right v w (k - to) (k - (to + length v)) (ground arith))
            ∙ sym (copy_bytes-inside to (v ++ w) b both (k - to) (ground (arith, long)))
            ∙ ap (λ (n : ℕ). get_elem? (copy_bytes to (v ++ w) b) n) (sym at')
        | inr over ↦
            copy_bytes-above (to + length v) w (copy_bytes to v b) second k (ground arith)
            ∙ copy_bytes-above to v b first k (ground arith)
            ∙ sym (copy_bytes-above to (v ++ w) b both k (ground (arith, long)))
      ]
    ])

-- A string is where it was copied to.
pub Holds-of_copy :
    (to : ℕ) (t b : List ℕ)
    → to + (length t + 1) ≤ length b
    → Holds (copy_bytes to (t ++ (0 ∷ [])) b) to t
Holds-of_copy to t b fits k lt =
    copy_bytes-inside to (t ++ (0 ∷ [])) b (omega (arith, length-append t (0 ∷ []))) k
      (omega (arith, length-append t (0 ∷ [])))

-- The string at a place is the one that stands there.
pub c_string-Holds :
    (b : List ℕ) (o : ℕ) (t : List ℕ) → NoZero t → Holds b o t → c_string (drop o b) ≡ some t
unfolding c_string
c_string-Holds b o [] clean h =
    let at_end : get_elem? b o ≡ some 0 =
      let same : o ≡ o + 0 = omega arith in
      ap (λ (i : ℕ). get_elem? b i) same ∙ h 0 (omega arith) in
    rw (drop-eq-cons b o 0 at_end) refl
c_string-Holds b o (c ∷ t) clean h =
    let at_first : get_elem? b o ≡ some c =
      let same : o ≡ o + 0 = omega arith in
      ap (λ (i : ℕ). get_elem? b i) same ∙ h 0 (omega arith) in
    let not_end : (c == 0) ≡ false = ground (arith, clean.0) in
    let rest : c_string (drop (suc o) b) ≡ some t = c_string-Holds b (suc o) t clean.1 (λ k lt.
      let same : suc o + k ≡ o + suc k = omega arith in
      ap (λ (i : ℕ). get_elem? b i) same ∙ h (suc k) (omega arith)) in
    rw (drop-eq-cons b o c at_first, not_end, rest) refl

-- The characters of a string with its zero.
pub take-Holds :
    (b : List ℕ) (o : ℕ) (t : List ℕ) → Holds b o t → take (length t + 1) (drop o b) ≡ t ++ (0 ∷ [])
take-Holds b o t h = get_elem?_ext _ _ (λ k. elim (Bool-cases (ltb k (length t + 1))) [
  | inl lt ↦
      get_elem?-take (length t + 1) (drop o b) k (ground arith)
      ∙ get_elem?-drop o b k (o + k) refl
      ∙ h k (ground arith)
  | inr ge ↦
      get_elem?-none (take (length t + 1) (drop o b)) k
        (ground (arith, length-take (length t + 1) (drop o b)))
      ∙ sym (get_elem?-none (t ++ (0 ∷ [])) k (ground (arith, length-append t (0 ∷ []))))
])

pub Holds-lt : (b : List ℕ) (o : ℕ) (t : List ℕ) → Holds b o t → o + length t < length b
Holds-lt b o t h =
    let at_end = h (length t) (omega arith) ∙ get_elem?-append_length t [] 0 in
    elim (Bool-cases (ltb (o + length t) (length b))) [
      | inl lt ↦ ground arith
      | inr ge ↦ cc (at_end, get_elem?-none b (o + length t) (ground arith))
    ]

-- A string that is read has no zero, and stands there with one behind it.
pub c_string-NoZero : (b t : List ℕ) → c_string b ≡ some t → NoZero t × Holds b 0 t
unfolding c_string
c_string-NoZero [] t e = cc e
c_string-NoZero (c ∷ b) t e = elim (Bool-cases (c == 0)) [
  | inl z ↦
      let same : t ≡ [] = ground arith in
      let at_zero : c ≡ 0 = ground arith in
      rw same (tt, λ k lt. let first : k ≡ 0 = omega arith in rw (first, at_zero) refl)
  | inr nz ↦ elim (Option-cases (c_string b)) [
    | inl none_left ↦ absurd (ground arith)
    | inr (u, found) ↦
        let same : t ≡ c ∷ u = ground arith in
        let (clean, held) = c_string-NoZero b u found in
        rw same ((ground arith, clean), shifted u held)
  ]
]
  where
    shifted : (u : List ℕ) → Holds b 0 u → Holds (c ∷ b) 0 (c ∷ u)
    shifted u h zero lt = refl
    shifted u h (suc k) lt =
        let place : 0 + suc k ≡ suc (0 + k) = omega arith in
        ap (λ (i : ℕ). get_elem? (c ∷ b) i) place ∙ h k (omega arith)
