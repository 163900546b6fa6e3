-- ===== src/Oop/Layout/Fields.antt =====
-- The fields of a class lie one behind the other, behind the virtual pointer and, in a class that
-- extends another, behind the fields of the parent.
use Prim.Native.String.{String}
use text.Mathlib.Text.{◌==◌}
use text.Mathlib.TextEquality.{eq_iff}
use text.Mathlib.TextPositions.{eq_refl}
use linux_multiarch_asm.Base.{
  ℕ, ◌+◌, ◌-◌, ◌%◌, ◌≤◌, ◌<◌, ◌≡◌, ◌≢◌, refl, sym, ap, subst, ◌∙◌, false, Option, some, List, [],
  ◌∷◌, arith, Bool-cases, inl, inr, ◌⊎◌,
}
use linux_multiarch_asm.Oop.Layout.{
  member, current_size, padding, Symbols, value, set_symbol, ◌>>=◌, size_of, class_macro,
  field_macro, extends_macro, end_class_macro, fields,
}

-- From `at` on the fields have places that do not overlap, in order, up to `end`.
abbrev pub Placed : Symbols → String → ℕ → List (String × ℕ) → ℕ → Type 0
Placed t class at [] end = at ≤ end
Placed t class at ((field, size) ∷ fs) end =
    (offset : ℕ) × (value (member class field) t ≡ some offset)
    × (at ≤ offset)
    × Placed t class (offset + size) fs end

-- No field has the name, and none is called like the symbol of the class's size.
abbrev Unused : String → List (String × ℕ) → Type 0
Unused name [] = Unit
Unused name ((field, size) ∷ fs) = (field ≢ name) × Unused name fs

abbrev pub Distinct : List (String × ℕ) → Type 0
Distinct [] = Unit
Distinct ((field, size) ∷ fs) = (field ≢ "size") × Unused field fs × Distinct fs

ne→eq_false : (a b : String) → a ≢ b → (a == b) ≡ false
ne→eq_false a b h = elim (Bool-cases (a == b)) [ inl e ↦ absurd (h ((eq_iff a b).0 e)) | inr e ↦ e ]

value-set_self :
    (c f : String) (v : ℕ) (t : Symbols) → value (member c f) (set_symbol (member c f) v t) ≡ some v
unfolding value
value-set_self c f v t = rw (eq_refl c, eq_refl f)

value-set_name :
    (c c' f f' : String) (v : ℕ) (t : Symbols)
    → f ≢ f'
    → value (member c' f') (set_symbol (member c f) v t) ≡ value (member c' f') t
unfolding value
value-set_name c c' f f' v t h = ground (arith, ne→eq_false f f' h)

-- One field is placed at the size so far.
field_macro_lem :
    (class field : String) (size v : ℕ) (t : Symbols)
    → field ≢ "size"
    → value (size_of class) t ≡ some v
    → field_macro class field size t
      ≡ some (set_symbol (size_of class) (v + size) (set_symbol (member class field) v t))
unfolding field_macro
field_macro_lem class field size v t h e = rw (e, value-set_name class class field "size" v t h, e)

total : List (String × ℕ) → ℕ
total [] = 0
total ((field, size) ∷ fs) = size + total fs

-- The table after a run of fields that starts at size `v`.
after : String → ℕ → List (String × ℕ) → Symbols → Symbols
after class v [] t = t
after class v ((field, size) ∷ fs) t =
    after class (v + size) fs
      (set_symbol (size_of class) (v + size) (set_symbol (member class field) v t))

fields-eq-after :
    (class : String) (v : ℕ) (fs : List (String × ℕ)) (t : Symbols)
    → Distinct fs
    → value (size_of class) t ≡ some v
    → fields class fs t ≡ some (after class v fs t)
unfolding fields after
fields-eq-after class v [] t d e = refl
fields-eq-after class v ((field, size) ∷ fs) t d e =
    rw (field_macro_lem class field size v t d.0 e)
      (fields-eq-after class (v + size) fs _ d.2 (value-set_self class "size" (v + size) _))

value-after_size :
    (class : String) (v : ℕ) (fs : List (String × ℕ)) (t : Symbols)
    → value (size_of class) t ≡ some v
    → value (size_of class) (after class v fs t) ≡ some (v + total fs)
unfolding after total
value-after_size class v [] t e = e ∙ ap some (omega arith)
value-after_size class v ((field, size) ∷ fs) t e =
    value-after_size class (v + size) fs _ (value-set_self class "size" (v + size) _)
    ∙ ap some (omega arith)

value-after_name :
    (class name : String) (v : ℕ) (fs : List (String × ℕ)) (t : Symbols)
    → name ≢ "size"
    → Unused name fs
    → value (member class name) (after class v fs t) ≡ value (member class name) t
unfolding after
value-after_name class name v [] t n u = refl
value-after_name class name v ((field, size) ∷ fs) t n u =
    value-after_name class name (v + size) fs _ n u.1
    ∙ value-set_name class class "size" name (v + size) _ (λ e. n (sym e))
    ∙ value-set_name class class field name v t u.0

after-Placed :
    (class : String) (v : ℕ) (fs : List (String × ℕ)) (t : Symbols)
    → Distinct fs
    → Placed (after class v fs t) class v fs (v + total fs)
unfolding after total
after-Placed class v [] t d = omega arith
after-Placed class v ((field, size) ∷ fs) t d = (
  v,
  value-after_name class field (v + size) fs _ d.0 d.1
      ∙ value-set_name class class "size" field (v + size) _ (λ e. d.0 (sym e))
      ∙ value-set_self class field v t,
  omega arith,
  let end : v + size + total fs ≡ v + (size + total fs) = omega arith in
      subst
        (λ n.
          Placed
            (after class (v + size) fs
              (set_symbol (size_of class) (v + size) (set_symbol (member class field) v t)))
            class (v + size) fs n)
        end (after-Placed class (v + size) fs _ d.2),
)

Placed-mono :
    (t t' : Symbols) (class : String) (at : ℕ) (fs : List (String × ℕ)) (end end' : ℕ)
    → ((field : String)
        → field ≢ "size"
        → value (member class field) t' ≡ value (member class field) t)
    → Distinct fs
    → end ≤ end'
    → Placed t class at fs end
    → Placed t' class at fs end'
Placed-mono t t' class at [] end end' same d h p = omega arith
Placed-mono t t' class at ((field, size) ∷ fs) end end' same d h p =
    (p.0, same field d.0 ∙ p.1, p.2, Placed-mono t t' class (p.0 + size) fs end end' same d.2 h p.3)

-- `ENDCLASS` rounds the size up to a multiple of the pointer size.
abbrev rounded : ℕ → ℕ
rounded v = v + (8 - v % 8) % 8

abbrev ended : String → ℕ → Symbols → Symbols
ended class v t =
    set_symbol (size_of class) (rounded v)
      (set_symbol padding ((8 - v % 8) % 8) (set_symbol current_size v t))

end_class_macro_lem :
    (class : String) (v : ℕ) (t : Symbols)
    → value (size_of class) t ≡ some v
    → end_class_macro class t ≡ some (ended class v t)
unfolding end_class_macro value
end_class_macro_lem class v t e = rw e

value-ended :
    (class c name : String) (v : ℕ) (t : Symbols)
    → ((class ≢ c) ⊎ (name ≢ "size"))
    → value (member c name) (ended class v t) ≡ value (member c name) t
unfolding value
value-ended class c name v t (inl n) = rw (ne→eq_false class c n)
value-ended class c name v t (inr n) = ground (arith, ne→eq_false "size" name (λ e. n (sym e)))

-- `CLASS`, its `FIELD`s and `ENDCLASS`.
define_class : String → List (String × ℕ) → Symbols → Option Symbols
define_class class fs t =
    class_macro class t >>= λ t1. fields class fs t1 >>= λ t2. end_class_macro class t2

-- `CLASS`, `EXTENDS`, the new `FIELD`s and `ENDCLASS`, as in the class `Circle` of the demo.
pub define_child : String → String → List (String × ℕ) → Symbols → Option Symbols
define_child parent child fs t = class_macro child t >>= λ t0.
    extends_macro parent child t0 >>= λ t1. fields child fs t1 >>= λ t2. end_class_macro child t2

-- A class with distinct fields assembles. Its fields have their places in order, without overlap,
-- behind the virtual pointer and inside the size of the class, which is a multiple of the pointer
-- size and at most 7 bytes larger than needed.
define_class-Placed :
    (class : String) (fs : List (String × ℕ)) (t : Symbols)
    → Distinct fs
    → (t' : Symbols) × (size : ℕ) × (define_class class fs t ≡ some t')
      × (value (size_of class) t' ≡ some size)
      × Placed t' class 8 fs size
      × (size % 8 ≡ 0)
      × (size < 16 + total fs)
unfolding define_class class_macro
define_class-Placed class fs t d =
    let start = set_symbol (size_of class) 8 t in
    let e = value-set_self class "size" 8 t in
    let last = after class 8 fs start in
    let size = value-after_size class 8 fs start e in
    (
      ended class (8 + total fs) last,
      rounded (8 + total fs),
      rw (fields-eq-after class 8 fs start d e)
          (end_class_macro_lem class (8 + total fs) last size),
      value-set_self class "size" (rounded (8 + total fs)) _,
      Placed-mono last (ended class (8 + total fs) last) class 8 fs (8 + total fs)
          (rounded (8 + total fs))
          (λ field n. value-ended class class field (8 + total fs) last (inr n)) d (omega arith)
          (after-Placed class 8 fs start d),
      omega arith,
      omega arith,
    )
