-- ===== src/Oop/Layout/Tests.antt =====
-- The classes of architectures/arch/x86_64/examples/oop/demo, and the theorems on them.
use Prim.Native.String.{String}
use linux_multiarch_asm.Base.{ℕ, ◌≡◌, refl, Option, some, List, [], ◌∷◌}
use linux_multiarch_asm.Oop.Layout.{
  Symbols, member, value, size_of, class_macro, field_macro, extends_macro, end_class_macro, fields,
  ◌>>=◌,
}

abbrev shape_fields : List (String × ℕ)
shape_fields = ("x", 8) ∷ ("y", 8) ∷ []

abbrev circle_fields : List (String × ℕ)
circle_fields = ("radius", 8) ∷ []

program : Unit {0}
unfolding value class_macro field_macro extends_macro end_class_macro fields
program = tt

abbrev shape_symbols : Option Symbols
shape_symbols = class_macro "Shape" [] >>= λ t.
    fields "Shape" shape_fields t >>= λ t'. end_class_macro "Shape" t'

shape_size : (shape_symbols >>= value (size_of "Shape")) ≡ some 24
unfolding program
shape_size = refl

radius_place :
    (shape_symbols >>= λ t0. class_macro "Circle" t0 >>= λ t.
    extends_macro "Shape" "Circle" t >>= λ t'.
    field_macro "Circle" "radius" 8 t' >>= value (member "Circle" "radius"))
    ≡ some 24
unfolding program
radius_place = refl

abbrev shape_table : Symbols
shape_table = (size_of "Shape", 24) ∷ (member "Shape" "y", 16) ∷ (member "Shape" "x", 8) ∷ []
