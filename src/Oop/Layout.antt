-- ===== src/Oop/Layout.antt =====
-- architectures/include/oop/class.h: the macros that lay out a class by assembler symbols. `.set` on
-- a symbol that exists gives it a new value; an expression with an undefined symbol is an error.
pub mod Fields
mod Tests
use Prim.Native.String.{String}
use text.Mathlib.Text.{◌==◌}
use linux_multiarch_asm.Base.{
  ℕ, ◌+◌, ◌-◌, ◌%◌, Bool, true, false, ◌&&◌, Option, none, some, List, [], ◌∷◌, if◌then◌else◌,
}

-- `PTR_SIZE` (arch_defs.h of x86_64)
abbrev pub ptr_size : ℕ
ptr_size = 8

-- `\class\().\name`, and the symbols that `ENDCLASS` uses for itself.
pub data Symbol : Type 0 where
  member : String → String → Symbol
  current_size padding : Symbol

abbrev same_symbol : Symbol → Symbol → Bool
same_symbol (member c f) (member c' f') = (c == c') && (f == f')
same_symbol (member c f) current_size = false
same_symbol (member c f) padding = false
same_symbol current_size (member c f) = false
same_symbol current_size current_size = true
same_symbol current_size padding = false
same_symbol padding (member c f) = false
same_symbol padding current_size = false
same_symbol padding padding = true

abbrev pub Symbols : Type 0
Symbols = List (Symbol × ℕ)

unfoldable pub value : Symbol → Symbols → Option ℕ
value x [] = none
value x ((y, v) ∷ t) = if same_symbol y x then some v else value x t

-- `.set symbol, value`
abbrev pub set_symbol : Symbol → ℕ → Symbols → Symbols
set_symbol x v t = (x, v) ∷ t

infixl 5 ◌>>=◌
abbrev pub ◌>>=◌ {ℓ κ} : {A : Type ℓ} {B : Type κ} → Option A → (A → Option B) → Option B
none >>= f = none
some a >>= f = f a

abbrev pub size_of : String → Symbol
size_of class = member class "size"

-- `CLASS name`
unfoldable pub class_macro : String → Symbols → Option Symbols
class_macro name t = some (set_symbol (size_of name) ptr_size t)

-- `FIELD class, field, size`
unfoldable pub field_macro : String → String → ℕ → Symbols → Option Symbols
field_macro class field size t = do
  offset ← value (size_of class) t
  let t' = set_symbol (member class field) offset t
  old ← value (size_of class) t'
  some (set_symbol (size_of class) (old + size) t')

-- `EXTENDS parent, child`
unfoldable pub extends_macro : String → String → Symbols → Option Symbols
extends_macro parent child t = do
  size ← value (size_of parent) t
  some (set_symbol (size_of child) size t)

-- `ENDCLASS name`
unfoldable pub end_class_macro : String → Symbols → Option Symbols
end_class_macro name t = do
  size ← value (size_of name) t
  let t' = set_symbol current_size size t
  current ← value current_size t'
  let t'' = set_symbol padding ((ptr_size - current % ptr_size) % ptr_size) t'
  current' ← value current_size t''
  pad ← value padding t''
  some (set_symbol (size_of name) (current' + pad) t'')

-- A run of `FIELD` lines: names with their sizes.
unfoldable pub fields : String → List (String × ℕ) → Symbols → Option Symbols
fields class [] t = some t
fields class ((field, size) ∷ fs) t = field_macro class field size t >>= λ t'. fields class fs t'
