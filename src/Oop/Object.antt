-- ===== src/Oop/Object.antt =====
-- The macros that make, use and destroy an object: `NEW`, `VCALL`, `DELETE` and `SET_TYPE`, with
-- their x86_64 implementations. A macro is the list of instructions that it expands to.
use linux_multiarch_asm.Base.{ℕ, ◌*◌, List, [], ◌∷◌}
use linux_multiarch_asm.Oop.Machine.{
  Reg, rax, rcx, rdi, r11, Instr, mov_imm, mov, load, store, lea, push, pop, call_reg, call_plt,
  skip_if_zero,
}

-- `PTR_SIZE` (arch_defs.h)
abbrev pub ptr_size : ℕ
ptr_size = 8

-- What the macros name of a class: `\class.size`, and the address of `\class_vtable`.
pub record ClassSymbols : Type 0 where
  pub size : ℕ
  pub vtable : ℕ

-- The addresses of the library functions that the macros call.
pub record Library : Type 0 where
  pub malloc : ℕ
  pub free : ℕ

-- `NEW_IMPL class, obj`
unfoldable pub new_impl : Library → ClassSymbols → Reg → List Instr
new_impl lib class obj =
    mov_imm class.size rdi
    ∷ call_plt lib.malloc
    ∷ mov rax obj
    ∷ lea class.vtable rcx
    ∷ store rcx obj
    ∷ []

-- `VCALL_IMPL obj, index`
unfoldable pub vcall_impl : Reg → ℕ → List Instr
vcall_impl obj index = load 0 obj rcx ∷ load (index * 8) rcx rax ∷ mov obj rdi ∷ call_reg rax ∷ []

-- `DELETE_IMPL obj`. The jumps to the labels `2:` and `1:` skip the instructions before them.
unfoldable pub delete_impl : Library → Reg → List Instr
delete_impl lib obj =
    skip_if_zero obj 8
    ∷ push obj
    ∷ load 0 obj r11
    ∷ load 0 r11 rax
    ∷ skip_if_zero rax 2
    ∷ mov obj rdi
    ∷ call_reg rax
    ∷ pop rdi
    ∷ call_plt lib.free
    ∷ []

-- `SET_TYPE_IMPL obj, class`, at the address that `\class_typeinfo` is meant to name.
unfoldable pub set_type_impl : Reg → ℕ → List Instr
set_type_impl obj typeinfo = lea typeinfo r11 ∷ store r11 obj ∷ []

-- The frontends `NEW`, `VCALL`, `DELETE` and `SET_TYPE` pass their arguments on.
unfoldable pub new : Library → ClassSymbols → Reg → List Instr
new lib class obj = new_impl lib class obj

unfoldable pub vcall : Reg → ℕ → List Instr
vcall obj index = vcall_impl obj index

unfoldable pub delete : Library → Reg → List Instr
delete lib obj = delete_impl lib obj

unfoldable pub set_type : Reg → ℕ → List Instr
set_type obj typeinfo = set_type_impl obj typeinfo
