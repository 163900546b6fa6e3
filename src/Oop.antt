-- ===== src/Oop.antt =====
-- The object-oriented macros for the GNU assembler: architectures/include/oop.h and
-- architectures/include/oop, with the x86_64 backend in architectures/arch/x86_64/include/oop.
pub mod Layout
pub mod Machine
pub mod Object
pub mod Dispatch
pub mod Delete
mod Tests
