-- ===== src/Oop/Machine.antt =====
-- The part of an x86_64 machine that the macros of architectures/arch/x86_64/include/oop use:
-- registers, memory in 8-byte words, the stack, and calls. It is the meaning of the instructions that
-- the assembler makes of the macros, so it has no counterpart in the repository.
pub mod Laws
use linux_multiarch_asm.Base.{
  ℕ, zero, suc, ◌+◌, ◌-◌, ◌%◌, ◌^◌, Bool, true, false, Option, none, some, List, [], ◌∷◌, ◌++◌,
  ◌==◌, if◌then◌else◌,
}

pub data Reg : Type 0 where
  rax rbx rcx rdx rsi rdi rbp rsp r8 r9 r10 r11 r12 r13 r14 r15 : Reg

abbrev pub reg_number : Reg → ℕ
reg_number rax = 0
reg_number rcx = 1
reg_number rdx = 2
reg_number rbx = 3
reg_number rsp = 4
reg_number rbp = 5
reg_number rsi = 6
reg_number rdi = 7
reg_number r8 = 8
reg_number r9 = 9
reg_number r10 = 10
reg_number r11 = 11
reg_number r12 = 12
reg_number r13 = 13
reg_number r14 = 14
reg_number r15 = 15

-- A call as its callee sees it: the address called, the first argument, and the stack pointer.
pub record Event : Type 0 where
  pub target : ℕ
  pub this_arg : ℕ
  pub stack : ℕ

pub record State : Type 0 where
  pub reg : Reg → ℕ
  pub mem : ℕ → Option ℕ
  pub log : List Event

-- An access to an address that is not mapped ends the run.
pub data Run : Type 0 where
  running : State → Run
  fault : Run

pub data Instr : Type 0 where
  mov_imm : ℕ → Reg → Instr
  mov : Reg → Reg → Instr
  load : ℕ → Reg → Reg → Instr
  store : Reg → Reg → Instr
  lea : ℕ → Reg → Instr
  push pop : Reg → Instr
  call_reg : Reg → Instr
  call_plt : ℕ → Instr
  -- a comparison of the register with zero, and a forward jump over so many instructions if equal
  skip_if_zero : Reg → ℕ → Instr

abbrev pub word : ℕ → ℕ
word n = n % 2 ^ 64

abbrev pub set_reg : (Reg → ℕ) → Reg → ℕ → Reg → ℕ
set_reg regs r v r' = if reg_number r == reg_number r' then v else regs r'

abbrev pub set_mem : (ℕ → Option ℕ) → ℕ → ℕ → ℕ → Option ℕ
set_mem mem a v a' = if a == a' then some v else mem a'

abbrev pub write_reg : State → Reg → ℕ → State
write_reg s r v = record s { reg = set_reg s.reg r v }

-- `mov disp(base), dst`
abbrev load_at : State → ℕ → Reg → Run
load_at s a dst = elim (s.mem a) [ none ↦ fault | some v ↦ running (write_reg s dst v) ]

-- `mov src, (base)`
abbrev store_at : State → ℕ → ℕ → Run
store_at s a v = elim (s.mem a) [
  | none ↦ fault
  | some _ ↦ running (record s { mem = set_mem s.mem a v })
]

-- where `push` writes
abbrev pub pushed : State → ℕ
pushed s = word (s.reg rsp + 2 ^ 64 - 8)

-- A call is recorded as its callee finds the machine.
abbrev pub logged : State → ℕ → State
logged s f = record s {
  log = s.log ++ (record { target = f; this_arg = s.reg rdi; stack = s.reg rsp } ∷ []);
}

-- The callees are not part of the macros: `invoke f` is what the function at address `f` does to
-- the machine between the call and the return.
module _ (invoke : ℕ → State → State) where
  abbrev call_at : State → ℕ → Run
  call_at s f = running (invoke f (logged s f))

  unfoldable pub step : Instr → State → Run
  step (mov_imm v dst) s = running (write_reg s dst v)
  step (mov src dst) s = running (write_reg s dst (s.reg src))
  step (load disp base dst) s = load_at s (word (disp + s.reg base)) dst
  step (store src base) s = store_at s (s.reg base) (s.reg src)
  step (lea address dst) s = running (write_reg s dst address)
  step (push src) s = store_at (write_reg s rsp (pushed s)) (pushed s) (s.reg src)
  step (pop dst) s = elim (s.mem (s.reg rsp)) [
    | none ↦ fault
    | some v ↦ running (write_reg (write_reg s rsp (word (s.reg rsp + 8))) dst v)
  ]
  step (call_reg r) s = call_at s (s.reg r)
  step (call_plt f) s = call_at s f
  step (skip_if_zero r n) s = running s

  -- how many instructions a jump skips
  unfoldable pub skipped : Instr → State → ℕ
  skipped (skip_if_zero r n) s = if s.reg r == 0 then n else 0
  skipped _ s = 0

  -- The instructions in order; the number is how many of them are still to be skipped.
  unfoldable pub exec : ℕ → List Instr → State → Run
  exec k [] s = running s
  exec (suc k) (i ∷ is) s = exec k is s
  exec zero (i ∷ is) s =
      let rest = λ (s' : State). exec (skipped i s) is s' in
      elim (step i s) [ fault ↦ fault | running s' ↦ rest s' ]
