-- ===== src/Oop/Machine/Laws.antt =====
-- How a list of instructions runs, and which registers a write leaves alone.
use linux_multiarch_asm.Base.{
  ℕ, ◌+◌, suc, ◌≡◌, ◌≢◌, refl, true, false, none, some, List, [], ◌∷◌, ◌==◌, ==_iff, Bool-cases,
  inl, inr,
}
use linux_multiarch_asm.Oop.Machine.{
  Reg, rax, rcx, rsp, r11, reg_number, State, running, fault, word, set_reg, set_mem, write_reg,
  logged, pushed, Instr, mov_imm, mov, load, store, lea, push, pop, call_reg, call_plt,
  skip_if_zero, step, skipped, exec,
}

-- Two registers have different numbers.
abbrev Apart : Reg → Reg → Type 0
Apart r r' = (reg_number r == reg_number r') ≡ false

pub reg_self : (r : Reg) → (reg_number r == reg_number r) ≡ true
reg_self r = (==_iff (reg_number r) (reg_number r)).1 refl

pub rax-Apart : (r : Reg) → r ≢ rax → Apart rax r
rax-Apart rax h = absurd (h refl)
rax-Apart _ h = refl

pub rcx-Apart : (r : Reg) → r ≢ rcx → Apart rcx r
rcx-Apart rcx h = absurd (h refl)
rcx-Apart _ h = refl

pub rsp-Apart : (r : Reg) → r ≢ rsp → Apart rsp r
rsp-Apart rsp h = absurd (h refl)
rsp-Apart _ h = refl

pub r11-Apart : (r : Reg) → r ≢ r11 → Apart r11 r
r11-Apart r11 h = absurd (h refl)
r11-Apart _ h = refl

module _ (invoke : ℕ → State → State) where
  pub exec-nil : (s : State) → exec invoke 0 [] s ≡ running s
  unfolding exec
  exec-nil s = refl

  pub exec-skip :
      (k : ℕ) (i : Instr) (is : List Instr) (s : State)
      → exec invoke (suc k) (i ∷ is) s ≡ exec invoke k is s
  unfolding exec
  exec-skip k i is s = refl

  pub exec-mov_imm :
      (v : ℕ) (dst : Reg) (is : List Instr) (s : State)
      → exec invoke 0 (mov_imm v dst ∷ is) s ≡ exec invoke 0 is (write_reg s dst v)
  unfolding exec step skipped
  exec-mov_imm v dst is s = refl

  pub exec-mov :
      (src dst : Reg) (is : List Instr) (s : State)
      → exec invoke 0 (mov src dst ∷ is) s ≡ exec invoke 0 is (write_reg s dst (s.reg src))
  unfolding exec step skipped
  exec-mov src dst is s = refl

  pub exec-lea :
      (v : ℕ) (dst : Reg) (is : List Instr) (s : State)
      → exec invoke 0 (lea v dst ∷ is) s ≡ exec invoke 0 is (write_reg s dst v)
  unfolding exec step skipped
  exec-lea v dst is s = refl

  pub exec-load :
      (disp : ℕ) (base dst : Reg) (is : List Instr) (s : State) (v : ℕ)
      → s.mem (word (disp + s.reg base)) ≡ some v
      → exec invoke 0 (load disp base dst ∷ is) s ≡ exec invoke 0 is (write_reg s dst v)
  unfolding exec step skipped
  exec-load disp base dst is s v e = rw (e, exec)

  pub exec-store :
      (src base : Reg) (is : List Instr) (s : State) (v : ℕ)
      → s.mem (s.reg base) ≡ some v
      → exec invoke 0 (store src base ∷ is) s
        ≡ exec invoke 0 is (record s { mem = set_mem s.mem (s.reg base) (s.reg src) })
  unfolding exec step skipped
  exec-store src base is s v e = rw (e, exec)

  pub exec-store_fault :
      (src base : Reg) (is : List Instr) (s : State)
      → s.mem (s.reg base) ≡ none
      → exec invoke 0 (store src base ∷ is) s ≡ fault
  unfolding exec step skipped
  exec-store_fault src base is s e = rw (e, exec)

  pub exec-push :
      (src : Reg) (is : List Instr) (s : State) (v : ℕ)
      → s.mem (pushed s) ≡ some v
      → exec invoke 0 (push src ∷ is) s
        ≡ exec invoke 0 is (record s {
          reg = set_reg s.reg rsp (pushed s);
          mem = set_mem s.mem (pushed s) (s.reg src);
        })
  unfolding exec step skipped
  exec-push src is s v e = rw (e, exec)

  pub exec-pop :
      (dst : Reg) (is : List Instr) (s : State) (v : ℕ)
      → s.mem (s.reg rsp) ≡ some v
      → exec invoke 0 (pop dst ∷ is) s
        ≡ exec invoke 0 is (write_reg (write_reg s rsp (word (s.reg rsp + 8))) dst v)
  unfolding exec step skipped
  exec-pop dst is s v e = rw (e, exec)

  pub exec-call_reg :
      (r : Reg) (is : List Instr) (s : State)
      → exec invoke 0 (call_reg r ∷ is) s ≡ exec invoke 0 is (invoke (s.reg r) (logged s (s.reg r)))
  unfolding exec step skipped
  exec-call_reg r is s = refl

  pub exec-call_plt :
      (f : ℕ) (is : List Instr) (s : State)
      → exec invoke 0 (call_plt f ∷ is) s ≡ exec invoke 0 is (invoke f (logged s f))
  unfolding exec step skipped
  exec-call_plt f is s = refl

  pub exec-jump :
      (r : Reg) (n : ℕ) (is : List Instr) (s : State)
      → s.reg r ≡ 0
      → exec invoke 0 (skip_if_zero r n ∷ is) s ≡ exec invoke n is s
  unfolding exec step skipped
  exec-jump r n is s e = rw ((==_iff (s.reg r) 0).1 e)

  pub exec-no_jump :
      (r : Reg) (n : ℕ) (is : List Instr) (s : State)
      → s.reg r ≢ 0
      → exec invoke 0 (skip_if_zero r n ∷ is) s ≡ exec invoke 0 is s
  unfolding exec step skipped
  exec-no_jump r n is s h = elim (Bool-cases (s.reg r == 0)) [
    | inl e ↦ absurd (h ((==_iff (s.reg r) 0).0 e))
    | inr e ↦ rw e
  ]
