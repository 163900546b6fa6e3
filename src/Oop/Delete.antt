-- ===== src/Oop/Delete.antt =====
-- `DELETE`: the destructor, then `free`.
use linux_multiarch_asm.Base.{
  ℕ, ◌+◌, ◌%◌, ◌^◌, ◌<◌, ◌≡◌, ◌≢◌, refl, sym, ap, ◌∙◌, some, [], ◌∷◌, List, ◌++◌, ◌≤◌, arith,
}
use linux_multiarch_asm.Oop.Machine.{
  Reg, rax, rdi, rsp, r11, State, running, Instr, mov, pop, call_reg, call_plt, skip_if_zero, word,
  set_reg, set_mem, write_reg, logged, pushed, exec,
}
use linux_multiarch_asm.Oop.Machine.Laws.{
  rax-Apart, rsp-Apart, r11-Apart, exec-nil, exec-skip, exec-load, exec-mov, exec-push, exec-pop,
  exec-call_reg, exec-call_plt, exec-jump, exec-no_jump,
}
use linux_multiarch_asm.Oop.Object.{Library, delete_impl, delete}

module _ (invoke : ℕ → State → State) (lib : Library) where
  -- `DELETE` of a null pointer does nothing.
  delete_null :
      (obj : Reg) (s : State) → s.reg obj ≡ 0 → exec invoke 0 (delete lib obj) s ≡ running s
  unfolding delete delete_impl
  delete_null obj s e =
      exec-jump invoke obj 8 _ s e
      ∙ exec-skip invoke 7 _ _ s
      ∙ exec-skip invoke 6 _ _ s
      ∙ exec-skip invoke 5 _ _ s
      ∙ exec-skip invoke 4 _ _ s
      ∙ exec-skip invoke 3 _ _ s
      ∙ exec-skip invoke 2 _ _ s
      ∙ exec-skip invoke 1 _ _ s
      ∙ exec-skip invoke 0 _ _ s
      ∙ exec-nil invoke s

-- The register holds the address `p` of an object with a virtual table, and the stack has room for
-- one more word, away from both.
pub record HoldsObject (obj : Reg) (s : State) (p vtable : ℕ) : Type 0 where
  pub not_rax : obj ≢ rax
  pub not_rsp : obj ≢ rsp
  pub not_r11 : obj ≢ r11
  pub object : s.reg obj ≡ p
  pub not_null : p ≢ 0
  pub address : p < 2 ^ 64
  pub points : s.mem p ≡ some vtable
  pub table_address : vtable < 2 ^ 64
  pub room : (slot : ℕ) × (s.mem (pushed s) ≡ some slot)
  pub off_object : pushed s ≢ p
  pub off_table : pushed s ≢ vtable

module _ (invoke : ℕ → State → State) (lib : Library) (obj : Reg) (s : State) (p vtable : ℕ)
    (h : HoldsObject obj s p vtable) where
  abbrev saved : State
  saved = record s {
    reg = set_reg s.reg rsp (pushed s);
    mem = set_mem s.mem (pushed s) (s.reg obj);
  }

  abbrev fetched : ℕ → State
  fetched entry = write_reg (write_reg saved r11 vtable) rax entry

  -- the instructions from the test of the destructor on
  abbrev from_test : List Instr
  from_test = skip_if_zero rax 2 ∷ mov obj rdi ∷ call_reg rax ∷ pop rdi ∷ call_plt lib.free ∷ []

  fetched-obj : (entry : ℕ) → (fetched entry).reg obj ≡ p
  fetched-obj entry =
      rw (rax-Apart obj h.not_rax, r11-Apart obj h.not_r11, rsp-Apart obj h.not_rsp) h.object

  fetch :
      (entry : ℕ)
      → s.mem vtable ≡ some entry
      → exec invoke 0 (delete lib obj) s ≡ exec invoke 0 from_test (fetched entry)
  unfolding delete delete_impl
  fetch entry e =
      exec-no_jump invoke obj 8 _ s (λ z. h.not_null (sym h.object ∙ z))
      ∙ exec-push invoke obj _ s h.room.0 h.room.1
      ∙ exec-load invoke 0 obj r11 _ saved vtable at_object
      ∙ exec-load invoke 0 r11 rax _ (write_reg saved r11 vtable) entry at_table
    where
      saved-obj : saved.reg obj ≡ p
      saved-obj = rw (rsp-Apart obj h.not_rsp) h.object

      at_object : saved.mem (word (0 + saved.reg obj)) ≡ some vtable
      at_object =
          let e' : word (0 + saved.reg obj) ≡ p = omega (arith, saved-obj, h.address) in
          let kept : saved.mem p ≡ some vtable = ground (arith, h.off_object, h.points) in
          ap saved.mem e' ∙ kept

      at_table : saved.mem (word (0 + vtable)) ≡ some entry
      at_table =
          let e' : word (0 + vtable) ≡ vtable = omega (arith, h.table_address) in
          let kept : saved.mem vtable ≡ some entry = ground (arith, h.off_table, e) in
          ap saved.mem e' ∙ kept

  -- the machine as the destructor is called
  abbrev pub at_destructor : ℕ → State
  at_destructor entry = logged (write_reg (fetched entry) rdi p) entry

  -- Where the register is not %rax, %r11 or %rsp and holds the address, below 2 ^ 64 and not null,
  -- of an object with a virtual table whose first entry is a destructor, and the stack has room for
  -- one word, apart from the object and the table: `DELETE` calls the destructor with the object as
  -- `this`. If the destructor keeps the stack pointer and the word at it, as the ABI asks of every
  -- function, `DELETE` then calls `free` on the object, with the stack pointer as it was at first.
  pub delete_lem :
      (entry : ℕ)
      → s.mem vtable ≡ some entry
      → entry ≢ 0
      → (invoke entry (at_destructor entry)).reg rsp ≡ pushed s
      → (invoke entry (at_destructor entry)).mem (pushed s) ≡ some p
      → s.reg rsp < 2 ^ 64
      → 8 ≤ s.reg rsp
      → (at_free : State) × (exec invoke 0 (delete lib obj) s ≡ running (invoke lib.free at_free))
        × ((at_destructor entry).reg rdi ≡ p)
        × (at_free.reg rdi ≡ p)
        × (at_free.reg rsp ≡ s.reg rsp)
        × (at_free.log
            ≡ (invoke entry (at_destructor entry)).log
              ++ (record { target = lib.free; this_arg = p; stack = s.reg rsp } ∷ []))
  delete_lem entry e live keeps_sp keeps_word small big =
      let after = invoke entry (at_destructor entry) in
      let popped = write_reg (write_reg after rsp (word (after.reg rsp + 8))) rdi p in
      let same_sp : word (after.reg rsp + 8) ≡ s.reg rsp = omega (arith, keeps_sp) in
      (
        logged popped lib.free,
        fetch entry e
            ∙ exec-no_jump invoke rax 2 _ (fetched entry) live
            ∙ exec-mov invoke obj rdi _ (fetched entry)
            ∙ exec-call_reg invoke rax _ (write_reg (fetched entry) rdi ((fetched entry).reg obj))
            ∙ rw (fetched-obj entry) (
                exec-pop invoke rdi _ after p (ap after.mem keeps_sp ∙ keeps_word)
                ∙ exec-call_plt invoke lib.free [] popped
                ∙ exec-nil invoke _),
        refl,
        refl,
        same_sp,
        ap (λ (sp : ℕ). after.log ++ (record { target = lib.free; this_arg = p; stack = sp } ∷ []))
            same_sp,
      )

  -- With a null first entry `DELETE` calls no destructor, and `free` on the object.
  delete_no_destructor :
      s.mem vtable ≡ some 0
      → s.reg rsp < 2 ^ 64
      → 8 ≤ s.reg rsp
      → (at_free : State) × (exec invoke 0 (delete lib obj) s ≡ running (invoke lib.free at_free))
        × (at_free.reg rdi ≡ p)
        × (at_free.reg rsp ≡ s.reg rsp)
        × (at_free.log
            ≡ s.log ++ (record { target = lib.free; this_arg = p; stack = s.reg rsp } ∷ []))
  delete_no_destructor e small big =
      let before = fetched 0 in
      let popped = write_reg (write_reg before rsp (word (pushed s + 8))) rdi p in
      let same_sp : word (pushed s + 8) ≡ s.reg rsp = omega arith in
      (
        logged popped lib.free,
        fetch 0 e
            ∙ exec-jump invoke rax 2 _ before refl
            ∙ exec-skip invoke 1 _ _ before
            ∙ exec-skip invoke 0 _ _ before
            ∙ exec-pop invoke rdi _ before p (ground (arith, h.object))
            ∙ exec-call_plt invoke lib.free [] popped
            ∙ exec-nil invoke _,
        refl,
        same_sp,
        ap (λ (sp : ℕ). s.log ++ (record { target = lib.free; this_arg = p; stack = sp } ∷ []))
            same_sp,
      )

  -- With a destructor, `DELETE` runs up to its call and from its return on pops the saved word and
  -- calls `free`. From a stack pointer aligned to 16 bytes, as the ABI asks for at a call, the
  -- destructor is called with one that is 8 bytes off.
  pub delete-unaligned :
      (entry : ℕ)
      → s.mem vtable ≡ some entry
      → entry ≢ 0
      → s.reg rsp % 16 ≡ 0
      → s.reg rsp < 2 ^ 64
      → (at_call : State) × (exec invoke 0 (delete lib obj) s
          ≡ exec invoke 0 (pop rdi ∷ call_plt lib.free ∷ []) (invoke entry at_call))
        × (at_call.reg rdi ≡ p)
        × (at_call.reg rsp % 16 ≡ 8)
  delete-unaligned entry e live aligned small = (
    at_destructor entry,
    fetch entry e
        ∙ exec-no_jump invoke rax 2 _ (fetched entry) live
        ∙ exec-mov invoke obj rdi _ (fetched entry)
        ∙ exec-call_reg invoke rax _ (write_reg (fetched entry) rdi ((fetched entry).reg obj))
        ∙ rw (fetched-obj entry) refl,
    refl,
    omega arith,
  )
