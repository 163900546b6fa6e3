-- ===== src/Oop/Dispatch.antt =====
-- `NEW` and `VCALL`: an object made of a class answers a virtual call by the class's own method.
use linux_multiarch_asm.Base.{
  ℕ, ◌+◌, ◌*◌, ◌^◌, ◌<◌, ◌≡◌, ◌≢◌, refl, ap, ◌∙◌, none, some, [], ◌∷◌, ◌++◌, arith, ◌==◌, ==_iff,
  if◌then◌else◌,
}
use linux_multiarch_asm.Oop.Machine.{
  Reg, rax, rcx, rdi, rsp, State, running, fault, word, set_mem, write_reg, logged, exec,
}
use linux_multiarch_asm.Oop.Machine.Laws.{
  reg_self, rax-Apart, rcx-Apart, exec-nil, exec-load, exec-mov, exec-mov_imm, exec-lea, exec-store,
  exec-store_fault, exec-call_reg, exec-call_plt,
}
use linux_multiarch_asm.Oop.Object.{ClassSymbols, Library, new_impl, vcall_impl, new, vcall}

module _ (invoke : ℕ → State → State) where
  -- `VCALL` on an object in any register but %rax and %rcx, which it uses itself, makes one call:
  -- of the method with that index in the object's virtual table, with the object as `this`.
  vcall_lem :
      (obj : Reg) (index : ℕ) (s : State) (vtable method : ℕ)
      → obj ≢ rax
      → obj ≢ rcx
      → s.reg obj < 2 ^ 64
      → s.mem (s.reg obj) ≡ some vtable
      → s.mem (word (index * 8 + vtable)) ≡ some method
      → (at_call : State) × (exec invoke 0 (vcall obj index) s ≡ running (invoke method at_call))
        × (at_call.reg rdi ≡ s.reg obj)
        × (at_call.log
            ≡ s.log ++ (record { target = method; this_arg = s.reg obj; stack = s.reg rsp } ∷ []))
  unfolding vcall vcall_impl
  vcall_lem obj index s vtable method h k small e f =
      let no_rax = rax-Apart obj h in
      let no_rcx = rcx-Apart obj k in
      let s1 = write_reg s rcx vtable in
      let s2 = write_reg s1 rax method in
      let this : s2.reg obj ≡ s.reg obj = rw (no_rax, no_rcx) in
      (
        logged (write_reg s2 rdi (s2.reg obj)) method,
        exec-load invoke 0 obj rcx _ s vtable (ap s.mem (omega arith) ∙ e)
            ∙ exec-load invoke (index * 8) rcx rax _ s1 method f
            ∙ exec-mov invoke obj rdi _ s2
            ∙ exec-call_reg invoke rax [] (write_reg s2 rdi (s2.reg obj))
            ∙ exec-nil invoke _,
        this,
        rw this,
      )

  -- The macro loads the virtual table into %rcx and the method into %rax before it reads `obj`. On
  -- an object in %rax, the register of the macro's usage line, the method finds its own address as
  -- `this`; on one in %rcx it finds the virtual table.
  pub vcall_scratch :
      (index : ℕ) (s : State) (vtable method vtable' method' : ℕ)
      → s.mem (word (0 + s.reg rax)) ≡ some vtable
      → s.mem (word (index * 8 + vtable)) ≡ some method
      → s.mem (word (0 + s.reg rcx)) ≡ some vtable'
      → s.mem (word (index * 8 + vtable')) ≡ some method'
      → ((at_call : State) × (exec invoke 0 (vcall rax index) s ≡ running (invoke method at_call))
          × (at_call.reg rdi ≡ method))
        × ((at_call : State) × (exec invoke 0 (vcall rcx index) s
              ≡ running (invoke method' at_call))
            × (at_call.reg rdi ≡ vtable'))
  unfolding vcall vcall_impl
  vcall_scratch index s vtable method vtable' method' e f e' f' =
      let s2 = write_reg (write_reg s rcx vtable) rax method in
      let s2' = write_reg (write_reg s rcx vtable') rax method' in
      (
        (
          logged (write_reg s2 rdi method) method,
          exec-load invoke 0 rax rcx _ s vtable e
              ∙ exec-load invoke (index * 8) rcx rax _ (write_reg s rcx vtable) method f
              ∙ exec-mov invoke rax rdi _ s2
              ∙ exec-call_reg invoke rax [] (write_reg s2 rdi method)
              ∙ exec-nil invoke _,
          refl,
        ),
        (
          logged (write_reg s2' rdi vtable') method',
          exec-load invoke 0 rcx rcx _ s vtable' e'
              ∙ exec-load invoke (index * 8) rcx rax _ (write_reg s rcx vtable') method' f'
              ∙ exec-mov invoke rcx rdi _ s2'
              ∙ exec-call_reg invoke rax [] (write_reg s2' rdi vtable')
              ∙ exec-nil invoke _,
          refl,
        ),
      )

  module _ (lib : Library) (class : ClassSymbols) (s : State) where
    -- the machine as `malloc` is called, and as it returns
    abbrev at_malloc : State
    at_malloc = logged (write_reg s rdi class.size) lib.malloc

    abbrev after_malloc : State
    after_malloc = invoke lib.malloc at_malloc

    -- `NEW` into any register but %rcx asks `malloc` for the class's size. With the block that
    -- `malloc` returns it leaves the block's address in the register and the class's virtual table
    -- in the first word of the block, and no other word has changed since `malloc` returned.
    new_lem :
        (obj : Reg) (p old : ℕ)
        → obj ≢ rcx
        → after_malloc.reg rax ≡ p
        → after_malloc.mem p ≡ some old
        → (s' : State) × (exec invoke 0 (new lib class obj) s ≡ running s')
          × (s'.reg obj ≡ p)
          × ((a : ℕ) → s'.mem a ≡ (if p == a then some class.vtable else after_malloc.mem a))
          × (at_malloc.reg rdi ≡ class.size)
    unfolding new new_impl
    new_lem obj p old h e f =
        let s1 = write_reg after_malloc obj (after_malloc.reg rax) in
        let s2 = write_reg s1 rcx class.vtable in
        let here : s2.reg obj ≡ p = rw (rcx-Apart obj h, reg_self obj) e in
        let mapped : s2.mem (s2.reg obj) ≡ some old = ap after_malloc.mem here ∙ f in
        (
          record s2 { mem = set_mem s2.mem (s2.reg obj) (s2.reg rcx) },
          exec-mov_imm invoke class.size rdi _ s
              ∙ exec-call_plt invoke lib.malloc _ _
              ∙ exec-mov invoke rax obj _ after_malloc
              ∙ exec-lea invoke class.vtable rcx _ s1
              ∙ exec-store invoke rcx obj [] s2 old mapped
              ∙ exec-nil invoke _,
          here,
          λ a. rw here,
          refl,
        )

    -- `NEW` does not look at what `malloc` returns: out of memory, where that is an unmapped null
    -- pointer, the store of the virtual table faults.
    pub new_out_of_memory :
        (obj : Reg)
        → obj ≢ rcx
        → after_malloc.reg rax ≡ 0
        → after_malloc.mem 0 ≡ none
        → exec invoke 0 (new lib class obj) s ≡ fault
    unfolding new new_impl
    new_out_of_memory obj h e f =
        let s1 = write_reg after_malloc obj (after_malloc.reg rax) in
        let s2 = write_reg s1 rcx class.vtable in
        let here : s2.reg obj ≡ 0 = rw (rcx-Apart obj h, reg_self obj) e in
        exec-mov_imm invoke class.size rdi _ s
        ∙ exec-call_plt invoke lib.malloc _ _
        ∙ exec-mov invoke rax obj _ after_malloc
        ∙ exec-lea invoke class.vtable rcx _ s1
        ∙ exec-store_fault invoke rcx obj [] s2 (ap after_malloc.mem here ∙ f)

    -- Where the register is neither %rax nor %rcx, `malloc` returns an address below 2 ^ 64 of a
    -- word that is mapped, and after that call the virtual table has the method at this index, in
    -- another word than the object's first: `NEW` makes the object, and `VCALL` at that index then
    -- calls the method with the object as `this`.
    pub new-vcall :
        (obj : Reg) (index p old method : ℕ)
        → obj ≢ rax
        → obj ≢ rcx
        → p < 2 ^ 64
        → after_malloc.reg rax ≡ p
        → after_malloc.mem p ≡ some old
        → after_malloc.mem (word (index * 8 + class.vtable)) ≡ some method
        → word (index * 8 + class.vtable) ≢ p
        → (made : State) × (at_call : State) × (exec invoke 0 (new lib class obj) s ≡ running made)
          × (exec invoke 0 (vcall obj index) made ≡ running (invoke method at_call))
          × (at_call.reg rdi ≡ p)
    new-vcall obj index p old method h k small e f m apart =
        let (made, runs, here, cells, size) = new_lem obj p old k e f in
        let object : made.mem (made.reg obj) ≡ some class.vtable =
          rw here (cells p ∙ rw ((==_iff p p).1 refl)) in
        let entry : made.mem (word (index * 8 + class.vtable)) ≡ some method =
          cells (word (index * 8 + class.vtable)) ∙ ground (arith, m) in
        let (at_call, calls, this, logs) =
          vcall_lem obj index made class.vtable method h k (rw here small) object entry in
        (made, at_call, runs, calls, this ∙ here)
