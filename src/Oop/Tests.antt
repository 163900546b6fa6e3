-- ===== src/Oop/Tests.antt =====
-- A small machine on which the object macros run, and each theorem on it.
use linux_multiarch_asm.Base.{
  ℕ, ◌%◌, ◌≡◌, refl, Option, none, some, List, [], ◌∷◌, arith, ◌==◌, if◌then◌else◌,
}
use linux_multiarch_asm.Oop.Machine.{
  rax, rbx, rcx, rdi, rsp, pop, call_plt, reg_number, Event, State, Run, running, fault, write_reg,
  step, skipped, exec,
}
use linux_multiarch_asm.Oop.Object.{
  ClassSymbols, Library, new, new_impl, vcall, vcall_impl, delete, delete_impl, set_type,
  set_type_impl,
}
use linux_multiarch_asm.Oop.Dispatch.{vcall_scratch, new_out_of_memory, new-vcall}
use linux_multiarch_asm.Oop.Delete.{HoldsObject, delete_lem, delete-unaligned, at_destructor}

abbrev library : Library
library = record { malloc = 100; free = 200 }

-- The table of the class stands at 1000, with its destructor at 300 and its method at 400.
abbrev circle : ClassSymbols
circle = record { size = 24; vtable = 1000 }

-- `malloc` returns the block at 4096, or a null pointer; the other functions return at once.
abbrev serve : ℕ → ℕ → State → State
serve block f s = if f == 100 then write_reg s rax block else s

-- A word of the table, the stack, or the block.
abbrev words : ℕ → Option ℕ
words a =
    if a == 1000
    then some 300
    else if a == 1008
    then some 400
    else if a == 2000
    then some 0
    else if a == 4096
    then some 1000
    else if a == 5000
    then some 2000
    else if a == 7992
    then some 0
    else none

abbrev start : ℕ → State
start object = record {
  reg = λ r. if reg_number r == 4 then 8000 else if reg_number r == 3 then object else 0;
  mem = words;
  log = [];
}

-- `NEW` into %rbx, `VCALL` of method 1 and `DELETE`, as in the demo: three calls besides `malloc`.
abbrev then_exec : (Run → (State → Run) → Run)
then_exec r k = elim r [ fault ↦ fault | running s ↦ k s ]

abbrev log_of : Run → List Event
log_of r = elim r [ fault ↦ [] | running s ↦ s.log ]

demo_calls :
    log_of (
      then_exec (exec (serve 4096) 0 (new library circle rbx) (start 0)) λ made.
        then_exec
          (exec (serve 4096) 0 (vcall rbx 1) made)
          λ used. exec (serve 4096) 0 (delete library rbx) used)
    ≡ record { target = 100; this_arg = 24; stack = 8000 }
      ∷ record { target = 400; this_arg = 4096; stack = 8000 }
      ∷ record { target = 300; this_arg = 4096; stack = 7992 }
      ∷ record { target = 200; this_arg = 4096; stack = 8000 }
      ∷ []
unfolding exec step skipped new new_impl vcall vcall_impl delete delete_impl
demo_calls = refl

abbrev word_of : Run → Option ℕ
word_of r = elim r [ fault ↦ none | running s ↦ s.mem 4096 ]

set_type_runs : word_of (exec (serve 4096) 0 (set_type rbx 984) (start 4096)) ≡ some 984
unfolding exec step skipped set_type set_type_impl
set_type_runs = refl

abbrev in_scratch : State
in_scratch = write_reg (write_reg (start 0) rax 4096) rcx 4096

vcall_scratch_example :
    ((at_call : State) × (exec (serve 4096) 0 (vcall rax 1) in_scratch
        ≡ running (serve 4096 400 at_call))
      × (at_call.reg rdi ≡ 400))
    × ((at_call : State) × (exec (serve 4096) 0 (vcall rcx 1) in_scratch
          ≡ running (serve 4096 400 at_call))
        × (at_call.reg rdi ≡ 1000))
vcall_scratch_example =
    vcall_scratch (serve 4096) 1 in_scratch 1000 400 1000 400 refl refl refl refl

new_out_of_memory_example : exec (serve 0) 0 (new library circle rbx) (start 0) ≡ fault
new_out_of_memory_example = new_out_of_memory (serve 0) library circle (start 0) rbx (cc) refl refl

new-vcall_example :
    (made : State) × (at_call : State) × (exec (serve 4096) 0 (new library circle rbx) (start 0)
      ≡ running made)
    × (exec (serve 4096) 0 (vcall rbx 1) made ≡ running (serve 4096 400 at_call))
    × (at_call.reg rdi ≡ 4096)
new-vcall_example =
    new-vcall (serve 4096) library circle (start 0) rbx 1 4096 1000 400 (cc) (cc) (omega arith) refl
      refl refl (omega arith)

held : HoldsObject rbx (start 4096) 4096 1000
held = record {
  not_rax = (cc);
  not_rsp = (cc);
  not_r11 = (cc);
  object = refl;
  not_null = omega arith;
  address = omega arith;
  points = refl;
  table_address = omega arith;
  room = (0, refl);
  off_object = omega arith;
  off_table = omega arith;
}

held_bare : HoldsObject rbx (start 5000) 5000 2000
held_bare = record {
  not_rax = (cc);
  not_rsp = (cc);
  not_r11 = (cc);
  object = refl;
  not_null = omega arith;
  address = omega arith;
  points = refl;
  table_address = omega arith;
  room = (0, refl);
  off_object = omega arith;
  off_table = omega arith;
}

delete_lem_example :
    (at_free : State) × (exec (serve 4096) 0 (delete library rbx) (start 4096)
      ≡ running (serve 4096 200 at_free))
    × ((at_destructor (serve 4096) library rbx (start 4096) 4096 1000 held 300).reg rdi ≡ 4096)
    × (at_free.reg rdi ≡ 4096)
    × (at_free.reg rsp ≡ 8000)
    × (at_free.log
        ≡ record { target = 300; this_arg = 4096; stack = 7992 }
          ∷ record { target = 200; this_arg = 4096; stack = 8000 }
          ∷ [])
delete_lem_example =
    delete_lem (serve 4096) library rbx (start 4096) 4096 1000 held 300 refl (omega arith) refl refl
      (omega arith) (omega arith)

delete-unaligned_example :
    (at_call : State) × (exec (serve 4096) 0 (delete library rbx) (start 4096)
      ≡ exec (serve 4096) 0 (pop rdi ∷ call_plt 200 ∷ []) (serve 4096 300 at_call))
    × (at_call.reg rdi ≡ 4096)
    × (at_call.reg rsp % 16 ≡ 8)
delete-unaligned_example =
    delete-unaligned (serve 4096) library rbx (start 4096) 4096 1000 held 300 refl (omega arith)
      refl (omega arith)
