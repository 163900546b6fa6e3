-- ===== src/Containers/Filo/Tests.antt =====
-- Runs of FILOlist.cpp, and the theorem at an input.
use linux_multiarch_asm.Base.{ℕ, ◌≡◌, refl, true, false, List, [], ◌∷◌}
use linux_multiarch_asm.Containers.Outcome.{ret, exited}
use linux_multiarch_asm.Containers.Filo.{
  new_filo, put, get, num_objects, Call, put_call, get_call, num_call, put_reply, get_reply,
  num_reply, run,
}
use linux_multiarch_asm.Containers.Filo.Refine.{stack_run, new_filo-Represents}
use linux_multiarch_asm.Containers.Filo.Refine

abbrev script : List (Call ℕ)
script = put_call 10 ∷ put_call 20 ∷ put_call 30 ∷ get_call ∷ num_call ∷ get_call ∷ []

script_runs :
    run 2 (new_filo (0 ∷ 0 ∷ [])) script
    ≡ ret (
        put_reply true
        ∷ put_reply true
        ∷ put_reply false
        ∷ get_reply 20
        ∷ num_reply 1
        ∷ get_reply 10
        ∷ [])
unfolding run new_filo put get num_objects
script_runs = refl

empty_exits : run {A = ℕ} 2 (new_filo (0 ∷ 0 ∷ [])) (get_call ∷ []) ≡ exited
unfolding run new_filo get
empty_exits = refl

run-eq-stack_run_example : run 2 (new_filo (0 ∷ 0 ∷ [])) script ≡ stack_run 2 [] script
run-eq-stack_run_example =
    Refine.run-eq-stack_run 2 script (new_filo (0 ∷ 0 ∷ [])) []
      (new_filo-Represents 2 (0 ∷ 0 ∷ []) refl)
