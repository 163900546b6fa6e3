-- ===== src/Containers/Fifo/Tests.antt =====
-- Runs of FIFOlist.cpp, and each theorem at an input.
use linux_multiarch_asm.Base.{ℕ, ◌≡◌, refl, true, false, List, [], ◌∷◌, arith}
use linux_multiarch_asm.Containers.Outcome.{ret, exited}
use linux_multiarch_asm.Containers.Circular.{advance}
use linux_multiarch_asm.Containers.Fifo.{
  new_fifo, put, get, num_objects, Call, put_call, get_call, num_call, put_reply, get_reply,
  num_reply, run,
}
use linux_multiarch_asm.Containers.Fifo.Refine.{queue_run, new_fifo-Represents, run-eq-queue_run}

-- `main`, with room for two objects instead of a thousand.
abbrev script : List (Call ℕ)
script = put_call 10 ∷ put_call 20 ∷ put_call 30 ∷ get_call ∷ put_call 40 ∷ get_call ∷ num_call ∷ []

script_runs :
    run 2 (new_fifo (0 ∷ 0 ∷ [])) script
    ≡ ret (
        put_reply true
        ∷ put_reply true
        ∷ put_reply false
        ∷ get_reply 10
        ∷ put_reply true
        ∷ get_reply 20
        ∷ num_reply 1
        ∷ [])
unfolding run new_fifo put get num_objects advance
script_runs = refl

empty_exits : run {A = ℕ} 2 (new_fifo (0 ∷ 0 ∷ [])) (get_call ∷ []) ≡ exited
unfolding run new_fifo get
empty_exits = refl

run-eq-queue_run_example : run 2 (new_fifo (0 ∷ 0 ∷ [])) script ≡ queue_run 2 [] script
run-eq-queue_run_example =
    run-eq-queue_run 2 script (new_fifo (0 ∷ 0 ∷ [])) []
      (new_fifo-Represents 2 (0 ∷ 0 ∷ []) refl (omega arith))
