-- ===== src/Containers/Fifo.antt =====
-- FIFOlist.cpp (archive/todo/optimization-examples/cppexamples): a circular array of `MAXSIZE`
-- objects with first-in-first-out access. The pointers `head` and `tail` into `list` are indices.
-- `n` counts to `MAXSIZE`, an `int`, so none of its increments overflows.
pub mod Refine
mod Tests
use linux_multiarch_asm.Base.{
  ℕ, ◌+◌, ◌-◌, ◌≤◌, ◌<◌, ◌≡◌, Bool, true, false, Option, none, some, List, [], ◌∷◌, leb, ltb,
  if◌then◌else◌, get_elem?, set,
}
use linux_multiarch_asm.Containers.Outcome.{Outcome, ret, exited, read, ◌>>=◌}
use linux_multiarch_asm.Containers.Circular.{advance}

pub record Fifo {ℓ} (A : Type ℓ) : Type ℓ where
  pub head : ℕ
  pub tail : ℕ
  pub n : ℕ
  pub list : List A

module _ {ℓ} {A : Type ℓ} where
  -- `FIFOlist()`. The objects of the array start with whatever the storage holds.
  pub new_fifo : List A → Fifo A
  new_fifo storage = record { head = 0; tail = 0; n = 0; list = storage }

  -- `Put`
  pub put : ℕ → Fifo A → A → Bool × Fifo A
  put max_size f x = if leb max_size f.n then (false, f) else (
    true,
    record f { n = f.n + 1; list = set f.list f.head x; head = advance max_size f.head },
  )

  -- `Get`: `exit(1)` on an empty list.
  pub get : ℕ → Fifo A → Outcome (A × Fifo A)
  get max_size f =
      if leb f.n 0
      then exited
      else (read (get_elem? f.list f.tail) >>= λ x.
          ret (x, record f { n = f.n - 1; tail = advance max_size f.tail }))

  -- `NumObjects`
  pub num_objects : Fifo A → ℕ
  num_objects f = f.n

-- A client's calls, and what it sees of each.
pub data Call {ℓ} (A : Type ℓ) : Type ℓ where
  put_call : A → Call A
  get_call : Call A
  num_call : Call A

pub data Reply {ℓ} (A : Type ℓ) : Type ℓ where
  put_reply : Bool → Reply A
  get_reply : A → Reply A
  num_reply : ℕ → Reply A

module _ {ℓ} {A : Type ℓ} where
  -- The calls in order, with their replies; the run ends where the process does.
  pub run : ℕ → Fifo A → List (Call A) → Outcome (List (Reply A))
  run max_size f [] = ret []
  run max_size f (put_call x ∷ cs) =
      run max_size (put max_size f x).1 cs >>= λ rs. ret (put_reply (put max_size f x).0 ∷ rs)
  run max_size f (get_call ∷ cs) =
      get max_size f >>= λ r. run max_size r.1 cs >>= λ rs. ret (get_reply r.0 ∷ rs)
  run max_size f (num_call ∷ cs) = run max_size f cs >>= λ rs. ret (num_reply (num_objects f) ∷ rs)
