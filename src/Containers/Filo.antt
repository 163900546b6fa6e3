-- ===== src/Containers/Filo.antt =====
-- FILOlist.cpp (archive/todo/optimization-examples/cppexamples): a stack of at most `MAXSIZE`
-- objects. The pointer `top` into `list` is an index.
pub mod Refine
mod Tests
use linux_multiarch_asm.Base.{
  ℕ, ◌+◌, ◌-◌, Bool, true, false, List, [], ◌∷◌, leb, if◌then◌else◌, get_elem?, set,
}
use linux_multiarch_asm.Containers.Outcome.{Outcome, ret, exited, read, ◌>>=◌}

pub record Filo {ℓ} (A : Type ℓ) : Type ℓ where
  pub top : ℕ
  pub n : ℕ
  pub list : List A

module _ {ℓ} {A : Type ℓ} where
  -- `FILOlist()`
  pub new_filo : List A → Filo A
  new_filo storage = record { top = 0; n = 0; list = storage }

  -- `Put`
  pub put : ℕ → Filo A → A → Bool × Filo A
  put max_size f x =
      if leb max_size f.n
      then (false, f)
      else (true, record f { n = f.n + 1; list = set f.list f.top x; top = f.top + 1 })

  -- `Get`: `exit(1)` on an empty list.
  pub get : Filo A → Outcome (A × Filo A)
  get f =
      if leb f.n 0
      then exited
      else (read (get_elem? f.list (f.top - 1)) >>= λ x.
          ret (x, record f { n = f.n - 1; top = f.top - 1 }))

  -- `NumObjects`
  pub num_objects : Filo A → ℕ
  num_objects f = f.n

-- A client's calls, and what it sees of each.
pub data Call {ℓ} (A : Type ℓ) : Type ℓ where
  put_call : A → Call A
  get_call : Call A
  num_call : Call A

pub data Reply {ℓ} (A : Type ℓ) : Type ℓ where
  put_reply : Bool → Reply A
  get_reply : A → Reply A
  num_reply : ℕ → Reply A

module _ {ℓ} {A : Type ℓ} where
  -- The calls in order, with their replies; the run ends where the process does.
  pub run : ℕ → Filo A → List (Call A) → Outcome (List (Reply A))
  run max_size f [] = ret []
  run max_size f (put_call x ∷ cs) =
      run max_size (put max_size f x).1 cs >>= λ rs. ret (put_reply (put max_size f x).0 ∷ rs)
  run max_size f (get_call ∷ cs) =
      get f >>= λ r. run max_size r.1 cs >>= λ rs. ret (get_reply r.0 ∷ rs)
  run max_size f (num_call ∷ cs) = run max_size f cs >>= λ rs. ret (num_reply (num_objects f) ∷ rs)
