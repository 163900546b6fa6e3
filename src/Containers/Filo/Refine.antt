-- ===== src/Containers/Filo/Refine.antt =====
-- FILOlist.cpp behaves as a bounded stack.
use linux_multiarch_asm.Base.{
  ℕ, ◌-◌, ◌≤◌, ◌<◌, ◌≡◌, refl, some, true, false, List, [], ◌∷◌, arith, leb, ltb, if◌then◌else◌,
  length, get_elem?, set, length-set, get_elem?-set_self, get_elem?-set_ne, Bool-cases, inl, inr,
}
use linux_multiarch_asm.Containers.Outcome.{Outcome, ret, exited, ◌>>=◌}
use linux_multiarch_asm.Containers.Filo.{
  Filo, new_filo, put, get, num_objects, Call, put_call, get_call, num_call, Reply, put_reply,
  get_reply, num_reply, run,
}

module _ {ℓ} {A : Type ℓ} where
  -- The cells below the top hold the stack, its top object last.
  abbrev Stacked : List A → List A → Type ℓ
  Stacked buf [] = Unit
  Stacked buf (x ∷ s) = (get_elem? buf (length s) ≡ some x) × Stacked buf s

  Stacked-set_ge :
      (buf : List A) (i : ℕ) (v : A) (s : List A)
      → length s ≤ i
      → Stacked buf s
      → Stacked (set buf i v) s
  Stacked-set_ge buf i v [] h st = tt
  Stacked-set_ge buf i v (x ∷ s) h st = (
    ground (arith, st.0, get_elem?-set_ne buf i (length s) v),
    Stacked-set_ge buf i v s (omega arith) st.1,
  )

-- The fields stand for the stack `s`, its top object first.
pub record Represents {ℓ} {A : Type ℓ} (max_size : ℕ) (f : Filo A) (s : List A) : Type ℓ where
  pub storage : length f.list ≡ max_size
  pub count : f.n ≡ length s
  pub fits : f.n ≤ max_size
  pub top_at : f.top ≡ f.n
  pub stacked : Stacked f.list s

-- What a stack of at most `max_size` objects replies to the calls.
pub stack_run {ℓ} : {A : Type ℓ} → ℕ → List A → List (Call A) → Outcome (List (Reply A))
stack_run max_size s [] = ret []
stack_run max_size s (put_call x ∷ cs) =
    let room = ltb (length s) max_size in
    stack_run max_size (if room then x ∷ s else s) cs >>= λ rs. ret (put_reply room ∷ rs)
stack_run max_size [] (get_call ∷ cs) = exited
stack_run max_size (x ∷ s) (get_call ∷ cs) =
    stack_run max_size s cs >>= λ rs. ret (get_reply x ∷ rs)
stack_run max_size s (num_call ∷ cs) =
    stack_run max_size s cs >>= λ rs. ret (num_reply (length s) ∷ rs)

module _ {ℓ} {A : Type ℓ} (max_size : ℕ) where
  pub new_filo-Represents :
      (storage : List A) → length storage ≡ max_size → Represents max_size (new_filo storage) []
  unfolding new_filo
  new_filo-Represents storage len = record {
    storage = len;
    count = refl;
    fits = omega arith;
    top_at = refl;
    stacked = tt;
  }

  full-Represents :
      (f : Filo A) (s : List A) (x : A)
      → Represents max_size f s
      → max_size ≤ length s
      → put max_size f x ≡ (false, f)
  unfolding put
  full-Represents f s x r h = ground arith

  put_room-Represents :
      (f : Filo A) (s : List A) (x : A)
      → Represents max_size f s
      → length s < max_size
      → ((put max_size f x).0 ≡ true) × Represents max_size (put max_size f x).1 (x ∷ s)
  unfolding put
  put_room-Represents f s x r h = elim (Bool-cases (leb max_size f.n)) [
    | inl e ↦ absurd (ground arith)
    | inr e ↦ rw e (
      refl,
      record {
        storage = omega (arith, length-set f.list f.top x);
        count = omega arith;
        fits = omega arith;
        top_at = omega arith;
        stacked = (
          ground (arith, get_elem?-set_self f.list f.top x),
          Stacked-set_ge f.list f.top x s (omega arith) r.stacked,
        );
      },
    )
  ]

  put-Represents :
      (f : Filo A) (s : List A) (x : A)
      → Represents max_size f s
      → ((put max_size f x).0 ≡ ltb (length s) max_size)
        × Represents max_size (put max_size f x).1 (if ltb (length s) max_size then x ∷ s else s)
  put-Represents f s x r = elim (Bool-cases (ltb (length s) max_size)) [
    | inl e ↦ rw e (put_room-Represents f s x r (ground arith))
    | inr e ↦ rw (e, full-Represents f s x r (ground arith)) (refl, r)
  ]

  get-Represents :
      (f : Filo A) (x : A) (s : List A)
      → Represents max_size f (x ∷ s)
      → (f' : Filo A) × (get f ≡ ret (x, f')) × Represents max_size f' s
  unfolding get
  get-Represents f x s r = (
    record f { n = f.n - 1; top = f.top - 1 },
    ground (arith, r.stacked.0),
    record {
      storage = r.storage;
      count = omega arith;
      fits = omega arith;
      top_at = omega arith;
      stacked = r.stacked.1;
    },
  )

  get_empty : (f : Filo A) → Represents max_size f [] → get f ≡ exited
  unfolding get
  get_empty f r = ground arith

  -- No sequence of calls tells the array with its top pointer from the bounded stack that it holds:
  -- the replies are the same, and the process exits at the same call.
  pub run-eq-stack_run :
      (cs : List (Call A)) (f : Filo A) (s : List A)
      → Represents max_size f s
      → run max_size f cs ≡ stack_run max_size s cs
  unfolding run stack_run num_objects
  run-eq-stack_run [] f s r = refl
  run-eq-stack_run (put_call x ∷ cs) f s r = rw (
    (put-Represents f s x r).0,
    run-eq-stack_run cs (put max_size f x).1 _ (put-Represents f s x r).1,
  )
  run-eq-stack_run (get_call ∷ cs) f [] r = rw (get_empty f r)
  run-eq-stack_run (get_call ∷ cs) f (x ∷ s) r =
      let (f', e, r') = get-Represents f x s r in rw (e, run-eq-stack_run cs f' s r')
  run-eq-stack_run (num_call ∷ cs) f [] r = rw (run-eq-stack_run cs f [] r, r.count)
  run-eq-stack_run (num_call ∷ cs) f (x ∷ s) r = rw (run-eq-stack_run cs f (x ∷ s) r, r.count)
