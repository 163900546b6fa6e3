-- ===== src/Containers/Fifo/Refine.antt =====
-- The circular array of FIFOlist.cpp behaves as a bounded queue.
use linux_multiarch_asm.Base.{
  ℕ, ◌+◌, ◌-◌, ◌≤◌, ◌<◌, ◌≡◌, refl, true, false, List, [], ◌∷◌, ◌++◌, arith, leb, ltb,
  if◌then◌else◌, length, length-append, length-set, Bool-cases, inl, inr,
}
use linux_multiarch_asm.Containers.Outcome.{Outcome, ret, exited, ◌>>=◌}
use linux_multiarch_asm.Containers.Circular.{
  advance, wrap, Holds, Holds-append, advance-lt, advance-wrap, wrap-advance,
}
use linux_multiarch_asm.Containers.Fifo.{
  Fifo, new_fifo, put, get, num_objects, Call, put_call, get_call, num_call, Reply, put_reply,
  get_reply, num_reply, run,
}

-- The fields stand for the queue `q`, oldest object first.
pub record Represents {ℓ} {A : Type ℓ} (max_size : ℕ) (f : Fifo A) (q : List A) : Type ℓ where
  pub storage : length f.list ≡ max_size
  pub tail_in : f.tail < max_size
  pub count : f.n ≡ length q
  pub fits : f.n ≤ max_size
  pub head_at : f.head ≡ wrap max_size (f.tail + f.n)
  pub holds : Holds f.list max_size f.tail q

-- What a queue of at most `max_size` objects replies to the calls.
pub queue_run {ℓ} : {A : Type ℓ} → ℕ → List A → List (Call A) → Outcome (List (Reply A))
queue_run max_size q [] = ret []
queue_run max_size q (put_call x ∷ cs) =
    let room = ltb (length q) max_size in
    queue_run max_size (if room then q ++ (x ∷ []) else q) cs >>= λ rs. ret (put_reply room ∷ rs)
queue_run max_size [] (get_call ∷ cs) = exited
queue_run max_size (x ∷ q) (get_call ∷ cs) =
    queue_run max_size q cs >>= λ rs. ret (get_reply x ∷ rs)
queue_run max_size q (num_call ∷ cs) =
    queue_run max_size q cs >>= λ rs. ret (num_reply (length q) ∷ rs)

module _ {ℓ} {A : Type ℓ} (max_size : ℕ) where
  pub new_fifo-Represents :
      (storage : List A)
      → length storage ≡ max_size
      → 0 < max_size
      → Represents max_size (new_fifo storage) []
  unfolding new_fifo wrap
  new_fifo-Represents storage len pos = record {
    storage = len;
    tail_in = pos;
    count = refl;
    fits = omega arith;
    head_at = ground arith;
    holds = tt;
  }

  full-Represents :
      (f : Fifo A) (q : List A) (x : A)
      → Represents max_size f q
      → max_size ≤ length q
      → put max_size f x ≡ (false, f)
  unfolding put
  full-Represents f q x r h = ground arith

  put_room-Represents :
      (f : Fifo A) (q : List A) (x : A)
      → Represents max_size f q
      → length q < max_size
      → ((put max_size f x).0 ≡ true) × Represents max_size (put max_size f x).1 (q ++ (x ∷ []))
  unfolding put
  put_room-Represents f q x r h = elim (Bool-cases (leb max_size f.n)) [
    | inl e ↦ absurd (ground arith)
    | inr e ↦ rw e (
      refl,
      record {
        storage = omega (arith, length-set f.list f.head x);
        tail_in = r.tail_in;
        count = omega (arith, length-append q (x ∷ []));
        fits = omega arith;
        head_at = ground (arith, advance-wrap max_size f.tail f.n);
        holds =
            Holds-append f.list max_size f.tail f.head x q r.storage r.tail_in h
              (rw (← r.count) r.head_at) r.holds;
      },
    )
  ]

  -- `Put` adds the object at the end of the queue and returns true, or finds the list full, returns
  -- false and changes nothing.
  pub put-Represents :
      (f : Fifo A) (q : List A) (x : A)
      → Represents max_size f q
      → ((put max_size f x).0 ≡ ltb (length q) max_size)
        × Represents max_size
            (put max_size f x).1
            (if ltb (length q) max_size then q ++ (x ∷ []) else q)
  put-Represents f q x r = elim (Bool-cases (ltb (length q) max_size)) [
    | inl e ↦ rw e (put_room-Represents f q x r (ground arith))
    | inr e ↦ rw (e, full-Represents f q x r (ground arith)) (refl, r)
  ]

  -- `Get` takes the oldest object.
  pub get-Represents :
      (f : Fifo A) (x : A) (q : List A)
      → Represents max_size f (x ∷ q)
      → (f' : Fifo A) × (get max_size f ≡ ret (x, f')) × Represents max_size f' q
  unfolding get
  get-Represents f x q r = (
    record f { n = f.n - 1; tail = advance max_size f.tail },
    ground (arith, r.holds.0),
    record {
      storage = r.storage;
      tail_in = advance-lt max_size f.tail (omega arith);
      count = omega arith;
      fits = omega arith;
      head_at = ground (arith, wrap-advance max_size f.tail (f.n - 1));
      holds = r.holds.1;
    },
  )

  get_empty : (f : Fifo A) → Represents max_size f [] → get max_size f ≡ exited
  unfolding get
  get_empty f r = ground arith

  -- No sequence of calls tells the circular array from the bounded queue that it holds: the replies
  -- are the same, and the process exits at the same call.
  pub run-eq-queue_run :
      (cs : List (Call A)) (f : Fifo A) (q : List A)
      → Represents max_size f q
      → run max_size f cs ≡ queue_run max_size q cs
  unfolding run queue_run num_objects
  run-eq-queue_run [] f q r = refl
  run-eq-queue_run (put_call x ∷ cs) f q r = rw (
    (put-Represents f q x r).0,
    run-eq-queue_run cs (put max_size f x).1 _ (put-Represents f q x r).1,
  )
  run-eq-queue_run (get_call ∷ cs) f [] r = rw (get_empty f r)
  run-eq-queue_run (get_call ∷ cs) f (x ∷ q) r =
      let (f', e, r') = get-Represents f x q r in rw (e, run-eq-queue_run cs f' q r')
  run-eq-queue_run (num_call ∷ cs) f [] r = rw (run-eq-queue_run cs f [] r, r.count)
  run-eq-queue_run (num_call ∷ cs) f (x ∷ q) r = rw (run-eq-queue_run cs f (x ∷ q) r, r.count)
