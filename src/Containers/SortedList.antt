-- ===== src/Containers/SortedList.antt =====
-- SortedList.cpp (archive/todo/optimization-examples/cppexamples): an array of at most `MAXSIZE`
-- records kept in the order of the records' `operator <`.
pub mod Search
pub mod Put
pub mod Contents
mod Tests
use linux_multiarch_asm.Base.{
  ℕ, zero, suc, ◌+◌, ◌-◌, ◌*◌, ◌/◌, ◌%◌, ◌^◌, Bool, true, false, not, ◌&&◌, ◌||◌, Option, none,
  some, List, [], ◌∷◌, ◌++◌, ltb, leb, if◌then◌else◌, get_elem?, set, take, drop,
}
use linux_multiarch_asm.Containers.Outcome.{Outcome, ret, exited, undefined, diverged, read, ◌>>=◌}

pub record SortedList {ℓ} (A : Type ℓ) : Type ℓ where
  pub num : ℕ
  pub list : List A

-- `memmove(list + a + 1, list + a, (num - a) * sizeof(OBJTYPE))`: the `num - a` records from `a` on
-- move up one place, and the cells outside the target keep theirs.
pub move_up {ℓ} : {A : Type ℓ} → ℕ → ℕ → List A → List A
move_up a num list = take (suc a) list ++ (take (num - a) (drop a list) ++ drop (suc num) list)

-- `memmove(list + i, list + i + 1, (num - i - 1) * sizeof(OBJTYPE))`
pub move_down {ℓ} : {A : Type ℓ} → ℕ → ℕ → List A → List A
move_down i num list =
    take i list ++ (take (num - i - 1) (drop (suc i) list) ++ drop (num - 1) list)

module _ {ℓ} {A : Type ℓ} where
  -- Makes space at `a`, stores `x` there and counts it.
  pub insert_record : SortedList A → ℕ → A → SortedList A
  insert_record l a x = record {
    num = l.num + 1;
    list = set (if ltb a l.num then move_up a l.num l.list else l.list) a x;
  }

-- An argument `OBJTYPE const & x`: a record elsewhere, or one in the list itself, by its index.
pub data RecordReference {ℓ} (A : Type ℓ) : Type ℓ where
  apart_record : A → RecordReference A
  listed_record : ℕ → RecordReference A

-- What the reference reads in the array as it is.
abbrev pub read_record {ℓ} : {A : Type ℓ} → RecordReference A → List A → Outcome A
read_record (apart_record x) list = ret x
read_record (listed_record i) list = read (get_elem? list i)

-- The common end of `Put` and `PutUnique` reads `x` after it has moved the records.
pub insert_reference {ℓ} :
    {A : Type ℓ} → SortedList A → ℕ → RecordReference A → Outcome (SortedList A)
insert_reference l a x =
    read_record x (if ltb a l.num then move_up a l.num l.list else l.list) >>= λ y.
    ret (insert_record l a y)

-- The middle of the search interval: an `unsigned int` sum wraps at 2 ^ 32.
abbrev pub middle : ℕ → ℕ → ℕ
middle a b = (a + b) % 2 ^ 32 / 2

-- The record type's `operator <` is the parameter `less`.
module _ {ℓ} {A : Type ℓ} (less : A → A → Bool) where
  -- The loop of `Search`, on fuel.
  pub search_loop : ℕ → SortedList A → A → ℕ → ℕ → Outcome ℕ
  search_loop zero l x a b = diverged
  search_loop (suc fuel) l x a b =
      let right = search_loop fuel l x (middle a b + 1) b in
      let left = search_loop fuel l x a (middle a b) in
      if ltb a b
      then (read (get_elem? l.list (middle a b)) >>= λ y. if less y x then right else left)
      else ret a

  -- `Search`. Each round narrows the interval, so `num + 1` rounds are enough.
  pub search_list : SortedList A → A → Outcome ℕ
  search_list l x = search_loop (l.num + 1) l x 0 l.num

  -- `Put`
  pub put : ℕ → SortedList A → RecordReference A → Outcome (Bool × SortedList A)
  put max_size l x =
      if leb max_size l.num
      then ret (false, l)
      else (read_record x l.list >>= λ y.
          search_list l y >>= λ a. insert_reference l a x >>= λ l'. ret (true, l'))

  -- `PutUnique`
  pub put_unique : ℕ → SortedList A → RecordReference A → Outcome (Bool × SortedList A)
  put_unique max_size l x =
      if leb max_size l.num
      then ret (false, l)
      else (read_record x l.list >>= λ v. search_list l v >>= λ a.
          let insert = insert_reference l a x >>= λ l'. ret (true, l') in
          if ltb a l.num
          then (read (get_elem? l.list a) >>= λ y. if less v y then insert else ret (true, l))
          else insert)

  -- `Exists`: the index goes out through a reference, here in the option.
  pub exists : SortedList A → A → Outcome (Option ℕ)
  exists l x = search_list l x >>= λ i.
      if leb l.num i
      then ret none
      else (read (get_elem? l.list i) >>= λ y. if less x y then ret none else ret (some i))

module _ {ℓ} {A : Type ℓ} where
  -- `SortedList()`
  pub new_list : List A → SortedList A
  new_list storage = record { num = 0; list = storage }

  -- `operator []`: a null reference on an index out of range.
  pub entry : SortedList A → ℕ → Outcome A
  entry l i = if leb l.num i then undefined else read (get_elem? l.list i)

  -- `NumRecords`
  pub num_records : SortedList A → ℕ
  num_records l = l.num

  -- `Remove`
  pub remove : SortedList A → ℕ → SortedList A
  remove l i = if leb l.num i then l else record {
    num = l.num - 1;
    list = if ltb (i + 1) l.num then move_down i l.num l.list else l.list;
  }
