-- ===== src/Containers/SortedList/Tests.antt =====
-- Runs of SortedList.cpp on numbers, and each theorem at an input.
use mathlib.Core.List.{Perm}
use linux_multiarch_asm.Base.{
  ℕ, zero, suc, ◌/◌, Bool, ◌≤◌, ◌<◌, ◌≡◌, ◌⊎◌, inl, inr, refl, true, false, some, none, List, [],
  ◌∷◌, arith, ltb, get_elem?, Bool-cases,
}
use linux_multiarch_asm.Containers.Outcome.{ret, undefined}
use linux_multiarch_asm.Containers.SortedList.{
  SortedList, apart_record, listed_record, insert_reference, search_loop, search_list,
  insert_record, put, put_unique, exists, remove, move_up, move_down, new_list, entry,
}
use linux_multiarch_asm.Containers.SortedList.Search.{
  StrictWeakOrder, IsSorted, Splits, search_list-Splits,
}
use linux_multiarch_asm.Containers.SortedList.Put.{
  Ordered, put_lem, put_unique_lem, exists_lem, remove-Ordered, Equal,
}

program : Unit {0}
unfolding search_loop search_list insert_record insert_reference put put_unique exists remove
    move_up move_down new_list entry
program = tt

abbrev three : SortedList ℕ
three = record { num = 3; list = 2 ∷ 5 ∷ 9 ∷ 0 ∷ [] }

put_runs :
    put ltb 4 three (apart_record 6) ≡ ret (true, record { num = 4; list = 2 ∷ 5 ∷ 6 ∷ 9 ∷ [] })
unfolding program
put_runs = refl

-- Records that are compared by their tens. `Put` of the second, by reference, reads it after the move,
-- where the first one stands: it adds that one again.
abbrev less_tens : ℕ → ℕ → Bool
less_tens a b = ltb (a / 10) (b / 10)

put_listed_runs :
    put less_tens 3 (record { num = 2; list = 11 ∷ 12 ∷ 0 ∷ [] }) (listed_record 1)
    ≡ ret (true, record { num = 3; list = 11 ∷ 11 ∷ 12 ∷ [] })
unfolding program
put_listed_runs = refl

put_unique_runs : put_unique ltb 4 three (apart_record 5) ≡ ret (true, three)
unfolding program
put_unique_runs = refl

remove_runs : remove three 0 ≡ record { num = 2; list = 5 ∷ 9 ∷ 9 ∷ 0 ∷ [] }
unfolding program
remove_runs = refl

exists_runs : (exists ltb three 9 ≡ ret (some 2)) × (exists ltb three 4 ≡ ret none)
unfolding program
exists_runs = (refl, refl)

null_reference : entry three 3 ≡ undefined
unfolding program
null_reference = refl

ltb-StrictWeakOrder : StrictWeakOrder ltb
ltb-StrictWeakOrder = record {
  irreflexive = λ a. ground arith;
  transitive = λ a b c p q. ground arith;
  comparable =
      λ a b c p. elim (Bool-cases (ltb a c)) [ inl e ↦ inl e | inr e ↦ inr (ground arith) ];
}

three-IsSorted : IsSorted ltb (2 ∷ 5 ∷ 9 ∷ [])
three-IsSorted zero zero y z h p q = absurd (omega arith)
three-IsSorted zero (suc zero) y z h p q = ground arith
three-IsSorted zero (suc (suc zero)) y z h p q = ground arith
three-IsSorted zero (suc (suc (suc j))) y z h p q = cc
three-IsSorted (suc zero) (suc (suc zero)) y z h p q = ground arith
three-IsSorted (suc i) zero y z h p q = absurd (omega arith)
three-IsSorted (suc i) (suc zero) y z h p q = absurd (omega arith)
three-IsSorted (suc (suc i)) (suc (suc zero)) y z h p q = absurd (omega arith)
three-IsSorted (suc i) (suc (suc (suc j))) y z h p q = cc

three-Ordered : Ordered ltb 4 three (2 ∷ 5 ∷ 9 ∷ [])
three-Ordered = record {
  records = record { free = 0 ∷ []; split = refl; size = refl; count = refl };
  sorted = three-IsSorted;
}

search_list-Splits_example :
    (s : ℕ) × (search_list ltb three 6 ≡ ret s) × Splits ltb (2 ∷ 5 ∷ 9 ∷ []) 6 s
search_list-Splits_example =
    search_list-Splits ltb ltb-StrictWeakOrder 6 (omega arith) three-Ordered.records three-IsSorted

put_lem_example :
    ((4 ≤ 3) × (put ltb 4 three (apart_record 6) ≡ ret (false, three)))
    ⊎ ((l' : SortedList ℕ) × (q' : List ℕ) × (put ltb 4 three (apart_record 6) ≡ ret (true, l'))
        × Ordered ltb 4 l' q'
        × Perm q' (6 ∷ 2 ∷ 5 ∷ 9 ∷ []))
put_lem_example =
    put_lem ltb ltb-StrictWeakOrder 4 (omega arith) three (2 ∷ 5 ∷ 9 ∷ []) 6 three-Ordered

put_unique_lem_example :
    ((put_unique ltb 4 three (apart_record 6) ≡ ret (true, three))
      × ((i : ℕ) × (y : ℕ) × (get_elem? (2 ∷ 5 ∷ 9 ∷ []) i ≡ some y) × Equal ltb 6 y))
    ⊎ (((i : ℕ) (y : ℕ) → get_elem? (2 ∷ 5 ∷ 9 ∷ []) i ≡ some y → ¬ Equal ltb 6 y)
        × ((l' : SortedList ℕ) × (q' : List ℕ) × (put_unique ltb 4 three (apart_record 6)
              ≡ ret (true, l'))
            × Ordered ltb 4 l' q'
            × Perm q' (6 ∷ 2 ∷ 5 ∷ 9 ∷ [])))
put_unique_lem_example =
    put_unique_lem ltb ltb-StrictWeakOrder 4 (omega arith) three (2 ∷ 5 ∷ 9 ∷ []) 6 three-Ordered
      (omega arith)

exists_lem_example :
    ((exists ltb three 5 ≡ ret none)
      × ((i : ℕ) (y : ℕ) → get_elem? (2 ∷ 5 ∷ 9 ∷ []) i ≡ some y → ¬ Equal ltb 5 y))
    ⊎ ((i : ℕ) × (y : ℕ) × (exists ltb three 5 ≡ ret (some i))
        × (get_elem? (2 ∷ 5 ∷ 9 ∷ []) i ≡ some y)
        × Equal ltb 5 y
        × ((j : ℕ) (z : ℕ) → j < i → get_elem? (2 ∷ 5 ∷ 9 ∷ []) j ≡ some z → ltb z 5 ≡ true))
exists_lem_example =
    exists_lem ltb ltb-StrictWeakOrder 4 (omega arith) three (2 ∷ 5 ∷ 9 ∷ []) 5 three-Ordered

remove-Ordered_example : Ordered ltb 4 (remove three 1) (2 ∷ 9 ∷ [])
remove-Ordered_example =
    remove-Ordered ltb ltb-StrictWeakOrder 4 (omega arith) three (2 ∷ 5 ∷ 9 ∷ []) 1 three-Ordered
