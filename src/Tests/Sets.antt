-- ===== src/Tests/Sets.antt =====
-- Runs of the set's theorems on small sets.
use rust_shed.Prelude.{
  ℕ, length, not, ◌&&◌, ◌++◌, All, panic, ◌≡◌, ◌↔◌, refl, true, false, none, some, List, [], ◌∷◌,
  done, nat_ord, is_some, is_none, is_eq, or_else, if◌then◌else◌,
}
use rust_shed.SortedVector.Sorted.{find}
use rust_shed.SortedVector.Ascending.{latest}
use rust_shed.SortedVector.Cut.{select, exists}
use rust_shed.SortedVector.Range.{included, excluded, before, within, is_less}
use rust_shed.SortedVectorSet.Ranges.{range_set_correct, split_off_set_correct}
use rust_shed.SortedVectorSet.{
  SortedVectorSet, itself, get, contains, replace, insert, take, remove, append, extend_with_vec,
  range, split_off,
}
use rust_shed.SortedVectorSet.Operations.{
  both, drained, difference_next, symmetric_difference_next, intersection_next, union_next,
  difference_size_hint, symmetric_difference_size_hint, intersection_size_hint, union_size_hint,
  is_disjoint, is_subset, is_superset, bitand, sub, bitxor, bitor,
}
use rust_shed.SortedVectorSet.Changes.{IsValid, replace_correct, take_correct}
use rust_shed.SortedVectorSet.Bulk.{append_set_correct, extend_set_correct}
use rust_shed.SortedVectorSet.Algebra.{Yields, operators_correct}
use rust_shed.SortedVectorSet.SizeHints.{Fits, size_hints_correct}
use rust_shed.SortedVectorSet.Subset.{Within, is_subset_correct, is_disjoint_correct}

abbrev low : SortedVectorSet ℕ
low = 10 ∷ 20 ∷ 30 ∷ []

abbrev high : SortedVectorSet ℕ
high = 20 ∷ 40 ∷ []

abbrev mixed : List ℕ
mixed = 40 ∷ 20 ∷ 40 ∷ []

low-IsValid : IsValid low
unfolding nat_ord
low-IsValid = ((refl, (refl, tt)), ((refl, tt), (tt, tt)))

high-IsValid : IsValid high
unfolding nat_ord
high-IsValid = ((refl, tt), (tt, tt))

replace_correct_example :
    (s' : SortedVectorSet ℕ) × (replace low 25 ≡ done (s', find itself 25 low))
    × (insert low 25 ≡ done (s', is_none (find itself 25 low)))
    × IsValid s'
    × ((q : ℕ) → get s' q ≡ done (if is_eq (nat_ord.cmp 25 q) then some 25 else find itself q low))
    × ((q : ℕ) → contains s' q ≡ (if is_eq (nat_ord.cmp 25 q) then true else contains low q))
replace_correct_example = replace_correct low 25 low-IsValid

take_correct_example :
    (s' : SortedVectorSet ℕ) × (take low 20 ≡ done (s', find itself 20 low))
    × (remove low 20 ≡ done (s', is_some (find itself 20 low)))
    × IsValid s'
    × ((q : ℕ) → get s' q ≡ done (if is_eq (nat_ord.cmp 20 q) then none else find itself q low))
take_correct_example = take_correct low 20 low-IsValid

append_set_correct_example :
    IsValid (append low high).0
    × ((append low high).1 ≡ [])
    × ((q : ℕ)
        → find itself q (append low high).0 ≡ or_else (find itself q high) (find itself q low))
append_set_correct_example = append_set_correct low high low-IsValid high-IsValid

extend_set_correct_example :
    (s' : SortedVectorSet ℕ) × (extend_with_vec low mixed ≡ done s')
    × IsValid s'
    × ((q : ℕ) → find itself q s' ≡ or_else (latest itself q mixed) (find itself q low))
extend_set_correct_example = extend_set_correct low mixed low-IsValid

range_set_correct_example : range low (included 15) (excluded 30) ≡ (
    if exists (λ e. before itself (included 15) e && not (within itself (excluded 30) e)) low
    then panic
    else done
        (select (λ e. not (before itself (included 15) e) && within itself (excluded 30) e) low))
range_set_correct_example = range_set_correct low (included 15) (excluded 30) low-IsValid

split_off_set_correct_example :
    (kept : SortedVectorSet ℕ) × (rest : SortedVectorSet ℕ) × (split_off low 15 ≡ done (kept, rest))
    × IsValid kept
    × IsValid rest
    × (kept ++ rest ≡ low)
    × All (λ e. is_less itself 15 e ≡ true) kept
    × All (λ e. is_less itself 15 e ≡ false) rest
split_off_set_correct_example = split_off_set_correct low 15 low-IsValid

operators_correct_example :
    Yields (bitand low high) (λ q. if is_some (find itself q high) then find itself q low else none)
    × Yields (sub low high) (λ q. if is_some (find itself q high) then none else find itself q low)
    × Yields (bitxor low high) (λ q.
      if is_some (find itself q high)
      then (if is_some (find itself q low) then none else find itself q high)
      else find itself q low)
    × Yields (bitor low high) (λ q. or_else (find itself q high) (find itself q low))
operators_correct_example = operators_correct low high low-IsValid high-IsValid

size_hints_correct_example :
    Fits (difference_size_hint (both low high)) (length (drained difference_next low high))
    × Fits
        (symmetric_difference_size_hint (both low high))
        (length (drained symmetric_difference_next low high))
    × Fits (intersection_size_hint (both low high)) (length (drained intersection_next low high))
    × Fits (union_size_hint (both low high)) (length (drained union_next low high))
size_hints_correct_example = size_hints_correct low high

is_subset_correct_example :
    ((is_subset low high ≡ true) ↔ Within high low)
    × ((is_superset low high ≡ true) ↔ Within low high)
is_subset_correct_example = is_subset_correct low high low-IsValid high-IsValid

is_disjoint_correct_example :
    (is_disjoint low high ≡ true)
    ↔ ((q : ℕ) → is_some (find itself q low) ≡ true → is_none (find itself q high) ≡ true)
is_disjoint_correct_example = is_disjoint_correct low high low-IsValid high-IsValid
