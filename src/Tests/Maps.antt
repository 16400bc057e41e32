-- ===== src/Tests/Maps.antt =====
-- Runs of the map's theorems on small maps.
use rust_shed.Prelude.{
  ℕ, suc, ◌*◌, ◌≡◌, ◌+◌, map, ◌⊎◌, refl, Bool, true, false, not, ◌&&◌, ◌++◌, none, some, List, [],
  ◌∷◌, All, ◌≺◌, done, panic, ◌>>=◌, nat_ord, ltb, is_some, is_eq, or_else, if◌then◌else◌, length,
}
use mathlib.Core.List.{reverse}
use mathlib.Core.Option
use rust_shed.SortedVector.Search.{binary_search_by}
use rust_shed.SortedVector.Sorted.{find, Above}
use rust_shed.SortedVector.Update.{updated}
use rust_shed.SortedVector.Cut.{select, exists}
use rust_shed.SortedVector.Range.{included, excluded, before, within, is_less}
use rust_shed.SortedVectorMap.{
  SortedVectorMap, key_of, get, get_key_value, contains_key, index_of, insert, remove, remove_entry,
  get_mut, append, extend_with_vec, from_iter, range, split_off, retain, pop_last, first_key_value,
  last_key_value, find_index, into_inner,
}
use rust_shed.SortedVectorMap.Entry.{
  OccupiedEntry, occupied, entry, or_insert, and_modify, occupied_key, occupied_get,
  occupied_remove, occupied_remove_entry, occupied_insert,
}
use rust_shed.SortedVectorMap.Reads.{IsValid, lookup, reads_agree}
use rust_shed.SortedVectorMap.Writes.{with_value, insert_correct, remove_correct, get_mut_lem}
use rust_shed.SortedVectorMap.Bulk.{
  latest_value, append_correct, extend_with_vec_correct, from_iter_correct,
}
use rust_shed.SortedVectorMap.Ranges.{range_correct, split_off_correct}
use rust_shed.SortedVectorMap.EntryLaws.{or_insert_correct, and_modify_correct, occupied_correct}
use rust_shed.SortedVectorMap.Ends.{ends_correct, retain_correct, pure_closure, kept}
use rust_shed.SortedVectorMap.Contents.{
  from_iter-into_inner, sorted_vector_map, sorted_vector_map_correct, first_key, stored_key,
}
use rust_shed.SortedVectorMap.Iterators.{
  drive, iter_next, iter_next_back, iter_size_hint, keys_next, keys_next_back, values_next,
  values_next_back, iter_ends,
}

abbrev prices : SortedVectorMap ℕ ℕ
prices = (10, 1) ∷ (20, 2) ∷ (30, 3) ∷ []

abbrev later : SortedVectorMap ℕ ℕ
later = (20, 5) ∷ (40, 4) ∷ []

abbrev unsorted : List (ℕ × ℕ)
unsorted = (40, 4) ∷ (20, 5) ∷ (40, 6) ∷ []

abbrev second : OccupiedEntry ℕ ℕ
second = record { map = prices; index = 1 }

abbrev small : ℕ → ℕ → Bool
small k v = ltb v 3

abbrev doubled : ℕ → ℕ → ℕ
doubled k v = 2 * v

prices-IsValid : IsValid prices
unfolding nat_ord
prices-IsValid = ((refl, (refl, tt)), ((refl, tt), (tt, tt)))

later-IsValid : IsValid later
unfolding nat_ord
later-IsValid = ((refl, tt), (tt, tt))

entry-second : entry prices 20 ≡ occupied second
unfolding entry find_index binary_search_by nat_ord
entry-second = refl

insert_correct_example :
    (m' : SortedVectorMap ℕ ℕ) × (insert prices 20 7 ≡ done (m', lookup prices 20))
    × IsValid m'
    × ((q : ℕ)
        → find key_of q m' ≡ (
            if is_eq (nat_ord.cmp 20 q)
            then updated key_of (with_value 7) (20, 7) (find key_of q prices)
            else find key_of q prices))
insert_correct_example = insert_correct prices 20 7 prices-IsValid

reads_agree_example :
    (get prices 20 ≡ done (lookup prices 20))
    × (get_key_value prices 20 ≡ done (find key_of 20 prices))
    × (contains_key prices 20 ≡ is_some (lookup prices 20))
    × (index_of prices 20 ≡ elim (lookup prices 20) [ none ↦ panic | some v ↦ done v ])
reads_agree_example = reads_agree prices 20 prices-IsValid

remove_correct_example :
    (m' : SortedVectorMap ℕ ℕ) × (remove prices 20 ≡ done (m', lookup prices 20))
    × (remove_entry prices 20 ≡ done (m', find key_of 20 prices))
    × IsValid m'
    × ((q : ℕ)
        → find key_of q m' ≡ (if is_eq (nat_ord.cmp 20 q) then none else find key_of q prices))
remove_correct_example = remove_correct prices 20 prices-IsValid

get_mut_lem_example :
    ((get_mut prices 20 ≡ done none) × (lookup prices 20 ≡ none))
    ⊎ ((v : ℕ) × (write : ℕ → SortedVectorMap ℕ ℕ) × (get_mut prices 20 ≡ done (some (v, write)))
        × (lookup prices 20 ≡ some v)
        × ((w : ℕ) → insert prices 20 w ≡ done (write w, some v)))
get_mut_lem_example = get_mut_lem prices 20 prices-IsValid

append_correct_example :
    IsValid (append prices later).0
    × ((append prices later).1 ≡ [])
    × ((q : ℕ)
        → find key_of q (append prices later).0
          ≡ or_else (find key_of q later) (find key_of q prices))
append_correct_example = append_correct prices later prices-IsValid later-IsValid

extend_with_vec_correct_example :
    (m' : SortedVectorMap ℕ ℕ) × (extend_with_vec prices unsorted ≡ done m')
    × IsValid m'
    × ((q : ℕ) → lookup m' q ≡ or_else (latest_value unsorted q) (lookup prices q))
extend_with_vec_correct_example = extend_with_vec_correct prices unsorted prices-IsValid

from_iter_correct_example :
    (m : SortedVectorMap ℕ ℕ) × (from_iter unsorted ≡ done m)
    × IsValid m
    × ((q : ℕ) → lookup m q ≡ latest_value unsorted q)
from_iter_correct_example = from_iter_correct unsorted

range_correct_example : range prices (included 15) (excluded 30) ≡ (
    if exists (λ e. before key_of (included 15) e && not (within key_of (excluded 30) e)) prices
    then panic
    else done
        (select (λ e. not (before key_of (included 15) e) && within key_of (excluded 30) e) prices))
range_correct_example = range_correct prices (included 15) (excluded 30) prices-IsValid

split_off_correct_example :
    (kept : SortedVectorMap ℕ ℕ) × (rest : SortedVectorMap ℕ ℕ) × (split_off prices 15
      ≡ done (kept, rest))
    × IsValid kept
    × IsValid rest
    × (kept ++ rest ≡ prices)
    × All (λ e. is_less key_of 15 e ≡ true) kept
    × All (λ e. is_less key_of 15 e ≡ false) rest
split_off_correct_example = split_off_correct prices 15 prices-IsValid

or_insert_correct_example :
    (v : ℕ) × (write : ℕ → SortedVectorMap ℕ ℕ) × (or_insert (entry prices 20) 9 ≡ done (v, write))
    × (v ≡ Option.get_or (lookup prices 20) 9)
    × ((w : ℕ) → insert prices 20 w ≡ done (write w, lookup prices 20))
or_insert_correct_example = or_insert_correct prices 20 9 prices-IsValid

and_modify_correct_example :
    (v : ℕ) × (write : ℕ → SortedVectorMap ℕ ℕ) × ((and_modify (entry prices 20) suc >>= λ e.
    or_insert e 9)
      ≡ done (v, write))
    × (v ≡ Option.get_or (Option.map suc (lookup prices 20)) 9)
    × ((w : ℕ) → insert prices 20 w ≡ done (write w, lookup prices 20))
and_modify_correct_example = and_modify_correct prices 20 suc 9 prices-IsValid

occupied_correct_example :
    (x : ℕ × ℕ) × (m' : SortedVectorMap ℕ ℕ) × (find key_of 20 prices ≡ some x)
    × (occupied_key second ≡ done x.0)
    × (occupied_get second ≡ done x.1)
    × (occupied_remove second ≡ done (m', x.1))
    × (remove prices 20 ≡ done (m', some x.1))
    × (occupied_remove_entry second ≡ done (m', x))
    × (remove_entry prices 20 ≡ done (m', some x))
    × ((w : ℕ)
        → (e' : OccupiedEntry ℕ ℕ) × (occupied_insert second w ≡ done (e', x.1))
          × (insert prices 20 w ≡ done (e'.map, some x.1)))
occupied_correct_example = occupied_correct prices 20 second prices-IsValid entry-second

ends_correct_example :
    ((prices ≡ [])
      × (pop_last prices ≡ (none, []))
      × (last_key_value prices ≡ none)
      × (first_key_value prices ≡ none))
    ⊎ ((e : ℕ × ℕ) × (rest : SortedVectorMap ℕ ℕ) × (f : ℕ × ℕ) × (behind : SortedVectorMap ℕ ℕ)
        × (pop_last prices ≡ (some e, rest))
        × (last_key_value prices ≡ some e)
        × (rest ++ e ∷ [] ≡ prices)
        × All (λ y. y.0 ≺ e.0) rest
        × IsValid rest
        × (first_key_value prices ≡ some f)
        × (f ∷ behind ≡ prices)
        × Above key_of f.0 behind)
ends_correct_example = ends_correct prices prices-IsValid

retain_correct_example :
    IsValid (retain (pure_closure small doubled) tt prices).1
    × ((q : ℕ)
        → find key_of q (retain (pure_closure small doubled) tt prices).1
          ≡ kept small doubled (find key_of q prices))
retain_correct_example = retain_correct small doubled prices prices-IsValid

from_iter-into_inner_example : from_iter (into_inner prices) ≡ done prices
from_iter-into_inner_example = from_iter-into_inner prices prices-IsValid

sorted_vector_map_correct_example :
    (m : SortedVectorMap ℕ ℕ) × (sorted_vector_map unsorted ≡ done m)
    × IsValid m
    × ((q : ℕ) → lookup m q ≡ latest_value unsorted q)
    × ((q : ℕ) → stored_key m q ≡ first_key unsorted q)
    × ((c : SortedVectorMap ℕ ℕ) × (from_iter unsorted ≡ done c)
        × ((q : ℕ) → lookup c q ≡ lookup m q))
sorted_vector_map_correct_example = sorted_vector_map_correct unsorted

iter_ends_example :
    let (front, back, rest) = drive iter_next iter_next_back (true ∷ false ∷ []) prices in
    (front ++ (rest ++ reverse back) ≡ prices)
    × (length front + length back ≡ 2)
    × (length rest ≡ 1)
    × (iter_size_hint rest ≡ (length rest, some (length rest)))
    × (drive keys_next keys_next_back (true ∷ false ∷ []) prices
        ≡ (map (λ e. e.0) front, map (λ e. e.0) back, rest))
    × (drive values_next values_next_back (true ∷ false ∷ []) prices
        ≡ (map (λ e. e.1) front, map (λ e. e.1) back, rest))
iter_ends_example = iter_ends (true ∷ false ∷ []) prices

iter_ends_runs :
    drive iter_next iter_next_back (true ∷ false ∷ true ∷ true ∷ []) prices
    ≡ ((10, 1) ∷ (20, 2) ∷ [], (30, 3) ∷ [], [])
unfolding iter_next iter_next_back
iter_ends_runs = refl
