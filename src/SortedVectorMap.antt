-- ===== src/SortedVectorMap.antt =====
-- shed/sorted_vector_map/src/map.rs: `SortedVectorMap`, a vector of pairs in strictly ascending
-- order of their keys. A method that takes `&mut self` returns the new map. A mutable reference to
-- a value is the value with the function that writes it back.
pub mod Reads
pub mod Writes
pub mod Bulk
pub mod Ranges
pub mod Entry
pub mod EntryLaws
pub mod Ends
pub mod Contents
pub mod Iterators
use Prim.Native.Nat.Ordering.{lt, eq, gt}
use mathlib.Core.Option
use rust_shed.Prelude.{
  ℕ, zero, suc, ◌+◌, ◌≡◌, Bool, true, false, Option, none, some, List, [], ◌∷◌, ◌++◌, map, Ord,
  Outcome, done, panic, ◌>>=◌, expect, index, insert_at, remove_at, slice,
  split_off as vec_split_off, pop, set, length, first, last, ltb, is_lt, if◌then◌else◌,
}
use rust_shed.SortedVector.Search.{IndexResult, ok, err, binary_search_by}
use rust_shed.SortedVector.Sorted
use rust_shed.SortedVector.Iter.{merge_collect}
use rust_shed.SortedVector.Sort.{sort}
use rust_shed.SortedVector.Extend.{dedup_from_first}
use rust_shed.SortedVector.Range.{Bound, unbounded, included, excluded}

-- The tuple struct's one field.
abbrev pub SortedVectorMap {ℓ κ} : Type ℓ → Type κ → Type (ℓ ⊔ κ)
SortedVectorMap K V = List (K × V)

module _ {ℓ κ} {K : Type ℓ} {V : Type κ} where
  abbrev pub key_of : K × V → K
  key_of e = e.0

  unfoldable pub new : SortedVectorMap K V
  new = []

  -- The capacity is a hint to the allocator.
  unfoldable pub with_capacity : ℕ → SortedVectorMap K V
  with_capacity capacity = []

  unfoldable pub into_inner : SortedVectorMap K V → List (K × V)
  into_inner m = m

  unfoldable pub clear : SortedVectorMap K V → SortedVectorMap K V
  clear m = []

  unfoldable pub get_key_value_at_index : SortedVectorMap K V → ℕ → Option (K × V)
  get_key_value_at_index [] i = none
  get_key_value_at_index (e ∷ m) zero = some e
  get_key_value_at_index (e ∷ m) (suc i) = get_key_value_at_index m i

  unfoldable pub len : SortedVectorMap K V → ℕ
  len m = length m

  unfoldable pub is_empty : SortedVectorMap K V → Bool
  is_empty [] = true
  is_empty (e ∷ m) = false

  unfoldable pub first_key_value : SortedVectorMap K V → Option (K × V)
  first_key_value m = first m

  unfoldable pub last_key_value : SortedVectorMap K V → Option (K × V)
  last_key_value m = last m

  unfoldable pub pop_last : SortedVectorMap K V → Option (K × V) × SortedVectorMap K V
  pop_last m = pop m

  unfoldable pub keys : SortedVectorMap K V → List K
  keys m = map (λ e. e.0) m

  unfoldable pub values : SortedVectorMap K V → List V
  values m = map (λ e. e.1) m

  -- `Vec::retain_mut`: the closure sees each entry once, in order, may change its value, and has a
  -- state of its own.
  unfoldable pub retain {μ} :
      {S : Type μ} → (S → K → V → S × V × Bool) → S → SortedVectorMap K V → S × SortedVectorMap K V
  retain f s [] = (s, [])
  retain f s ((k, v) ∷ m) =
      let (s', v', kept) = f s k v in
      let (t, rest) = retain f s' m in (t, if kept then (k, v') ∷ rest else rest)

module _ {ℓ κ} {K : Type ℓ} {V : Type κ} ⦃o : Ord K⦄ where
  unfoldable pub find_index : SortedVectorMap K V → K → IndexResult
  find_index m q = binary_search_by m (λ e. o.cmp e.0 q)

  unfoldable pub get : SortedVectorMap K V → K → Outcome (Option V)
  get m q = elim (find_index m q) [ ok i ↦ do e ← index m i; done (some e.1) | err i ↦ done none ]

  unfoldable pub get_key_value : SortedVectorMap K V → K → Outcome (Option (K × V))
  get_key_value m q = elim (find_index m q) [
    | ok i ↦ do e ← index m i; done (some e)
    | err i ↦ done none
  ]

  unfoldable pub contains_key : SortedVectorMap K V → K → Bool
  contains_key m q = elim (find_index m q) [ ok i ↦ true | err i ↦ false ]

  unfoldable pub get_mut :
      SortedVectorMap K V → K → Outcome (Option (V × (V → SortedVectorMap K V)))
  get_mut m q = elim (find_index m q) [
    | ok i ↦ do e ← index m i; done (some (e.1, λ v. set m i (e.0, v)))
    | err i ↦ done none
  ]

  -- The search of `insert` when the key is not greater than the last one.
  insert_found :
      SortedVectorMap K V → K → V → IndexResult → Outcome (SortedVectorMap K V × Option V)
  insert_found m k v (ok i) = do e ← index m i; done (set m i (e.0, v), some e.1)
  insert_found m k v (err i) = do m' ← insert_at m i (k, v); done (m', none)

  unfoldable pub insert : SortedVectorMap K V → K → V → Outcome (SortedVectorMap K V × Option V)
  unfolding insert_found find_index
  insert m k v = elim (last m) [
    | none ↦ done (m ++ (k, v) ∷ [], none)
    | some e ↦
        if is_lt (o.cmp e.0 k)
        then done (m ++ (k, v) ∷ [], none)
        else insert_found m k v (find_index m k)
  ]

  unfoldable pub remove_entry :
      SortedVectorMap K V → K → Outcome (SortedVectorMap K V × Option (K × V))
  remove_entry m q = elim (find_index m q) [
    | ok i ↦ do r ← remove_at m i; done (r.1, some r.0)
    | err i ↦ done (m, none)
  ]

  unfoldable pub remove : SortedVectorMap K V → K → Outcome (SortedVectorMap K V × Option V)
  remove m q = elim (find_index m q) [
    | ok i ↦ do r ← remove_at m i; done (r.1, some r.0.1)
    | err i ↦ done (m, none)
  ]

  unfoldable pub range_index_start : SortedVectorMap K V → Bound K → ℕ
  range_index_start m unbounded = 0
  range_index_start m (included q) = elim (find_index m q) [ ok i ↦ i | err i ↦ i ]
  range_index_start m (excluded q) = elim (find_index m q) [ ok i ↦ i + 1 | err i ↦ i ]

  unfoldable pub range_index_end : SortedVectorMap K V → Bound K → ℕ
  range_index_end m unbounded = length m
  range_index_end m (included q) = elim (find_index m q) [ ok i ↦ i + 1 | err i ↦ i ]
  range_index_end m (excluded q) = elim (find_index m q) [ ok i ↦ i | err i ↦ i ]

  -- The entries that the iterator yields; `range_mut` yields the same.
  unfoldable pub range : SortedVectorMap K V → Bound K → Bound K → Outcome (List (K × V))
  range m lo hi =
      let start = range_index_start m lo in
      let end = range_index_end m hi in if ltb end start then panic else slice m start end

  -- What stays in the map, and what is returned.
  unfoldable pub split_off :
      SortedVectorMap K V → K → Outcome (SortedVectorMap K V × SortedVectorMap K V)
  split_off m q = elim (find_index m q) [ ok i ↦ vec_split_off m i | err i ↦ vec_split_off m i ]

  -- `map[q]`
  unfoldable pub index_of : SortedVectorMap K V → K → Outcome V
  index_of m q = elim (find_index m q) [ ok i ↦ do e ← index m i; done e.1 | err i ↦ panic ]

  -- Both maps as the call leaves them.
  unfoldable pub append :
      SortedVectorMap K V → SortedVectorMap K V → SortedVectorMap K V × SortedVectorMap K V
  unfolding is_empty
  append m other =
      if is_empty other
      then (m, other)
      else if is_empty m
      then (other, m)
      else (merge_collect key_of m other, [])

  -- After the sort. The first new key decides whether all of them are greater.
  unfoldable pub extend_sorted : SortedVectorMap K V → List (K × V) → SortedVectorMap K V
  extend_sorted [] fresh = dedup_from_first key_of fresh
  extend_sorted (e ∷ m) fresh = elim (last (e ∷ m)) [
    | none ↦ merge_collect key_of (e ∷ m) fresh
    | some self_last ↦ elim (first fresh) [
      | none ↦ merge_collect key_of (e ∷ m) fresh
      | some new_first ↦
          if is_lt (o.cmp self_last.0 new_first.0)
          then (e ∷ m) ++ dedup_from_first key_of fresh
          else merge_collect key_of (e ∷ m) fresh
    ]
  ]

  unfoldable pub extend_with_vec :
      SortedVectorMap K V → List (K × V) → Outcome (SortedVectorMap K V)
  unfolding extend_sorted insert
  extend_with_vec m [] = done m
  extend_with_vec m ((k, v) ∷ []) = do r ← insert m k v; done r.0
  extend_with_vec m (a ∷ b ∷ fresh) = done (extend_sorted m (sort key_of (a ∷ b ∷ fresh)))

  -- `collect()` into a map.
  unfoldable pub from_iter : List (K × V) → Outcome (SortedVectorMap K V)
  unfolding extend_with_vec new
  from_iter items = extend_with_vec new items
