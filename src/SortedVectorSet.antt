-- ===== src/SortedVectorSet.antt =====
-- shed/sorted_vector_map/src/set.rs: `SortedVectorSet`, a vector of values in strictly ascending
-- order. The code of its search, its iterators and its sort is that of the map with the value in
-- the place of the key, and so is the model.
pub mod Operations
pub mod Walk
pub mod WalkFind
pub mod Changes
pub mod Bulk
pub mod Algebra
pub mod Subset
pub mod Ranges
pub mod SizeHints
use Prim.Native.Nat.Ordering.{lt, eq, gt}
use rust_shed.Prelude.{
  ℕ, zero, suc, ◌+◌, ◌≡◌, Bool, true, false, Option, none, some, List, [], ◌∷◌, ◌++◌, Ord, Outcome,
  done, panic, ◌>>=◌, index, insert_at, remove_at, slice, split_off as vec_split_off, pop, set,
  length, first, last, ltb, is_lt, is_some, is_none, if◌then◌else◌,
}
use rust_shed.SortedVector.Search.{IndexResult, ok, err, binary_search_by}
use rust_shed.SortedVector.Iter.{MergeIter, SizeHint}
use rust_shed.SortedVector.Iter
use rust_shed.SortedVector.Sort
use rust_shed.SortedVector.Extend
use rust_shed.SortedVector.Cut.{select}
use rust_shed.SortedVector.Range.{Bound, unbounded, included, excluded}

-- The tuple struct's one field.
abbrev pub SortedVectorSet {ℓ} : Type ℓ → Type ℓ
SortedVectorSet T = List T

module _ {ℓ} {T : Type ℓ} where
  -- A value is its own key.
  abbrev pub itself : T → T
  itself t = t

  unfoldable pub new : SortedVectorSet T
  new = []

  unfoldable pub is_empty : SortedVectorSet T → Bool
  is_empty [] = true
  is_empty (t ∷ s) = false

  unfoldable pub pop_last : SortedVectorSet T → Option T × SortedVectorSet T
  pop_last s = pop s

  -- `Vec::retain` with a closure that keeps no state.
  unfoldable pub retain : (T → Bool) → SortedVectorSet T → SortedVectorSet T
  retain f s = select f s

module _ {ℓ} {T : Type ℓ} ⦃o : Ord T⦄ where
  unfoldable pub find_index : SortedVectorSet T → T → IndexResult
  find_index s q = binary_search_by s (λ e. o.cmp e q)

  unfoldable pub contains : SortedVectorSet T → T → Bool
  contains s q = elim (find_index s q) [ ok i ↦ true | err i ↦ false ]

  unfoldable pub get : SortedVectorSet T → T → Outcome (Option T)
  get s q = elim (find_index s q) [ ok i ↦ do e ← index s i; done (some e) | err i ↦ done none ]

  unfoldable pub range_index_start : SortedVectorSet T → Bound T → ℕ
  range_index_start s unbounded = 0
  range_index_start s (included q) = elim (find_index s q) [ ok i ↦ i | err i ↦ i ]
  range_index_start s (excluded q) = elim (find_index s q) [ ok i ↦ i + 1 | err i ↦ i ]

  unfoldable pub range_index_end : SortedVectorSet T → Bound T → ℕ
  range_index_end s unbounded = length s
  range_index_end s (included q) = elim (find_index s q) [ ok i ↦ i + 1 | err i ↦ i ]
  range_index_end s (excluded q) = elim (find_index s q) [ ok i ↦ i | err i ↦ i ]

  unfoldable pub range : SortedVectorSet T → Bound T → Bound T → Outcome (List T)
  range s lo hi =
      let start = range_index_start s lo in
      let end = range_index_end s hi in if ltb end start then panic else slice s start end

  -- The search of `replace` when the value is not greater than the last one.
  replace_found : SortedVectorSet T → T → IndexResult → Outcome (SortedVectorSet T × Option T)
  replace_found s value (ok i) = do e ← index s i; done (set s i value, some e)
  replace_found s value (err i) = do s' ← insert_at s i value; done (s', none)

  unfoldable pub replace : SortedVectorSet T → T → Outcome (SortedVectorSet T × Option T)
  unfolding replace_found find_index
  replace s value = elim (last s) [
    | none ↦ done (s ++ value ∷ [], none)
    | some e ↦
        if is_lt (o.cmp e value)
        then done (s ++ value ∷ [], none)
        else replace_found s value (find_index s value)
  ]

  unfoldable pub insert : SortedVectorSet T → T → Outcome (SortedVectorSet T × Bool)
  insert s value = do r ← replace s value; done (r.0, is_none r.1)

  unfoldable pub take : SortedVectorSet T → T → Outcome (SortedVectorSet T × Option T)
  take s value = elim (find_index s value) [
    | ok i ↦ do r ← remove_at s i; done (r.1, some r.0)
    | err i ↦ done (s, none)
  ]

  unfoldable pub remove : SortedVectorSet T → T → Outcome (SortedVectorSet T × Bool)
  remove s value = do r ← take s value; done (r.0, is_some r.1)

  unfoldable pub dedup_next : List T → Option T × List T
  dedup_next = Iter.dedup_next itself

  unfoldable pub merge_next : MergeIter T → Option T × MergeIter T
  merge_next = Iter.merge_next itself

  unfoldable pub merge_size_hint : MergeIter T → SizeHint
  merge_size_hint = Iter.merge_size_hint itself

  -- Both sets as the call leaves them.
  unfoldable pub append :
      SortedVectorSet T → SortedVectorSet T → SortedVectorSet T × SortedVectorSet T
  unfolding is_empty
  append s other =
      if is_empty other
      then (s, other)
      else if is_empty s
      then (other, s)
      else (Iter.merge_collect itself s other, [])

  -- What stays in the set, and what is returned.
  unfoldable pub split_off : SortedVectorSet T → T → Outcome (SortedVectorSet T × SortedVectorSet T)
  split_off s q = elim (find_index s q) [ ok i ↦ vec_split_off s i | err i ↦ vec_split_off s i ]

  -- After the sort.
  unfoldable pub extend_sorted : SortedVectorSet T → List T → SortedVectorSet T
  extend_sorted [] fresh = Extend.dedup_from_first itself fresh
  extend_sorted (e ∷ s) fresh = elim (last (e ∷ s)) [
    | none ↦ Iter.merge_collect itself (e ∷ s) fresh
    | some self_last ↦ elim (first fresh) [
      | none ↦ Iter.merge_collect itself (e ∷ s) fresh
      | some new_first ↦
          if is_lt (o.cmp self_last new_first)
          then (e ∷ s) ++ Extend.dedup_from_first itself fresh
          else Iter.merge_collect itself (e ∷ s) fresh
    ]
  ]

  unfoldable pub extend_with_vec : SortedVectorSet T → List T → Outcome (SortedVectorSet T)
  unfolding extend_sorted insert
  extend_with_vec s [] = done s
  extend_with_vec s (item ∷ []) = do r ← insert s item; done r.0
  extend_with_vec s (a ∷ b ∷ fresh) = done (extend_sorted s (Sort.sort itself (a ∷ b ∷ fresh)))

  -- `collect()` into a set.
  unfoldable pub from_iter : List T → Outcome (SortedVectorSet T)
  unfolding extend_with_vec new
  from_iter items = extend_with_vec new items
