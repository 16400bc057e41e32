-- ===== src/SortedVectorMap/Contents.antt =====
-- What a map holds that is made from items: collecting the entries of a map gives the map back, and
-- the macro `sorted_vector_map!` of map.rs inserts pairs one by one.
use mathlib.Core.Option
use rust_shed.Prelude.{
  ◌≡◌, refl, ap, ◌∙◌, List, [], ◌∷◌, arith, Ord, Outcome, done, ◌>>=◌, or_else, is_eq,
  if◌then◌else◌, length, Option, none, some,
}
use rust_shed.SortedVector.Sorted.{find}
use rust_shed.SortedVector.Update.{find-upsert}
use rust_shed.SortedVector.Ascending.{latest-find}
use rust_shed.SortedVector.Iter.{merge_collect}
use rust_shed.SortedVector.Merge.{merge_collect-IsSorted}
use rust_shed.SortedVector.Sort.{sort, sort-IsAscending}
use rust_shed.SortedVector.Extensional.{sorted_ext}
use rust_shed.SortedVectorMap.{
  SortedVectorMap, key_of, from_iter, into_inner, extend_with_vec, new, with_capacity, insert,
}
use rust_shed.SortedVectorMap.Reads.{IsValid, lookup}
use rust_shed.SortedVectorMap.Writes.{put, put-IsValid, insert_lem, with_value}
use rust_shed.SortedVectorMap.Bulk.{
  extend_sorted_lem, find-extend, latest_value, extend_one, from_iter_correct,
}

module _ {ℓ κ} {K : Type ℓ} {V : Type κ} ⦃o : Ord K⦄ where
  collect_lem : (m : SortedVectorMap K V) → IsValid m → merge_collect key_of [] (sort key_of m) ≡ m
  collect_lem m s =
      sorted_ext key_of _ m
        (merge_collect-IsSorted key_of [] (sort key_of m) tt (sort-IsAscending key_of m)) s
        (λ q. ground (arith, find-extend [] m q tt, latest-find key_of q m s))

  -- Collecting the entries of a valid map into a map gives that map.
  pub from_iter-into_inner :
      (m : SortedVectorMap K V) → IsValid m → from_iter (into_inner m) ≡ done m
  unfolding from_iter into_inner new extend_with_vec insert
  from_iter-into_inner [] s = refl
  from_iter-into_inner (e ∷ []) s = refl
  from_iter-into_inner (a ∷ b ∷ m) s = ap done (
      extend_sorted_lem [] (sort key_of (a ∷ b ∷ m)) tt (sort-IsAscending key_of (a ∷ b ∷ m))
      ∙ collect_lem (a ∷ b ∷ m) s)

  -- One `insert` for each pair, in order.
  unfoldable pub insert_pairs : List (K × V) → SortedVectorMap K V → Outcome (SortedVectorMap K V)
  insert_pairs [] m = done m
  insert_pairs ((k, v) ∷ pairs) m = do r ← insert m k v; insert_pairs pairs r.0

  -- The macro `sorted_vector_map!`.
  unfoldable pub sorted_vector_map : List (K × V) → Outcome (SortedVectorMap K V)
  unfolding insert_pairs
  sorted_vector_map pairs =
      let size = length pairs in let map = with_capacity size in insert_pairs pairs map

  -- The first key among the pairs that is equal to the one that is looked for.
  abbrev pub first_key : List (K × V) → K → Option K
  first_key [] q = none
  first_key ((k, v) ∷ pairs) q = if is_eq (o.cmp k q) then some k else first_key pairs q

  -- The key that is stored for `q`.
  abbrev pub stored_key : SortedVectorMap K V → K → Option K
  stored_key m q = Option.map (λ e. e.0) (find key_of q m)

  stored_key-put :
      (m : SortedVectorMap K V) (k : K) (v : V) (q : K)
      → IsValid m
      → stored_key (put m k v) q ≡ or_else (stored_key m q) (first_key ((k, v) ∷ []) q)
  stored_key-put m k v q s =
      ground (arith, find-upsert key_of (with_value v) (k, v) q m (λ e h. h) s)

  insert_pairs_lem :
      (pairs : List (K × V)) (m : SortedVectorMap K V)
      → IsValid m
      → (m' : SortedVectorMap K V) × (insert_pairs pairs m ≡ done m')
        × IsValid m'
        × ((q : K) → lookup m' q ≡ or_else (latest_value pairs q) (lookup m q))
        × ((q : K) → stored_key m' q ≡ or_else (stored_key m q) (first_key pairs q))
  unfolding insert_pairs
  insert_pairs_lem [] m s = (m, refl, s, λ q. refl, λ q. ground arith)
  insert_pairs_lem ((k, v) ∷ pairs) m s =
      let (m', e, t, h, g) = insert_pairs_lem pairs (put m k v) (put-IsValid m k v s) in
      (
        m',
        ground (arith, insert_lem m k v s, e),
        t,
        λ q. ground (arith, h q, extend_one m k v q s),
        λ q. ground (arith, g q, stored_key-put m k v q s),
      )

  -- The macro does not panic and leaves a valid map. A key finds the last value that the pairs hold
  -- for it, as in the map that is collected from the same pairs, and it is stored as the first of the
  -- equal keys among the pairs.
  pub sorted_vector_map_correct :
      (pairs : List (K × V))
      → (m : SortedVectorMap K V) × (sorted_vector_map pairs ≡ done m)
        × IsValid m
        × ((q : K) → lookup m q ≡ latest_value pairs q)
        × ((q : K) → stored_key m q ≡ first_key pairs q)
        × ((c : SortedVectorMap K V) × (from_iter pairs ≡ done c)
            × ((q : K) → lookup c q ≡ lookup m q))
  unfolding sorted_vector_map with_capacity
  sorted_vector_map_correct pairs =
      let (m, e, s, h, g) = insert_pairs_lem pairs [] tt in
      let (c, d, t, l) = from_iter_correct pairs in
      (
        m,
        e,
        s,
        λ q. ground (arith, h q),
        λ q. ground (arith, g q),
        (c, d, λ q. ground (arith, l q, h q)),
      )
