-- ===== src/SortedVectorMap/Bulk.antt =====
-- `append`, `extend_with_vec` and `from_iter` of map.rs. The shortcuts for one item, an empty map
-- and greater keys are shown to agree with the merge.
use mathlib.Core.Option
use rust_shed.Prelude.{
  ◌≡◌, refl, ap, ◌∙◌, subst, inl, inr, Option, List, [], ◌∷◌, arith, Ord, done, is_lt, Bool-cases,
  or_else,
}
use rust_shed.SortedVector.Sorted.{find}
use rust_shed.SortedVector.Update.{find-upsert}
use rust_shed.SortedVector.Iter.{merge_collect}
use rust_shed.SortedVector.Ascending.{IsAscending, latest, latest-find, IsSorted-IsAscending}
use rust_shed.SortedVector.Merge.{merge_collect-IsSorted, find-merge_collect}
use rust_shed.SortedVector.Sort.{sort, sort-IsAscending, latest-sort}
use rust_shed.SortedVector.Extend.{
  dedup_from_first_lem, dedup_collect-merge, append-dedup, All-last,
}
use rust_shed.SortedVectorMap.{
  SortedVectorMap, key_of, append, extend_sorted, extend_with_vec, from_iter, new,
}
use rust_shed.SortedVectorMap.Reads.{IsValid, lookup}
use rust_shed.SortedVectorMap.Writes.{put, put-IsValid, with_value, insert_lem, last_cases}

module _ {ℓ κ} {K : Type ℓ} {V : Type κ} ⦃o : Ord K⦄ where
  append_merges :
      (e : K × V) (m : SortedVectorMap K V) (other : SortedVectorMap K V)
      → IsValid (e ∷ m)
      → IsValid other
      → IsValid (merge_collect key_of (e ∷ m) other)
        × ((q : K)
            → find key_of q (merge_collect key_of (e ∷ m) other)
              ≡ or_else (find key_of q other) (find key_of q (e ∷ m)))
  append_merges e m other s t =
      let a = IsSorted-IsAscending key_of other t in
      (
        merge_collect-IsSorted key_of (e ∷ m) other s a,
        λ q.
            subst
              (λ f.
                find key_of q (merge_collect key_of (e ∷ m) other)
                ≡ or_else f (find key_of q (e ∷ m)))
              (latest-find key_of q other t) (find-merge_collect key_of (e ∷ m) other q s a),
      )

  -- `append` of a valid map leaves a valid map, in which each key finds what it did in `other`, and
  -- otherwise what it did in `self`; `other` is left empty.
  pub append_correct :
      (m other : SortedVectorMap K V)
      → IsValid m
      → IsValid other
      → IsValid (append m other).0
        × ((append m other).1 ≡ [])
        × ((q : K)
            → find key_of q (append m other).0 ≡ or_else (find key_of q other) (find key_of q m))
  unfolding append
  append_correct m [] s t = (s, refl, λ q. refl)
  append_correct [] (b ∷ other) s t = (t, refl, λ q. ground arith)
  append_correct (e ∷ m) (b ∷ other) s t =
      let (valid, finds) = append_merges e m (b ∷ other) s t in (valid, refl, finds)

  -- Two new items or more are merged in, whichever shortcut `extend_with_vec` takes.
  pub extend_sorted_lem :
      (m fresh : SortedVectorMap K V)
      → IsValid m
      → IsAscending key_of fresh
      → extend_sorted m fresh ≡ merge_collect key_of m fresh
  unfolding extend_sorted
  extend_sorted_lem [] fresh s a =
      dedup_from_first_lem key_of fresh a ∙ dedup_collect-merge key_of fresh
  extend_sorted_lem (e ∷ m) [] s a = ground arith
  extend_sorted_lem (e ∷ m) (b ∷ fresh) s a =
      let (x, h) = last_cases e m in
      elim (Bool-cases (is_lt (o.cmp x.0 b.0))) [
        | inl l ↦ ground (
          arith,
          h,
          dedup_from_first_lem key_of (b ∷ fresh) a,
          append-dedup key_of (e ∷ m) b fresh (All-last key_of b.0 (e ∷ m) s h (ground arith)),
        )
        | inr l ↦ ground (arith, h)
      ]

  -- The last value that the new items have for a key.
  abbrev pub latest_value : List (K × V) → K → Option V
  latest_value fresh q = Option.map (λ e. e.1) (latest key_of q fresh)

  pub extend_one :
      (m : SortedVectorMap K V) (k : K) (v : V) (q : K)
      → IsValid m
      → lookup (put m k v) q ≡ or_else (latest_value ((k, v) ∷ []) q) (lookup m q)
  extend_one m k v q s = ground (arith, find-upsert key_of (with_value v) (k, v) q m (λ e h. h) s)

  pub find-extend :
      (m : SortedVectorMap K V) (fresh : List (K × V)) (q : K)
      → IsValid m
      → find key_of q (merge_collect key_of m (sort key_of fresh))
        ≡ or_else (latest key_of q fresh) (find key_of q m)
  find-extend m fresh q s =
      subst
        (λ f.
          find key_of q (merge_collect key_of m (sort key_of fresh)) ≡ or_else f (find key_of q m))
        (latest-sort key_of q fresh)
        (find-merge_collect key_of m (sort key_of fresh) q s (sort-IsAscending key_of fresh))

  -- `extend_with_vec` of a valid map does not panic and leaves a valid map. A key that the new items
  -- hold finds the last of their values for it, and every other key what it did.
  pub extend_with_vec_correct :
      (m : SortedVectorMap K V) (fresh : List (K × V))
      → IsValid m
      → (m' : SortedVectorMap K V) × (extend_with_vec m fresh ≡ done m')
        × IsValid m'
        × ((q : K) → lookup m' q ≡ or_else (latest_value fresh q) (lookup m q))
  unfolding extend_with_vec
  extend_with_vec_correct m [] s = (m, refl, s, λ q. refl)
  extend_with_vec_correct m ((k, v) ∷ []) s = (
    put m k v,
    ground (arith, insert_lem m k v s),
    put-IsValid m k v s,
    λ q. extend_one m k v q s,
  )
  extend_with_vec_correct m (a ∷ b ∷ fresh) s =
      let items = a ∷ b ∷ fresh in
      let ascending = sort-IsAscending key_of items in
      (
        merge_collect key_of m (sort key_of items),
        ap done (extend_sorted_lem m (sort key_of items) s ascending),
        merge_collect-IsSorted key_of m (sort key_of items) s ascending,
        λ q. ground (arith, find-extend m items q s),
      )

  -- Collecting items into a map does not panic and gives a valid map, in which each key finds the
  -- last value that the items hold for it.
  pub from_iter_correct :
      (items : List (K × V))
      → (m : SortedVectorMap K V) × (from_iter items ≡ done m)
        × IsValid m
        × ((q : K) → lookup m q ≡ latest_value items q)
  unfolding from_iter new
  from_iter_correct items =
      let (m, e, s, h) = extend_with_vec_correct [] items tt in (m, e, s, λ q. ground (arith, h q))
