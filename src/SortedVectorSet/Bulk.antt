-- ===== src/SortedVectorSet/Bulk.antt =====
-- `append`, `extend_with_vec` and `from_iter` of set.rs, whose shortcuts agree with the merge, and
-- `range` and `split_off`.
use rust_shed.Prelude.{
  ◌≡◌, refl, ap, ◌∙◌, subst, inl, inr, List, [], ◌∷◌, arith, Ord, done, is_lt, Bool-cases, or_else,
}
use rust_shed.SortedVector.Sorted.{find}
use rust_shed.SortedVector.Iter.{merge_collect}
use rust_shed.SortedVector.Ascending.{IsAscending, latest, latest-find, IsSorted-IsAscending}
use rust_shed.SortedVector.Merge.{merge_collect-IsSorted, find-merge_collect}
use rust_shed.SortedVector.Sort.{sort, sort-IsAscending, latest-sort}
use rust_shed.SortedVector.Extensional.{sorted_ext}
use rust_shed.SortedVector.Extend.{
  dedup_from_first_lem, dedup_collect-merge, append-dedup, All-last,
}
use rust_shed.SortedVectorSet.{
  SortedVectorSet, itself, append, extend_sorted, extend_with_vec, from_iter, new,
}
use rust_shed.SortedVectorSet.Changes.{IsValid, put, put-IsValid, find-put, replace_lem, last_cases}

module _ {ℓ} {T : Type ℓ} ⦃o : Ord T⦄ where
  -- `append` of a valid set leaves a valid set, in which each value finds what it did in `other`, and
  -- otherwise what it did in `self`; `other` is left empty.
  pub append_set_correct :
      (s other : SortedVectorSet T)
      → IsValid s
      → IsValid other
      → IsValid (append s other).0
        × ((append s other).1 ≡ [])
        × ((q : T)
            → find itself q (append s other).0 ≡ or_else (find itself q other) (find itself q s))
  unfolding append
  append_set_correct s [] v w = (v, refl, λ q. refl)
  append_set_correct [] (b ∷ other) v w = (w, refl, λ q. ground arith)
  append_set_correct (e ∷ s) (b ∷ other) v w =
      let a = IsSorted-IsAscending itself (b ∷ other) w in
      let merged = merge_collect itself (e ∷ s) (b ∷ other) in
      (
        merge_collect-IsSorted itself (e ∷ s) (b ∷ other) v a,
        refl,
        λ q.
            subst (λ f. find itself q merged ≡ or_else f (find itself q (e ∷ s)))
              (latest-find itself q (b ∷ other) w)
              (find-merge_collect itself (e ∷ s) (b ∷ other) q v a),
      )

  -- Two new values or more are merged in, whichever shortcut `extend_with_vec` takes.
  extend_sorted_lem :
      (s fresh : SortedVectorSet T)
      → IsValid s
      → IsAscending itself fresh
      → extend_sorted s fresh ≡ merge_collect itself s fresh
  unfolding extend_sorted
  extend_sorted_lem [] fresh v a =
      dedup_from_first_lem itself fresh a ∙ dedup_collect-merge itself fresh
  extend_sorted_lem (e ∷ s) [] v a = ground arith
  extend_sorted_lem (e ∷ s) (b ∷ fresh) v a =
      let (x, h) = last_cases e s in
      elim (Bool-cases (is_lt (o.cmp x b))) [
        | inl l ↦ ground (
          arith,
          h,
          dedup_from_first_lem itself (b ∷ fresh) a,
          append-dedup itself (e ∷ s) b fresh (All-last itself b (e ∷ s) v h (ground arith)),
        )
        | inr l ↦ ground (arith, h)
      ]

  find-extend :
      (s : SortedVectorSet T) (fresh : List T) (q : T)
      → IsValid s
      → find itself q (merge_collect itself s (sort itself fresh))
        ≡ or_else (latest itself q fresh) (find itself q s)
  find-extend s fresh q v =
      subst
        (λ f.
          find itself q (merge_collect itself s (sort itself fresh)) ≡ or_else f (find itself q s))
        (latest-sort itself q fresh)
        (find-merge_collect itself s (sort itself fresh) q v (sort-IsAscending itself fresh))

  -- `extend_with_vec` of a valid set does not panic and leaves a valid set. A value finds the last of
  -- the new ones that compares equal, and otherwise what it did.
  pub extend_set_correct :
      (s : SortedVectorSet T) (fresh : List T)
      → IsValid s
      → (s' : SortedVectorSet T) × (extend_with_vec s fresh ≡ done s')
        × IsValid s'
        × ((q : T) → find itself q s' ≡ or_else (latest itself q fresh) (find itself q s))
  unfolding extend_with_vec
  extend_set_correct s [] v = (s, refl, v, λ q. refl)
  extend_set_correct s (t ∷ []) v = (
    put s t,
    ground (arith, replace_lem s t v),
    put-IsValid s t v,
    λ q. ground (arith, find-put s t q v),
  )
  extend_set_correct s (a ∷ b ∷ fresh) v =
      let items = a ∷ b ∷ fresh in
      let ascending = sort-IsAscending itself items in
      (
        merge_collect itself s (sort itself items),
        ap done (extend_sorted_lem s (sort itself items) v ascending),
        merge_collect-IsSorted itself s (sort itself items) v ascending,
        λ q. find-extend s items q v,
      )

  -- Collecting the values of a valid set, in order, gives the set.
  pub from_iter_sorted : (s : SortedVectorSet T) → IsValid s → from_iter s ≡ done s
  unfolding from_iter new
  from_iter_sorted s v =
      let (s', e, v', h) = extend_set_correct [] s tt in
      e ∙ ap done (sorted_ext itself s' s v' v (λ q. ground (arith, h q, latest-find itself q s v)))
