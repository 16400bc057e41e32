-- ===== src/SortedVectorSet/Subset.antt =====
-- `is_disjoint`, `is_subset` and `is_superset` of set.rs, which ask whether an iterator over two sets
-- is empty.
use rust_shed.Prelude.{
  ◌≡◌, refl, sym, subst, ap, ◌∙◌, ◌↔◌, inl, inr, true, Option, none, some, List, ◌∷◌, arith, Ord,
  is_some, is_none, cmp_refl,
}
use rust_shed.SortedVector.Sorted.{find}
use rust_shed.SortedVector.Iter.{MergeIter}
use rust_shed.SortedVectorSet.{SortedVectorSet, itself}
use rust_shed.SortedVectorSet.Operations.{
  pick_next, operation_next, both, rounds_left, pick_difference, pick_intersection, difference_next,
  intersection_next, is_disjoint, is_subset, is_superset,
}
use rust_shed.SortedVectorSet.Walk.{walk, Picks, pick_next-Picks, next-walk}
use rust_shed.SortedVectorSet.WalkFind.{IsPick, find-walk}
use rust_shed.SortedVectorSet.Changes.{IsValid}
use rust_shed.SortedVectorSet.Algebra.{
  difference-IsPick, intersection-IsPick, is_intersection, is_difference,
}

module _ {ℓ} {T : Type ℓ} ⦃o : Ord T⦄ where
  find_head : (a : T) (ts : List T) → find itself a (a ∷ ts) ≡ some a
  find_head a ts = ground (arith, cmp_refl a)

  -- The first call of an iterator over two valid sets yields nothing exactly where the operation
  -- picks nothing of what any value finds in them.
  nothing_picked :
      (pick : Option T × Option T → Option T) (next : MergeIter T → Option T × MergeIter T)
      → IsPick pick
      → ((it : MergeIter T) → next it ≡ pick_next operation_next pick (rounds_left it) it)
      → (s other : SortedVectorSet T) → IsValid s
      → IsValid other
      → (is_none (next (both s other)).0 ≡ true)
        ↔ ((q : T) → pick (find itself q s, find itself q other) ≡ none)
  nothing_picked pick next p e s other v w =
      elim (next-walk pick (both s other) (next (both s other)) picks) [
        | inl (n, empty) ↦ (λ h q. sym (found q) ∙ ap (find itself q) empty, λ h. n)
        | inr (n, a, ts, more) ↦ (
          λ h. ground (arith, n, h),
          λ h. ground (arith, found a, ap (find itself a) more, find_head a ts, h a),
        )
      ]
    where
      picks : Picks pick (both s other) (next (both s other))
      picks =
          subst (Picks pick (both s other)) (sym (e (both s other)))
            (pick_next-Picks pick (rounds_left (both s other)) s other (omega arith))

      found :
          (q : T) → find itself q (walk pick s other) ≡ pick (find itself q s, find itself q other)
      found q = find-walk pick p q s other v w

  -- Every value that is in `s` is in `other`.
  abbrev pub Within : SortedVectorSet T → SortedVectorSet T → Type ℓ
  Within s other = (q : T) → is_some (find itself q s) ≡ true → is_some (find itself q other) ≡ true

  difference_none :
      (x y : Option T) → (pick_difference (x, y) ≡ none) ↔ (is_some x ≡ true → is_some y ≡ true)
  unfolding pick_difference
  difference_none none y = (λ e h. ground (arith, h), λ h. refl)
  difference_none (some a) none = (λ e h. ground (arith, e), λ h. ground (arith, h refl))
  difference_none (some a) (some b) = (λ e h. refl, λ h. refl)

  no_difference :
      (s other : SortedVectorSet T)
      → IsValid s
      → IsValid other
      → (is_none (difference_next (both s other)).0 ≡ true) ↔ Within s other
  no_difference s other v w =
      let (f, g) =
        nothing_picked pick_difference difference_next difference-IsPick is_difference s other v
          w in
      (
        λ h q. (difference_none (find itself q s) (find itself q other)).0 (f h q),
        λ h. g (λ q. (difference_none (find itself q s) (find itself q other)).1 (h q)),
      )

  -- On two valid sets, `s.is_subset(other)` is true exactly where every value of `other` is in `s`,
  -- and `s.is_superset(other)` exactly where every value of `s` is in `other`.
  pub is_subset_correct :
      (s other : SortedVectorSet T)
      → IsValid s
      → IsValid other
      → ((is_subset s other ≡ true) ↔ Within other s)
        × ((is_superset s other ≡ true) ↔ Within s other)
  unfolding is_subset is_superset
  is_subset_correct s other v w = (no_difference other s w v, no_difference s other v w)

  intersection_none :
      (x y : Option T) → (pick_intersection (x, y) ≡ none) ↔ (is_some x ≡ true → is_none y ≡ true)
  unfolding pick_intersection
  intersection_none none y = (λ e h. ground (arith, h), λ h. refl)
  intersection_none (some a) none = (λ e h. refl, λ h. refl)
  intersection_none (some a) (some b) = (λ e h. ground (arith, e), λ h. ground (arith, h refl))

  -- On two valid sets, `is_disjoint` is true exactly where no value of `s` is in `other`.
  pub is_disjoint_correct :
      (s other : SortedVectorSet T)
      → IsValid s
      → IsValid other
      → (is_disjoint s other ≡ true)
        ↔ ((q : T) → is_some (find itself q s) ≡ true → is_none (find itself q other) ≡ true)
  unfolding is_disjoint
  is_disjoint_correct s other v w =
      let (f, g) =
        nothing_picked pick_intersection intersection_next intersection-IsPick is_intersection s
          other v w in
      (
        λ h q. (intersection_none (find itself q s) (find itself q other)).0 (f h q),
        λ h. g (λ q. (intersection_none (find itself q s) (find itself q other)).1 (h q)),
      )
