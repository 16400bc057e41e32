-- ===== src/SortedVectorSet/Algebra.antt =====
-- The set operations of set.rs against what a value finds in the two sets.
use rust_shed.Prelude.{
  ◌≡◌, refl, sym, subst, ap, ◌∙◌, Option, none, arith, Ord, Outcome, done, is_some, if◌then◌else◌,
  or_else,
}
use rust_shed.SortedVector.Sorted.{find}
use rust_shed.SortedVector.Iter.{MergeIter}
use rust_shed.SortedVectorSet.{SortedVectorSet, itself, from_iter}
use rust_shed.SortedVectorSet.Operations.{
  pick_next, operation_next, both, drained, rounds_left, pick_difference, pick_symmetric,
  pick_intersection, pick_union, difference_next, symmetric_difference_next, intersection_next,
  union_next, bitand, sub, bitxor, bitor,
}
use rust_shed.SortedVectorSet.Walk.{walk, Picks, pick_next-Picks, collect-walk}
use rust_shed.SortedVectorSet.WalkFind.{IsPick, walk-IsSorted, find-walk}
use rust_shed.SortedVectorSet.Changes.{IsValid}
use rust_shed.SortedVectorSet.Bulk.{from_iter_sorted}

module _ {ℓ} {T : Type ℓ} where
  pub difference-IsPick : IsPick {T = T} pick_difference
  unfolding pick_difference
  difference-IsPick = record { nothing = refl; chosen = λ x y t. ground arith }

  pub symmetric-IsPick : IsPick {T = T} pick_symmetric
  unfolding pick_symmetric
  symmetric-IsPick = record { nothing = refl; chosen = λ x y t. ground arith }

  pub intersection-IsPick : IsPick {T = T} pick_intersection
  unfolding pick_intersection
  intersection-IsPick = record { nothing = refl; chosen = λ x y t. ground arith }

  pub union-IsPick : IsPick {T = T} pick_union
  unfolding pick_union
  union-IsPick = record { nothing = refl; chosen = λ x y t. ground arith }

module _ {ℓ} {T : Type ℓ} ⦃o : Ord T⦄ where
  -- All that an iterator over two sets yields is the walk.
  pub drained-walk :
      (pick : Option T × Option T → Option T) (next : MergeIter T → Option T × MergeIter T)
      → ((it : MergeIter T) → next it ≡ pick_next operation_next pick (rounds_left it) it)
      → (s other : SortedVectorSet T) → drained next s other ≡ walk pick s other
  drained-walk pick next e s other =
      collect-walk pick (rounds_left (both s other)) next
        (λ it.
          subst (Picks pick it) (sym (e it))
            (pick_next-Picks pick (rounds_left it) it.left it.right (omega arith)))
        (both s other) (omega arith)

  -- An operation on two valid sets, collected into a set.
  operator_lem :
      (pick : Option T × Option T → Option T) (next : MergeIter T → Option T × MergeIter T)
      → IsPick pick
      → ((it : MergeIter T) → next it ≡ pick_next operation_next pick (rounds_left it) it)
      → (s other : SortedVectorSet T) → IsValid s
      → IsValid other
      → (r : SortedVectorSet T) × (drained next s other ≡ r)
        × (from_iter (drained next s other) ≡ done r)
        × IsValid r
        × ((q : T) → find itself q r ≡ pick (find itself q s, find itself q other))
  operator_lem pick next p e s other v w = (
    walk pick s other,
    walked,
    ap from_iter walked ∙ from_iter_sorted (walk pick s other) sorted,
    sorted,
    λ q. find-walk pick p q s other v w,
  )
    where
      walked : drained next s other ≡ walk pick s other
      walked = drained-walk pick next e s other

      sorted : IsValid (walk pick s other)
      sorted = walk-IsSorted pick p s other v w

  -- The outcome is a valid set, in which each value finds what `f` says.
  abbrev pub Yields : Outcome (SortedVectorSet T) → (T → Option T) → Type ℓ
  Yields out f =
      (r : SortedVectorSet T) × (out ≡ done r) × IsValid r × ((q : T) → find itself q r ≡ f q)

  yields :
      (pick : Option T × Option T → Option T) (next : MergeIter T → Option T × MergeIter T)
      → IsPick pick
      → ((it : MergeIter T) → next it ≡ pick_next operation_next pick (rounds_left it) it)
      → (s other : SortedVectorSet T) → IsValid s
      → IsValid other
      → Yields (from_iter (drained next s other)) (λ q. pick (find itself q s, find itself q other))
  yields pick next p e s other v w =
      let (r, _, collected, v', h) = operator_lem pick next p e s other v w in (r, collected, v', h)

  choose :
      (out : Outcome (SortedVectorSet T)) (f g : T → Option T)
      → ((q : T) → f q ≡ g q)
      → Yields out f
      → Yields out g
  choose out f g same (r, e, v, h) = (r, e, v, λ q. h q ∙ same q)

  pub is_intersection :
      (it : MergeIter T)
      → intersection_next it ≡ pick_next operation_next pick_intersection (rounds_left it) it
  unfolding intersection_next
  is_intersection it = refl

  pub is_difference :
      (it : MergeIter T)
      → difference_next it ≡ pick_next operation_next pick_difference (rounds_left it) it
  unfolding difference_next
  is_difference it = refl

  pub is_symmetric :
      (it : MergeIter T)
      → symmetric_difference_next it ≡ pick_next operation_next pick_symmetric (rounds_left it) it
  unfolding symmetric_difference_next
  is_symmetric it = refl

  pub is_union :
      (it : MergeIter T) → union_next it ≡ pick_next operation_next pick_union (rounds_left it) it
  unfolding union_next
  is_union it = refl

  pub intersection_pick :
      (x y : Option T) → pick_intersection (x, y) ≡ (if is_some y then x else none)
  unfolding pick_intersection
  intersection_pick x y = ground arith

  pub difference_pick : (x y : Option T) → pick_difference (x, y) ≡ (if is_some y then none else x)
  unfolding pick_difference
  difference_pick x y = ground arith

  symmetric_pick :
      (x y : Option T)
      → pick_symmetric (x, y) ≡ (if is_some y then (if is_some x then none else y) else x)
  unfolding pick_symmetric
  symmetric_pick x y = ground arith

  union_pick : (x y : Option T) → pick_union (x, y) ≡ or_else y x
  unfolding pick_union
  union_pick x y = ground arith

  -- On two valid sets the operators do not panic and give valid sets. In `s & other` a value finds
  -- what it does in `s` if it is in `other`; in `s - other` what it does in `s` if it is not in
  -- `other`; in `s ^ other` what it does in the one set that has it; and in `s | other` what it does
  -- in `other`, and otherwise in `s`.
  pub operators_correct :
      (s other : SortedVectorSet T)
      → IsValid s
      → IsValid other
      → Yields
          (bitand s other)
          (λ q. if is_some (find itself q other) then find itself q s else none)
        × Yields
            (sub s other)
            (λ q. if is_some (find itself q other) then none else find itself q s)
        × Yields (bitxor s other) (λ q.
          if is_some (find itself q other)
          then (if is_some (find itself q s) then none else find itself q other)
          else find itself q s)
        × Yields (bitor s other) (λ q. or_else (find itself q other) (find itself q s))
  unfolding bitand sub bitxor bitor
  operators_correct s other v w = (
    choose (bitand s other) (λ q. pick_intersection (find itself q s, find itself q other))
        (λ q. if is_some (find itself q other) then find itself q s else none)
        (λ q. intersection_pick (find itself q s) (find itself q other))
        (yields pick_intersection intersection_next intersection-IsPick is_intersection s other v
          w),
    choose (sub s other) (λ q. pick_difference (find itself q s, find itself q other))
        (λ q. if is_some (find itself q other) then none else find itself q s)
        (λ q. difference_pick (find itself q s) (find itself q other))
        (yields pick_difference difference_next difference-IsPick is_difference s other v w),
    choose (bitxor s other) (λ q. pick_symmetric (find itself q s, find itself q other))
        (λ q.
          if is_some (find itself q other)
          then (if is_some (find itself q s) then none else find itself q other)
          else find itself q s)
        (λ q. symmetric_pick (find itself q s) (find itself q other))
        (yields pick_symmetric symmetric_difference_next symmetric-IsPick is_symmetric s other v w),
    choose (bitor s other) (λ q. pick_union (find itself q s, find itself q other))
        (λ q. or_else (find itself q other) (find itself q s))
        (λ q. union_pick (find itself q s) (find itself q other))
        (yields pick_union union_next union-IsPick is_union s other v w),
  )
