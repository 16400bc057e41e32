-- ===== src/SortedVectorSet/Operations.antt =====
-- The set operations of set.rs: `OperationInner` walks two sets at once, and `Difference`,
-- `SymmetricDifference`, `Intersection` and `Union` pick from what it yields.
use Prim.Native.Nat.Ordering.{lt, eq, gt}
use rust_shed.Prelude.{
  ℕ, zero, suc, ◌+◌, ◌-◌, min, max, Bool, Option, none, some, List, Ord, Outcome, is_none, length,
  first,
}
use rust_shed.SortedVector.Iter.{MergeIter, SizeHint, checked_add, collect, tail, merge_order}
use rust_shed.SortedVectorSet.{SortedVectorSet, itself, from_iter}

-- `for next in inner { match next { … => return Some(x), _ => continue } } None`, with `pick` for
-- the arms. The fuel bounds the rounds.
unfoldable pub pick_next {ℓ κ μ} :
    {S : Type ℓ} {P : Type κ} {A : Type μ}
    → (S → Option P × S)
    → (P → Option A)
    → ℕ
    → S
    → Option A × S
pick_next next pick zero s = (none, s)
pick_next next pick (suc fuel) s =
    let (item, t) = next s in
    elim item [
      | none ↦ (none, t)
      | some p ↦ elim (pick p) [ none ↦ pick_next next pick fuel t | some a ↦ (some a, t) ]
    ]

module _ {ℓ} {T : Type ℓ} where
  -- The arms of the four `next` methods.
  unfoldable pub pick_difference : Option T × Option T → Option T
  pick_difference (some left, none) = some left
  pick_difference (_, _) = none

  unfoldable pub pick_symmetric : Option T × Option T → Option T
  pick_symmetric (some left, none) = some left
  pick_symmetric (none, some right) = some right
  pick_symmetric (_, _) = none

  unfoldable pub pick_intersection : Option T × Option T → Option T
  pick_intersection (some left, some right) = some left
  pick_intersection (_, _) = none

  unfoldable pub pick_union : Option T × Option T → Option T
  pick_union (left, some right) = some right
  pick_union (some left, none) = some left
  pick_union (none, none) = none

  -- The rounds that are left at most: one for each value, and one to see the end.
  abbrev pub rounds_left : MergeIter T → ℕ
  rounds_left it = suc (length it.left + length it.right)

  unfoldable pub difference_size_hint : MergeIter T → SizeHint
  difference_size_hint it = (length it.left - length it.right, some (length it.left))

  unfoldable pub symmetric_difference_size_hint : MergeIter T → SizeHint
  symmetric_difference_size_hint it = (0, checked_add (length it.left) (length it.right))

  unfoldable pub intersection_size_hint : MergeIter T → SizeHint
  intersection_size_hint it = (0, some (min (length it.left) (length it.right)))

  unfoldable pub union_size_hint : MergeIter T → SizeHint
  union_size_hint it =
      (max (length it.left) (length it.right), checked_add (length it.left) (length it.right))

module _ {ℓ} {T : Type ℓ} ⦃o : Ord T⦄ where
  unfoldable pub operation_next : MergeIter T → Option (Option T × Option T) × MergeIter T
  unfolding merge_order
  operation_next it = elim (merge_order itself it) [
    | none ↦ (none, it)
    | some lt ↦ (some (first it.left, none), record it { left = tail it.left })
    | some gt ↦ (some (none, first it.right), record it { right = tail it.right })
    | some eq ↦ (
      some (first it.left, first it.right),
      record { left = tail it.left; right = tail it.right },
    )
  ]

  unfoldable pub difference_next : MergeIter T → Option T × MergeIter T
  difference_next it = pick_next operation_next pick_difference (rounds_left it) it

  unfoldable pub symmetric_difference_next : MergeIter T → Option T × MergeIter T
  symmetric_difference_next it = pick_next operation_next pick_symmetric (rounds_left it) it

  unfoldable pub intersection_next : MergeIter T → Option T × MergeIter T
  intersection_next it = pick_next operation_next pick_intersection (rounds_left it) it

  unfoldable pub union_next : MergeIter T → Option T × MergeIter T
  union_next it = pick_next operation_next pick_union (rounds_left it) it

  -- `self.difference(other)` and the others, before the first `next`.
  abbrev pub both : SortedVectorSet T → SortedVectorSet T → MergeIter T
  both s other = record { left = s; right = other }

  -- All that an iterator over two sets yields.
  abbrev pub drained :
      (MergeIter T → Option T × MergeIter T) → SortedVectorSet T → SortedVectorSet T → List T
  drained next s other = collect next (rounds_left (both s other)) (both s other)

  unfoldable pub is_disjoint : SortedVectorSet T → SortedVectorSet T → Bool
  is_disjoint s other = is_none (intersection_next (both s other)).0

  unfoldable pub is_subset : SortedVectorSet T → SortedVectorSet T → Bool
  is_subset s other = is_none (difference_next (both other s)).0

  unfoldable pub is_superset : SortedVectorSet T → SortedVectorSet T → Bool
  unfolding is_subset
  is_superset s other = is_subset other s

  -- The operators `&`, `-`, `^` and `|`.
  unfoldable pub bitand : SortedVectorSet T → SortedVectorSet T → Outcome (SortedVectorSet T)
  bitand s rhs = from_iter (drained intersection_next s rhs)

  unfoldable pub sub : SortedVectorSet T → SortedVectorSet T → Outcome (SortedVectorSet T)
  sub s rhs = from_iter (drained difference_next s rhs)

  unfoldable pub bitxor : SortedVectorSet T → SortedVectorSet T → Outcome (SortedVectorSet T)
  bitxor s rhs = from_iter (drained symmetric_difference_next s rhs)

  unfoldable pub bitor : SortedVectorSet T → SortedVectorSet T → Outcome (SortedVectorSet T)
  bitor s rhs = from_iter (drained union_next s rhs)
