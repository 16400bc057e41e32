-- ===== src/SortedVector/Iter.antt =====
-- The iterators behind `append` and `extend`: `DedupIter` and `MergeIter` of map.rs. (set.rs has
-- them over values.) A `Peekable` over a vector is the list of what it has yet to return.
use Prim.Native.Nat.Ordering.{lt, eq, gt}
use rust_shed.Prelude.{
  ℕ, zero, suc, ◌+◌, ◌^◌, min, max, Ordering, Option, none, some, List, [], ◌∷◌, Ord, is_gt, ltb,
  if◌then◌else◌, length, first,
}

abbrev pub tail {ℓ} : {A : Type ℓ} → List A → List A
tail [] = []
tail (x ∷ xs) = xs

-- What `Iterator::size_hint` returns: a lower bound, and an upper bound if one is known.
abbrev pub SizeHint : Type 0
SizeHint = ℕ × Option ℕ

-- `usize::checked_add`
abbrev pub checked_add : ℕ → ℕ → Option ℕ
checked_add a b = if ltb (a + b) (2 ^ 64) then some (a + b) else none

-- The hint of a vector's iterator is exact.
abbrev pub exact_hint {ℓ} : {A : Type ℓ} → List A → SizeHint
exact_hint xs = (length xs, some (length xs))

-- `collect`: call `next` until it returns nothing, at most `fuel` times.
unfoldable pub collect {ℓ κ} : {S : Type κ} {A : Type ℓ} → (S → Option A × S) → ℕ → S → List A
collect next zero s = []
collect next (suc fuel) s =
    let (item, t) = next s in elim item [ none ↦ [] | some a ↦ a ∷ collect next fuel t ]

pub record MergeIter {ℓ} (E : Type ℓ) : Type ℓ where
  pub left : List E
  pub right : List E

module _ {ℓ κ} {E : Type ℓ} {K : Type κ} ⦃o : Ord K⦄ (key : E → K) where
  -- The `while let` of `DedupIter::next`: as long as the entry behind is not greater, take it instead.
  unfoldable pub skip_dups : E → List E → E × List E
  skip_dups next [] = (next, [])
  skip_dups next (after ∷ iter) =
      if is_gt (o.cmp (key after) (key next)) then (next, after ∷ iter) else skip_dups after iter

  unfoldable pub dedup_next : List E → Option E × List E
  dedup_next [] = (none, [])
  dedup_next (e ∷ iter) = let (next, rest) = skip_dups e iter in (some next, rest)

  unfoldable pub dedup_size_hint : List E → SizeHint
  dedup_size_hint iter = (min (length iter) 1, some (length iter))

  -- Which side comes next; `none` if both are at their end.
  unfoldable pub merge_order : MergeIter E → Option Ordering
  merge_order it = elim it.left [
    | [] ↦ elim it.right [ [] ↦ none | b ∷ r ↦ some gt ]
    | a ∷ l ↦ elim it.right [ [] ↦ some lt | b ∷ r ↦ some (o.cmp (key a) (key b)) ]
  ]

  unfoldable pub merge_next : MergeIter E → Option E × MergeIter E
  unfolding merge_order dedup_next
  merge_next it = elim (merge_order it) [
    | none ↦ (none, it)
    | some lt ↦ (first it.left, record it { left = tail it.left })
    | some gt ↦ let (next, rest) = dedup_next it.right in (next, record it { right = rest })
    | some eq ↦
        let (next, rest) = dedup_next it.right in
        (next, record { left = tail it.left; right = rest })
  ]

  unfoldable pub merge_size_hint : MergeIter E → SizeHint
  unfolding dedup_size_hint
  merge_size_hint it =
      let right_hint = dedup_size_hint it.right in
      (
        max (length it.left) right_hint.0,
        elim right_hint.1 [ none ↦ none | some high ↦ checked_add (length it.left) high ],
      )

  -- `DedupIter::new(v.into_iter())`, collected. One round more than the vector is long is enough.
  unfoldable pub dedup_collect : List E → List E
  dedup_collect v = collect dedup_next (suc (length v)) v

  -- `MergeIter::new(left, right).collect()`
  unfoldable pub merge_collect : List E → List E → List E
  merge_collect l r =
      collect merge_next (suc (length l + length r)) (record { left = l; right = r })
