-- ===== src/SortedVectorSet/Ranges.antt =====
-- `range` and `split_off` of set.rs.
use rust_shed.Prelude.{
  ℕ, suc, ◌≤◌, ◌≡◌, sym, subst, inl, inr, true, false, not, ◌&&◌, ◌++◌, arith, All, All-imp, Ord,
  ◌≺◌, done, panic, ltb, if◌then◌else◌, length, take, drop, take-append-drop,
  split_off as vec_split_off, if_false, not_ltb,
}
use rust_shed.SortedVector.Cut.{count, select, exists, HoldsToPoint, slice_between}
use rust_shed.SortedVector.Range.{
  none_before, all_within, cut-IsSorted, Bound, unbounded, included, excluded, before, within,
  is_less, is_less-HoldsToPoint, not_greater-HoldsToPoint, Above-less, Hit-less, Miss-less,
  Hit-greater, Miss-greater,
}
use rust_shed.SortedVectorSet.{
  SortedVectorSet, itself, range_index_start, range_index_end, range, split_off,
}
use rust_shed.SortedVectorSet.Changes.{IsValid, find_index_cases}

module _ {ℓ} {T : Type ℓ} ⦃o : Ord T⦄ where
  start_lem :
      (s : SortedVectorSet T) (lo : Bound T)
      → IsValid s
      → (range_index_start s lo ≡ count (before itself lo) s) × HoldsToPoint (before itself lo) s
  unfolding range_index_start
  start_lem s unbounded v = none_before itself s
  start_lem s (included q) v = (
    elim (find_index_cases s q v) [
      | inl (i, e, at, h) ↦ ground (arith, Hit-less itself q s i e h)
      | inr (i, at, h) ↦ ground (arith, Miss-less itself q s i h)
    ],
    is_less-HoldsToPoint itself q s v,
  )
  start_lem s (excluded q) v = (
    elim (find_index_cases s q v) [
      | inl (i, e, at, h) ↦ ground (arith, Hit-greater itself q s i e h)
      | inr (i, at, h) ↦ ground (arith, Miss-greater itself q s i h)
    ],
    not_greater-HoldsToPoint itself q s v,
  )

  end_lem :
      (s : SortedVectorSet T) (hi : Bound T)
      → IsValid s
      → (range_index_end s hi ≡ count (within itself hi) s) × HoldsToPoint (within itself hi) s
  unfolding range_index_end
  end_lem s unbounded v = all_within itself s
  end_lem s (included q) v = (
    elim (find_index_cases s q v) [
      | inl (i, e, at, h) ↦ ground (arith, Hit-greater itself q s i e h)
      | inr (i, at, h) ↦ ground (arith, Miss-greater itself q s i h)
    ],
    not_greater-HoldsToPoint itself q s v,
  )
  end_lem s (excluded q) v = (
    elim (find_index_cases s q v) [
      | inl (i, e, at, h) ↦ ground (arith, Hit-less itself q s i e h)
      | inr (i, at, h) ↦ ground (arith, Miss-less itself q s i h)
    ],
    is_less-HoldsToPoint itself q s v,
  )

  -- On a valid set `range` yields, in order, the values that the two bounds enclose. It panics
  -- exactly where a value lies both before the start and behind the end.
  pub range_set_correct :
      (s : SortedVectorSet T) (lo hi : Bound T)
      → IsValid s
      → range s lo hi ≡ (
          if exists (λ e. before itself lo e && not (within itself hi e)) s
          then panic
          else done (select (λ e. not (before itself lo e) && within itself hi e) s))
  unfolding range
  range_set_correct s lo hi v =
      let (a, h) = start_lem s lo v in
      let (b, k) = end_lem s hi v in
      slice_between (before itself lo) (within itself hi) s h k (range_index_start s lo)
        (range_index_end s hi) a b

  -- On a valid set `split_off` does not panic. What stays holds the values that are less, what is
  -- returned all others, both are valid, and together they are the set.
  pub split_off_set_correct :
      (s : SortedVectorSet T) (q : T)
      → IsValid s
      → (kept : SortedVectorSet T) × (rest : SortedVectorSet T) × (split_off s q
          ≡ done (kept, rest))
        × IsValid kept
        × IsValid rest
        × (kept ++ rest ≡ s)
        × All (λ e. is_less itself q e ≡ true) kept
        × All (λ e. is_less itself q e ≡ false) rest
  unfolding split_off
  split_off_set_correct s q v = elim (find_index_cases s q v) [
    | inl (i, e, at, h) ↦ parts i (ground (arith, split_lem i (omega (arith, h.inside)))) h.below (
        subst (All (λ x. is_less itself q x ≡ false)) (sym h.rest)
          (ground (arith, h.equal), Above-less itself q (drop (suc i) s) h.above))
    | inr (i, at, h) ↦
        parts i (ground (arith, split_lem i h.inside)) h.below
          (Above-less itself q (drop i s) h.above)
  ]
    where
      split_lem : (i : ℕ) → i ≤ length s → vec_split_off s i ≡ done (take i s, drop i s)
      split_lem i h = if_false (ltb (length s) i) _ _ (not_ltb i (length s) h)

      parts :
          (i : ℕ)
          → split_off s q ≡ done (take i s, drop i s)
          → All (λ e. e ≺ q) (take i s)
          → All (λ e. is_less itself q e ≡ false) (drop i s)
          → (kept : SortedVectorSet T) × (rest : SortedVectorSet T) × (split_off s q
              ≡ done (kept, rest))
            × IsValid kept
            × IsValid rest
            × (kept ++ rest ≡ s)
            × All (λ e. is_less itself q e ≡ true) kept
            × All (λ e. is_less itself q e ≡ false) rest
      parts i e below rest =
          let (a, b) = cut-IsSorted itself i s v in
          (
            take i s,
            drop i s,
            e,
            a,
            b,
            take-append-drop i s,
            All-imp (λ x l. ground arith) (take i s) below,
            rest,
          )
