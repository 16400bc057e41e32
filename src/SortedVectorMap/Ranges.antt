-- ===== src/SortedVectorMap/Ranges.antt =====
-- `range` and `split_off` of map.rs.
use rust_shed.Prelude.{
  ℕ, suc, ◌≤◌, ◌≡◌, sym, subst, inl, inr, true, false, not, ◌&&◌, ◌++◌, arith, All, All-imp, Ord,
  ◌≺◌, done, panic, ltb, if◌then◌else◌, length, take, drop, take-append-drop,
  split_off as vec_split_off, if_false, not_ltb,
}
use rust_shed.SortedVector.Cut.{count, select, exists, HoldsToPoint, slice_between}
use rust_shed.SortedVector.Range.{
  none_before, all_within, cut-IsSorted, Bound, unbounded, included, excluded, before, within,
  is_less, is_less-HoldsToPoint, not_greater-HoldsToPoint, Above-less, Hit-less, Miss-less,
  Hit-greater, Miss-greater,
}
use rust_shed.SortedVectorMap.{
  SortedVectorMap, key_of, range_index_start, range_index_end, range, split_off,
}
use rust_shed.SortedVectorMap.Reads.{IsValid, find_index_cases}

module _ {ℓ κ} {K : Type ℓ} {V : Type κ} ⦃o : Ord K⦄ where
  start_lem :
      (m : SortedVectorMap K V) (lo : Bound K)
      → IsValid m
      → (range_index_start m lo ≡ count (before key_of lo) m) × HoldsToPoint (before key_of lo) m
  unfolding range_index_start
  start_lem m unbounded s = none_before key_of m
  start_lem m (included q) s = (
    elim (find_index_cases m q s) [
      | inl (i, e, at, h) ↦ ground (arith, Hit-less key_of q m i e h)
      | inr (i, at, h) ↦ ground (arith, Miss-less key_of q m i h)
    ],
    is_less-HoldsToPoint key_of q m s,
  )
  start_lem m (excluded q) s = (
    elim (find_index_cases m q s) [
      | inl (i, e, at, h) ↦ ground (arith, Hit-greater key_of q m i e h)
      | inr (i, at, h) ↦ ground (arith, Miss-greater key_of q m i h)
    ],
    not_greater-HoldsToPoint key_of q m s,
  )

  end_lem :
      (m : SortedVectorMap K V) (hi : Bound K)
      → IsValid m
      → (range_index_end m hi ≡ count (within key_of hi) m) × HoldsToPoint (within key_of hi) m
  unfolding range_index_end
  end_lem m unbounded s = all_within key_of m
  end_lem m (included q) s = (
    elim (find_index_cases m q s) [
      | inl (i, e, at, h) ↦ ground (arith, Hit-greater key_of q m i e h)
      | inr (i, at, h) ↦ ground (arith, Miss-greater key_of q m i h)
    ],
    not_greater-HoldsToPoint key_of q m s,
  )
  end_lem m (excluded q) s = (
    elim (find_index_cases m q s) [
      | inl (i, e, at, h) ↦ ground (arith, Hit-less key_of q m i e h)
      | inr (i, at, h) ↦ ground (arith, Miss-less key_of q m i h)
    ],
    is_less-HoldsToPoint key_of q m s,
  )

  -- On a valid map `range` yields, in order, the entries that the two bounds enclose. It panics
  -- exactly where an entry lies both before the start and behind the end.
  pub range_correct :
      (m : SortedVectorMap K V) (lo hi : Bound K)
      → IsValid m
      → range m lo hi ≡ (
          if exists (λ e. before key_of lo e && not (within key_of hi e)) m
          then panic
          else done (select (λ e. not (before key_of lo e) && within key_of hi e) m))
  unfolding range
  range_correct m lo hi s =
      let (a, h) = start_lem m lo s in
      let (b, k) = end_lem m hi s in
      slice_between (before key_of lo) (within key_of hi) m h k (range_index_start m lo)
        (range_index_end m hi) a b

  -- On a valid map `split_off` does not panic. What stays holds the keys that are less, what is
  -- returned all others, both are valid, and together they are the map.
  pub split_off_correct :
      (m : SortedVectorMap K V) (q : K)
      → IsValid m
      → (kept : SortedVectorMap K V) × (rest : SortedVectorMap K V) × (split_off m q
          ≡ done (kept, rest))
        × IsValid kept
        × IsValid rest
        × (kept ++ rest ≡ m)
        × All (λ e. is_less key_of q e ≡ true) kept
        × All (λ e. is_less key_of q e ≡ false) rest
  unfolding split_off
  split_off_correct m q s = elim (find_index_cases m q s) [
    | inl (i, e, at, h) ↦ parts i (ground (arith, split_lem i (omega (arith, h.inside)))) h.below (
        subst (All (λ x. is_less key_of q x ≡ false)) (sym h.rest)
          (ground (arith, h.equal), Above-less key_of q (drop (suc i) m) h.above))
    | inr (i, at, h) ↦
        parts i (ground (arith, split_lem i h.inside)) h.below
          (Above-less key_of q (drop i m) h.above)
  ]
    where
      split_lem : (i : ℕ) → i ≤ length m → vec_split_off m i ≡ done (take i m, drop i m)
      split_lem i h = if_false (ltb (length m) i) _ _ (not_ltb i (length m) h)

      parts :
          (i : ℕ)
          → split_off m q ≡ done (take i m, drop i m)
          → All (λ e. e.0 ≺ q) (take i m)
          → All (λ e. is_less key_of q e ≡ false) (drop i m)
          → (kept : SortedVectorMap K V) × (rest : SortedVectorMap K V) × (split_off m q
              ≡ done (kept, rest))
            × IsValid kept
            × IsValid rest
            × (kept ++ rest ≡ m)
            × All (λ e. is_less key_of q e ≡ true) kept
            × All (λ e. is_less key_of q e ≡ false) rest
      parts i e below rest =
          let (a, b) = cut-IsSorted key_of i m s in
          (
            take i m,
            drop i m,
            e,
            a,
            b,
            take-append-drop i m,
            All-imp (λ x l. ground arith) (take i m) below,
            rest,
          )
