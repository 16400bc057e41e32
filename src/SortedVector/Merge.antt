-- ===== src/SortedVector/Merge.antt =====
-- What `MergeIter` and `DedupIter` yield, collected: a sorted vector, in which a key finds the last
-- entry that the right side has for it, and otherwise that of the left side.
use Prim.Native.Nat.Ordering.{gt}
use rust_shed.Prelude.{
  ℕ, zero, suc, ◌+◌, ◌<◌, ◌≡◌, refl, subst, inl, inr, List, [], ◌∷◌, arith, Ord, ◌≺◌, ◌≈◌,
  Ordering-cases, or_else, cmp_eq_right, length,
}
use rust_shed.SortedVector.Sorted.{IsSorted, Above, find, Above-trans, Above-eq}
use rust_shed.SortedVector.Iter.{skip_dups, merge_next, merge_collect, collect}
use rust_shed.SortedVector.Ascending.{
  IsAscending, latest, latest-Above, Above-first, Skipped, skip_dups-Skipped,
}

module _ {ℓ κ} {E : Type ℓ} {K : Type κ} ⦃o : Ord K⦄ (key : E → K) where
  -- The rounds that `collect` makes, at any fuel.
  rounds : ℕ → List E → List E → List E
  rounds fuel l r = collect (merge_next key) fuel (record { left = l; right = r })

  find-rounds :
      (fuel : ℕ) (l r : List E) (q : K)
      → length l + length r < fuel
      → IsSorted key l
      → IsAscending key r
      → find key q (rounds fuel l r) ≡ or_else (latest key q r) (find key q l)
  unfolding rounds collect merge_next
  find-rounds zero l r q h s a = absurd (omega arith)
  find-rounds (suc fuel) [] [] q h s a = refl
  find-rounds (suc fuel) (x ∷ l) [] q h s a =
      ground (arith, find-rounds fuel l [] q (omega arith) s.1 tt)
  find-rounds (suc fuel) [] (b ∷ r) q h s a =
      let k = skip_dups-Skipped key b r a in
      ground (
        arith,
        k.latest_lem q,
        find-rounds fuel [] (skip_dups key b r).1 q (omega (arith, k.shorter)) tt k.ascending,
      )
  find-rounds (suc fuel) (x ∷ l) (b ∷ r) q h s a =
      let k = skip_dups-Skipped key b r a in
      ground (
        arith,
        k.latest_lem q,
        k.equal,
        o.cmp_eq_left (key (skip_dups key b r).0) (key b) q,
        o.cmp_eq_left (key x) (key b) q,
        find-rounds fuel l (b ∷ r) q (omega arith) s.1 a,
        find-rounds fuel (x ∷ l) (skip_dups key b r).1 q (omega (arith, k.shorter)) s k.ascending,
        find-rounds fuel l (skip_dups key b r).1 q (omega (arith, k.shorter)) s.1 k.ascending,
        latest-Above key q (b ∷ r),
        Above-first key (key x) b r,
        Above-eq key q (key x) (b ∷ r),
        o.cmp_swap (key x) q,
      )

  Above-rounds :
      (fuel : ℕ) (l r : List E) (k : K)
      → IsAscending key r
      → Above key k l
      → Above key k r
      → Above key k (rounds fuel l r)
  unfolding rounds collect merge_next
  Above-rounds zero l r k s a b = tt
  Above-rounds (suc fuel) [] [] k s a b = tt
  Above-rounds (suc fuel) (x ∷ l) [] k s a b = ground (arith, Above-rounds fuel l [] k tt a.1 tt)
  Above-rounds (suc fuel) [] (y ∷ r) k s a b =
      let n = skip_dups-Skipped key y r s in
      ground (
        arith,
        n.equal,
        cmp_eq_right (key (skip_dups key y r).0) (key y) k,
        Above-trans key k (key (skip_dups key y r).0) (skip_dups key y r).1,
        Above-rounds fuel [] (skip_dups key y r).1 k n.ascending tt,
        n.above,
      )
  Above-rounds (suc fuel) (x ∷ l) (y ∷ r) k s a b =
      let n = skip_dups-Skipped key y r s in
      let rest = Above-trans key k (key (skip_dups key y r).0) (skip_dups key y r).1 in
      ground (
        arith,
        n.equal,
        cmp_eq_right (key (skip_dups key y r).0) (key y) k,
        n.above,
        rest,
        Above-rounds fuel l (y ∷ r) k s a.1 b,
        Above-rounds fuel (x ∷ l) (skip_dups key y r).1 k n.ascending a,
        Above-rounds fuel l (skip_dups key y r).1 k n.ascending a.1,
      )

  -- One round, by which key is less.
  rounds_lt :
      (fuel : ℕ) (x y : E) (l r : List E)
      → key x ≺ key y
      → x ∷ rounds fuel l (y ∷ r) ≡ rounds (suc fuel) (x ∷ l) (y ∷ r)
  unfolding rounds collect merge_next
  rounds_lt fuel x y l r c = ground arith

  rounds_eq :
      (fuel : ℕ) (x y : E) (l r : List E)
      → key x ≈ key y
      → (skip_dups key y r).0 ∷ rounds fuel l (skip_dups key y r).1
        ≡ rounds (suc fuel) (x ∷ l) (y ∷ r)
  unfolding rounds collect merge_next
  rounds_eq fuel x y l r c = ground arith

  rounds-gt :
      (fuel : ℕ) (x y : E) (l r : List E)
      → o.cmp (key x) (key y) ≡ gt
      → (skip_dups key y r).0 ∷ rounds fuel (x ∷ l) (skip_dups key y r).1
        ≡ rounds (suc fuel) (x ∷ l) (y ∷ r)
  unfolding rounds collect merge_next
  rounds-gt fuel x y l r c = ground arith

  rounds-IsSorted :
      (fuel : ℕ) (l r : List E)
      → IsSorted key l
      → IsAscending key r
      → IsSorted key (rounds fuel l r)
  unfolding rounds collect merge_next
  rounds-IsSorted zero l r s a = tt
  rounds-IsSorted (suc fuel) [] [] s a = tt
  rounds-IsSorted (suc fuel) (x ∷ l) [] s a =
      (Above-rounds fuel l [] (key x) tt s.0 tt, rounds-IsSorted fuel l [] s.1 tt)
  rounds-IsSorted (suc fuel) [] (y ∷ r) s a =
      let n = skip_dups-Skipped key y r a in
      (
        Above-rounds fuel [] (skip_dups key y r).1 (key (skip_dups key y r).0) n.ascending tt
            n.above,
        rounds-IsSorted fuel [] (skip_dups key y r).1 tt n.ascending,
      )
  rounds-IsSorted (suc fuel) (x ∷ l) (y ∷ r) s a = elim (Ordering-cases (o.cmp (key x) (key y))) [
    | inl c ↦ subst (IsSorted key) (rounds_lt fuel x y l r c) (
      Above-rounds fuel l (y ∷ r) (key x) a s.0 (Above-first key (key x) y r c a),
      rounds-IsSorted fuel l (y ∷ r) s.1 a,
    )
    | inr (inl c) ↦ subst (IsSorted key) (rounds_eq fuel x y l r c) (
      Above-rounds fuel l rest (key next) n.ascending (behind_left c) n.above,
      rounds-IsSorted fuel l rest s.1 n.ascending,
    )
    | inr (inr c) ↦ subst (IsSorted key) (rounds-gt fuel x y l r c) (
      Above-rounds fuel (x ∷ l) rest (key next) n.ascending (left_behind c) n.above,
      rounds-IsSorted fuel (x ∷ l) rest s n.ascending,
    )
  ]
    where
      next : E
      next = (skip_dups key y r).0

      rest : List E
      rest = (skip_dups key y r).1

      n : Skipped key y r next rest
      n = skip_dups-Skipped key y r a

      behind_left : key x ≈ key y → Above key (key next) l
      behind_left c =
          Above-eq key (key next) (key x) l
            (ground (
              arith,
              o.cmp_swap (key x) (key y),
              n.equal,
              o.cmp_eq_left (key next) (key y) (key x),
            ))
            s.0

      left_behind : o.cmp (key x) (key y) ≡ gt → Above key (key next) (x ∷ l)
      left_behind c =
          let h : key next ≺ key x = ground (
            arith,
            o.cmp_swap (key x) (key y),
            n.equal,
            o.cmp_eq_left (key next) (key y) (key x),
          ) in
          (h, Above-trans key (key next) (key x) l h s.0)

  -- A merged vector is sorted.
  pub merge_collect-IsSorted :
      (l r : List E) → IsSorted key l → IsAscending key r → IsSorted key (merge_collect key l r)
  unfolding merge_collect rounds
  merge_collect-IsSorted l r = rounds-IsSorted (suc (length l + length r)) l r

  -- A key finds the last entry on the right, and otherwise that on the left.
  pub find-merge_collect :
      (l r : List E) (q : K)
      → IsSorted key l
      → IsAscending key r
      → find key q (merge_collect key l r) ≡ or_else (latest key q r) (find key q l)
  unfolding merge_collect rounds
  find-merge_collect l r q = find-rounds (suc (length l + length r)) l r q (omega arith)
