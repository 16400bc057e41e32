-- ===== src/SortedVector/Extend.antt =====
-- The shortcuts of `append` and `extend_with_vec` in map.rs and set.rs: a scan for the first
-- duplicate, and a plain concatenation where all new keys are greater. Each yields what the merge
-- would.
use mathlib.Core.Option
use rust_shed.Prelude.{
  ℕ, zero, suc, ◌+◌, ◌≡◌, refl, sym, ap, ◌∙◌, Option, none, some, List, [], ◌∷◌, ◌++◌, arith, All,
  Ord, ◌≺◌, is_eq, if◌then◌else◌, length, take, drop, last, inl, inr, Ordering-cases,
}
use rust_shed.SortedVector.Sorted.{IsSorted, upsert}
use rust_shed.SortedVector.Iter.{
  skip_dups, dedup_next, merge_next, collect, dedup_collect, merge_collect,
}
use rust_shed.SortedVector.Ascending.{IsAscending}

module _ {ℓ κ} {E : Type ℓ} {K : Type κ} ⦃o : Ord K⦄ (key : E → K) where
  -- `new.iter().tuple_windows().position(|(a, b)| a == b)`
  unfoldable pub first_dup : List E → Option ℕ
  first_dup [] = none
  first_dup (x ∷ []) = none
  first_dup (x ∷ y ∷ es) =
      if is_eq (o.cmp (key x) (key y)) then some 0 else Option.map suc (first_dup (y ∷ es))

  -- Without the scan: the vector up to the first duplicate, then what `DedupIter` makes of the rest.
  unfoldable pub dedup_from_first : List E → List E
  dedup_from_first es = elim (first_dup es) [
    | none ↦ es
    | some i ↦ take i es ++ dedup_collect key (drop i es)
  ]

  dedup_rounds :
      (fuel : ℕ) (es : List E)
      → collect (dedup_next key) fuel es
        ≡ collect (merge_next key) fuel (record { left = []; right = es })
  unfolding collect merge_next
  dedup_rounds zero es = refl
  dedup_rounds (suc fuel) [] = refl
  dedup_rounds (suc fuel) (e ∷ es) =
      ap (◌∷◌ (skip_dups key e es).0) (dedup_rounds fuel (skip_dups key e es).1)

  -- Deduplication is a merge into the empty vector.
  pub dedup_collect-merge : (es : List E) → dedup_collect key es ≡ merge_collect key [] es
  unfolding dedup_collect merge_collect
  dedup_collect-merge es =
      dedup_rounds (suc (length es)) es
      ∙ ap (λ n. collect (merge_next key) (suc n) (record { left = []; right = es })) (omega arith)

  dedup_collect-nil : dedup_collect key [] ≡ []
  unfolding dedup_collect collect dedup_next
  dedup_collect-nil = refl

  dedup_collect_one : (x : E) → dedup_collect key (x ∷ []) ≡ x ∷ []
  unfolding dedup_collect collect dedup_next skip_dups
  dedup_collect_one x = refl

  dedup_collect-lt :
      (x y : E) (es : List E)
      → key x ≺ key y
      → dedup_collect key (x ∷ y ∷ es) ≡ x ∷ dedup_collect key (y ∷ es)
  unfolding dedup_collect collect dedup_next skip_dups
  dedup_collect-lt x y es h = ground (arith, o.cmp_swap (key x) (key y))

  -- Before the first duplicate there is nothing to drop.
  pub dedup_from_first_lem :
      (es : List E) → IsAscending key es → dedup_from_first es ≡ dedup_collect key es
  unfolding dedup_from_first first_dup
  dedup_from_first_lem [] a = sym dedup_collect-nil
  dedup_from_first_lem (x ∷ []) a = sym (dedup_collect_one x)
  dedup_from_first_lem (x ∷ y ∷ es) a = elim (Ordering-cases (o.cmp (key x) (key y))) [
    | inl l ↦ ground (arith, dedup_collect-lt x y es l, dedup_from_first_lem (y ∷ es) a.1)
    | inr (inl m) ↦ ground arith
    | inr (inr g) ↦ absurd (a.0.0 g)
  ]

  -- Where the last key is less than `k`, all are.
  pub All-last :
      (k : K) (m : List E) {e : E}
      → IsSorted key m
      → last m ≡ some e
      → key e ≺ k
      → All (λ x. key x ≺ k) m
  All-last k [] s h l = tt
  All-last k (x ∷ []) s h l = (ground arith, tt)
  All-last k (x ∷ y ∷ m) s h l =
      let r = All-last k (y ∷ m) s.1 h l in (o.cmp_lt_trans (key x) (key y) k s.0.0 r.0, r)

  -- An entry whose key is greater than all goes to the end.
  pub upsert-last :
      (upd : E → E) (e : E) (m : List E)
      → All (λ x. key x ≺ key e) m
      → upsert key upd e m ≡ m ++ e ∷ []
  upsert-last upd e [] a = refl
  upsert-last upd e (x ∷ m) a = ground (arith, upsert-last upd e m a.1)

  append_rounds :
      (fuel n : ℕ) (m : List E) (b : E) (r : List E)
      → fuel ≡ length m + n
      → All (λ x. key x ≺ key b) m
      → collect (merge_next key) fuel (record { left = m; right = b ∷ r })
        ≡ m ++ collect (merge_next key) n (record { left = []; right = b ∷ r })
  unfolding collect merge_next
  append_rounds fuel n [] b r e a =
      ap (λ f. collect (merge_next key) f (record { left = []; right = b ∷ r })) (omega arith)
  append_rounds zero n (x ∷ m) b r e a = absurd (omega arith)
  append_rounds (suc fuel) n (x ∷ m) b r e a =
      ground (arith, a.0, append_rounds fuel n m b r (omega arith) a.1)

  -- Where all keys on the left are less, the merge is a concatenation.
  pub append-dedup :
      (m : List E) (b : E) (r : List E)
      → All (λ x. key x ≺ key b) m
      → m ++ dedup_collect key (b ∷ r) ≡ merge_collect key m (b ∷ r)
  unfolding merge_collect dedup_collect
  append-dedup m b r a =
      ap (◌++◌ m) (dedup_rounds (suc (length (b ∷ r))) (b ∷ r))
      ∙ sym (
          append_rounds (suc (length m + length (b ∷ r))) (suc (length (b ∷ r))) m b r (omega arith)
            a)
