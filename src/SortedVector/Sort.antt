-- ===== src/SortedVector/Sort.antt =====
-- `slice::sort_by` of the standard library, which is stable: entries whose keys compare equal keep
-- their order. `extend_with_vec` of map.rs and set.rs sorts its argument by it.
use Prim.Native.Nat.Ordering.{gt}
use rust_shed.Prelude.{
  ◌≡◌, refl, ◌≢◌, none, some, List, [], ◌∷◌, arith, Ord, is_eq, is_lt, if◌then◌else◌, or_else,
  length, suc, cmp_eq_right, inl, inr, Ordering-cases,
}
use rust_shed.SortedVector.Ascending.{IsAscending, AtLeast, latest}

module _ {ℓ κ} {E : Type ℓ} {K : Type κ} ⦃o : Ord K⦄ (key : E → K) where
  -- An entry goes before those behind it in the input that compare equal.
  sort_insert : E → List E → List E
  sort_insert e [] = e ∷ []
  sort_insert e (x ∷ xs) =
      if is_lt (o.cmp (key x) (key e)) then x ∷ sort_insert e xs else e ∷ x ∷ xs

  unfoldable pub sort : List E → List E
  unfolding sort_insert
  sort [] = []
  sort (e ∷ es) = sort_insert e (sort es)

  AtLeast-sort_insert :
      (k : K) (e : E) (es : List E)
      → o.cmp k (key e) ≢ gt
      → AtLeast key k es
      → AtLeast key k (sort_insert e es)
  unfolding sort_insert
  AtLeast-sort_insert k e [] h a = (h, tt)
  AtLeast-sort_insert k e (x ∷ xs) h a = ground (arith, AtLeast-sort_insert k e xs h a.1)

  AtLeast-weaken : (a b : K) (es : List E) → o.cmp a b ≢ gt → AtLeast key b es → AtLeast key a es
  AtLeast-weaken a b [] h k = tt
  AtLeast-weaken a b (e ∷ es) h k = (head, AtLeast-weaken a b es h k.1)
    where
      head : o.cmp a (key e) ≢ gt
      head g = elim (Ordering-cases (o.cmp a b)) [
        | inl l ↦
            k.0 (
              ground
                (arith, o.cmp_lt_trans (key e) a b, o.cmp_swap a (key e), o.cmp_swap (key e) b))
        | inr (inl m) ↦ k.0 (ground (arith, o.cmp_eq_left a b (key e) m))
        | inr (inr c) ↦ h c
      ]

  sort_insert-IsAscending :
      (e : E) (es : List E) → IsAscending key es → IsAscending key (sort_insert e es)
  unfolding sort_insert
  sort_insert-IsAscending e [] a = (tt, tt)
  sort_insert-IsAscending e (x ∷ xs) a = ground (
    arith,
    sort_insert-IsAscending e xs a.1,
    AtLeast-sort_insert (key x) e xs,
    o.cmp_swap (key x) (key e),
    AtLeast-weaken (key e) (key x) xs,
  )

  -- The result is in ascending order.
  pub sort-IsAscending : (es : List E) → IsAscending key (sort es)
  unfolding sort
  sort-IsAscending [] = tt
  sort-IsAscending (e ∷ es) = sort_insert-IsAscending e (sort es) (sort-IsAscending es)

  latest-sort_insert :
      (q : K) (e : E) (es : List E)
      → latest key q (sort_insert e es)
        ≡ or_else (latest key q es) (if is_eq (o.cmp (key e) q) then some e else none)
  unfolding sort_insert
  latest-sort_insert q e [] = refl
  latest-sort_insert q e (x ∷ xs) = ground (
    arith,
    latest-sort_insert q e xs,
    o.cmp_eq_left (key x) q (key e),
    cmp_eq_right (key e) q (key x),
  )

  -- Sorting keeps the last entry for each key: it is stable.
  pub latest-sort : (q : K) (es : List E) → latest key q (sort es) ≡ latest key q es
  unfolding sort
  latest-sort q [] = refl
  latest-sort q (e ∷ es) = rw (latest-sort_insert q e (sort es), latest-sort q es)

  length-sort_insert : (e : E) (es : List E) → length (sort_insert e es) ≡ suc (length es)
  unfolding sort_insert
  length-sort_insert e [] = refl
  length-sort_insert e (x ∷ xs) = ground (arith, length-sort_insert e xs)

  pub length-sort : (es : List E) → length (sort es) ≡ length es
  unfolding sort
  length-sort [] = refl
  length-sort (e ∷ es) = omega (arith, length-sort_insert e (sort es), length-sort es)
