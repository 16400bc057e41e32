-- ===== src/SortedVector/Update.antt =====
-- Insertion and removal on sorted vectors: the order is kept, and what each key finds afterwards.
use rust_shed.Prelude.{
  ◌≡◌, inl, inr, Option, none, some, List, [], ◌∷◌, arith, Ord, ◌≺◌, ◌≈◌, Ordering-cases, is_eq,
  if◌then◌else◌, cmp_eq_right,
}
use rust_shed.SortedVector.Sorted.{
  IsSorted, Above, find, upsert, delete, find-Above, Above-of_ge, Above-trans, Above-eq,
}

module _ {ℓ κ} {E : Type ℓ} {K : Type κ} ⦃o : Ord K⦄ (key : E → K) where
  -- What the entry for a key becomes.
  abbrev pub updated : (E → E) → E → Option E → Option E
  updated upd x none = some x
  updated upd x (some e) = some (upd e)

  -- The update leaves a key that compares equal.
  abbrev pub Keeps : (E → E) → E → Type ℓ
  Keeps upd x = (e : E) → key e ≈ key x → key (upd e) ≈ key x

  Above-upsert :
      (upd : E → E) (x : E) (k : K) (es : List E)
      → Keeps upd x
      → k ≺ key x
      → Above key k es
      → Above key k (upsert key upd x es)
  Above-upsert upd x k [] keeps l a = (l, tt)
  Above-upsert upd x k (e ∷ es) keeps l a = elim (Ordering-cases (o.cmp (key e) (key x))) [
    | inl le ↦ ground (arith, Above-upsert upd x k es keeps l a.1)
    | inr (inl m) ↦ ground (arith, cmp_eq_right (key (upd e)) (key x) k (keeps e m))
    | inr (inr g) ↦ ground arith
  ]

  pub upsert-IsSorted :
      (upd : E → E) (x : E) (es : List E)
      → Keeps upd x
      → IsSorted key es
      → IsSorted key (upsert key upd x es)
  upsert-IsSorted upd x [] keeps s = (tt, tt)
  upsert-IsSorted upd x (e ∷ es) keeps s = elim (Ordering-cases (o.cmp (key e) (key x))) [
    | inl l ↦
        ground
          (arith, upsert-IsSorted upd x es keeps s.1, Above-upsert upd x (key e) es keeps l s.0)
    | inr (inl m) ↦ ground (
      arith,
      Above-eq key (key (upd e)) (key x) es (keeps e m),
      Above-eq key (key x) (key e) es,
      o.cmp_swap (key e) (key x),
    )
    | inr (inr g) ↦ ground (arith, Above-trans key (key x) (key e) es, o.cmp_swap (key e) (key x))
  ]

  -- An equal key finds the updated entry, or the new one; every other key finds what it did.
  pub find-upsert :
      (upd : E → E) (x : E) (q : K) (es : List E)
      → Keeps upd x
      → IsSorted key es
      → find key q (upsert key upd x es)
        ≡ (if is_eq (o.cmp (key x) q) then updated upd x (find key q es) else find key q es)
  find-upsert upd x q [] keeps s = ground arith
  find-upsert upd x q (e ∷ es) keeps s = elim (Ordering-cases (o.cmp (key e) (key x))) [
    | inl l ↦ ground (arith, find-upsert upd x q es keeps s.1, cmp_eq_right (key x) q (key e))
    | inr (inl m) ↦ ground (
      arith,
      o.cmp_eq_left (key e) (key x) q m,
      o.cmp_eq_left (key (upd e)) (key x) q (keeps e m),
    )
    | inr (inr g) ↦ ground (
      arith,
      cmp_eq_right (key x) q (key e),
      o.cmp_eq_left (key x) q (key e),
      find-Above key (key x) es,
      find-Above key q es,
      Above-of_ge key q e es s,
    )
  ]

  Above-delete : (q k : K) (es : List E) → Above key k es → Above key k (delete key q es)
  Above-delete q k [] a = tt
  Above-delete q k (e ∷ es) a = ground (arith, Above-delete q k es a.1)

  pub delete-IsSorted : (q : K) (es : List E) → IsSorted key es → IsSorted key (delete key q es)
  delete-IsSorted q [] s = tt
  delete-IsSorted q (e ∷ es) s =
      ground (arith, Above-delete q (key e) es s.0, delete-IsSorted q es s.1)

  -- A removed key is gone, and every other key finds what it did.
  pub find-delete :
      (k q : K) (es : List E)
      → IsSorted key es
      → find key q (delete key k es) ≡ (if is_eq (o.cmp k q) then none else find key q es)
  find-delete k q [] s = ground arith
  find-delete k q (e ∷ es) s = ground (
    arith,
    find-delete k q es s.1,
    cmp_eq_right k q (key e),
    o.cmp_eq_left (key e) k q,
    o.cmp_swap (key e) q,
    find-Above key q es,
    Above-of_ge key q e es s,
    Above-eq key q (key e) es,
  )
