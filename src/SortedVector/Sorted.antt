-- ===== src/SortedVector/Sorted.antt =====
-- Vectors of entries in strictly ascending order of their keys, the linear scan that a binary
-- search of such a vector agrees with, and the operations of map.rs and set.rs as recursions on
-- the vector. These are the specification: the code works by indices.
use Prim.Native.Nat.Ordering.{lt, eq, gt}
use rust_shed.Prelude.{
  ◌≢◌, subst, inl, inr, Ordering-cases, ℕ, zero, suc, ◌≡◌, refl, Option, none, some, List, [], ◌∷◌,
  arith, All, All-imp, Ord, ◌≺◌, ◌≈◌,
}
use rust_shed.SortedVector.Search.{
  IndexResult, ok, err, probe, binary_search_by, Answers, binary_search_by-Answers,
}

-- The place in a vector that has one more entry in front.
abbrev pub shift : IndexResult → IndexResult
shift (ok i) = ok (suc i)
shift (err i) = err (suc i)

module _ {ℓ κ} {E : Type ℓ} {K : Type κ} ⦃o : Ord K⦄ (key : E → K) where
  -- Every key of the vector is greater.
  abbrev pub Above : K → List E → Type 0
  Above k = All (λ e. k ≺ key e)

  abbrev pub IsSorted : List E → Type 0
  IsSorted [] = Unit
  IsSorted (e ∷ es) = Above (key e) es × IsSorted es

  -- The first entry whose key compares equal.
  abbrev pub find : K → List E → Option E
  find q [] = none
  find q (e ∷ es) = elim (o.cmp (key e) q) [ eq ↦ some e | _ ↦ find q es ]

  -- The linear scan.
  abbrev pub locate : K → List E → IndexResult
  locate q [] = err 0
  locate q (e ∷ es) = elim (o.cmp (key e) q) [ lt ↦ shift (locate q es) | eq ↦ ok 0 | gt ↦ err 0 ]

  -- Insertion at the key's place; `upd` is what becomes of an entry with an equal key.
  abbrev pub upsert : (E → E) → E → List E → List E
  upsert upd e [] = e ∷ []
  upsert upd e (x ∷ xs) = elim (o.cmp (key x) (key e)) [
    | lt ↦ x ∷ upsert upd e xs
    | eq ↦ upd x ∷ xs
    | gt ↦ e ∷ x ∷ xs
  ]

  abbrev pub delete : K → List E → List E
  delete q [] = []
  delete q (x ∷ xs) = elim (o.cmp (key x) q) [ lt ↦ x ∷ delete q xs | eq ↦ xs | gt ↦ x ∷ xs ]

  pub Above-trans : (a b : K) (es : List E) → a ≺ b → Above b es → Above a es
  Above-trans a b es h = All-imp (λ e k. o.cmp_lt_trans a b (key e) h k) es

  pub Above-eq : (a b : K) (es : List E) → a ≈ b → Above b es → Above a es
  Above-eq a b es h = All-imp (λ e k. ground (arith, o.cmp_eq_left a b (key e) h)) es

  pub find-Above : (q : K) (es : List E) → Above q es → find q es ≡ none
  find-Above q [] h = refl
  find-Above q (e ∷ es) h = ground (arith, o.cmp_swap q (key e), find-Above q es h.1)

  probe-Above : (q : K) (es : List E) (j : ℕ) → Above q es → probe (λ e. o.cmp (key e) q) es j ≡ gt
  probe-Above q [] j h = refl
  probe-Above q (e ∷ es) zero h = ground (arith, o.cmp_swap q (key e))
  probe-Above q (e ∷ es) (suc j) h = probe-Above q es j h.1

  -- Behind an entry that is not less than the key every probe is greater.
  pub Above-of_ge :
      (q : K) (e : E) (es : List E) → IsSorted (e ∷ es) → o.cmp (key e) q ≢ lt → Above q es
  Above-of_ge q e es s h = elim (Ordering-cases (o.cmp (key e) q)) [
    | inl l ↦ absurd (h l)
    | inr (inl m) ↦ Above-eq q (key e) es (ground (arith, o.cmp_swap (key e) q)) s.0
    | inr (inr g) ↦ Above-trans q (key e) es (ground (arith, o.cmp_swap (key e) q)) s.0
  ]

  Answers-shift :
      (q : K) (e : E) (es : List E) (r : IndexResult)
      → key e ≺ q
      → Answers (probe (λ x. o.cmp (key x) q) es) r
      → Answers (probe (λ x. o.cmp (key x) q) (e ∷ es)) (shift r)
  Answers-shift q e es (ok p) l a = (
    a.0,
    elim [ zero ↦ λ h. l | suc j ↦ λ h. a.1 j (omega arith) ],
    elim [ zero ↦ λ h. absurd (omega arith) | suc j ↦ λ h. a.2 j (omega arith) ],
  )
  Answers-shift q e es (err p) l a = (
    elim [ zero ↦ λ h. l | suc j ↦ λ h. a.0 j (omega arith) ],
    elim [ zero ↦ λ h. absurd (omega arith) | suc j ↦ λ h. a.1 j (omega arith) ],
  )

  Answers-locate :
      (q : K) (es : List E) → IsSorted es → Answers (probe (λ e. o.cmp (key e) q) es) (locate q es)
  Answers-locate q [] s = (λ j h. absurd (omega arith), λ j h. refl)
  Answers-locate q (e ∷ es) s = elim (Ordering-cases (o.cmp (key e) q)) [
    | inl l ↦
        at (shift (locate q es)) (ground arith)
          (Answers-shift q e es (locate q es) l (Answers-locate q es s.1))
    | inr (inl m) ↦ at (ok 0) (ground arith) (
      m,
      λ j h. absurd (omega arith),
      elim [ zero ↦ λ h. absurd (omega arith) | suc j ↦ λ h. behind j (ground arith) ],
    )
    | inr (inr g) ↦
        at (err 0) (ground arith) (
          λ j h. absurd (omega arith),
          elim [ zero ↦ λ h. g | suc j ↦ λ h. behind j (ground arith) ],
        )
  ]
    where
      at :
          (r : IndexResult)
          → r ≡ locate q (e ∷ es)
          → Answers (probe (λ x. o.cmp (key x) q) (e ∷ es)) r
          → Answers (probe (λ x. o.cmp (key x) q) (e ∷ es)) (locate q (e ∷ es))
      at r = subst (Answers (probe (λ x. o.cmp (key x) q) (e ∷ es)))

      behind : (j : ℕ) → o.cmp (key e) q ≢ lt → probe (λ x. o.cmp (key x) q) es j ≡ gt
      behind j h = probe-Above q es j (Above-of_ge q e es s h)

  -- On a sorted vector the binary search is the linear scan.
  pub search-locate :
      (q : K) (es : List E) → IsSorted es → binary_search_by es (λ e. o.cmp (key e) q) ≡ locate q es
  search-locate q es s =
      binary_search_by-Answers (λ e. o.cmp (key e) q) es (locate q es) (Answers-locate q es s)
