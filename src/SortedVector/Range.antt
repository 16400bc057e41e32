-- ===== src/SortedVector/Range.antt =====
-- `std::ops::Bound`, and the indices of map.rs and set.rs for one, counted by the entries on its
-- side.
use rust_shed.Prelude.{
  ℕ, zero, suc, ◌≡◌, refl, inl, inr, Bool, true, false, not, ap, length, List, [], ◌∷◌, arith, All,
  All-imp, Ord, is_lt, is_gt, subst, sym, take, drop, Ordering-cases,
}
use rust_shed.SortedVector.Sorted.{IsSorted, Above, Above-trans, Above-eq}
use rust_shed.SortedVector.Place.{Hit, Miss}
use rust_shed.SortedVector.Cut.{count, HoldsToPoint, count-split}

pub data Bound {ℓ} (K : Type ℓ) : Type ℓ where
  unbounded : Bound K
  included excluded : K → Bound K

module _ {ℓ κ} {E : Type ℓ} {K : Type κ} ⦃o : Ord K⦄ (key : E → K) where
  abbrev pub is_less : K → E → Bool
  is_less q e = is_lt (o.cmp (key e) q)

  abbrev pub not_greater : K → E → Bool
  not_greater q e = not (is_gt (o.cmp (key e) q))

  -- The entry lies before the start of the range.
  abbrev pub before : Bound K → E → Bool
  before unbounded e = false
  before (included q) e = is_less q e
  before (excluded q) e = not_greater q e

  -- The entry lies before the end of the range.
  abbrev pub within : Bound K → E → Bool
  within unbounded e = true
  within (included q) e = not_greater q e
  within (excluded q) e = is_less q e

  count-false : (p : E → Bool) (es : List E) → All (λ e. p e ≡ false) es → count p es ≡ 0
  count-false p [] a = refl
  count-false p (e ∷ es) a = ground (arith, a.0, count-false p es a.1)

  pub Above-less : (q : K) (es : List E) → Above key q es → All (λ e. is_less q e ≡ false) es
  Above-less q = All-imp (λ e h. ground (arith, o.cmp_swap q (key e)))

  Above-greater : (q : K) (es : List E) → Above key q es → All (λ e. not_greater q e ≡ false) es
  Above-greater q = All-imp (λ e h. ground (arith, o.cmp_swap q (key e)))

  pub is_less-HoldsToPoint : (q : K) (es : List E) → IsSorted key es → HoldsToPoint (is_less q) es
  is_less-HoldsToPoint q [] s = tt
  is_less-HoldsToPoint q (e ∷ es) s =
      (λ f. count-false (is_less q) es (Above-less q es (behind f)), is_less-HoldsToPoint q es s.1)
    where
      behind : is_less q e ≡ false → Above key q es
      behind f = elim (Ordering-cases (o.cmp (key e) q)) [
        | inl l ↦ absurd (ground arith)
        | inr (inl m) ↦ Above-eq key q (key e) es (ground (arith, o.cmp_swap (key e) q)) s.0
        | inr (inr g) ↦ Above-trans key q (key e) es (ground (arith, o.cmp_swap (key e) q)) s.0
      ]

  pub not_greater-HoldsToPoint :
      (q : K) (es : List E) → IsSorted key es → HoldsToPoint (not_greater q) es
  not_greater-HoldsToPoint q [] s = tt
  not_greater-HoldsToPoint q (e ∷ es) s = (
    λ f. count-false (not_greater q) es (
        Above-greater q es
          (Above-trans key q (key e) es (ground (arith, o.cmp_swap (key e) q)) s.0)),
    not_greater-HoldsToPoint q es s.1,
  )

  pub Hit-less : (q : K) (es : List E) (i : ℕ) (e : E) → Hit key q es i e → count (is_less q) es ≡ i
  Hit-less q es i e h =
      count-split (is_less q) i es (omega (arith, h.inside))
        (All-imp (λ x l. ground arith) (take i es) h.below)
        (subst (All (λ x. is_less q x ≡ false)) (sym h.rest)
          (ground (arith, h.equal), Above-less q (drop (suc i) es) h.above))

  pub Miss-less : (q : K) (es : List E) (i : ℕ) → Miss key q es i → count (is_less q) es ≡ i
  Miss-less q es i h =
      count-split (is_less q) i es h.inside (All-imp (λ x l. ground arith) (take i es) h.below)
        (Above-less q (drop i es) h.above)

  pub Miss-greater : (q : K) (es : List E) (i : ℕ) → Miss key q es i → count (not_greater q) es ≡ i
  Miss-greater q es i h =
      count-split (not_greater q) i es h.inside (All-imp (λ x l. ground arith) (take i es) h.below)
        (Above-greater q (drop i es) h.above)

  take-suc :
      (P : E → Type 0) (i : ℕ) (e : E) (es : List E)
      → drop i es ≡ e ∷ drop (suc i) es
      → P e
      → All P (take i es)
      → All P (take (suc i) es)
  take-suc P zero e [] h p a = tt
  take-suc P zero e (x ∷ es) h p a = (subst P (ground arith) p, tt)
  take-suc P (suc i) e [] h p a = tt
  take-suc P (suc i) e (x ∷ es) h p a = (a.0, take-suc P i e es h p a.1)

  pub Hit-greater :
      (q : K) (es : List E) (i : ℕ) (e : E) → Hit key q es i e → count (not_greater q) es ≡ suc i
  Hit-greater q es i e h =
      count-split (not_greater q) (suc i) es h.inside
        (take-suc (λ x. not_greater q x ≡ true) i e es h.rest (ground (arith, h.equal))
          (All-imp (λ x l. ground arith) (take i es) h.below))
        (Above-greater q (drop (suc i) es) h.above)

  pub none_before :
      (m : List E) → (0 ≡ count (before unbounded) m) × HoldsToPoint (before unbounded) m
  none_before [] = (refl, tt)
  none_before (e ∷ m) = let (c, h) = none_before m in (c, (λ f. sym c, h))

  pub all_within :
      (m : List E) → (length m ≡ count (within unbounded) m) × HoldsToPoint (within unbounded) m
  all_within [] = (refl, tt)
  all_within (e ∷ m) = let (c, h) = all_within m in (ap suc c, (λ f. absurd (cc), h))

  pub cut-IsSorted :
      (i : ℕ) (m : List E) → IsSorted key m → IsSorted key (take i m) × IsSorted key (drop i m)
  cut-IsSorted zero m s = (tt, s)
  cut-IsSorted (suc i) [] s = (tt, tt)
  cut-IsSorted (suc i) (e ∷ m) s = let (a, b) = cut-IsSorted i m s.1 in ((All-take i m s.0, a), b)
    where
      All-take : (j : ℕ) (n : List E) → Above key (key e) n → Above key (key e) (take j n)
      All-take zero n a = tt
      All-take (suc j) [] a = tt
      All-take (suc j) (x ∷ n) a = (a.0, All-take j n a.1)
