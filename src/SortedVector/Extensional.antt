-- ===== src/SortedVector/Extensional.antt =====
-- A sorted vector is determined by what each key finds in it.
use rust_shed.Prelude.{
  ◌≡◌, refl, sym, ap, ap₂, ◌∙◌, subst, inl, inr, none, some, List, [], ◌∷◌, arith, Ord, ◌≺◌,
  Ordering-cases, cmp_refl,
}
use rust_shed.SortedVector.Sorted.{IsSorted, find, find-Above, Above-trans, Above-eq}

module _ {ℓ κ} {E : Type ℓ} {K : Type κ} ⦃o : Ord K⦄ (key : E → K) where
  find_head : (x : E) (a : List E) → find key (key x) (x ∷ a) ≡ some x
  find_head x a = ground (arith, cmp_refl (key x))

  find_less :
      (x y : E) (b : List E)
      → IsSorted key (y ∷ b)
      → key x ≺ key y
      → find key (key x) (y ∷ b) ≡ none
  find_less x y b s l =
      ground (arith, find-Above key (key x) (y ∷ b), Above-trans key (key x) (key y) b l s.0)

  head_eq :
      (x y : E) (a b : List E)
      → IsSorted key (x ∷ a)
      → IsSorted key (y ∷ b)
      → ((q : K) → find key q (x ∷ a) ≡ find key q (y ∷ b))
      → x ≡ y
  head_eq x y a b s t h = elim (Ordering-cases (o.cmp (key x) (key y))) [
    | inl l ↦ absurd (ground (arith, h (key x), find_head x a, find_less x y b t l))
    | inr (inl m) ↦ ground (arith, h (key x), find_head x a, o.cmp_swap (key x) (key y))
    | inr (inr g) ↦ absurd (
        ground (
          arith,
          h (key y),
          find_head y b,
          find_less y x a s (ground (arith, o.cmp_swap (key x) (key y))),
        ))
  ]

  tail_eq :
      (x : E) (a b : List E)
      → IsSorted key (x ∷ a)
      → IsSorted key (x ∷ b)
      → ((q : K) → find key q (x ∷ a) ≡ find key q (x ∷ b))
      → (q : K) → find key q a ≡ find key q b
  tail_eq x a b s t h q = ground (
    arith,
    h q,
    find-Above key q a,
    find-Above key q b,
    Above-eq key q (key x) a,
    Above-eq key q (key x) b,
    o.cmp_swap (key x) q,
  )

  -- Sorted vectors in which every key finds the same are the same.
  pub sorted_ext :
      (a b : List E)
      → IsSorted key a
      → IsSorted key b
      → ((q : K) → find key q a ≡ find key q b)
      → a ≡ b
  sorted_ext [] [] s t h = refl
  sorted_ext [] (y ∷ b) s t h = absurd (ground (arith, h (key y), find_head y b))
  sorted_ext (x ∷ a) [] s t h = absurd (ground (arith, h (key x), find_head x a))
  sorted_ext (x ∷ a) (y ∷ b) s t h =
      let e = head_eq x y a b s t h in ap₂ ◌∷◌ e (sorted_ext a b s.1 t.1 (tails e))
    where
      tails : x ≡ y → (q : K) → find key q a ≡ find key q b
      tails e =
          tail_eq x a b s (subst (λ z. IsSorted key (z ∷ b)) (sym e) t)
            (λ q. h q ∙ ap (λ z. find key q (z ∷ b)) (sym e))
