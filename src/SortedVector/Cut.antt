-- ===== src/SortedVector/Cut.antt =====
-- Predicates that hold of a prefix of a vector, counted, and the slice between two of them.
use rust_shed.Prelude.{
  ℕ, zero, suc, ◌+◌, ◌-◌, ◌≤◌, ◌≡◌, refl, Bool, true, false, not, ◌&&◌, List, [], ◌∷◌, arith, All,
  if◌then◌else◌, length, take, drop, ltb, ◌∙◌, sym, ap, inl, inr, if_true, if_false, not_ltb,
  ltb-false, slice, Bool-cases, done, panic,
}

module _ {ℓ} {E : Type ℓ} where
  abbrev pub count : (E → Bool) → List E → ℕ
  count p [] = 0
  count p (x ∷ xs) = if p x then suc (count p xs) else count p xs

  -- The entries that satisfy a test, in order.
  abbrev pub select : (E → Bool) → List E → List E
  select p [] = []
  select p (x ∷ xs) = if p x then x ∷ select p xs else select p xs

  abbrev pub exists : (E → Bool) → List E → Bool
  exists p [] = false
  exists p (x ∷ xs) = if p x then true else exists p xs

  -- Once the predicate fails it fails to the end.
  abbrev pub HoldsToPoint : (E → Bool) → List E → Type 0
  HoldsToPoint p [] = Unit
  HoldsToPoint p (x ∷ xs) = (p x ≡ false → count p xs ≡ 0) × HoldsToPoint p xs

  pub count-split :
      (p : E → Bool) (i : ℕ) (xs : List E)
      → i ≤ length xs
      → All (λ x. p x ≡ true) (take i xs)
      → All (λ x. p x ≡ false) (drop i xs)
      → count p xs ≡ i
  count-split p zero [] h a b = refl
  count-split p zero (x ∷ xs) h a b =
      ground (arith, b.0, count-split p zero xs (omega arith) tt b.1)
  count-split p (suc i) [] h a b = absurd (omega arith)
  count-split p (suc i) (x ∷ xs) h a b = ground (arith, a.0, count-split p i xs (omega arith) a.1 b)

  -- `d` elements from the front, where the second count exceeds the first by `d`.
  slice_at :
      (p r : E → Bool) (xs : List E) (a d : ℕ)
      → HoldsToPoint p xs
      → HoldsToPoint r xs
      → a ≡ count p xs
      → a + d ≡ count r xs
      → take d (drop a xs) ≡ select (λ x. not (p x) && r x) xs
  slice_at p r [] a zero h k e f = refl
  slice_at p r [] a (suc d) h k e f = absurd (omega arith)
  slice_at p r (x ∷ xs) zero zero h k e f = ground (arith, h.0, k.0, slice_at p r xs 0 0 h.1 k.1)
  slice_at p r (x ∷ xs) zero (suc d) h k e f = ground (arith, h.0, k.0, slice_at p r xs 0 d h.1 k.1)
  slice_at p r (x ∷ xs) (suc a) d h k e f = ground (arith, h.0, k.0, slice_at p r xs a d h.1 k.1)

  pub slice-select :
      (p r : E → Bool) (xs : List E)
      → HoldsToPoint p xs
      → HoldsToPoint r xs
      → count p xs ≤ count r xs
      → take (count r xs - count p xs) (drop (count p xs) xs) ≡ select (λ x. not (p x) && r x) xs
  slice-select p r xs h k le =
      slice_at p r xs (count p xs) (count r xs - count p xs) h k refl (omega arith)

  pub count-le-length : (p : E → Bool) (xs : List E) → count p xs ≤ length xs
  count-le-length p [] = omega arith
  count-le-length p (x ∷ xs) = ground (arith, count-le-length p xs)

  -- The counts are in the wrong order exactly where an entry satisfies the first predicate alone.
  pub exists-count :
      (p r : E → Bool) (xs : List E)
      → HoldsToPoint p xs
      → HoldsToPoint r xs
      → exists (λ x. p x && not (r x)) xs ≡ ltb (count r xs) (count p xs)
  exists-count p r [] h k = refl
  exists-count p r (x ∷ xs) h k = ground (arith, exists-count p r xs h.1 k.1, h.0, k.0)

module _ {ℓ} {E : Type ℓ} (p r : E → Bool) (xs : List E) (h : HoldsToPoint p xs)
    (k : HoldsToPoint r xs) where
  slice_lem : (a b : ℕ) → a ≤ b → b ≤ length xs → slice xs a b ≡ done (take (b - a) (drop a xs))
  slice_lem a b le fits =
      if_false (ltb b a) _ _ (not_ltb a b le)
      ∙ if_false (ltb (length xs) b) _ _ (not_ltb b (length xs) fits)

  -- The slice from one count to another, with the panic that the code makes first.
  pub slice_between :
      (a b : ℕ)
      → a ≡ count p xs
      → b ≡ count r xs
      → (if ltb b a then panic else slice xs a b) ≡ (
          if exists (λ x. p x && not (r x)) xs
          then panic
          else done (select (λ x. not (p x) && r x) xs))
  slice_between a b e f = elim (Bool-cases (ltb b a)) [
    | inl t ↦ if_true (ltb b a) _ _ t ∙ sym (if_true _ _ _ (test ∙ t))
    | inr t ↦
        if_false (ltb b a) _ _ t
        ∙ slice_lem a b (ltb-false a b t) (omega (arith, f, count-le-length r xs))
        ∙ ap done (chosen (ltb-false a b t))
        ∙ sym (if_false _ _ _ (test ∙ t))
  ]
    where
      test : exists (λ x. p x && not (r x)) xs ≡ ltb b a
      test = rw (e, f) (exists-count p r xs h k)

      chosen : a ≤ b → take (b - a) (drop a xs) ≡ select (λ x. not (p x) && r x) xs
      chosen le = rw (e, f) (slice-select p r xs h k (omega (arith, e, f)))
