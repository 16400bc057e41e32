-- ===== src/SortedVectorSet/SizeHints.antt =====
-- The size hints of `Difference`, `SymmetricDifference`, `Intersection` and `Union` in set.rs.
use rust_shed.Prelude.{
  ℕ, suc, ◌+◌, ◌-◌, ◌≤◌, ◌≡◌, min, max, refl, sym, subst, ap, ◌∙◌, inl, inr, Option, none, some,
  List, [], ◌∷◌, arith, Ord, length, Ordering-cases, Bool-cases, ltb, if_true, if_false, ◌^◌,
}
use rust_shed.SortedVector.Iter.{MergeIter, SizeHint, checked_add}
use rust_shed.SortedVectorSet.{SortedVectorSet}
use rust_shed.SortedVectorSet.Operations.{
  pick_next, operation_next, both, drained, rounds_left, pick_difference, pick_symmetric,
  pick_intersection, pick_union, difference_next, symmetric_difference_next, intersection_next,
  union_next, difference_size_hint, symmetric_difference_size_hint, intersection_size_hint,
  union_size_hint,
}
use rust_shed.SortedVectorSet.Walk.{walk, push}
use rust_shed.SortedVectorSet.WalkFind.{IsPick, walk-lt, walk-eq, walk-gt}
use rust_shed.SortedVectorSet.Algebra.{
  drained-walk, difference-IsPick, symmetric-IsPick, intersection-IsPick, union-IsPick,
  is_difference, is_symmetric, is_intersection, is_union,
}

-- The number is within the upper bound, if there is one.
abbrev pub Below : Option ℕ → ℕ → Type 0
Below none n = Unit
Below (some high) n = n ≤ high

-- The number is within the hint.
abbrev pub Fits : SizeHint → ℕ → Type 0
Fits hint n = (hint.0 ≤ n) × Below hint.1 n

checked-Fits : (a b n lo : ℕ) → lo ≤ n → n ≤ a + b → Fits (lo, checked_add a b) n
checked-Fits a b n lo h k = elim (Bool-cases (ltb (a + b) (2 ^ 64))) [
  | inl l ↦
      (h, subst (λ z. Below z n) (sym (if_true (ltb (a + b) (2 ^ 64)) (some (a + b)) none l)) k)
  | inr l ↦
      (h, subst (λ z. Below z n) (sym (if_false (ltb (a + b) (2 ^ 64)) (some (a + b)) none l)) tt)
]

-- How many values are picked.
abbrev size {ℓ} : {T : Type ℓ} → Option T → ℕ
size none = 0
size (some t) = 1

-- Two bounds on the number of values that are left, by what the two sides have left: each round
-- keeps them.
record KeepsBounds {ℓ} {T : Type ℓ} (pick : Option T × Option T → Option T) (lo hi : ℕ → ℕ → ℕ)
    : Type ℓ where
  nothing : (lo 0 0 ≤ 0) × (0 ≤ hi 0 0)
  from_left :
      (x : T) (a b : ℕ)
      → (lo (suc a) b ≤ size (pick (some x, none)) + lo a b)
        × (size (pick (some x, none)) + hi a b ≤ hi (suc a) b)
  from_right :
      (y : T) (a b : ℕ)
      → (lo a (suc b) ≤ size (pick (none, some y)) + lo a b)
        × (size (pick (none, some y)) + hi a b ≤ hi a (suc b))
  from_both :
      (x y : T) (a b : ℕ)
      → (lo (suc a) (suc b) ≤ size (pick (some x, some y)) + lo a b)
        × (size (pick (some x, some y)) + hi a b ≤ hi (suc a) (suc b))

length-push {ℓ} :
    {T : Type ℓ} (x : Option T) (ts : List T) → length (push x ts) ≡ size x + length ts
length-push none ts = omega arith
length-push (some x) ts = omega arith

module _ {ℓ} {T : Type ℓ} ⦃o : Ord T⦄ (pick : Option T × Option T → Option T) (p : IsPick pick)
    (lo hi : ℕ → ℕ → ℕ) (k : KeepsBounds pick lo hi) where
  abbrev Within : List T → List T → Type 0
  Within l r =
      (lo (length l) (length r) ≤ length (walk pick l r))
      × (length (walk pick l r) ≤ hi (length l) (length r))

  one_round :
      (l r l' r' : List T) (x : Option T)
      → walk pick l r ≡ push x (walk pick l' r')
      → (lo (length l) (length r) ≤ size x + lo (length l') (length r'))
        × (size x + hi (length l') (length r') ≤ hi (length l) (length r))
      → Within l' r'
      → Within l r
  one_round l r l' r' x e s h =
      let n = ap length e ∙ length-push x (walk pick l' r') in
      (omega (arith, n, s.0, h.0), omega (arith, n, s.1, h.1))

  length-walk : (l r : List T) → Within l r
  length-walk [] [] = k.nothing
  length-walk (x ∷ l) [] =
      one_round (x ∷ l) [] l [] (pick (some x, none)) refl (k.from_left x (length l) 0)
        (length-walk l [])
  length-walk [] (y ∷ r) =
      one_round [] (y ∷ r) [] r (pick (none, some y)) refl (k.from_right y 0 (length r))
        (length-walk [] r)
  length-walk (x ∷ l) (y ∷ r) = elim (Ordering-cases (o.cmp x y)) [
    | inl c ↦
        one_round (x ∷ l) (y ∷ r) l (y ∷ r) (pick (some x, none)) (walk-lt pick p x y l r c)
          (k.from_left x (length l) (length (y ∷ r))) (length-walk l (y ∷ r))
    | inr (inl c) ↦
        one_round (x ∷ l) (y ∷ r) l r (pick (some x, some y)) (walk-eq pick p x y l r c)
          (k.from_both x y (length l) (length r)) (length-walk l r)
    | inr (inr c) ↦
        one_round (x ∷ l) (y ∷ r) (x ∷ l) r (pick (none, some y)) (walk-gt pick p x y l r c)
          (k.from_right y (length (x ∷ l)) (length r)) (length-walk (x ∷ l) r)
  ]

  length-drained :
      (next : MergeIter T → Option T × MergeIter T)
      → ((it : MergeIter T) → next it ≡ pick_next operation_next pick (rounds_left it) it)
      → (s other : SortedVectorSet T)
      → (lo (length s) (length other) ≤ length (drained next s other))
        × (length (drained next s other) ≤ hi (length s) (length other))
  length-drained next e s other =
      let n = ap length (drained-walk pick next e s other) in
      let h = length-walk s other in (omega (arith, n, h.0), omega (arith, n, h.1))

difference-KeepsBounds {ℓ} :
    {T : Type ℓ} → KeepsBounds {T = T} pick_difference (λ a b. a - b) (λ a b. a)
unfolding pick_difference
difference-KeepsBounds = record {
  nothing = (omega arith, omega arith);
  from_left = λ x a b. (omega arith, omega arith);
  from_right = λ y a b. (omega arith, omega arith);
  from_both = λ x y a b. (omega arith, omega arith);
}

symmetric-KeepsBounds {ℓ} :
    {T : Type ℓ} → KeepsBounds {T = T} pick_symmetric (λ a b. 0) (λ a b. a + b)
unfolding pick_symmetric
symmetric-KeepsBounds = record {
  nothing = (omega arith, omega arith);
  from_left = λ x a b. (omega arith, omega arith);
  from_right = λ y a b. (omega arith, omega arith);
  from_both = λ x y a b. (omega arith, omega arith);
}

intersection-KeepsBounds {ℓ} :
    {T : Type ℓ} → KeepsBounds {T = T} pick_intersection (λ a b. 0) (λ a b. min a b)
unfolding pick_intersection
intersection-KeepsBounds = record {
  nothing = (omega arith, omega arith);
  from_left = λ x a b. (omega arith, omega arith);
  from_right = λ y a b. (omega arith, omega arith);
  from_both = λ x y a b. (omega arith, omega arith);
}

union-KeepsBounds {ℓ} :
    {T : Type ℓ} → KeepsBounds {T = T} pick_union (λ a b. max a b) (λ a b. a + b)
unfolding pick_union
union-KeepsBounds = record {
  nothing = (omega arith, omega arith);
  from_left = λ x a b. (omega arith, omega arith);
  from_right = λ y a b. (omega arith, omega arith);
  from_both = λ x y a b. (omega arith, omega arith);
}

module _ {ℓ} {T : Type ℓ} ⦃o : Ord T⦄ where
  -- The size hint of each of the four iterators over two sets, before the first call, bounds the
  -- number of values that the iterator yields, from below and, where it gives one, from above.
  pub size_hints_correct :
      (s other : SortedVectorSet T)
      → Fits (difference_size_hint (both s other)) (length (drained difference_next s other))
        × Fits
            (symmetric_difference_size_hint (both s other))
            (length (drained symmetric_difference_next s other))
        × Fits (intersection_size_hint (both s other)) (length (drained intersection_next s other))
        × Fits (union_size_hint (both s other)) (length (drained union_next s other))
  unfolding difference_size_hint symmetric_difference_size_hint intersection_size_hint
      union_size_hint
  size_hints_correct s other =
      let d =
        length-drained pick_difference difference-IsPick _ _ difference-KeepsBounds difference_next
          is_difference s other in
      let x =
        length-drained pick_symmetric symmetric-IsPick _ _ symmetric-KeepsBounds
          symmetric_difference_next is_symmetric s other in
      let i =
        length-drained pick_intersection intersection-IsPick _ _ intersection-KeepsBounds
          intersection_next is_intersection s other in
      let u =
        length-drained pick_union union-IsPick _ _ union-KeepsBounds union_next is_union s other in
      (
        d,
        checked-Fits (length s) (length other) (length (drained symmetric_difference_next s other))
            0 x.0 x.1,
        i,
        checked-Fits (length s) (length other) (length (drained union_next s other))
            (max (length s) (length other)) u.0 u.1,
      )
