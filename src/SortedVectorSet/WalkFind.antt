-- ===== src/SortedVectorSet/WalkFind.antt =====
-- What a value finds in a walk over two sorted sets, and that the walk is sorted: for any operation
-- that picks one side of a pair, or none.
use Prim.Native.Nat.Ordering.{eq, gt}
use rust_shed.Prelude.{
  ◌≡◌, refl, sym, ap, ◌∙◌, ◌⊎◌, inl, inr, ◌≢◌, Option, none, some, List, [], ◌∷◌, arith, Ord, ◌≺◌,
  ◌≈◌, Ordering-cases, cmp_refl, subst, is_eq, if◌then◌else◌, or_else,
}
use rust_shed.SortedVector.Sorted.{IsSorted, Above, find, find-Above, Above-trans, Above-eq}
use rust_shed.SortedVectorSet.{itself}
use rust_shed.SortedVectorSet.Walk.{walk, push}

-- An operation picks one side, or none; from nothing it picks nothing.
pub record IsPick {ℓ} {T : Type ℓ} (pick : Option T × Option T → Option T) : Type ℓ where
  pub nothing : pick (none, none) ≡ none
  pub chosen : (x y : Option T) (t : T) → pick (x, y) ≡ some t → (x ≡ some t) ⊎ (y ≡ some t)

-- The predicate holds of the value, if there is one.
abbrev Each {ℓ κ} : {T : Type ℓ} → (T → Type κ) → Option T → Type κ
Each P none = Unit
Each P (some t) = P t

module _ {ℓ} {T : Type ℓ} ⦃o : Ord T⦄ where
  -- The value, if it compares equal to `q`.
  abbrev match_at : T → Option T → Option T
  match_at q none = none
  match_at q (some t) = if is_eq (o.cmp t q) then some t else none

  find-push :
      (q : T) (x : Option T) (ts : List T)
      → find itself q (push x ts) ≡ or_else (match_at q x) (find itself q ts)
  find-push q none ts = refl
  find-push q (some t) ts = ground arith

  match_at-Each :
      (q a : T) (x : Option T)
      → Each (λ t. t ≈ a) x
      → match_at q x ≡ (if is_eq (o.cmp a q) then x else none)
  match_at-Each q a none h = ground arith
  match_at-Each q a (some t) h = ground (arith, o.cmp_eq_left t a q h)

  Above-push :
      (k : T) (x : Option T) (ts : List T)
      → Each (λ t. k ≺ t) x
      → Above itself k ts
      → Above itself k (push x ts)
  Above-push k none ts h a = a
  Above-push k (some t) ts h a = (h, a)

  IsSorted-push :
      (a : T) (x : Option T) (ts : List T)
      → Each (λ t. t ≈ a) x
      → Above itself a ts
      → IsSorted itself ts
      → IsSorted itself (push x ts)
  IsSorted-push a none ts h b s = s
  IsSorted-push a (some t) ts h b s = (Above-eq itself t a ts h b, s)

module _ {ℓ} {T : Type ℓ} ⦃o : Ord T⦄ (pick : Option T × Option T → Option T)
    (p : IsPick pick) where
  pick-Each : (P : T → Type 0) (x y : Option T) → Each P x → Each P y → Each P (pick (x, y))
  pick-Each P x y h k = go (pick (x, y)) refl
    where
      at : (z : Option T) (t : T) → Each P z → z ≡ some t → P t
      at z t e f = subst (Each P) f e

      go : (z : Option T) → pick (x, y) ≡ z → Each P z
      go none e = tt
      go (some t) e = elim (p.chosen x y t e) [ inl f ↦ at x t h f | inr f ↦ at y t k f ]

  like :
      (a : T) (x y : Option T)
      → Each (λ t. t ≈ a) x
      → Each (λ t. t ≈ a) y
      → Each (λ t. t ≈ a) (pick (x, y))
  like a = pick-Each (λ t. t ≈ a)

  pub walk-lt :
      (x y : T) (l r : List T)
      → x ≺ y
      → walk pick (x ∷ l) (y ∷ r) ≡ push (pick (some x, none)) (walk pick l (y ∷ r))
  walk-lt x y l r c = ground arith

  pub walk-eq :
      (x y : T) (l r : List T)
      → x ≈ y
      → walk pick (x ∷ l) (y ∷ r) ≡ push (pick (some x, some y)) (walk pick l r)
  walk-eq x y l r c = ground arith

  pub walk-gt :
      (x y : T) (l r : List T)
      → o.cmp x y ≡ gt
      → walk pick (x ∷ l) (y ∷ r) ≡ push (pick (none, some y)) (walk pick (x ∷ l) r)
  walk-gt x y l r c = ground arith

  Above-walk :
      (k : T) (l r : List T) → Above itself k l → Above itself k r → Above itself k (walk pick l r)
  Above-walk k [] [] a b = tt
  Above-walk k (x ∷ l) [] a b =
      Above-push k (pick (some x, none)) (walk pick l [])
        (pick-Each (λ t. k ≺ t) (some x) none a.0 tt) (Above-walk k l [] a.1 tt)
  Above-walk k [] (y ∷ r) a b =
      Above-push k (pick (none, some y)) (walk pick [] r)
        (pick-Each (λ t. k ≺ t) none (some y) tt b.0) (Above-walk k [] r tt b.1)
  Above-walk k (x ∷ l) (y ∷ r) a b = elim (Ordering-cases (o.cmp x y)) [
    | inl c ↦ subst (Above itself k) (sym (walk-lt x y l r c)) (
        Above-push k (pick (some x, none)) (walk pick l (y ∷ r))
          (pick-Each (λ t. k ≺ t) (some x) none a.0 tt) (Above-walk k l (y ∷ r) a.1 b))
    | inr (inl c) ↦ subst (Above itself k) (sym (walk-eq x y l r c)) (
        Above-push k (pick (some x, some y)) (walk pick l r)
          (pick-Each (λ t. k ≺ t) (some x) (some y) a.0 b.0) (Above-walk k l r a.1 b.1))
    | inr (inr c) ↦ subst (Above itself k) (sym (walk-gt x y l r c)) (
        Above-push k (pick (none, some y)) (walk pick (x ∷ l) r)
          (pick-Each (λ t. k ≺ t) none (some y) tt b.0) (Above-walk k (x ∷ l) r a b.1))
  ]

  -- The walk over sorted sets is sorted.
  pub walk-IsSorted :
      (l r : List T) → IsSorted itself l → IsSorted itself r → IsSorted itself (walk pick l r)
  walk-IsSorted [] [] s t = tt
  walk-IsSorted (x ∷ l) [] s t =
      IsSorted-push x (pick (some x, none)) (walk pick l []) (like x (some x) none (cmp_refl x) tt)
        (Above-walk x l [] s.0 tt) (walk-IsSorted l [] s.1 tt)
  walk-IsSorted [] (y ∷ r) s t =
      IsSorted-push y (pick (none, some y)) (walk pick [] r) (like y none (some y) tt (cmp_refl y))
        (Above-walk y [] r tt t.0) (walk-IsSorted [] r tt t.1)
  walk-IsSorted (x ∷ l) (y ∷ r) s t = elim (Ordering-cases (o.cmp x y)) [
    | inl c ↦ subst (IsSorted itself) (sym (walk-lt x y l r c)) (
        IsSorted-push x (pick (some x, none)) (walk pick l (y ∷ r))
          (like x (some x) none (cmp_refl x) tt)
          (Above-walk x l (y ∷ r) s.0 (c, Above-trans itself x y r c t.0))
          (walk-IsSorted l (y ∷ r) s.1 t))
    | inr (inl c) ↦ subst (IsSorted itself) (sym (walk-eq x y l r c)) (
        IsSorted-push x (pick (some x, some y)) (walk pick l r)
          (like x (some x) (some y) (cmp_refl x) (ground (arith, o.cmp_swap x y)))
          (Above-walk x l r s.0 (Above-eq itself x y r c t.0)) (walk-IsSorted l r s.1 t.1))
    | inr (inr c) ↦
        let d : y ≺ x = ground (arith, o.cmp_swap x y) in
        subst (IsSorted itself) (sym (walk-gt x y l r c)) (
          IsSorted-push y (pick (none, some y)) (walk pick (x ∷ l) r)
            (like y none (some y) tt (cmp_refl y))
            (Above-walk y (x ∷ l) r (d, Above-trans itself y x l d s.0) t.0)
            (walk-IsSorted (x ∷ l) r s t.1))
  ]

  -- One round of the walk, from `l` and `r` to `l'` and `r'`, by values that compare equal to `a`.
  find_round :
      (q a : T) (x y : Option T) (l r l' r' : List T)
      → Each (λ t. t ≈ a) x
      → Each (λ t. t ≈ a) y
      → walk pick l r ≡ push (pick (x, y)) (walk pick l' r')
      → find itself q (walk pick l' r') ≡ pick (find itself q l', find itself q r')
      → (a ≈ q
          → (find itself q l ≡ x)
            × (find itself q r ≡ y)
            × (find itself q l' ≡ none)
            × (find itself q r' ≡ none))
      → (o.cmp a q ≢ eq
          → (find itself q l ≡ find itself q l') × (find itself q r ≡ find itself q r'))
      → find itself q (walk pick l r) ≡ pick (find itself q l, find itself q r)
  find_round q a x y l r l' r' ex ey w ih hit miss = elim (Ordering-cases (o.cmp a q)) [
    | inl c ↦ first_part ∙ ground (arith, ih, miss)
    | inr (inl c) ↦ first_part ∙ ground (arith, ih, hit, p.nothing)
    | inr (inr c) ↦ first_part ∙ ground (arith, ih, miss)
  ]
    where
      first_part :
          find itself q (walk pick l r)
          ≡ or_else
              (if is_eq (o.cmp a q) then pick (x, y) else none)
              (find itself q (walk pick l' r'))
      first_part =
          ap (find itself q) w
          ∙ find-push q (pick (x, y)) (walk pick l' r')
          ∙ ap (λ z. or_else z (find itself q (walk pick l' r')))
              (match_at-Each q a (pick (x, y)) (like a x y ex ey))

  none_behind : (q x : T) (l : List T) → Above itself x l → x ≈ q → find itself q l ≡ none
  none_behind q x l a e =
      find-Above itself q l (Above-eq itself q x l (ground (arith, o.cmp_swap x q)) a)

  -- What a value finds in the walk is what the operation picks of what it finds in the two sets.
  pub find-walk :
      (q : T) (l r : List T)
      → IsSorted itself l
      → IsSorted itself r
      → find itself q (walk pick l r) ≡ pick (find itself q l, find itself q r)
  find-walk q [] [] s t = sym p.nothing
  find-walk q (x ∷ l) [] s t =
      find_round q x (some x) none (x ∷ l) [] l [] (cmp_refl x) tt refl (find-walk q l [] s.1 tt)
        (λ e. (ground arith, refl, none_behind q x l s.0 e, refl)) (λ e. (ground arith, refl))
  find-walk q [] (y ∷ r) s t =
      find_round q y none (some y) [] (y ∷ r) [] r tt (cmp_refl y) refl (find-walk q [] r tt t.1)
        (λ e. (refl, ground arith, refl, none_behind q y r t.0 e)) (λ e. (refl, ground arith))
  find-walk q (x ∷ l) (y ∷ r) s t = elim (Ordering-cases (o.cmp x y)) [
    | inl c ↦
        let above = Above-trans itself x y r c t.0 in
        find_round q x (some x) none (x ∷ l) (y ∷ r) l (y ∷ r) (cmp_refl x) tt (walk-lt x y l r c)
          (find-walk q l (y ∷ r) s.1 t)
          (λ e. (
            ground arith,
            none_behind q x (y ∷ r) (c, above) e,
            none_behind q x l s.0 e,
            none_behind q x (y ∷ r) (c, above) e,
          ))
          (λ e. (ground arith, refl))
    | inr (inl c) ↦
        find_round q x (some x) (some y) (x ∷ l) (y ∷ r) l r (cmp_refl x)
          (ground (arith, o.cmp_swap x y)) (walk-eq x y l r c) (find-walk q l r s.1 t.1)
          (λ e. (
            ground arith,
            ground (arith, o.cmp_eq_left x y q c),
            none_behind q x l s.0 e,
            none_behind q x r (Above-eq itself x y r c t.0) e,
          ))
          (λ e. (ground arith, ground (arith, o.cmp_eq_left x y q c)))
    | inr (inr c) ↦
        let d : y ≺ x = ground (arith, o.cmp_swap x y) in
        let above = Above-trans itself y x l d s.0 in
        find_round q y none (some y) (x ∷ l) (y ∷ r) (x ∷ l) r tt (cmp_refl y) (walk-gt x y l r c)
          (find-walk q (x ∷ l) r s t.1)
          (λ e. (
            none_behind q y (x ∷ l) (d, above) e,
            ground arith,
            none_behind q y (x ∷ l) (d, above) e,
            none_behind q y r t.0 e,
          ))
          (λ e. (refl, ground arith))
  ]
