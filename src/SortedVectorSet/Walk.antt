-- ===== src/SortedVectorSet/Walk.antt =====
-- A walk over two sorted sets that picks from each pair: the set operations of set.rs as recursions,
-- that the iterators yield them, and what a value finds in them.
use Prim.Native.Nat.Ordering.{lt, eq, gt}
use rust_shed.Prelude.{
  ℕ, zero, suc, ◌+◌, ◌≤◌, ◌<◌, ◌≡◌, refl, sym, ap, ◌∙◌, ◌⊎◌, inl, inr, true, false, Option, none,
  some, List, [], ◌∷◌, arith, Ord, length, Ordering-cases, subst, is_none,
}
use rust_shed.SortedVector.Iter.{MergeIter, collect}
use rust_shed.SortedVectorSet.Operations.{pick_next, operation_next, rounds_left, both}

abbrev pub push {ℓ} : {T : Type ℓ} → Option T → List T → List T
push none ts = ts
push (some t) ts = t ∷ ts

module _ {ℓ} {T : Type ℓ} ⦃o : Ord T⦄ (pick : Option T × Option T → Option T) where
  abbrev pub walk : List T → List T → List T
  walk [] [] = []
  walk (a ∷ l) [] = push (pick (some a, none)) (walk l [])
  walk [] (b ∷ r) = push (pick (none, some b)) (walk [] r)
  walk (a ∷ l) (b ∷ r) = elim (o.cmp a b) [
    | lt ↦ push (pick (some a, none)) (walk l (b ∷ r))
    | eq ↦ push (pick (some a, some b)) (walk l r)
    | gt ↦ push (pick (none, some b)) (walk (a ∷ l) r)
  ]

  -- One call of `next`: what it returns and leaves is the walk, and it leaves fewer values.
  abbrev pub Picks : MergeIter T → Option T × MergeIter T → Type ℓ
  Picks it (none, t) = walk it.left it.right ≡ []
  Picks it (some a, t) =
      (walk it.left it.right ≡ a ∷ walk t.left t.right) × (rounds_left t < rounds_left it)

  -- One round, for any way to make progress.
  Picks-round :
      (fuel : ℕ) (l r l' r' : List T) (p : Option T × Option T)
      → operation_next (both l r) ≡ (some p, both l' r')
      → walk l r ≡ push (pick p) (walk l' r')
      → rounds_left (both l' r') < rounds_left (both l r)
      → Picks (both l' r') (pick_next operation_next pick fuel (both l' r'))
      → Picks (both l r) (pick_next operation_next pick (suc fuel) (both l r))
  unfolding pick_next
  Picks-round fuel l r l' r' p e w less rest =
      subst (Picks (both l r)) (sym step) (go (pick p) refl)
    where
      step : pick_next operation_next pick (suc fuel) (both l r) ≡ elim (pick p) [
        | none ↦ pick_next operation_next pick fuel (both l' r')
        | some a ↦ (some a, both l' r')
      ]
      step =
          ap
            (λ z. elim z.0 [
              | none ↦ (none, z.1)
              | some x ↦ elim (pick x) [
                | none ↦ pick_next operation_next pick fuel z.1
                | some a ↦ (some a, z.1)
              ]
            ])
            e

      go_none :
          (res : Option T × MergeIter T)
          → pick p ≡ none
          → Picks (both l' r') res
          → Picks (both l r) res
      go_none (none, t) c k = w ∙ ap (λ z. push z (walk l' r')) c ∙ k
      go_none (some a, t) c k =
          (w ∙ ap (λ z. push z (walk l' r')) c ∙ k.0, omega (arith, less, k.1))

      go :
          (c : Option T)
          → pick p ≡ c
          → Picks (both l r) (elim c [
            | none ↦ pick_next operation_next pick fuel (both l' r')
            | some a ↦ (some a, both l' r')
          ])
      go none c = go_none (pick_next operation_next pick fuel (both l' r')) c rest
      go (some a) c = (w ∙ ap (λ z. push z (walk l' r')) c, less)

  Picks-end :
      (fuel : ℕ) → Picks (both [] []) (pick_next operation_next pick (suc fuel) (both [] []))
  unfolding pick_next operation_next
  Picks-end fuel = refl

  pub pick_next-Picks :
      (fuel : ℕ) (l r : List T)
      → length l + length r < fuel
      → Picks (both l r) (pick_next operation_next pick fuel (both l r))
  unfolding operation_next
  pick_next-Picks zero l r h = absurd (omega arith)
  pick_next-Picks (suc fuel) [] [] h = Picks-end fuel
  pick_next-Picks (suc fuel) (a ∷ l) [] h =
      Picks-round fuel (a ∷ l) [] l [] (some a, none) refl refl (omega arith)
        (pick_next-Picks fuel l [] (omega arith))
  pick_next-Picks (suc fuel) [] (b ∷ r) h =
      Picks-round fuel [] (b ∷ r) [] r (none, some b) refl refl (omega arith)
        (pick_next-Picks fuel [] r (omega arith))
  pick_next-Picks (suc fuel) (a ∷ l) (b ∷ r) h = elim (Ordering-cases (o.cmp a b)) [
    | inl c ↦
        Picks-round fuel (a ∷ l) (b ∷ r) l (b ∷ r) (some a, none) (ground arith) (ground arith)
          (omega arith) (pick_next-Picks fuel l (b ∷ r) (omega arith))
    | inr (inl c) ↦
        Picks-round fuel (a ∷ l) (b ∷ r) l r (some a, some b) (ground arith) (ground arith)
          (omega arith) (pick_next-Picks fuel l r (omega arith))
    | inr (inr c) ↦
        Picks-round fuel (a ∷ l) (b ∷ r) (a ∷ l) r (none, some b) (ground arith) (ground arith)
          (omega arith) (pick_next-Picks fuel (a ∷ l) r (omega arith))
  ]

  collect_round :
      (fuel : ℕ) (next : MergeIter T → Option T × MergeIter T) (it : MergeIter T)
      (res : Option T × MergeIter T)
      → next it ≡ res
      → Picks it res
      → (rounds_left res.1 < rounds_left it → collect next fuel res.1 ≡ walk res.1.left res.1.right)
      → collect next (suc fuel) it ≡ walk it.left it.right
  unfolding collect
  collect_round fuel next it (none, t) e p rest =
      ap (λ z. elim z.0 [ none ↦ [] | some a ↦ a ∷ collect next fuel z.1 ]) e ∙ sym p
  collect_round fuel next it (some a, t) e p rest =
      ap (λ z. elim z.0 [ none ↦ [] | some b ↦ b ∷ collect next fuel z.1 ]) e
      ∙ ap (◌∷◌ a) (rest p.1)
      ∙ sym p.0

  -- Collected, an iterator over two sets is the walk.
  pub collect-walk :
      (fuel : ℕ) (next : MergeIter T → Option T × MergeIter T)
      → ((it : MergeIter T) → Picks it (next it))
      → (it : MergeIter T) → rounds_left it ≤ fuel
      → collect next fuel it ≡ walk it.left it.right
  collect-walk zero next h it f = absurd (omega arith)
  collect-walk (suc fuel) next h it f =
      collect_round fuel next it (next it) refl (h it)
        (λ less. collect-walk fuel next h (next it).1 (omega (arith, less)))

  -- One call returns something exactly where the walk is not empty.
  pub next-walk :
      (it : MergeIter T) (res : Option T × MergeIter T)
      → Picks it res
      → ((is_none res.0 ≡ true) × (walk it.left it.right ≡ []))
        ⊎ ((is_none res.0 ≡ false) × (a : T) × (ts : List T) × (walk it.left it.right ≡ a ∷ ts))
  next-walk it (none, t) p = inl (refl, p)
  next-walk it (some a, t) p = inr (refl, a, walk t.left t.right, p.0)
