-- ===== src/BoundedTraversal/Slots.antt =====
-- The results of a node's children: what the list of them knows when one more is there.
use rust_shed.Prelude.{
  ℕ, zero, suc, ◌+◌, ◌≤◌, ◌<◌, ◌≡◌, refl, ap, ◌∙◌, Option, none, some, List, [], ◌∷◌, arith,
  get_elem?, set, index, done, ◌==◌, if◌then◌else◌,
}
use rust_shed.BoundedTraversal.{NodeLocation, flatten}
use rust_shed.BoundedTraversal.Ledger.{is_open, missing, place, wanted, Matches}

module _ {Out : Type 0} where
  -- An open child is a child without a result.
  pub is_open-child :
      (cs : List (Option Out)) (k : ℕ) → 0 < is_open (get_elem? cs k) → index cs k ≡ done none
  is_open-child [] k h = absurd (omega (arith, h))
  is_open-child (none ∷ cs) zero h = refl
  is_open-child (some o ∷ cs) zero h = absurd (omega (arith, h))
  is_open-child (c ∷ cs) (suc k) h = is_open-child cs k h

  pub is_open-missing : (cs : List (Option Out)) (k : ℕ) → is_open (get_elem? cs k) ≤ missing cs
  is_open-missing [] k = omega arith
  is_open-missing (none ∷ cs) zero = omega arith
  is_open-missing (some o ∷ cs) zero = omega arith
  is_open-missing (none ∷ cs) (suc k) = omega (arith, is_open-missing cs k)
  is_open-missing (some o ∷ cs) (suc k) = is_open-missing cs k

  pub missing-set :
      (cs : List (Option Out)) (k : ℕ) (o : Out)
      → 0 < is_open (get_elem? cs k)
      → missing cs ≡ 1 + missing (set cs k (some o))
  missing-set [] k o h = absurd (omega (arith, h))
  missing-set (none ∷ cs) zero o h = omega arith
  missing-set (some p ∷ cs) zero o h = absurd (omega (arith, h))
  missing-set (none ∷ cs) (suc k) o h = omega (arith, missing-set cs k o h)
  missing-set (some p ∷ cs) (suc k) o h = missing-set cs k o h

  pub is_open-set :
      (cs : List (Option Out)) (k : ℕ) (o : Out) (j : ℕ)
      → 0 < is_open (get_elem? cs k)
      → is_open (get_elem? cs j)
        ≡ (if k == j then 1 else 0) + is_open (get_elem? (set cs k (some o)) j)
  is_open-set [] k o j h = absurd (omega (arith, h))
  is_open-set (none ∷ cs) zero o zero h = ground arith
  is_open-set (some p ∷ cs) zero o zero h = absurd (omega (arith, h))
  is_open-set (c ∷ cs) zero o (suc j) h = ground arith
  is_open-set (c ∷ cs) (suc k) o zero h = ground arith
  is_open-set (c ∷ cs) (suc k) o (suc j) h = ground (arith, is_open-set cs k o j h)

  module _ (expected : NodeLocation → Out) (n : ℕ) where
    pub wanted-set :
        (k : ℕ) (cs : List (Option Out)) (i : ℕ) (o : Out)
        → wanted expected n k (set cs i (some o)) ≡ wanted expected n k cs
    wanted-set k [] i o = refl
    wanted-set k (c ∷ cs) zero o = refl
    wanted-set k (c ∷ cs) (suc i) o = ap (◌∷◌ (expected (place n k))) (wanted-set (k + 1) cs i o)

    pub Matches-set :
        (k : ℕ) (cs : List (Option Out)) (i : ℕ) (o : Out) (spot : ℕ)
        → spot ≡ k + i
        → o ≡ expected (place n spot)
        → 0 < is_open (get_elem? cs i)
        → Matches expected n k cs
        → Matches expected n k (set cs i (some o))
    Matches-set k [] i o spot h e opened m = absurd (omega (arith, opened))
    Matches-set k (none ∷ cs) zero o spot h e opened m =
        let here : spot ≡ k = omega (arith, h) in (e ∙ ap (λ z. expected (place n z)) here, m)
    Matches-set k (some p ∷ cs) zero o spot h e opened m = absurd (omega (arith, opened))
    Matches-set k (none ∷ cs) (suc i) o spot h e opened m =
        Matches-set (k + 1) cs i o spot (omega (arith, h)) e opened m
    Matches-set k (some p ∷ cs) (suc i) o spot h e opened m =
        (m.0, Matches-set (k + 1) cs i o spot (omega (arith, h)) e opened m.1)

    -- The results of a complete node are those that its fold wants.
    pub flatten-wanted :
        (k : ℕ) (cs : List (Option Out))
        → missing cs ≡ 0
        → Matches expected n k cs
        → flatten cs ≡ wanted expected n k cs
    flatten-wanted k [] h m = refl
    flatten-wanted k (none ∷ cs) h m = absurd (omega (arith, h))
    flatten-wanted k (some o ∷ cs) h m = cc (m.0, flatten-wanted (k + 1) cs h m.1)
