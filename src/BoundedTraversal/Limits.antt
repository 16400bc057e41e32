-- ===== src/BoundedTraversal/Limits.antt =====
-- No more than `scheduled_max` jobs of a traversal are scheduled.
use rust_shed.Prelude.{
  ℕ, zero, suc, ◌+◌, ◌-◌, min, ◌≤◌, ◌≡◌, inl, inr, refl, ap, subst, Bool, Bool-cases, true, false,
  List, [], ◌∷◌, ◌++◌, arith, length, index, remove_at, ltb, is_none, expect, Outcome, done, panic,
  ◌>>=◌, ◌==◌, if◌then◌else◌,
}
use rust_shed.Prelude.Results.{Result, ok, err, lookup}
use rust_shed.BoundedTraversal.{
  NodeLocation, Either2, left, right, Traversal, enqueue_fold, process_unfold, process_fold,
  complete_node, schedule, finish, process, poll_round, is_nil, Progress, running, pending,
  finished,
}
use rust_shed.BoundedTraversal.Growth.{enqueue_children-pushed}
use rust_shed.BoundedTraversal.Rounds.{queued, jobs-queued, length-queued, schedule-queued}

-- If there is no panic, the result has the property.
abbrev pub Holds : {A : Type 0} → (A → Type 0) → Outcome A → Type 0
Holds P panic = Unit
Holds P (done a) = P a

pub Holds-bind :
    {A B : Type 0} (P : B → Type 0) (m : Outcome A) (f : A → Outcome B)
    → ((a : A) → Holds P (f a))
    → Holds P (m >>= f)
Holds-bind P (done a) f h = h a
Holds-bind P panic f h = tt

pub Holds-chain :
    {A B : Type 0} (Q : A → Type 0) (P : B → Type 0) (m : Outcome A) (f : A → Outcome B)
    → Holds Q m
    → ((a : A) → Q a → Holds P (f a))
    → Holds P (m >>= f)
Holds-chain Q P (done a) f q h = h a q
Holds-chain Q P panic f q h = tt

pub Holds-imp :
    {A : Type 0} (P Q : A → Type 0) (m : Outcome A) → ((a : A) → P a → Q a) → Holds P m → Holds Q m
Holds-imp P Q (done a) h p = h a p
Holds-imp P Q panic h p = tt

pub remove_at-shorter :
    {A : Type 0} (xs : List A) (i : ℕ) → Holds (λ r. length r.1 ≤ length xs) (remove_at xs i)
remove_at-shorter [] i = tt
remove_at-shorter (x ∷ xs) zero = omega arith
remove_at-shorter (x ∷ xs) (suc i) =
    Holds-chain (λ r. length r.1 ≤ length xs) (λ r. length r.1 ≤ suc (length xs)) (remove_at xs i) _
      (remove_at-shorter xs i) (λ r h. omega (arith, h))

pub Holds-if :
    {A : Type 0} (P : A → Type 0) (b : Bool) (x y : Outcome A)
    → Holds P x
    → Holds P y
    → Holds P (if b then x else y)
Holds-if P true x y h k = h
Holds-if P false x y h k = k

module _ {In Ctx Out : Type 0} where
  process_unfold-scheduled :
      (self : Traversal In Ctx Out) (l : NodeLocation) (context : Ctx) (ins : List In)
      → (process_unfold self l context ins).scheduled ≡ self.scheduled
  unfolding process_unfold enqueue_fold
  process_unfold-scheduled self l context ins =
      let n : ℕ = self.execution_tree_index + 1 in
      let enqueued = enqueue_children-pushed (record self { execution_tree_index = n }) n 0 ins in
      elim (Bool-cases (0 + length ins == 0)) [
        | inl e ↦ rw (enqueued, e) refl
        | inr e ↦ rw (enqueued, e) refl
      ]

  process_fold-scheduled :
      (self : Traversal In Ctx Out) (l : NodeLocation) (o : Out)
      → Holds (λ self'. self'.scheduled ≡ self.scheduled) (process_fold self l o)
  unfolding process_fold complete_node enqueue_fold
  process_fold-scheduled self l o =
      let P : Traversal In Ctx Out → Type 0 = λ self'. self'.scheduled ≡ self.scheduled in
      Holds-bind P (expect (lookup l.node_index self.execution_tree)) _ (λ node.
        Holds-bind P (index node.children l.child_index) _ (λ child.
          Holds-if P (is_none child) _ _
            (Holds-if P (node.children_left == 0) _ _ tt
              (Holds-if P (node.children_left - 1 == 0) _ _ refl refl))
            tt))

-- How many jobs stay in the queue.
abbrev pub in_progress : {In Ctx Out Err : Type 0} → Progress In Ctx Out Err → ℕ
in_progress (running self) = length self.scheduled
in_progress (pending self) = length self.scheduled
in_progress (finished result) = 0

module _ {In Ctx Out Err : Type 0} (unfold_fn : In → Result (Ctx × List In) Err)
    (fold_fn : Ctx → List Out → Result Out Err) where
  Limited : ℕ → Progress In Ctx Out Err → Type 0
  Limited n p = in_progress p ≤ n

  process-in_progress :
      (self : Traversal In Ctx Out) (l : NodeLocation) (future : Either2 In Ctx Out)
      → Holds
          (Limited (length self.scheduled))
          (process unfold_fn fold_fn self (record { location = l; future = future }))
  unfolding process finish Limited
  process-in_progress self l (left i) = unfolded (unfold_fn i)
    where
      unfolded :
          (r : Result (Ctx × List In) Err)
          → Holds
              (Limited (length self.scheduled))
              (elim r as (λ _. Outcome (Progress In Ctx Out Err)) [
                | err e ↦ done (finished (err e))
                | ok (context, children) ↦ done (running (process_unfold self l context children))
              ])
      unfolded (err e) = omega arith
      unfolded (ok (context, children)) =
          let same = ap length (process_unfold-scheduled self l context children) in
          omega (arith, same)
  process-in_progress self l (right c outs) =
      Holds-if (Limited (length self.scheduled)) (l.node_index == 0) _ _
        (finished_root (is_nil self.execution_tree) (is_nil self.unscheduled)
          (is_nil self.scheduled))
        (folded (fold_fn c outs))
    where
      finished_root :
          (no_nodes no_unscheduled no_scheduled : Bool)
          → Holds (Limited (length self.scheduled)) (
              if no_nodes
              then (if no_unscheduled
                  then (if no_scheduled then done (finished (fold_fn c outs)) else panic)
                  else panic)
              else panic)
      finished_root true true true = omega arith
      finished_root true true false = tt
      finished_root true false z = tt
      finished_root false y z = tt

      folded :
          (r : Result Out Err)
          → Holds
              (Limited (length self.scheduled))
              (elim r as (λ _. Outcome (Progress In Ctx Out Err)) [
                | err e ↦ done (finished (err e))
                | ok result ↦ process_fold self l result >>= λ self'. done (running self')
              ])
      folded (err e) = omega arith
      folded (ok result) =
          Holds-chain (λ self'. self'.scheduled ≡ self.scheduled) (Limited (length self.scheduled))
            (process_fold self l result) _ (process_fold-scheduled self l result)
            (λ self' same. let kept = ap length same in omega (arith, kept))

  round-in_progress :
      (scheduled_max pick : ℕ) (self : Traversal In Ctx Out)
      → length self.scheduled ≤ scheduled_max
      → Holds (Limited scheduled_max) (poll_round unfold_fn fold_fn scheduled_max pick self)
  unfolding poll_round Limited
  round-in_progress scheduled_max pick self fits =
      let self1 : Traversal In Ctx Out = queued scheduled_max self in
      let sized = length-queued scheduled_max self fits in
      let bound : length self1.scheduled ≤ scheduled_max = omega (arith, sized) in
      rw (poll_round, schedule-queued scheduled_max self fits)
        (Holds-if (Limited scheduled_max) (is_nil self1.scheduled) _ _ bound (
          Holds-if (Limited scheduled_max) (ltb pick (length self1.scheduled)) _ _
            (Holds-chain (λ r. length r.1 ≤ length self1.scheduled) (Limited scheduled_max)
              (remove_at self1.scheduled pick) _ (remove_at-shorter self1.scheduled pick)
              (λ r h.
                Holds-imp (Limited (length r.1)) (Limited scheduled_max) _
                  (λ p limited. omega (arith, limited, h, bound))
                  (process-in_progress (record self1 { scheduled = r.1 }) r.0.location r.0.future)))
            bound))

  -- If at most `scheduled_max` jobs are scheduled, then a round schedules as many more as the limit
  -- allows and there are, each job once and in the order in which they wait, and what it leads to has at
  -- most `scheduled_max` jobs scheduled too.
  pub poll_round-limit :
      (scheduled_max pick : ℕ) (self : Traversal In Ctx Out)
      → length self.scheduled ≤ scheduled_max
      → ((self1 : Traversal In Ctx Out) × (schedule scheduled_max self ≡ done self1)
          × (length self1.scheduled
              ≡ min scheduled_max (length self.scheduled + length self.unscheduled))
          × (self1.scheduled ++ self1.unscheduled ≡ self.scheduled ++ self.unscheduled))
        × ((p : Progress In Ctx Out Err)
            → poll_round unfold_fn fold_fn scheduled_max pick self ≡ done p
            → in_progress p ≤ scheduled_max)
  unfolding Limited
  poll_round-limit scheduled_max pick self fits = (
    (
      queued scheduled_max self,
      schedule-queued scheduled_max self fits,
      length-queued scheduled_max self fits,
      jobs-queued scheduled_max self,
    ),
    λ p e. subst (Holds (Limited scheduled_max)) e (round-in_progress scheduled_max pick self fits),
  )
