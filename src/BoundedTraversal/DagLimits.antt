-- ===== src/BoundedTraversal/DagLimits.antt =====
-- How many values of a graph are visited.
use rust_shed.Prelude.{
  ℕ, zero, suc, ◌+◌, ◌-◌, ◌≤◌, ◌≡◌, refl, ap, ◌∙◌, subst, max, Bool, true, false, ◌&&◌, Option,
  none, some, List, [], ◌∷◌, ◌++◌, Outcome, done, panic, ◌>>=◌, index, remove_at, length,
  length-take, take, ltb, ◌==◌, is_none, arith, if◌then◌else◌, inl, inr,
}
use rust_shed.Prelude.Results.{Result, ok, err, lookup, insert}
use rust_shed.BoundedTraversal.{NodeLocation, Either2, left, right, is_nil}
use rust_shed.BoundedTraversal.Tables.{
  total-insert, total-lookup, total-fresh, remove-none, length-total,
}
use rust_shed.BoundedTraversal.Limits.{Holds, Holds-bind, Holds-if, Holds-chain}
use rust_shed.BoundedTraversal.ByKeyLaws.{Option-cases}
use rust_shed.BoundedTraversal.Dag.{
  Children, pending_node, done_node, DagTraversal, DagProgress, running, waiting, finished,
  enqueue_unfold, enqueue_fold, new_dag, limit_children, enqueue_children, wait_for, process_unfold,
  update_children, update_location, update_all, process_fold, schedule_dag, finish_dag, process_job,
  dag_round, dag_run,
}

length-replace :
    {V : Type 0} (k : ℕ) (v w : V) (m : List (ℕ × V))
    → lookup k m ≡ some v
    → length (insert k w m) ≡ length m
length-replace k v w m found = omega (
  arith,
  length-total m,
  length-total (insert k w m),
  total-insert (λ z. 1) k w m,
  total-lookup (λ z. 1) k v m found,
)

length-add :
    {V : Type 0} (k : ℕ) (w : V) (m : List (ℕ × V))
    → lookup k m ≡ none
    → length (insert k w m) ≡ suc (length m)
length-add k w m absent = omega (
  arith,
  length-total m,
  length-total (insert k w m),
  total-fresh (λ z. 1) k w m (remove-none k m absent),
)

module _ {Ctx Out : Type 0} where
  -- The tree has that many nodes at most, and the limit is still the same.
  abbrev Sized : Option ℕ → ℕ → DagTraversal Ctx Out → Type 0
  Sized limit n self = (length self.execution_tree ≤ n) × (self.unfold_limit ≡ limit)

  enqueue_unfold-Sized :
      (limit : Option ℕ) (n : ℕ) (self : DagTraversal Ctx Out) (parent : NodeLocation) (value : ℕ)
      → Sized limit n self
      → Sized limit (suc n) (enqueue_unfold self parent value).1
  unfolding enqueue_unfold
  enqueue_unfold-Sized limit n self parent value (short, same) =
      elim (Option-cases (lookup value self.execution_tree)) [
        | inl absent ↦
            let added =
              length-add value (pending_node (parent ∷ []) none) self.execution_tree absent in
            rw (enqueue_unfold, absent) (omega (arith, short, added), same)
        | inr (pending_node parents children, found) ↦
            let replaced =
              length-replace value (pending_node parents children)
                (pending_node (parents ++ parent ∷ []) children) self.execution_tree found in
            rw (enqueue_unfold, found) (omega (arith, short, replaced), same)
        | inr (done_node out, found) ↦ rw (enqueue_unfold, found) (omega (arith, short), same)
      ]

  enqueue_children-Sized :
      (limit : Option ℕ) (n : ℕ) (self : DagTraversal Ctx Out) (value k : ℕ) (children : List ℕ)
      → Sized limit n self
      → Sized limit (length children + n) (enqueue_children self value k children).2
  unfolding enqueue_children
  enqueue_children-Sized limit n self value k [] (short, same) = (omega (arith, short), same)
  enqueue_children-Sized limit n self value k (child ∷ children) sized =
      let l : NodeLocation = record { node_index = value; child_index = k } in
      let (short, same) =
        enqueue_children-Sized limit (suc n) (enqueue_unfold self l child).1 value (k + 1) children
          (enqueue_unfold-Sized limit n self l child sized) in
      (omega (arith, short), same)

  module _ (limit n : ℕ) where
    wait_for-Sized :
        (self : DagTraversal Ctx Out) (value : ℕ) (wait : Children Ctx Out)
        → Sized (some limit) n self
        → Holds (Sized (some limit) n) (wait_for self value wait)
    unfolding wait_for
    wait_for-Sized self value wait (short, same) =
        elim (Option-cases (lookup value self.execution_tree)) [
          | inl absent ↦ rw (wait_for, absent) tt
          | inr (pending_node parents children, found) ↦
              let replaced =
                length-replace value (pending_node parents children)
                  (pending_node parents (some wait)) self.execution_tree found in
              rw (wait_for, found) (omega (arith, short, replaced), same)
          | inr (done_node out, found) ↦ rw (wait_for, found) tt
        ]

    update_location-Sized :
        (self : DagTraversal Ctx Out) (l : NodeLocation) (result : Out)
        → Sized (some limit) n self
        → Holds (Sized (some limit) n) (update_location self l result)
    unfolding update_location update_children enqueue_fold
    update_location-Sized self l result (short, same) =
        elim (Option-cases (lookup l.node_index self.execution_tree)) [
          | inl absent ↦ rw (update_location, absent) tt
          | inr (pending_node parents none, found) ↦ rw (update_location, found) tt
          | inr (pending_node parents (some wait), found) ↦
              let P : DagTraversal Ctx Out → Type 0 = Sized (some limit) n in
              let replaced : (c : Option (Children Ctx Out))
                  → length (insert l.node_index (pending_node parents c) self.execution_tree) ≤ n =
                λ c. omega (
                  arith,
                  short,
                  length-replace l.node_index (pending_node parents (some wait))
                      (pending_node parents c) self.execution_tree found,
                ) in
              rw (update_location, found)
                (Holds-bind P (index wait.children l.child_index) _ (λ child.
                  Holds-if P (is_none child) _ _
                    (Holds-if P (wait.children_left == 0) _ _ tt (
                      Holds-if P (wait.children_left - 1 == 0) _ _ (replaced none, same)
                        (replaced (some _), same)))
                    tt))
          | inr (done_node out, found) ↦ rw (update_location, found) tt
        ]

    update_all-Sized :
        (self : DagTraversal Ctx Out) (parents : List NodeLocation) (result : Out)
        → Sized (some limit) n self
        → Holds (Sized (some limit) n) (update_all self parents result)
    unfolding update_all
    update_all-Sized self [] result sized = sized
    update_all-Sized self (p ∷ ps) result sized =
        Holds-chain (Sized (some limit) n) (Sized (some limit) n) (update_location self p result) _
          (update_location-Sized self p result sized)
          (λ self' sized'. update_all-Sized self' ps result sized')

    process_fold-Sized :
        (self : DagTraversal Ctx Out) (value : ℕ) (result : Out)
        → Sized (some limit) n self
        → Holds (Sized (some limit) n) (process_fold self value result)
    unfolding process_fold
    process_fold-Sized self value result (short, same) =
        elim (Option-cases (lookup value self.execution_tree)) [
          | inl absent ↦ rw (process_fold, absent) tt
          | inr (pending_node parents children, found) ↦
              let replaced =
                length-replace value (pending_node parents children) (done_node result)
                  self.execution_tree found in
              rw (process_fold, found)
                (update_all-Sized _ parents result (omega (arith, short, replaced), same))
          | inr (done_node out, found) ↦ rw (process_fold, found) tt
        ]

  process_unfold-Sized :
      (limit : ℕ) (self : DagTraversal Ctx Out) (value : ℕ) (context : Ctx) (children : List ℕ)
      → Sized (some limit) (max 1 limit) self
      → Holds (Sized (some limit) (max 1 limit)) (process_unfold self value context children)
  unfolding process_unfold limit_children enqueue_fold
  process_unfold-Sized limit self value context children (short, same) =
      let kept : limit_children self children ≡ take (limit - length self.execution_tree) children =
        rw (limit_children, same) refl in
      let cut = ap length kept ∙ length-take (limit - length self.execution_tree) children in
      let (grown, same') =
        enqueue_children-Sized (some limit) (length self.execution_tree) self value 0
          (limit_children self children) (omega arith, same) in
      let (waits, outs, self') = enqueue_children self value 0 (limit_children self children) in
      let sized : Sized (some limit) (max 1 limit) self' =
        (omega (arith, grown, cut, short), same') in
      let P : DagTraversal Ctx Out → Type 0 = Sized (some limit) (max 1 limit) in
      Holds-if P (waits == 0) _ _ sized (wait_for-Sized limit (max 1 limit) self' value _ sized)

-- The values that are visited, where the traversal is not done.
abbrev pub visited : {Ctx Out Err : Type 0} → DagProgress Ctx Out Err → ℕ
visited (running self) = length self.execution_tree
visited (waiting self) = length self.execution_tree
visited (finished result) = 0

module _ {Ctx Out Err : Type 0} (unfold_fn : ℕ → Result (Ctx × List ℕ) Err)
    (fold_fn : Ctx → List Out → Result Out Err) (limit : ℕ) where
  abbrev Kept : DagProgress Ctx Out Err → Type 0
  Kept (running self) = Sized (some limit) (max 1 limit) self
  Kept (waiting self) = Sized (some limit) (max 1 limit) self
  Kept (finished result) = Unit

  process_job-Kept :
      (self : DagTraversal Ctx Out) (job : ℕ × Either2 ℕ Ctx Out)
      → Sized (some limit) (max 1 limit) self
      → Holds Kept (process_job unfold_fn fold_fn self job)
  unfolding process_job finish_dag
  process_job-Kept self (value, left i) sized = unfolded (unfold_fn i)
    where
      unfolded :
          (r : Result (Ctx × List ℕ) Err)
          → Holds Kept (elim r as (λ _. Outcome (DagProgress Ctx Out Err)) [
            | err e ↦ done (finished (err e))
            | ok (context, children) ↦
                process_unfold self value context children >>= λ self'. done (running self')
          ])
      unfolded (err e) = tt
      unfolded (ok (context, children)) =
          Holds-chain (Sized (some limit) (max 1 limit)) Kept
            (process_unfold self value context children) _
            (process_unfold-Sized limit self value context children sized) (λ self' sized'. sized')
  process_job-Kept self (value, right context outs) sized =
      Holds-if Kept (value == self.init) _ _
        (finishes (fold_fn context outs) (is_nil self.unscheduled && is_nil self.scheduled))
        (folded (fold_fn context outs))
    where
      finishes :
          (r : Result Out Err) (b : Bool)
          → Holds Kept (
              if b
              then (elim r as (λ _. Outcome (DagProgress Ctx Out Err)) [
                | err e ↦ done (finished (err e))
                | ok out ↦ done (finished (ok (some out)))
              ])
              else panic)
      finishes r false = tt
      finishes (err e) true = tt
      finishes (ok out) true = tt

      folded :
          (r : Result Out Err)
          → Holds Kept (elim r as (λ _. Outcome (DagProgress Ctx Out Err)) [
            | err e ↦ done (finished (err e))
            | ok result ↦ process_fold self value result >>= λ self'. done (running self')
          ])
      folded (err e) = tt
      folded (ok result) =
          Holds-chain (Sized (some limit) (max 1 limit)) Kept (process_fold self value result) _
            (process_fold-Sized limit (max 1 limit) self value result sized)
            (λ self' sized'. sized')

  dag_round-Kept :
      (scheduled_max pick : ℕ) (self : DagTraversal Ctx Out)
      → Sized (some limit) (max 1 limit) self
      → Holds Kept (dag_round unfold_fn fold_fn scheduled_max pick self)
  unfolding dag_round schedule_dag
  dag_round-Kept scheduled_max pick self sized =
      Holds-if Kept (is_nil self.unscheduled && is_nil self.scheduled) _ _ tt (
        Holds-chain (Sized (some limit) (max 1 limit)) Kept (schedule_dag scheduled_max self) _
          (Holds-if (Sized (some limit) (max 1 limit)) (ltb scheduled_max (length self.scheduled)) _
            _ tt sized)
          (λ self' sized'. Holds-if Kept (is_nil self'.scheduled) _ _ sized' (
            Holds-if Kept (ltb pick (length self'.scheduled)) _ _
              (Holds-bind Kept (remove_at self'.scheduled pick) _
                (λ r. process_job-Kept (record self' { scheduled = r.1 }) r.0 sized'))
              sized')))

  dag_run-Kept :
      (scheduled_max : ℕ) (pick : ℕ → ℕ) (fuel : ℕ) (self : DagTraversal Ctx Out)
      → Sized (some limit) (max 1 limit) self
      → Holds Kept (dag_run unfold_fn fold_fn scheduled_max pick fuel self)
  unfolding dag_run
  dag_run-Kept scheduled_max pick zero self sized = sized
  dag_run-Kept scheduled_max pick (suc fuel) self sized =
      Holds-chain Kept Kept (dag_round unfold_fn fold_fn scheduled_max (pick fuel) self) _
        (dag_round-Kept scheduled_max (pick fuel) self sized)
        (go (dag_run-Kept scheduled_max pick fuel))
    where
      go :
          ((self' : DagTraversal Ctx Out)
            → Sized (some limit) (max 1 limit) self'
            → Holds Kept (dag_run unfold_fn fold_fn scheduled_max pick fuel self'))
          → (p : DagProgress Ctx Out Err) → Kept p
          → Holds Kept (elim p as (λ _. Outcome (DagProgress Ctx Out Err)) [
            | running self' ↦ dag_run unfold_fn fold_fn scheduled_max pick fuel self'
            | waiting self' ↦ dag_run unfold_fn fold_fn scheduled_max pick fuel self'
            | finished result ↦ done (finished result)
          ])
      go rest (running self') kept = rest self' kept
      go rest (waiting self') kept = rest self' kept
      go rest (finished result) kept = tt

  visited-Kept : (p : DagProgress Ctx Out Err) → Kept p → visited p ≤ max 1 limit
  visited-Kept (running self) kept = kept.0
  visited-Kept (waiting self) kept = kept.0
  visited-Kept (finished result) kept = omega arith

  -- With a limit on the nodes, a traversal of a graph never has more values in its tree than the limit,
  -- or than the one that it starts from, after any number of rounds in which the queue yields its jobs
  -- in any order.
  pub dag_run-limit :
      (scheduled_max : ℕ) (pick : ℕ → ℕ) (fuel init : ℕ) (p : DagProgress Ctx Out Err)
      → dag_run unfold_fn fold_fn scheduled_max pick fuel (new_dag init (some limit)) ≡ done p
      → visited p ≤ max 1 limit
  unfolding new_dag enqueue_unfold
  dag_run-limit scheduled_max pick fuel init p e =
      let start : Sized (some limit) (max 1 limit)
          (new_dag {Ctx = Ctx} {Out = Out} init (some limit)) =
        (omega arith, refl) in
      visited-Kept p (
        subst (Holds Kept) e
          (dag_run-Kept scheduled_max pick fuel (new_dag init (some limit)) start))
