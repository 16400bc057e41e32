-- ===== src/BoundedTraversal/Dag.antt =====
-- shed/bounded_traversal/src/dag.rs: the traversal of a graph, in which a value that is seen again is
-- not unfolded again. Values are numbers; the closures and the queue are those of the tree.
use rust_shed.Prelude.{
  ℕ, zero, suc, ◌+◌, ◌-◌, min, ◌&&◌, Option, none, some, List, [], ◌∷◌, ◌++◌, Outcome, done, panic,
  ◌>>=◌, expect, set, index, remove_at, length, take, drop, ltb, ◌==◌, is_none, if◌then◌else◌,
}
use rust_shed.Prelude.Results.{Result, ok, err, lookup, insert}
use rust_shed.BoundedTraversal.{NodeLocation, Either2, left, right, flatten, is_nil}

pub record Children (Ctx Out : Type 0) : Type 0 where
  pub context : Ctx
  pub children : List (Option Out)
  pub children_left : ℕ

pub data DagNode (Ctx Out : Type 0) : Type 0 where
  pending_node : List NodeLocation → Option (Children Ctx Out) → DagNode Ctx Out
  done_node : Out → DagNode Ctx Out

-- A job is the value that it is for, and its future.
pub record DagTraversal (Ctx Out : Type 0) : Type 0 where
  pub init : ℕ
  pub scheduled : List (ℕ × Either2 ℕ Ctx Out)
  pub unscheduled : List (ℕ × Either2 ℕ Ctx Out)
  pub execution_tree : List (ℕ × DagNode Ctx Out)
  pub unfold_limit : Option ℕ

pub data DagProgress (Ctx Out Err : Type 0) : Type 0 where
  running : DagTraversal Ctx Out → DagProgress Ctx Out Err
  waiting : DagTraversal Ctx Out → DagProgress Ctx Out Err
  finished : Result (Option Out) Err → DagProgress Ctx Out Err

module _ {Ctx Out : Type 0} where
  unfoldable pub enqueue_unfold :
      DagTraversal Ctx Out → NodeLocation → ℕ → Option Out × DagTraversal Ctx Out
  enqueue_unfold self parent value = elim (lookup value self.execution_tree) [
    | none ↦ (
      none,
      record self {
        execution_tree = insert value (pending_node (parent ∷ []) none) self.execution_tree;
        unscheduled = (value, left value) ∷ self.unscheduled;
      },
    )
    | some (pending_node parents children) ↦ (
      none,
      record self {
        execution_tree =
            insert value (pending_node (parents ++ parent ∷ []) children) self.execution_tree;
      },
    )
    | some (done_node result) ↦ (some result, self)
  ]

  unfoldable pub enqueue_fold : DagTraversal Ctx Out → ℕ → Ctx → List Out → DagTraversal Ctx Out
  enqueue_fold self value context children = record self {
    unscheduled = (value, right context children) ∷ self.unscheduled;
  }

  unfoldable pub new_dag : ℕ → Option ℕ → DagTraversal Ctx Out
  unfolding enqueue_unfold
  new_dag init unfold_limit =
      (enqueue_unfold
        (record {
          init = init;
          scheduled = [];
          unscheduled = [];
          execution_tree = [];
          unfold_limit = unfold_limit;
        })
        (record { node_index = init; child_index = 0 }) init).1

  -- The children that the limit leaves; without a limit, `take(usize::MAX)` is all of them.
  unfoldable pub limit_children : DagTraversal Ctx Out → List ℕ → List ℕ
  limit_children self children = elim self.unfold_limit [
    | none ↦ children
    | some limit ↦ take (limit - length self.execution_tree) children
  ]

  -- The children from an index on: how many have no result yet, what is known of each, and the state.
  unfoldable pub enqueue_children :
      DagTraversal Ctx Out → ℕ → ℕ → List ℕ → ℕ × List (Option Out) × DagTraversal Ctx Out
  unfolding enqueue_unfold
  enqueue_children self value child_index [] = (0, [], self)
  enqueue_children self value child_index (child ∷ children) =
      let (out, self') =
        enqueue_unfold self (record { node_index = value; child_index = child_index }) child in
      let (waits, outs, self'') = enqueue_children self' value (child_index + 1) children in
      ((if is_none out then waits + 1 else waits), out ∷ outs, self'')

  -- `*wait = Some(Children { .. })`
  unfoldable pub wait_for :
      DagTraversal Ctx Out → ℕ → Children Ctx Out → Outcome (DagTraversal Ctx Out)
  wait_for self value wait = expect (lookup value self.execution_tree) >>= λ node. elim node [
    | pending_node parents children ↦ done (record self {
      execution_tree = insert value (pending_node parents (some wait)) self.execution_tree;
    })
    | done_node result ↦ panic
  ]

  unfoldable pub process_unfold :
      DagTraversal Ctx Out → ℕ → Ctx → List ℕ → Outcome (DagTraversal Ctx Out)
  unfolding limit_children enqueue_children wait_for enqueue_fold
  process_unfold self value context children =
      let (waits, outs, self') = enqueue_children self value 0 (limit_children self children) in
      if waits == 0
      then done (enqueue_fold self' value context (flatten outs))
      else wait_for self' value
          (record { context = context; children = outs; children_left = waits })

  -- The result goes to a child of the node, which folds when no child is left.
  unfoldable pub update_children :
      DagTraversal Ctx Out
      → NodeLocation
      → Out
      → List NodeLocation
      → Children Ctx Out
      → Outcome (DagTraversal Ctx Out)
  unfolding enqueue_fold
  update_children self loc result parents wait = do
    child ← index wait.children loc.child_index
    let outs = set wait.children loc.child_index (some result)
    let wait' : Children Ctx Out = record wait {
      children = outs;
      children_left = wait.children_left - 1;
    }
    let keep : Option (Children Ctx Out) → DagTraversal Ctx Out = λ children. record self {
      execution_tree = insert loc.node_index (pending_node parents children) self.execution_tree;
    }
    if is_none child
        then (if wait.children_left == 0
            then panic
            else if wait.children_left - 1 == 0
            then done (enqueue_fold (keep none) loc.node_index wait.context (flatten outs))
            else done (keep (some wait')))
        else panic

  unfoldable pub update_location :
      DagTraversal Ctx Out → NodeLocation → Out → Outcome (DagTraversal Ctx Out)
  unfolding update_children
  update_location self loc result = expect (lookup loc.node_index self.execution_tree) >>= λ node.
      elim node [
        | pending_node parents children ↦
            expect children >>= λ wait. update_children self loc result parents wait
        | done_node out ↦ panic
      ]

  unfoldable pub update_all :
      DagTraversal Ctx Out → List NodeLocation → Out → Outcome (DagTraversal Ctx Out)
  update_all self [] result = done self
  update_all self (parent ∷ parents) result =
      update_location self parent result >>= λ self'. update_all self' parents result

  unfoldable pub process_fold : DagTraversal Ctx Out → ℕ → Out → Outcome (DagTraversal Ctx Out)
  unfolding update_all
  process_fold self value result = expect (lookup value self.execution_tree) >>= λ node. elim node [
    | pending_node parents children ↦
        update_all
          (record self { execution_tree = insert value (done_node result) self.execution_tree })
          parents result
    | done_node out ↦ panic
  ]

  unfoldable pub schedule_dag : ℕ → DagTraversal Ctx Out → Outcome (DagTraversal Ctx Out)
  schedule_dag scheduled_max self =
      let n = min (length self.unscheduled) (scheduled_max - length self.scheduled) in
      if ltb scheduled_max (length self.scheduled)
      then panic
      else done (record self {
        scheduled = self.scheduled ++ take n self.unscheduled;
        unscheduled = drop n self.unscheduled;
      })

module _ {Ctx Out Err : Type 0} (unfold_fn : ℕ → Result (Ctx × List ℕ) Err)
    (fold_fn : Ctx → List Out → Result Out Err) where
  -- The assertions when the fold of `init` is done, and its result or error.
  unfoldable pub finish_dag :
      DagTraversal Ctx Out → Result Out Err → Outcome (DagProgress Ctx Out Err)
  finish_dag self result =
      if is_nil self.unscheduled && is_nil self.scheduled
      then elim result [
        | err e ↦ done (finished (err e))
        | ok out ↦ done (finished (ok (some out)))
      ]
      else panic

  unfoldable pub process_job :
      DagTraversal Ctx Out → ℕ × Either2 ℕ Ctx Out → Outcome (DagProgress Ctx Out Err)
  unfolding finish_dag process_unfold process_fold
  process_job self (value, left i) = elim (unfold_fn i) [
    | err e ↦ done (finished (err e))
    | ok (context, children) ↦
        process_unfold self value context children >>= λ self'. done (running self')
  ]
  process_job self (value, right context children) =
      if value == self.init
      then finish_dag self (fold_fn context children)
      else elim (fold_fn context children) [
        | err e ↦ done (finished (err e))
        | ok result ↦ process_fold self value result >>= λ self'. done (running self')
      ]

  -- With nothing left there is a cycle.
  unfoldable pub dag_round : ℕ → ℕ → DagTraversal Ctx Out → Outcome (DagProgress Ctx Out Err)
  dag_round scheduled_max pick self =
      if is_nil self.unscheduled && is_nil self.scheduled then done (finished (ok none)) else (do
        self' ← schedule_dag scheduled_max self
        if is_nil self'.scheduled
            then done (running self')
            else if ltb pick (length self'.scheduled)
            then (do
              r ← remove_at self'.scheduled pick
              process_job (record self' { scheduled = r.1 }) r.0)
            else done (waiting self'))

  -- The traversal, polled until it is done; `pick` is what the queue yields in the round with that much
  -- fuel left.
  unfoldable pub dag_run :
      ℕ → (ℕ → ℕ) → ℕ → DagTraversal Ctx Out → Outcome (DagProgress Ctx Out Err)
  dag_run scheduled_max pick zero self = done (waiting self)
  dag_run scheduled_max pick (suc fuel) self = do
    progress ← dag_round scheduled_max (pick fuel) self
    elim progress [
      | running self' ↦ dag_run scheduled_max pick fuel self'
      | waiting self' ↦ dag_run scheduled_max pick fuel self'
      | finished result ↦ done (finished result)
    ]
