-- ===== src/BoundedTraversal.antt =====
-- shed/bounded_traversal/src/tree.rs, with `NodeLocation` and `Either2` of src/common.rs: a traversal
-- that unfolds a tree and folds it up again, with at most `scheduled_max` calls in progress at once.
-- The closures return what depends on their arguments only, so a future is the call that it makes.
-- `FuturesUnordered` yields the result of any of its futures: which one is a parameter.
pub mod Tables
pub mod Reference
pub mod Ledger
pub mod Growth
pub mod Unfolding
pub mod Slots
pub mod Folding
pub mod Finishing
pub mod Steps
pub mod Rounds
pub mod Limits
pub mod Streams
pub mod StreamItems
pub mod StreamLaws
pub mod ByKey
pub mod ByKeyLaws
pub mod ByKeyRounds
pub mod Dag
pub mod DagLimits
use rust_shed.Prelude.{
  ℕ, zero, suc, ◌+◌, ◌-◌, min, Bool, true, false, Option, none, some, List, [], ◌∷◌, ◌++◌, Outcome,
  done, panic, ◌>>=◌, expect, set, index, remove_at, length, take, drop, ltb, ◌==◌, is_none,
  if◌then◌else◌,
}
use rust_shed.Prelude.Results
use rust_shed.Prelude.Results.{Result, ok, err, lookup}

pub record NodeLocation : Type 0 where
  pub node_index : ℕ
  pub child_index : ℕ

-- A future that is joined with the location of its result.
pub data Either2 (In Ctx Out : Type 0) : Type 0 where
  left : In → Either2 In Ctx Out
  right : Ctx → List Out → Either2 In Ctx Out

pub record Job (In Ctx Out : Type 0) : Type 0 where
  pub location : NodeLocation
  pub future : Either2 In Ctx Out

pub record Node (Ctx Out : Type 0) : Type 0 where
  pub parent : NodeLocation
  pub context : Ctx
  pub children : List (Option Out)
  pub children_left : ℕ

pub record Traversal (In Ctx Out : Type 0) : Type 0 where
  pub scheduled : List (Job In Ctx Out)
  pub unscheduled : List (Job In Ctx Out)
  pub execution_tree : List (ℕ × Node Ctx Out)
  pub execution_tree_index : ℕ

abbrev pub root : NodeLocation
root = record { node_index = 0; child_index = 0 }

-- `vec.resize_with(count, || None)` of an empty vector.
abbrev pub nones : {Out : Type 0} → ℕ → List (Option Out)
nones zero = []
nones (suc n) = none ∷ nones n

-- `children.into_iter().flatten()`
abbrev pub flatten : {Out : Type 0} → List (Option Out) → List Out
flatten [] = []
flatten (none ∷ xs) = flatten xs
flatten (some x ∷ xs) = x ∷ flatten xs

module _ {In Ctx Out : Type 0} where
  unfoldable pub enqueue_unfold : Traversal In Ctx Out → NodeLocation → In → Traversal In Ctx Out
  enqueue_unfold self parent value = record self {
    unscheduled = record { location = parent; future = left value } ∷ self.unscheduled;
  }

  unfoldable pub enqueue_fold :
      Traversal In Ctx Out → NodeLocation → Ctx → List Out → Traversal In Ctx Out
  enqueue_fold self parent context children = record self {
    unscheduled = record { location = parent; future = right context children } ∷ self.unscheduled;
  }

  unfoldable pub new : In → Traversal In Ctx Out
  unfolding enqueue_unfold
  new init =
      enqueue_unfold
        (record { scheduled = []; unscheduled = []; execution_tree = []; execution_tree_index = 0 })
        root init

  -- The `fold` that schedules the children, from a child index on, and counts them.
  unfoldable pub enqueue_children :
      Traversal In Ctx Out → ℕ → ℕ → List In → ℕ × Traversal In Ctx Out
  unfolding enqueue_unfold
  enqueue_children self node_index child_index [] = (child_index, self)
  enqueue_children self node_index child_index (child ∷ children) =
      enqueue_children
        (enqueue_unfold self (record { node_index = node_index; child_index = child_index }) child)
        node_index (child_index + 1) children

  unfoldable pub process_unfold :
      Traversal In Ctx Out → NodeLocation → Ctx → List In → Traversal In Ctx Out
  unfolding enqueue_children enqueue_fold
  process_unfold self parent context children =
      let node_index = self.execution_tree_index + 1 in
      let (count, self') =
        enqueue_children (record self { execution_tree_index = node_index }) node_index 0
          children in
      if count == 0 then enqueue_fold self' parent context [] else record self' {
        execution_tree =
            Results.insert node_index
              (record {
                parent = parent;
                context = context;
                children = nones count;
                children_left = count;
              })
              self'.execution_tree;
      }

  -- A node that has its last result folds, and leaves the tree.
  unfoldable pub complete_node : Traversal In Ctx Out → ℕ → Node Ctx Out → Traversal In Ctx Out
  unfolding enqueue_fold
  complete_node self node_index node =
      enqueue_fold (record self { execution_tree = Results.remove node_index self.execution_tree })
        node.parent node.context (flatten node.children)

  -- The debug assertion and the overflow of `children_left` panic, as they do in a debug build.
  unfoldable pub process_fold :
      Traversal In Ctx Out → NodeLocation → Out → Outcome (Traversal In Ctx Out)
  unfolding complete_node
  process_fold self parent result = do
    node ← expect (lookup parent.node_index self.execution_tree)
    child ← index node.children parent.child_index
    let children' = set node.children parent.child_index (some result)
    let node' : Node Ctx Out = record node {
      children = children';
      children_left = node.children_left - 1;
    }
    let self' : Traversal In Ctx Out = record self {
      execution_tree = Results.insert parent.node_index node' self.execution_tree;
    }
    if is_none child
        then (if node.children_left == 0
            then panic
            else if node.children_left - 1 == 0
            then done (complete_node self' parent.node_index node')
            else done self')
        else panic

  -- `for job in this.unscheduled.drain(..n) { this.scheduled.push(job) }`
  unfoldable pub schedule : ℕ → Traversal In Ctx Out → Outcome (Traversal In Ctx Out)
  schedule scheduled_max self =
      let n = min (length self.unscheduled) (scheduled_max - length self.scheduled) in
      if ltb scheduled_max (length self.scheduled)
      then panic
      else done (record self {
        scheduled = self.scheduled ++ take n self.unscheduled;
        unscheduled = drop n self.unscheduled;
      })

-- What a round of the loop in `poll` leads to: the next round, a return of `Pending`, and a return
-- of the result.
pub data Progress (In Ctx Out Err : Type 0) : Type 0 where
  running : Traversal In Ctx Out → Progress In Ctx Out Err
  pending : Traversal In Ctx Out → Progress In Ctx Out Err
  finished : Result Out Err → Progress In Ctx Out Err

abbrev pub is_nil : {A : Type 0} → List A → Bool
is_nil [] = true
is_nil (x ∷ xs) = false

module _ {In Ctx Out Err : Type 0} (unfold_fn : In → Result (Ctx × List In) Err)
    (fold_fn : Ctx → List Out → Result Out Err) where
  -- The assertions when the fold of the root is done.
  unfoldable pub finish : Traversal In Ctx Out → Result Out Err → Outcome (Progress In Ctx Out Err)
  finish self result =
      if is_nil self.execution_tree
      then (if is_nil self.unscheduled
          then (if is_nil self.scheduled then done (finished result) else panic)
          else panic)
      else panic

  -- The `match` on the result of a job, which is no longer scheduled.
  unfoldable pub process : Traversal In Ctx Out → Job In Ctx Out → Outcome (Progress In Ctx Out Err)
  unfolding finish process_unfold process_fold
  process self job = elim job.future [
    | left value ↦ elim (unfold_fn value) [
      | err e ↦ done (finished (err e))
      | ok (context, children) ↦ done (running (process_unfold self job.location context children))
    ]
    | right context children ↦
        if job.location.node_index == 0
        then finish self (fold_fn context children)
        else elim (fold_fn context children) [
          | err e ↦ done (finished (err e))
          | ok result ↦ do self' ← process_fold self job.location result; done (running self')
        ]
  ]

  -- One round, in which the queue yields the result of the job at `pick`, or of none if `pick` is
  -- behind its end. An empty queue is at its end, and the loop goes round again.
  unfoldable pub poll_round : ℕ → ℕ → Traversal In Ctx Out → Outcome (Progress In Ctx Out Err)
  unfolding schedule process
  poll_round scheduled_max pick self = do
    self' ← schedule scheduled_max self
    if is_nil self'.scheduled
        then done (running self')
        else if ltb pick (length self'.scheduled)
        then (do r ← remove_at self'.scheduled pick; process (record self' { scheduled = r.1 }) r.0)
        else done (pending self')

  -- The traversal, polled until it is done: `pick` is what the queue yields in the round with that
  -- much fuel left.
  unfoldable pub run :
      ℕ
      → (ℕ → List (Job In Ctx Out) → ℕ)
      → ℕ
      → Traversal In Ctx Out
      → Outcome (Progress In Ctx Out Err)
  run scheduled_max pick zero self = done (pending self)
  run scheduled_max pick (suc fuel) self = do
    queued ← schedule scheduled_max self
    progress ← poll_round scheduled_max (pick fuel queued.scheduled) self
    elim progress [
      | running self' ↦ run scheduled_max pick fuel self'
      | pending self' ↦ run scheduled_max pick fuel self'
      | finished result ↦ done (finished result)
    ]
