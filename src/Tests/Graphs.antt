-- ===== src/Tests/Graphs.antt =====
-- A graph without an end.
use rust_shed.Prelude.{ℕ, ◌+◌, ◌≤◌, ◌≡◌, max, refl, none, some, List, [], ◌∷◌, done}
use rust_shed.Prelude.Results.{Result, ok}
use rust_shed.BoundedTraversal.{left, right}
use rust_shed.BoundedTraversal.Dag.{
  DagTraversal, pending_node, waiting, new_dag, dag_run, dag_round, schedule_dag, process_job,
  process_unfold, limit_children, enqueue_children, enqueue_unfold, wait_for, enqueue_fold,
}
use rust_shed.BoundedTraversal.DagLimits.{visited, dag_run-limit}

-- Each value has the children one and two above it.
abbrev unfold_fn : ℕ → Result (ℕ × List ℕ) ℕ
unfold_fn n = ok (n, (n + 1) ∷ ((n + 2) ∷ []))

abbrev fold_fn : ℕ → List ℕ → Result ℕ ℕ
fold_fn context outs = ok context

-- Behind two rounds zero waits for one and two, whose children the limit cuts off.
abbrev behind_two : DagTraversal ℕ ℕ
behind_two = record {
  init = 0;
  scheduled = (1, left 1) ∷ [];
  unscheduled = (2, right 2 []) ∷ [];
  execution_tree =
      (
        0,
        pending_node (record { node_index = 0; child_index = 0 } ∷ [])
            (some (record { context = 0; children = none ∷ none ∷ []; children_left = 2 })),
      )
      ∷ (1, pending_node (record { node_index = 0; child_index = 0 } ∷ []) none)
      ∷ (2, pending_node (record { node_index = 0; child_index = 1 } ∷ []) none)
      ∷ [];
  unfold_limit = some 3;
}

two_rounds : dag_run unfold_fn fold_fn 5 (λ f. 0) 2 (new_dag 0 (some 3)) ≡ done (waiting behind_two)
unfolding dag_run dag_round schedule_dag process_job process_unfold limit_children enqueue_children
    enqueue_unfold wait_for enqueue_fold new_dag
two_rounds = refl

dag_run-limit_example : visited {Err = ℕ} (waiting behind_two) ≤ max 1 3
dag_run-limit_example =
    dag_run-limit unfold_fn fold_fn 3 5 (λ f. 0) 2 0 (waiting behind_two) two_rounds
