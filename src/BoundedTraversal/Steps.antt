-- ===== src/BoundedTraversal/Steps.antt =====
-- One job of a traversal, whichever it is: it keeps the invariant with one call less to make, or it
-- was the last one.
use rust_shed.Prelude.{
  ℕ, suc, ◌+◌, ◌≤◌, ◌≡◌, ◌⊎◌, inl, inr, refl, sym, ap, ◌∙◌, subst, Bool-cases, false, List, [], ◌∷◌,
  ◌++◌, append_assoc, arith, length, Outcome, done, ◌==◌,
}
use rust_shed.Prelude.Results
use rust_shed.Prelude.Results.{Result, ok, err}
use rust_shed.BoundedTraversal.{
  NodeLocation, Either2, left, right, Job, Node, Traversal, root, nones, process_unfold, process,
  finish, Progress, running, finished,
}
use rust_shed.BoundedTraversal.Reference.{Evaluates, call, nil}
use rust_shed.BoundedTraversal.Ledger.{same_place, Computes, Ledger, no_hole, take_job, put_job}
use rust_shed.BoundedTraversal.Growth.{extend, extend-old, pushed, enqueue_children-pushed}
use rust_shed.BoundedTraversal.Unfolding.{nodes-extend, Weighed-extend, grow}
use rust_shed.BoundedTraversal.Folding.{process_fold-Ledger}
use rust_shed.BoundedTraversal.Finishing.{last_job}

append-empty {ℓ} : {A : Type ℓ} (xs ys : List A) → xs ++ ys ≡ [] → (xs ≡ []) × (ys ≡ [])
append-empty [] ys h = (refl, h)
append-empty (x ∷ xs) ys h = absurd (cc h)

module _ {In Ctx Out : Type 0} where
  process_unfold-branch :
      (self : Traversal In Ctx Out) (parent : NodeLocation) (context : Ctx) (i : In) (ins : List In)
      → process_unfold self parent context (i ∷ ins) ≡ record self {
        unscheduled = pushed (self.execution_tree_index + 1) 0 (i ∷ ins) self.unscheduled;
        execution_tree_index = self.execution_tree_index + 1;
        execution_tree =
            Results.insert
              (self.execution_tree_index + 1)
              (record {
                parent = parent;
                context = context;
                children = nones (length (i ∷ ins));
                children_left = length (i ∷ ins);
              })
              self.execution_tree;
      }
  unfolding process_unfold
  process_unfold-branch self parent context i ins =
      let n : ℕ = self.execution_tree_index + 1 in
      let counted : 0 + length (i ∷ ins) ≡ suc (length ins) = omega arith in
      let enqueued =
        enqueue_children-pushed (record self { execution_tree_index = n }) n 0 (i ∷ ins) in
      let branch : (suc (length ins) == 0) ≡ false = ground arith in
      rw (enqueued, counted, branch) refl

module _ {In Ctx Out Err : Type 0} (unfold_fn : In → Result (Ctx × List In) Err)
    (fold_fn : Ctx → List Out → Result Out Err) where
  -- The state leads to the output, with that many calls.
  pub record Invariant (o : Out) (self : Traversal In Ctx Out) (calls : ℕ) : Type 0 where
    pub expected : NodeLocation → Out
    pub at_root : expected root ≡ o
    pub ledger :
        Ledger unfold_fn fold_fn expected
          (no_hole unfold_fn fold_fn expected)
          (self.scheduled ++ self.unscheduled)
          self.execution_tree
          self.execution_tree_index
          calls

  -- A leaf leaves its location to its fold.
  leaf :
      (expected : NodeLocation → Out) (l : NodeLocation) (context : Ctx)
      (s u : List (Job In Ctx Out)) (tree : List (ℕ × Node Ctx Out)) (top rest : ℕ)
      → l.node_index ≤ top
      → fold_fn context [] ≡ ok (expected l)
      → Ledger unfold_fn fold_fn expected (λ l'. same_place l' l) (s ++ u) tree top rest
      → Ledger unfold_fn fold_fn
          (extend expected (top + 1) [])
          (no_hole unfold_fn fold_fn (extend expected (top + 1) []))
          (s ++ record { location = l; future = right context [] } ∷ u)
          tree
          (top + 1)
          (1 + rest)
  leaf expected l context s u tree top rest bound folds g =
      let expected' : NodeLocation → Out = extend expected (top + 1) [] in
      let same = extend-old expected (top + 1) [] l (omega (arith, bound)) in
      let moved : Ledger unfold_fn fold_fn expected' (λ l'. same_place l' l) (s ++ u) tree (top + 1)
          rest =
        record {
          occupied = g.occupied;
          unique = g.unique;
          nodes = nodes-extend unfold_fn fold_fn expected top [] tree g.nodes;
          calls_of_jobs = g.calls_of_jobs;
          weighed =
              Weighed-extend unfold_fn fold_fn expected top [] (s ++ u) g.calls_of_jobs g.weighed;
          all_calls = g.all_calls;
        } in
      put_job unfold_fn fold_fn expected' s (record { location = l; future = right context [] }) u
        tree (top + 1) 1 rest (omega (arith, bound), (folds ∙ ap ok (sym same), refl)) moved

  -- What a job leads to.
  abbrev Leads : Out → Traversal In Ctx Out → Outcome (Progress In Ctx Out Err) → ℕ → Type 0
  Leads o self p calls =
      (p ≡ done (finished (ok o)))
      ⊎ ((self' : Traversal In Ctx Out) × (p ≡ done (running self'))
          × (self'.scheduled ≡ self.scheduled)
          × Invariant o self' calls)

  unfolds :
      (o : Out) (expected : NodeLocation → Out) (self : Traversal In Ctx Out) (l : NodeLocation)
      (i : In) (first rest : ℕ)
      → expected root ≡ o
      → l.node_index ≤ self.execution_tree_index
      → Evaluates unfold_fn fold_fn i (expected l) first
      → Ledger unfold_fn fold_fn expected
          (λ l'. same_place l' l)
          (self.scheduled ++ self.unscheduled)
          self.execution_tree
          self.execution_tree_index
          rest
      → (calls : ℕ) × (first + rest ≡ suc calls)
        × Leads o self
            (process unfold_fn fold_fn self (record { location = l; future = left i }))
            calls
  unfolding process
  unfolds o expected self l i first rest at bound (call context [] (x ∷ outs) below u evs f e) g =
      elim evs [ ]
  unfolds o expected self l i first rest at bound (call context [] [] below u (nil z) f e) g = (
    1 + rest,
    omega (arith, e, z),
    inr (
      process_unfold self l context [],
      rw (process, u) refl,
      refl,
      record {
        expected = extend expected (self.execution_tree_index + 1) [];
        at_root = extend-old expected (self.execution_tree_index + 1) [] root (omega arith) ∙ at;
        ledger =
            leaf expected l context self.scheduled self.unscheduled self.execution_tree
              self.execution_tree_index rest bound f g;
      },
    ),
  )
  unfolds o expected self l i first rest at bound (call context (c ∷ cs) outs below u evs f e) g = (
    1 + below + rest,
    omega (arith, e),
    inr (
      process_unfold self l context (c ∷ cs),
      rw (process, u) refl,
      rw (process_unfold-branch self l context c cs) refl,
      record {
        expected = extend expected (self.execution_tree_index + 1) outs;
        at_root = extend-old expected (self.execution_tree_index + 1) outs root (omega arith) ∙ at;
        ledger = rw (process_unfold-branch self l context c cs) (
            grow unfold_fn fold_fn expected self.execution_tree_index l context c cs outs below rest
              self.scheduled self.unscheduled self.execution_tree bound evs f g);
      },
    ),
  )

  folds :
      (o : Out) (expected : NodeLocation → Out) (self : Traversal In Ctx Out) (l : NodeLocation)
      (context : Ctx) (outs : List Out) (rest : ℕ)
      → expected root ≡ o
      → fold_fn context outs ≡ ok (expected l)
      → Ledger unfold_fn fold_fn expected
          (λ l'. same_place l' l)
          (self.scheduled ++ self.unscheduled)
          self.execution_tree
          self.execution_tree_index
          rest
      → Leads o self
          (process unfold_fn fold_fn self (record { location = l; future = right context outs }))
          rest
  unfolding process finish
  folds o expected self l context outs rest at f g = elim (Bool-cases (l.node_index == 0)) [
    | inl z ↦
        let zero_index : l.node_index ≡ 0 = ground (arith, z) in
        let (no_jobs, no_nodes, child) =
          last_job unfold_fn fold_fn expected self.execution_tree_index l
            (self.scheduled ++ self.unscheduled) self.execution_tree rest zero_index g in
        let at_end : l ≡ root = cc (zero_index, child) in
        let (no_scheduled, no_unscheduled) = append-empty self.scheduled self.unscheduled no_jobs in
        let result : fold_fn context outs ≡ ok o = f ∙ ap ok (ap expected at_end ∙ at) in
        inl (rw (process, z, finish, no_nodes, no_unscheduled, no_scheduled, result) refl)
    | inr n ↦
        let (self', folded, same, ledger) =
          process_fold-Ledger unfold_fn fold_fn expected l (expected l) self rest
            (λ z. ground (arith, z, n)) refl g in
        inr (
          self',
          rw (process, n, f, folded) refl,
          same,
          record { expected = expected; at_root = at; ledger = ledger },
        )
  ]

  any_future :
      (o : Out) (expected : NodeLocation → Out) (self : Traversal In Ctx Out) (l : NodeLocation)
      (future : Either2 In Ctx Out) (first rest : ℕ)
      → expected root ≡ o
      → l.node_index ≤ self.execution_tree_index
      → Computes unfold_fn fold_fn expected future (expected l) first
      → Ledger unfold_fn fold_fn expected
          (λ l'. same_place l' l)
          (self.scheduled ++ self.unscheduled)
          self.execution_tree
          self.execution_tree_index
          rest
      → (calls : ℕ) × (first + rest ≡ suc calls)
        × Leads o self
            (process unfold_fn fold_fn self (record { location = l; future = future }))
            calls
  any_future o expected self l (left i) first rest at bound ev g =
      unfolds o expected self l i first rest at bound ev g
  any_future o expected self l (right context outs) first rest at bound (f, one) g =
      (rest, omega (arith, one), folds o expected self l context outs rest at f g)

  -- Any job of the queue, when it is done.
  pub process-Invariant :
      (o : Out) (self : Traversal In Ctx Out) (before : List (Job In Ctx Out))
      (job : Job In Ctx Out) (behind : List (Job In Ctx Out)) (calls : ℕ)
      → self.scheduled ≡ before ++ (job ∷ behind)
      → Invariant o self calls
      → (left_over : ℕ) × (calls ≡ suc left_over)
        × Leads o
            (record self { scheduled = before ++ behind })
            (process unfold_fn fold_fn (record self { scheduled = before ++ behind }) job)
            left_over
  process-Invariant o self before job behind calls h g =
      let u : List (Job In Ctx Out) = self.unscheduled in
      let parts = ap (λ z. z ++ u) h ∙ append_assoc before (job ∷ behind) u in
      let (first, rest, good, ledger, counted) =
        take_job unfold_fn fold_fn g.expected before job (behind ++ u) self.execution_tree
          self.execution_tree_index calls
          (subst
            (λ z.
              Ledger unfold_fn fold_fn g.expected (no_hole unfold_fn fold_fn g.expected) z
                self.execution_tree self.execution_tree_index calls)
            parts g.ledger) in
      let ledger' =
        subst
          (λ z.
            Ledger unfold_fn fold_fn g.expected (λ l'. same_place l' job.location) z
              self.execution_tree self.execution_tree_index rest)
          (sym (append_assoc before behind u)) ledger in
      let (left_over, sum, leads) =
        any_future o g.expected (record self { scheduled = before ++ behind }) job.location
          job.future first rest g.at_root good.0 good.1 ledger' in
      (left_over, counted ∙ sum, leads)
