-- ===== src/BoundedTraversal/Rounds.antt =====
-- The rounds of `poll` until the result.
use rust_shed.Prelude.{
  ℕ, zero, suc, ◌+◌, ◌-◌, ◌≤◌, ◌<◌, ◌≡◌, ◌⊎◌, inl, inr, refl, sym, ap, ◌∙◌, subst, min, true, false,
  List, [], ◌∷◌, ◌++◌, append_assoc, arith, length, length-append, length-take, take, drop, ltb,
  Outcome, done,
}
use rust_shed.Prelude.Results.{Result, ok}
use rust_shed.BoundedTraversal.{
  Job, Traversal, new, enqueue_unfold, schedule, process, poll_round, run, is_nil, Progress,
  running, finished,
}
use rust_shed.BoundedTraversal.Tables.{remove_at-parts}
use rust_shed.BoundedTraversal.Reference.{Evaluates}
use rust_shed.BoundedTraversal.Ledger.{Ledger, no_hole}
use rust_shed.BoundedTraversal.Finishing.{has_job, zero_or_more}
use rust_shed.BoundedTraversal.Steps.{Invariant, process-Invariant}

pub take-drop {ℓ} : {A : Type ℓ} (n : ℕ) (xs : List A) → take n xs ++ drop n xs ≡ xs
take-drop zero xs = refl
take-drop (suc n) [] = refl
take-drop (suc n) (x ∷ xs) = ap (◌∷◌ x) (take-drop n xs)

pub no_length {ℓ} : {A : Type ℓ} (xs : List A) → length xs ≡ 0 → xs ≡ []
no_length [] h = refl
no_length (x ∷ xs) h = absurd (omega (arith, h))

module _ {In Ctx Out : Type 0} where
  -- How many jobs are drained.
  abbrev pub room : ℕ → Traversal In Ctx Out → ℕ
  room scheduled_max self = min (length self.unscheduled) (scheduled_max - length self.scheduled)

  abbrev pub queued : ℕ → Traversal In Ctx Out → Traversal In Ctx Out
  queued scheduled_max self = record self {
    scheduled = self.scheduled ++ take (room scheduled_max self) self.unscheduled;
    unscheduled = drop (room scheduled_max self) self.unscheduled;
  }

  pub schedule-queued :
      (scheduled_max : ℕ) (self : Traversal In Ctx Out)
      → length self.scheduled ≤ scheduled_max
      → schedule scheduled_max self ≡ done (queued scheduled_max self)
  unfolding schedule
  schedule-queued scheduled_max self h =
      let fits : ltb scheduled_max (length self.scheduled) ≡ false = ground (arith, h) in
      rw fits refl

  pub length-queued :
      (scheduled_max : ℕ) (self : Traversal In Ctx Out)
      → length self.scheduled ≤ scheduled_max
      → length (queued scheduled_max self).scheduled
        ≡ min scheduled_max (length self.scheduled + length self.unscheduled)
  length-queued scheduled_max self h = omega (
    arith,
    h,
    length-append self.scheduled (take (room scheduled_max self) self.unscheduled),
    length-take (room scheduled_max self) self.unscheduled,
  )

  pub jobs-queued :
      (scheduled_max : ℕ) (self : Traversal In Ctx Out)
      → (queued scheduled_max self).scheduled ++ (queued scheduled_max self).unscheduled
        ≡ self.scheduled ++ self.unscheduled
  jobs-queued scheduled_max self =
      append_assoc self.scheduled (take (room scheduled_max self) self.unscheduled)
        (drop (room scheduled_max self) self.unscheduled)
      ∙ ap (λ z. self.scheduled ++ z) (take-drop (room scheduled_max self) self.unscheduled)

module _ {In Ctx Out Err : Type 0} (unfold_fn : In → Result (Ctx × List In) Err)
    (fold_fn : Ctx → List Out → Result Out Err) where
  Invariant-new :
      (i : In) (o : Out) (calls : ℕ)
      → Evaluates unfold_fn fold_fn i o calls
      → Invariant unfold_fn fold_fn o (new i) calls
  unfolding new enqueue_unfold
  Invariant-new i o calls ev = record {
    expected = λ l. o;
    at_root = refl;
    ledger = record {
      occupied = λ l. omega arith;
      unique = λ n. omega arith;
      nodes = tt;
      calls_of_jobs = calls;
      weighed = (calls, 0, (omega arith, ev), refl, omega arith);
      all_calls = omega arith;
    };
  }

  -- There is a job as long as there is no result.
  has_jobs :
      (o : Out) (self : Traversal In Ctx Out) (calls : ℕ)
      → Invariant unfold_fn fold_fn o self calls
      → 0 < length self.scheduled + length self.unscheduled
  has_jobs o self calls g =
      let jobs : List (Job In Ctx Out) = self.scheduled ++ self.unscheduled in
      elim (zero_or_more (length jobs)) [
        | inl z ↦ absurd (
            has_job unfold_fn fold_fn g.expected self.execution_tree_index self.execution_tree calls
              (subst
                (λ js.
                  Ledger unfold_fn fold_fn g.expected (no_hole unfold_fn fold_fn g.expected) js
                    self.execution_tree self.execution_tree_index calls)
                (no_length jobs z) g.ledger))
        | inr s ↦ omega (arith, s, length-append self.scheduled self.unscheduled)
      ]

  -- What a round leads to, with that many calls left.
  abbrev Round : ℕ → Out → Outcome (Progress In Ctx Out Err) → ℕ → Type 0
  Round scheduled_max o p calls =
      (p ≡ done (finished (ok o)))
      ⊎ ((self' : Traversal In Ctx Out) × (p ≡ done (running self'))
          × (length self'.scheduled ≤ scheduled_max)
          × Invariant unfold_fn fold_fn o self' calls)

  round :
      (scheduled_max pick : ℕ) (o : Out) (self : Traversal In Ctx Out) (calls : ℕ)
      → length self.scheduled ≤ scheduled_max
      → pick < length (queued scheduled_max self).scheduled
      → Invariant unfold_fn fold_fn o self calls
      → (left_over : ℕ) × (calls ≡ suc left_over)
        × Round scheduled_max o (poll_round unfold_fn fold_fn scheduled_max pick self) left_over
  unfolding poll_round
  round scheduled_max pick o self calls fits picked g =
      let self1 : Traversal In Ctx Out = queued scheduled_max self in
      let (before, job, behind, parts, removed) = remove_at-parts self1.scheduled pick picked in
      let g1 : Invariant unfold_fn fold_fn o self1 calls = record {
        expected = g.expected;
        at_root = g.at_root;
        ledger =
            subst
              (λ js.
                Ledger unfold_fn fold_fn g.expected (no_hole unfold_fn fold_fn g.expected) js
                  self.execution_tree self.execution_tree_index calls)
              (sym (jobs-queued scheduled_max self)) g.ledger;
      } in
      let (left_over, counted, leads) =
        process-Invariant unfold_fn fold_fn o self1 before job behind calls parts g1 in
      let scheduled = schedule-queued scheduled_max self fits in
      let some_job : is_nil self1.scheduled ≡ false = not_nil self1.scheduled pick picked in
      let in_range : ltb pick (length self1.scheduled) ≡ true = ground (arith, picked) in
      let polled : poll_round unfold_fn fold_fn scheduled_max pick self
          ≡ process unfold_fn fold_fn (record self1 { scheduled = before ++ behind }) job =
        rw (poll_round, scheduled, some_job, in_range, removed) refl in
      let bound : length (before ++ behind) ≤ scheduled_max = omega (
        arith,
        ap length parts,
        length-append before (job ∷ behind),
        length-append before behind,
        length-queued scheduled_max self fits,
      ) in
      (
        left_over,
        counted,
        elim leads [
          | inl e ↦ inl (polled ∙ e)
          | inr (self', e, same, g') ↦
              inr
                (self', polled ∙ e, subst (λ z. z ≤ scheduled_max) (sym (ap length same)) bound, g')
        ],
      )
    where
      not_nil : (js : List (Job In Ctx Out)) (k : ℕ) → k < length js → is_nil js ≡ false
      not_nil [] k h = absurd (omega (arith, h))
      not_nil (j ∷ js) k h = refl

  run-Invariant :
      (scheduled_max : ℕ) (pick : ℕ → List (Job In Ctx Out) → ℕ) (fuel : ℕ) (o : Out)
      (self : Traversal In Ctx Out) (calls : ℕ)
      → 0 < scheduled_max
      → ((f : ℕ) (js : List (Job In Ctx Out)) → 0 < length js → pick f js < length js)
      → length self.scheduled ≤ scheduled_max
      → Invariant unfold_fn fold_fn o self calls
      → calls ≤ fuel
      → run unfold_fn fold_fn scheduled_max pick fuel self ≡ done (finished (ok o))
  unfolding run
  run-Invariant scheduled_max pick zero o self calls positive picks fits g enough =
      let waits : 0 < length (queued scheduled_max self).scheduled =
        omega (arith, positive, length-queued scheduled_max self fits, has_jobs o self calls g) in
      let (left_over, counted, leads) = round scheduled_max 0 o self calls fits waits g in
      absurd (omega (arith, counted, enough))
  run-Invariant scheduled_max pick (suc fuel) o self calls positive picks fits g enough =
      let js : List (Job In Ctx Out) = (queued scheduled_max self).scheduled in
      let waits : 0 < length js =
        omega (arith, positive, length-queued scheduled_max self fits, has_jobs o self calls g) in
      let (left_over, counted, leads) =
        round scheduled_max (pick fuel js) o self calls fits (picks fuel js waits) g in
      let scheduled = schedule-queued scheduled_max self fits in
      elim leads [
        | inl e ↦ rw (run, scheduled, e) refl
        | inr (self', e, fits', g') ↦
            let rest =
              run-Invariant scheduled_max pick fuel o self' left_over positive picks fits' g'
                (omega (arith, counted, enough)) in
            rw (run, scheduled, e, rest) refl
      ]

  -- If the reference evaluates the value to an output with that many calls, and a call may be in
  -- progress, then the traversal of it returns the output, whatever the order in which the queue yields
  -- its jobs: no assertion fails, and after as many rounds as there are calls it is done.
  pub run-Evaluates :
      (scheduled_max : ℕ) (pick : ℕ → List (Job In Ctx Out) → ℕ) (fuel : ℕ) (i : In) (o : Out)
      (calls : ℕ)
      → 0 < scheduled_max
      → ((f : ℕ) (js : List (Job In Ctx Out)) → 0 < length js → pick f js < length js)
      → Evaluates unfold_fn fold_fn i o calls
      → calls ≤ fuel
      → run unfold_fn fold_fn scheduled_max pick fuel (new i) ≡ done (finished (ok o))
  unfolding new enqueue_unfold
  run-Evaluates scheduled_max pick fuel i o calls positive picks ev enough =
      run-Invariant scheduled_max pick fuel o (new i) calls positive picks (omega arith)
        (Invariant-new i o calls ev) enough
