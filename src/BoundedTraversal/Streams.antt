-- ===== src/BoundedTraversal/Streams.antt =====
-- shed/bounded_traversal/src/stream.rs, `bounded_traversal_stream`: a stream of the values that a tree
-- unfolds to. A future is the item that it unfolds.
use rust_shed.Prelude.{
  ℕ, zero, suc, ◌-◌, ◌≡◌, min, Bool, true, false, ◌&&◌, List, [], ◌∷◌, ◌++◌, Outcome, done, panic,
  ◌>>=◌, remove_at, length, take, drop, ltb, if◌then◌else◌,
}
use rust_shed.Prelude.Results.{Result, ok, err}
use rust_shed.BoundedTraversal.{is_nil}

pub record TraversalStream (In : Type 0) : Type 0 where
  pub unscheduled : List In
  pub scheduled : List In

-- What a round of the loop leads to: another round, a return of `Pending`, an item of the stream, and
-- its end.
pub data Advance (In Out Err : Type 0) : Type 0 where
  again : TraversalStream In → Advance In Out Err
  waits : TraversalStream In → Advance In Out Err
  yields : Result Out Err → TraversalStream In → Advance In Out Err
  ended : Advance In Out Err

-- `for child in children { unscheduled.push_front(child); }`
abbrev pub push_all_front : {In : Type 0} → List In → List In → List In
push_all_front [] unscheduled = unscheduled
push_all_front (child ∷ children) unscheduled = push_all_front children (child ∷ unscheduled)

module _ {In : Type 0} where
  unfoldable pub new_stream : List In → TraversalStream In
  new_stream init = record { unscheduled = init; scheduled = [] }

  -- `scheduled.push(unfold(item))` for the items that are drained.
  unfoldable pub schedule_items : ℕ → TraversalStream In → Outcome (TraversalStream In)
  schedule_items scheduled_max self =
      let n = min (length self.unscheduled) (scheduled_max - length self.scheduled) in
      if ltb scheduled_max (length self.scheduled)
      then panic
      else done (record {
        scheduled = self.scheduled ++ take n self.unscheduled;
        unscheduled = drop n self.unscheduled;
      })

module _ {In Out Err : Type 0} (unfold_fn : In → Result (Out × List In) Err) where
  -- A future that is done.
  unfoldable pub unfolded : TraversalStream In → In → Advance In Out Err
  unfolded self item = elim (unfold_fn item) [
    | err e ↦ yields (err e) self
    | ok (out, children) ↦
        yields (ok out) (record self { unscheduled = push_all_front children self.unscheduled })
  ]

  unfoldable pub stream_round : ℕ → ℕ → TraversalStream In → Outcome (Advance In Out Err)
  stream_round scheduled_max pick self =
      if is_nil self.scheduled && is_nil self.unscheduled then done ended else (do
        self' ← schedule_items scheduled_max self
        if is_nil self'.scheduled
            then done (again self')
            else if ltb pick (length self'.scheduled)
            then (do
              r ← remove_at self'.scheduled pick
              done (unfolded (record self' { scheduled = r.1 }) r.0))
            else done (waits self'))

  -- The stream, polled until its end: what it yields, and whether it ended. `pick` is what the queue
  -- yields in the round with that much fuel left.
  unfoldable pub collect :
      ℕ → (ℕ → List In → ℕ) → ℕ → TraversalStream In → Outcome (List (Result Out Err) × Bool)
  collect scheduled_max pick zero self = done ([], false)
  collect scheduled_max pick (suc fuel) self = do
    queued ← schedule_items scheduled_max self
    advance ← stream_round scheduled_max (pick fuel queued.scheduled) self
    elim advance [
      | again self' ↦ collect scheduled_max pick fuel self'
      | waits self' ↦ collect scheduled_max pick fuel self'
      | yields r self' ↦ do rest ← collect scheduled_max pick fuel self'; done (r ∷ rest.0, rest.1)
      | ended ↦ done ([], true)
    ]

  mutual
    -- What an item is to yield: an error, or its value and what its children yield.
    pub data Yields : In → List (Result Out Err) → Type 0 where
      fails :
          {i : In} {outs : List (Result Out Err)} (e : Err)
          → unfold_fn i ≡ err e
          → outs ≡ err e ∷ []
          → Yields i outs
      node :
          {i : In} {outs : List (Result Out Err)} (o : Out) (children : List In)
          (below : List (Result Out Err))
          → unfold_fn i ≡ ok (o, children)
          → YieldsAll children below
          → outs ≡ ok o ∷ below
          → Yields i outs

    pub data YieldsAll : List In → List (Result Out Err) → Type 0 where
      no_item : {outs : List (Result Out Err)} → outs ≡ [] → YieldsAll [] outs
      items :
          {i : In} {is : List In} {outs : List (Result Out Err)}
          (first rest : List (Result Out Err))
          → Yields i first
          → YieldsAll is rest
          → outs ≡ first ++ rest
          → YieldsAll (i ∷ is) outs
