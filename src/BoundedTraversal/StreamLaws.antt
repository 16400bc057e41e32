-- ===== src/BoundedTraversal/StreamLaws.antt =====
-- A stream yields what the tree unfolds to.
use rust_shed.Prelude.{
  ℕ, zero, suc, ◌+◌, ◌-◌, ◌≤◌, ◌<◌, ◌≡◌, refl, sym, ap, ◌∙◌, subst, min, true, false, ◌&&◌, List,
  [], ◌∷◌, ◌++◌, append_assoc, done, length, length-append, length-take, take, drop, ltb, arith,
}
use rust_shed.Prelude.Results.{Result}
use rust_shed.BoundedTraversal.{is_nil}
use rust_shed.BoundedTraversal.Tables.{total, remove_at-parts, length-total}
use rust_shed.BoundedTraversal.Rounds.{take-drop}
use rust_shed.BoundedTraversal.Streams.{
  TraversalStream, yields, ended, new_stream, schedule_items, stream_round, collect, YieldsAll,
  no_item,
}
use rust_shed.BoundedTraversal.StreamItems.{unfolded-YieldsAll}

module _ {In : Type 0} where
  abbrev room : ℕ → TraversalStream In → ℕ
  room scheduled_max self = min (length self.unscheduled) (scheduled_max - length self.scheduled)

  abbrev queued : ℕ → TraversalStream In → TraversalStream In
  queued scheduled_max self = record {
    scheduled = self.scheduled ++ take (room scheduled_max self) self.unscheduled;
    unscheduled = drop (room scheduled_max self) self.unscheduled;
  }

  schedule_items-queued :
      (scheduled_max : ℕ) (self : TraversalStream In)
      → length self.scheduled ≤ scheduled_max
      → schedule_items scheduled_max self ≡ done (queued scheduled_max self)
  unfolding schedule_items
  schedule_items-queued scheduled_max self h =
      let fits : ltb scheduled_max (length self.scheduled) ≡ false = ground (arith, h) in
      rw fits refl

  length-queued_items :
      (scheduled_max : ℕ) (self : TraversalStream In)
      → length self.scheduled ≤ scheduled_max
      → length (queued scheduled_max self).scheduled
        ≡ min scheduled_max (length self.scheduled + length self.unscheduled)
  length-queued_items scheduled_max self h = omega (
    arith,
    h,
    length-append self.scheduled (take (room scheduled_max self) self.unscheduled),
    length-take (room scheduled_max self) self.unscheduled,
  )

  items-queued :
      (scheduled_max : ℕ) (self : TraversalStream In)
      → (queued scheduled_max self).scheduled ++ (queued scheduled_max self).unscheduled
        ≡ self.scheduled ++ self.unscheduled
  items-queued scheduled_max self =
      append_assoc self.scheduled (take (room scheduled_max self) self.unscheduled)
        (drop (room scheduled_max self) self.unscheduled)
      ∙ ap (λ z. self.scheduled ++ z) (take-drop (room scheduled_max self) self.unscheduled)

  data Left (self : TraversalStream In) : Type 0 where
    nothing :
        (is_nil self.scheduled && is_nil self.unscheduled) ≡ true
        → self.scheduled ++ self.unscheduled ≡ []
        → Left self
    something :
        (is_nil self.scheduled && is_nil self.unscheduled) ≡ false
        → 0 < length self.scheduled + length self.unscheduled
        → Left self

  left_over :
      (scheduled unscheduled : List In)
      → Left (record { scheduled = scheduled; unscheduled = unscheduled })
  left_over [] [] = nothing refl refl
  left_over [] (x ∷ u) = something refl (omega arith)
  left_over (x ∷ s) u = something refl (omega arith)

module _ {In Out Err : Type 0} (unfold_fn : In → Result (Out × List In) Err) where
  -- A round of a stream that is not at its end.
  yields_one :
      (scheduled_max pick : ℕ) (self : TraversalStream In) (outs : List (Result Out Err))
      → length self.scheduled ≤ scheduled_max
      → pick < length (queued scheduled_max self).scheduled
      → (is_nil self.scheduled && is_nil self.unscheduled) ≡ false
      → YieldsAll unfold_fn (self.scheduled ++ self.unscheduled) outs
      → (r : Result Out Err) × (self' : TraversalStream In) × (rest : List (Result Out Err))
        × (stream_round unfold_fn scheduled_max pick self ≡ done (yields r self'))
        × (length self'.scheduled ≤ scheduled_max)
        × YieldsAll unfold_fn (self'.scheduled ++ self'.unscheduled) rest
        × ((f : Result Out Err → ℕ) → total f outs ≡ f r + total f rest)
  unfolding stream_round
  yields_one scheduled_max pick self outs fits picked more ys =
      let self1 : TraversalStream In = queued scheduled_max self in
      let (before, i, behind, parts, removed) = remove_at-parts self1.scheduled pick picked in
      let all =
        subst (λ z. YieldsAll unfold_fn z outs)
          (sym (items-queued scheduled_max self) ∙ ap (λ z. z ++ self1.unscheduled) parts) ys in
      let (r, self', rest, e, same, kept, sums) =
        unfolded-YieldsAll unfold_fn (record self1 { scheduled = before ++ behind }) before i behind
          outs refl all in
      let some_item : is_nil self1.scheduled ≡ false = not_nil self1.scheduled pick picked in
      let in_range : ltb pick (length self1.scheduled) ≡ true = ground (arith, picked) in
      (
        r,
        self',
        rest,
        rw
            (
              stream_round,
              more,
              schedule_items-queued scheduled_max self fits,
              some_item,
              in_range,
              removed,
              e,
            )
            refl,
        omega (
          arith,
          ap length same,
          ap length parts,
          length-append before (i ∷ behind),
          length-append before behind,
          length-queued_items scheduled_max self fits,
        ),
        kept,
        sums,
      )
    where
      not_nil : (js : List In) (k : ℕ) → k < length js → is_nil js ≡ false
      not_nil [] k h = absurd (omega (arith, h))
      not_nil (j ∷ js) k h = refl

  nothing_yields : (outs : List (Result Out Err)) → YieldsAll unfold_fn [] outs → outs ≡ []
  nothing_yields outs (no_item e) = e

  ends :
      (scheduled_max pick : ℕ) (self : TraversalStream In)
      → (is_nil self.scheduled && is_nil self.unscheduled) ≡ true
      → stream_round unfold_fn scheduled_max pick self ≡ done ended
  unfolding stream_round
  ends scheduled_max pick self at_end = rw (stream_round, at_end) refl

  collects :
      (scheduled_max : ℕ) (pick : ℕ → List In → ℕ) (fuel : ℕ) (self : TraversalStream In)
      (outs : List (Result Out Err))
      → 0 < scheduled_max
      → ((f : ℕ) (js : List In) → 0 < length js → pick f js < length js)
      → length self.scheduled ≤ scheduled_max
      → YieldsAll unfold_fn (self.scheduled ++ self.unscheduled) outs
      → length outs < fuel
      → (yielded : List (Result Out Err)) × (collect unfold_fn scheduled_max pick fuel self
          ≡ done (yielded, true))
        × ((f : Result Out Err → ℕ) → total f yielded ≡ total f outs)
  unfolding collect
  collects scheduled_max pick zero self outs positive picks fits ys enough =
      absurd (omega (arith, enough))
  collects scheduled_max pick (suc fuel) self outs positive picks fits ys enough =
      elim (left_over self.scheduled self.unscheduled) [
        | nothing at_end no_items ↦
            let scheduled = schedule_items-queued scheduled_max self fits in
            let none_wanted =
              nothing_yields outs (subst (λ z. YieldsAll unfold_fn z outs) no_items ys) in
            (
              [],
              rw
                  (
                    collect,
                    scheduled,
                    ends scheduled_max (pick fuel (queued scheduled_max self).scheduled) self
                        at_end,
                  )
                  refl,
              λ f. sym (ap (total f) none_wanted),
            )
        | something more count ↦
            let js : List In = (queued scheduled_max self).scheduled in
            let waits : 0 < length js =
              omega (arith, positive, length-queued_items scheduled_max self fits, count) in
            let (r, self', rest, e, fits', ys', sums) =
              yields_one scheduled_max (pick fuel js) self outs fits (picks fuel js waits) more
                ys in
            let scheduled = schedule_items-queued scheduled_max self fits in
            let shorter : length outs ≡ 1 + length rest =
              omega (arith, sums (λ x. 1), length-total outs, length-total rest) in
            let (yielded, collected, same) =
              collects scheduled_max pick fuel self' rest positive picks fits' ys'
                (omega (arith, enough, shorter)) in
            (
              r ∷ yielded,
              rw (collect, scheduled, e, collected) refl,
              λ f. omega (arith, same f, sums f),
            )
      ]

  -- If the items unfold to a finite forest and a call may be in progress, then the stream yields the
  -- value, or the error, of each item of the forest as often as it is there, whatever the order in which
  -- the queue yields its futures, and ends, after one round for each item and one more.
  pub collect-YieldsAll :
      (scheduled_max : ℕ) (pick : ℕ → List In → ℕ) (fuel : ℕ) (init : List In)
      (outs : List (Result Out Err))
      → 0 < scheduled_max
      → ((f : ℕ) (js : List In) → 0 < length js → pick f js < length js)
      → YieldsAll unfold_fn init outs
      → length outs < fuel
      → (yielded : List (Result Out Err)) × (collect unfold_fn scheduled_max pick fuel
            (new_stream init)
          ≡ done (yielded, true))
        × ((f : Result Out Err → ℕ) → total f yielded ≡ total f outs)
  unfolding new_stream
  collect-YieldsAll scheduled_max pick fuel init outs positive picks ys enough =
      collects scheduled_max pick fuel (new_stream init) outs positive picks (omega arith) ys enough
