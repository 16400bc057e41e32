-- ===== src/BufferedWeighted/Poll.antt =====
-- `poll_next` of buffered_weighted_stream.rs: it keeps the account, and ends only when there is
-- nothing left.
use rust_shed.Prelude.{
  ℕ, ◌+◌, ◌-◌, ◌<◌, ◌≡◌, ◌≢◌, ◌⊎◌, inl, inr, refl, ap, ◌∙◌, sym, min, true, Bool-cases, Option,
  none, some, [], map, arith, Outcome, done,
}
use rust_shed.BufferedWeighted.Weights.{GlobalWeight, sub_weight_lem}
use rust_shed.BufferedWeighted.Peekable.{Polled, pending, ready, Source, stock, is_done}
use rust_shed.BufferedWeighted.{
  poll_future, FuturesOrdered, BufferedWeighted, poll_next, drain, with_queue,
}
use rust_shed.BufferedWeighted.Fill.{Filled, fill_correct}
use rust_shed.BufferedWeighted.Account.{
  load, weight_of, weight_out, weight-Tags, weights, IsAccounted,
}

module _ {S F Out Q : Type 0} (poll : F → Polled Out × F) ⦃source : Source S F⦄
    ⦃futures : FuturesOrdered (poll_future poll) Q⦄ where
  -- What `poll_next` returns: it ends only where nothing is left, neither in the queue nor peeked,
  -- and the stream below has ended.
  pub EndsEmpty : Polled (Option Out) → BufferedWeighted S F Q → Type 0
  EndsEmpty pending s = Unit
  EndsEmpty (ready (some output)) s = Unit
  EndsEmpty (ready none) s =
      (futures.held s.in_progress_queue ≡ [])
      × (s.stream.peeked ≡ none)
      × (source.is_terminated s.stream.stream ≡ true)

  pub Polls : Outcome (Polled (Option Out) × BufferedWeighted S F Q) → ℕ → Type 0
  Polls out max =
      (r : Polled (Option Out)) × (s' : BufferedWeighted S F Q) × (out ≡ done (r, s'))
      × IsAccounted poll s'
      × (s'.global_weight.max ≡ max)
      × EndsEmpty r s'

  pending_keeps :
      (s : BufferedWeighted S F Q) (q : Q)
      → IsAccounted poll s
      → weights poll q ≡ weights poll s.in_progress_queue
      → IsAccounted poll (with_queue s q)
  pending_keeps s q a e = record {
    bounded = a.bounded;
    within = a.within;
    accounted = a.accounted ∙ ap (load s.global_weight.max) (sym e);
  }

  drain_correct :
      (s : BufferedWeighted S F Q) (r : Polled (Option (ℕ × Out)) × Q)
      → IsAccounted poll s
      → (s.stream.peeked ≡ none) ⊎ (futures.held s.in_progress_queue ≢ [])
      → futures.poll_next s.in_progress_queue ≡ r
      → Polls (drain poll s r) s.global_weight.max
  unfolding Polls EndsEmpty drain is_done
  drain_correct s (pending, q) a behind e =
      let kept =
        futures.poll_pending weight_of weight_out (weight-Tags poll) s.in_progress_queue q e in
      (pending, with_queue s q, refl, pending_keeps s q a kept, refl, tt)
  drain_correct s (ready (some (weight, output)), q) a behind e =
      let max = s.global_weight.max in
      let given =
        futures.poll_ready weight_of weight_out (weight-Tags poll) s.in_progress_queue q
          (weight, output) e in
      let sum : s.global_weight.current ≡ min weight max + load max (weights poll q) =
        a.accounted ∙ ap (load max) given in
      let g : GlobalWeight = record s.global_weight {
        current = s.global_weight.current - min weight max;
      } in
      (
        ready (some output),
        record (with_queue s q) { global_weight = g },
        ground (arith, sub_weight_lem s.global_weight weight (omega (arith, sum))),
        record {
          bounded = a.bounded;
          within = omega (arith, a.within);
          accounted = omega (arith, sum);
        },
        refl,
        tt,
      )
  drain_correct s (ready none, q) a behind e =
      let (gone, left) = futures.poll_none s.in_progress_queue q e in
      let kept = pending_keeps s q a (ap (map weight_of) (left ∙ sym gone)) in
      elim (Bool-cases (source.is_terminated s.stream.stream)) [
        | inl t ↦
            let unpeeked : s.stream.peeked ≡ none = elim behind [
              | inl n ↦ n
              | inr n ↦ absurd (n gone)
            ] in
            (ready none, with_queue s q, ground (arith, t), kept, refl, (left, unpeeked, t))
        | inr t ↦ (pending, with_queue s q, ground (arith, t), kept, refl, tt)
      ]

  -- On a state that accounts for its queue, with fuel for each item that the stream can still give at
  -- once, `poll_next` returns without a panic, and leaves such a state with the same maximum: the
  -- weight in progress never exceeds it. It ends only where the queue is empty, no item is peeked and
  -- the stream below has ended.
  pub poll_next_correct :
      (rss : ℕ → Option ℕ) (fuel : ℕ) (s : BufferedWeighted S F Q)
      → IsAccounted poll s
      → stock s.stream < fuel
      → Polls (poll_next poll rss fuel s) s.global_weight.max
  unfolding Polls poll_next Filled
  poll_next_correct rss fuel s a h =
      let (s', run, a', m, behind) = fill_correct poll rss fuel s a h in
      let (r, s2, e, a2, m2, empty) =
        drain_correct s' (futures.poll_next s'.in_progress_queue) a' behind refl in
      (r, s2, ground (arith, run, e), a2, m2 ∙ m, empty)
