-- ===== src/BufferedWeighted/Fill.antt =====
-- The loop of `poll_next` in buffered_weighted_stream.rs, which fills the queue.
use rust_shed.Prelude.{
  ℕ, zero, suc, ◌+◌, ◌≤◌, ◌<◌, ◌≡◌, ◌≢◌, ◌⊎◌, inl, inr, refl, ap, ◌∙◌, sym, min, true, false,
  Bool-cases, Option, none, some, [], map, arith, Outcome, done,
}
use rust_shed.BufferedWeighted.Weights.{
  GlobalWeight, add_weight, has_space_for, add_weight_lem, has_space-zero,
}
use rust_shed.BufferedWeighted.Peekable.{
  Polled, pending, ready, Source, PeekableFused, stock, PeekCase, waits, ends, item, peek_cases,
  poll_peek, poll_item,
}
use rust_shed.BufferedWeighted.{
  FutureWithWeight, poll_future, FuturesOrdered, BufferedWeighted, must_wait, fill,
}
use rust_shed.BufferedWeighted.Account.{
  load, load-append, map-append, weight_of, weights, IsAccounted,
}

module _ {S F Out Q : Type 0} (poll : F → Polled Out × F) ⦃source : Source S F⦄
    ⦃futures : FuturesOrdered (poll_future poll) Q⦄ where
  -- What the loop leaves: an account, and a peeked item only behind a queue that is not empty.
  unfoldable pub Filled : Outcome (BufferedWeighted S F Q) → ℕ → Type 0
  Filled out max =
      (s' : BufferedWeighted S F Q) × (out ≡ done s')
      × IsAccounted poll s'
      × (s'.global_weight.max ≡ max)
      × ((s'.stream.peeked ≡ none) ⊎ (futures.held s'.in_progress_queue ≢ []))

  with_stream : BufferedWeighted S F Q → PeekableFused S F → BufferedWeighted S F Q
  with_stream s t = record s { stream = t }

  stays :
      (s : BufferedWeighted S F Q) (t : PeekableFused S F)
      → IsAccounted poll s
      → IsAccounted poll (with_stream s t)
  unfolding with_stream
  stays s t a = record { bounded = a.bounded; within = a.within; accounted = a.accounted }

  -- An item that must wait waits behind a queue that is not empty.
  waits_behind :
      (rss : Option ℕ) (s : BufferedWeighted S F Q) (weight : ℕ)
      → IsAccounted poll s
      → must_wait poll rss s weight ≡ true
      → futures.held s.in_progress_queue ≢ []
  unfolding must_wait
  waits_behind rss s weight a w h = ground (
    arith,
    w,
    (futures.is_empty_lem s.in_progress_queue).1 h,
    has_space-zero s.global_weight weight
        (a.accounted ∙ ap (λ q. load s.global_weight.max (map weight_of q)) h),
  )

  -- An item that need not wait has space.
  has_space :
      (rss : Option ℕ) (s : BufferedWeighted S F Q) (weight : ℕ)
      → must_wait poll rss s weight ≡ false
      → has_space_for s.global_weight weight ≡ true
  unfolding must_wait
  has_space rss s weight w = ground (arith, w)

  fill_waits :
      (rss : ℕ → Option ℕ) (fuel : ℕ) (s : BufferedWeighted S F Q) (t : PeekableFused S F)
      → (poll_peek s.stream ≡ (pending, t)) ⊎ (poll_peek s.stream ≡ (ready none, t))
      → fill poll rss (suc fuel) s ≡ done (with_stream s t)
  unfolding fill with_stream
  fill_waits rss fuel s t (inl e) = ground (arith, e)
  fill_waits rss fuel s t (inr e) = ground (arith, e)

  fill_breaks :
      (rss : ℕ → Option ℕ) (fuel : ℕ) (s : BufferedWeighted S F Q) (t : PeekableFused S F)
      (weight : ℕ) (future : F)
      → poll_peek s.stream ≡ (ready (some (weight, future)), t)
      → must_wait poll (rss fuel) (with_stream s t) weight ≡ true
      → fill poll rss (suc fuel) s ≡ done (with_stream s t)
  unfolding fill with_stream
  fill_breaks rss fuel s t weight future e w = ground (arith, e, w)

  -- The state behind a round that takes an item.
  taken : BufferedWeighted S F Q → S → ℕ → F → GlobalWeight → BufferedWeighted S F Q
  taken s t weight future g = record s {
    stream = record { stream = t; peeked = none };
    global_weight = g;
    in_progress_queue =
        futures.push_back (record { future = future; weight = weight }) s.in_progress_queue;
  }

  fill_takes :
      (rss : ℕ → Option ℕ) (fuel : ℕ) (s : BufferedWeighted S F Q) (t : S) (weight : ℕ) (future : F)
      (g : GlobalWeight)
      → poll_peek s.stream
        ≡ (ready (some (weight, future)), record { stream = t; peeked = some (weight, future) })
      → must_wait poll
          (rss fuel)
          (with_stream s (record { stream = t; peeked = some (weight, future) }))
          weight
        ≡ false
      → add_weight s.global_weight weight ≡ done g
      → fill poll rss (suc fuel) s ≡ fill poll rss fuel (taken s t weight future g)
  unfolding fill with_stream taken poll_item
  fill_takes rss fuel s t weight future g e w added = ground (arith, e, w, added)

  takes :
      (s : BufferedWeighted S F Q) (t : S) (weight : ℕ) (future : F)
      → IsAccounted poll s
      → s.global_weight.current + min weight s.global_weight.max ≤ s.global_weight.max
      → IsAccounted poll (
          taken s t weight future (record s.global_weight {
            current = s.global_weight.current + min weight s.global_weight.max;
          }))
  unfolding taken
  takes s t weight future a fits =
      let f : FutureWithWeight F = record { future = future; weight = weight } in
      let max = s.global_weight.max in
      let held = weights poll s.in_progress_queue in
      record {
        bounded = a.bounded;
        within = fits;
        accounted =
            ap (λ c. c + min weight max) a.accounted
            ∙ sym (load-append max held weight)
            ∙ ap (load max) (
                sym (
                  ap (map weight_of) (futures.push_back_lem f s.in_progress_queue)
                  ∙ map-append weight_of (futures.held s.in_progress_queue) f));
      }

  -- On an account, with fuel for each item that the stream can still give at once, the loop returns,
  -- without a panic, and leaves an account. It leaves an item peeked only behind a queue that is not
  -- empty.
  pub fill_correct :
      (rss : ℕ → Option ℕ) (fuel : ℕ) (s : BufferedWeighted S F Q)
      → IsAccounted poll s
      → stock s.stream < fuel
      → Filled (fill poll rss fuel s) s.global_weight.max
  unfolding Filled with_stream taken
  fill_correct rss zero s a h = absurd (omega arith)
  fill_correct rss (suc fuel) s a h = go (fill_correct rss fuel) (peek_cases s.stream)
    where
      go :
          ((s2 : BufferedWeighted S F Q)
            → IsAccounted poll s2
            → stock s2.stream < fuel
            → Filled (fill poll rss fuel s2) s2.global_weight.max)
          → PeekCase s.stream
          → Filled (fill poll rss (suc fuel) s) s.global_weight.max
      go ih (waits t e n) =
          (with_stream s t, fill_waits rss fuel s t (inl e), stays s t a, refl, inl n)
      go ih (ends t e n) =
          (with_stream s t, fill_waits rss fuel s t (inr e), stays s t a, refl, inl n)
      go ih (item weight future t e less) =
          let s1 = with_stream s (record { stream = t; peeked = some (weight, future) }) in
          elim (Bool-cases (must_wait poll (rss fuel) s1 weight)) [
            | inl w ↦ (
              s1,
              fill_breaks rss fuel s (record { stream = t; peeked = some (weight, future) }) weight
                  future e w,
              stays s (record { stream = t; peeked = some (weight, future) }) a,
              refl,
              inr (waits_behind (rss fuel) s1 weight (stays s s1.stream a) w),
            )
            | inr w ↦
                let (added, fits) =
                  add_weight_lem s.global_weight weight a.bounded a.within
                    (has_space (rss fuel) s1 weight w) in
                let g : GlobalWeight = record s.global_weight {
                  current = s.global_weight.current + min weight s.global_weight.max;
                } in
                let s2 = taken s t weight future g in
                let (s', run, a', m, behind) =
                  ih s2 (takes s t weight future a fits) (omega (arith, less, h)) in
                (s', fill_takes rss fuel s t weight future g e w added ∙ run, a', m, behind)
          ]
