-- ===== src/BufferedWeighted.antt =====
-- shed/buffered_weighted/src: `buffered_weighted`, a stream of futures with weights that runs those
-- at once whose weights fit below a maximum. `Weights` models global_weight.rs and memory_bound.rs,
-- `Peekable` peekable_fused.rs, and this file buffered_weighted_stream.rs. The stream and the queue of
-- futures_util are parameters.
pub mod Weights
pub mod Peekable
pub mod Account
pub mod Fill
pub mod Poll
use rust_shed.Prelude.{
  ℕ, zero, suc, ◌≡◌, ◌↔◌, Bool, true, false, not, ◌&&◌, ◌||◌, Option, none, some, List, [], ◌∷◌,
  ◌++◌, map, Outcome, done, panic, ◌>>=◌, if◌then◌else◌,
}
use rust_shed.BufferedWeighted.Weights.{
  GlobalWeight, new_weight, has_space_for, add_weight, sub_weight, MemoryBound, within_bound,
}
use rust_shed.BufferedWeighted.Peekable.{
  Polled, pending, ready, Source, PeekableFused, poll_peek, poll_item, new_peekable, is_done,
}

-- A future with its weight, and how it is polled: the output comes with the weight.
pub record FutureWithWeight (F : Type 0) : Type 0 where
  pub future : F
  pub weight : ℕ

abbrev pub with_weight :
    {F Out : Type 0} → ℕ → Polled Out × F → Polled (ℕ × Out) × FutureWithWeight F
with_weight weight (pending, future) = (pending, record { future = future; weight = weight })
with_weight weight (ready output, future) =
    (ready (weight, output), record { future = future; weight = weight })

unfoldable pub poll_future :
    {F Out : Type 0}
    → (F → Polled Out × F)
    → FutureWithWeight F
    → Polled (ℕ × Out) × FutureWithWeight F
poll_future poll f = with_weight f.weight (poll f.future)

-- Two tags, of a future and of its output, that polling keeps.
pub record Tags {F X : Type 0} (poll : F → Polled X × F) (tag : F → ℕ) (tag_out : X → ℕ)
    : Type 0 where
  pub kept : (f g : F) → poll f ≡ (pending, g) → tag g ≡ tag f
  pub given : (f g : F) (x : X) → poll f ≡ (ready x, g) → tag_out x ≡ tag f

-- `FuturesOrdered`, for futures that are polled by `poll`: the futures it holds, in order, `push_back`,
-- `is_empty` and `poll_next`, which yields the output of the first future, or ends when there is none.
-- The futures that it polls change, so the laws tell them by their tags.
pub record FuturesOrdered {F X : Type 0} (poll : F → Polled X × F) (Q : Type 0) : Type 0 where
  pub held : Q → List F
  pub empty : Q
  pub push_back : F → Q → Q
  pub is_empty : Q → Bool
  pub poll_next : Q → Polled (Option X) × Q
  pub empty_lem : held empty ≡ []
  pub push_back_lem : (f : F) (q : Q) → held (push_back f q) ≡ held q ++ (f ∷ [])
  pub is_empty_lem : (q : Q) → (is_empty q ≡ true) ↔ (held q ≡ [])
  pub poll_pending :
      (tag : F → ℕ) (tag_out : X → ℕ)
      → Tags poll tag tag_out
      → (q r : Q) → poll_next q ≡ (pending, r)
      → map tag (held r) ≡ map tag (held q)
  pub poll_ready :
      (tag : F → ℕ) (tag_out : X → ℕ)
      → Tags poll tag tag_out
      → (q r : Q) (x : X) → poll_next q ≡ (ready (some x), r)
      → map tag (held q) ≡ tag_out x ∷ map tag (held r)
  pub poll_none : (q r : Q) → poll_next q ≡ (ready none, r) → (held q ≡ []) × (held r ≡ [])

pub record BufferedWeighted (S F Q : Type 0) : Type 0 where
  pub stream : PeekableFused S F
  pub in_progress_queue : Q
  pub global_weight : GlobalWeight
  pub bound : MemoryBound

abbrev pub with_queue : {S F Q : Type 0} → BufferedWeighted S F Q → Q → BufferedWeighted S F Q
with_queue self q = record self { in_progress_queue = q }

module _ {S F Out Q : Type 0} (poll : F → Polled Out × F) ⦃source : Source S F⦄
    ⦃futures : FuturesOrdered (poll_future poll) Q⦄ where
  unfoldable pub new : S → ℕ → MemoryBound → BufferedWeighted S F Q
  unfolding new_peekable new_weight
  new stream max_weight bound = record {
    stream = new_peekable stream;
    in_progress_queue = futures.empty;
    global_weight = new_weight max_weight;
    bound = bound;
  }

  -- The test that leaves the loop before an item of that weight is taken.
  unfoldable pub must_wait : Option ℕ → BufferedWeighted S F Q → ℕ → Bool
  must_wait rss self weight =
      not (has_space_for self.global_weight weight)
      || (not (within_bound self.bound rss weight) && not (futures.is_empty self.in_progress_queue))

  -- The loop that fills the queue. The fuel bounds its rounds, and the loop panics where it runs out;
  -- `rss` is what the process reads of its resident bytes in the round with that much fuel left.
  unfoldable pub fill :
      (ℕ → Option ℕ) → ℕ → BufferedWeighted S F Q → Outcome (BufferedWeighted S F Q)
  fill rss zero self = panic
  fill rss (suc fuel) self =
      let (peeked, stream') = poll_peek self.stream in
      let self' : BufferedWeighted S F Q = record self { stream = stream' } in
      elim peeked [
        | pending ↦ done self'
        | ready none ↦ done self'
        | ready (some item) ↦ if must_wait (rss fuel) self' item.0 then done self' else (do
          let taken = poll_item self'.stream
          elim taken.0 [
            | pending ↦ panic
            | ready none ↦ panic
            | ready (some (weight, future)) ↦ do
              global' ← add_weight self'.global_weight weight
              fill rss fuel (record self' {
                stream = taken.1;
                global_weight = global';
                in_progress_queue =
                    futures.push_back (record { future = future; weight = weight })
                      self'.in_progress_queue;
              })
          ])
      ]

  -- `poll_next` behind the poll of the queue.
  unfoldable pub drain :
      BufferedWeighted S F Q
      → Polled (Option (ℕ × Out)) × Q
      → Outcome (Polled (Option Out) × BufferedWeighted S F Q)
  drain self (pending, q) = done (pending, with_queue self q)
  drain self (ready (some (weight, output)), q) = do
    global' ← sub_weight self.global_weight weight
    done (ready (some output), record (with_queue self q) { global_weight = global' })
  drain self (ready none, q) =
      if is_done self.stream
      then done (ready none, with_queue self q)
      else done (pending, with_queue self q)

  unfoldable pub poll_next :
      (ℕ → Option ℕ)
      → ℕ
      → BufferedWeighted S F Q
      → Outcome (Polled (Option Out) × BufferedWeighted S F Q)
  poll_next rss fuel self = do
    self' ← fill rss fuel self
    drain self' (futures.poll_next self'.in_progress_queue)
