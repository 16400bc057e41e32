-- ===== src/BoundedTraversal/ByKey.antt =====
-- shed/bounded_traversal/src/stream.rs, `limited_by_key_shardable`: the stream in which an item may wait
-- for another one of its key or of its shard. Keys are numbers, and a map has one entry for a key.
use rust_shed.Prelude.{
  ℕ, zero, suc, ◌+◌, ◌-◌, min, ◌&&◌, not, Option, none, some, List, [], ◌∷◌, ◌++◌, Outcome, done,
  ◌>>=◌, remove_at, length, take, drop, ltb, if◌then◌else◌,
}
use rust_shed.Prelude.Results.{Result, ok, err, lookup, insert, remove}
use rust_shed.BoundedTraversal.{is_nil}
use rust_shed.BoundedTraversal.Streams.{push_all_front}

pub record KeyedStream (In : Type 0) : Type 0 where
  pub unscheduled : List In
  pub scheduled : List In
  pub waiting_for_key : List (ℕ × List In)
  pub waiting_for_shard : List (ℕ × (ℕ × List In))

-- What a round of the loop leads to; an item may have no output.
pub data KeyedAdvance (In Out Err : Type 0) : Type 0 where
  again : KeyedStream In → KeyedAdvance In Out Err
  waits : KeyedStream In → KeyedAdvance In Out Err
  yields : Result Out Err → KeyedStream In → KeyedAdvance In Out Err
  ended : KeyedAdvance In Out Err

-- `entry(shard_key).or_default()`
abbrev pub or_default : {In : Type 0} → Option (ℕ × List In) → ℕ × List In
or_default none = (0, [])
or_default (some entry) = entry

module _ {In : Type 0} where
  -- The entry of a key is removed and the first item that waited runs; the entry is put back with the
  -- others, if there are others.
  unfoldable pub next_of_key : KeyedStream In → ℕ → KeyedStream In
  next_of_key self key = elim (lookup key self.waiting_for_key) [
    | none ↦ self
    | some [] ↦ record self { waiting_for_key = remove key self.waiting_for_key }
    | some (item ∷ []) ↦ record self {
      waiting_for_key = remove key self.waiting_for_key;
      scheduled = self.scheduled ++ item ∷ [];
    }
    | some (item ∷ (other ∷ queue)) ↦ record self {
      waiting_for_key = insert key (other ∷ queue) self.waiting_for_key;
      scheduled = self.scheduled ++ item ∷ [];
    }
  ]

  -- A shard has one item less in flight, and an item that waited for it is unscheduled again.
  unfoldable pub next_of_shard : KeyedStream In → Option ℕ → KeyedStream In
  next_of_shard self none = self
  next_of_shard self (some shard_key) = elim (lookup shard_key self.waiting_for_shard) [
    | none ↦ self
    | some (inflight, []) ↦ record self {
      waiting_for_shard = insert shard_key (inflight - 1, []) self.waiting_for_shard;
    }
    | some (inflight, item ∷ queue) ↦ record self {
      waiting_for_shard = insert shard_key (inflight - 1, queue) self.waiting_for_shard;
      unscheduled = item ∷ self.unscheduled;
    }
  ]

  module _ (key_fn : In → ℕ × Option (ℕ × ℕ)) where
    -- An item that runs.
    abbrev pub start_item : KeyedStream In → ℕ → In → KeyedStream In
    start_item self key item = record self {
      waiting_for_key = insert key [] self.waiting_for_key;
      scheduled = self.scheduled ++ item ∷ [];
    }

    -- The body of the loop over the items that are drained.
    unfoldable pub admit : KeyedStream In → In → KeyedStream In
    admit self item =
        let (key, shard_info) = key_fn item in
        elim (lookup key self.waiting_for_key) [
          | some inflight ↦ record self {
            waiting_for_key = insert key (inflight ++ item ∷ []) self.waiting_for_key;
          }
          | none ↦ elim shard_info [
            | none ↦ start_item self key item
            | some (shard_key, max_per_shard) ↦
                let (inflight, queued) = or_default (lookup shard_key self.waiting_for_shard) in
                if ltb max_per_shard inflight
                then record self {
                  waiting_for_shard =
                      insert shard_key (inflight, queued ++ item ∷ []) self.waiting_for_shard;
                }
                else start_item
                    (record self {
                      waiting_for_shard =
                          insert shard_key (inflight + 1, queued) self.waiting_for_shard;
                    })
                    key item
          ]
        ]

    unfoldable pub admit_all : KeyedStream In → List In → KeyedStream In
    admit_all self [] = self
    admit_all self (item ∷ items) = admit_all (admit self item) items

    -- The `while` loop; each of its rounds drains an item at least.
    unfoldable pub fill : ℕ → ℕ → KeyedStream In → KeyedStream In
    fill scheduled_max zero self = self
    fill scheduled_max (suc fuel) self =
        let n = min (length self.unscheduled) (scheduled_max - length self.scheduled) in
        let rest = fill scheduled_max fuel (
          admit_all (record self { unscheduled = drop n self.unscheduled })
            (take n self.unscheduled)) in
        if ltb (length self.scheduled) scheduled_max && not (is_nil self.unscheduled)
        then rest
        else self

module _ {In Out Err : Type 0}
    (unfold_fn : In → ℕ × Option ℕ × Result (Option (Out × List In)) Err) where
  -- A future that is done.
  unfoldable pub complete : KeyedStream In → In → KeyedAdvance In Out Err
  complete self item =
      let (key, shard_key, unfolded) = unfold_fn item in
      let self' = next_of_shard (next_of_key self key) shard_key in
      elim unfolded [
        | err e ↦ yields (err e) self'
        | ok none ↦ again self'
        | ok (some (out, children)) ↦
            yields (ok out)
              (record self' { unscheduled = push_all_front children self'.unscheduled })
      ]

  unfoldable pub keyed_round :
      (In → ℕ × Option (ℕ × ℕ)) → ℕ → ℕ → KeyedStream In → Outcome (KeyedAdvance In Out Err)
  keyed_round key_fn scheduled_max pick self =
      let self' = fill key_fn scheduled_max (length self.unscheduled) self in
      if is_nil self.scheduled && is_nil self.unscheduled
      then done ended
      else if is_nil self'.scheduled
      then done (again self')
      else if ltb pick (length self'.scheduled)
      then (do
        r ← remove_at self'.scheduled pick
        done (complete (record self' { scheduled = r.1 }) r.0))
      else done (waits self')
