-- ===== src/BoundedTraversal/ByKeyRounds.antt =====
-- What a round of the stream leads to: each item that it held is held or done, and the limit stays.
use rust_shed.Prelude.{
  ℕ, suc, ◌+◌, ◌-◌, ◌≤◌, ◌<◌, ◌≡◌, ◌⊎◌, inl, inr, refl, ap, Bool, true, false, ◌&&◌, Bool-cases,
  Option, none, some, List, [], ◌∷◌, ◌++◌, done, length, length-append, ltb, arith,
}
use rust_shed.Prelude.Results.{Result, ok, err, lookup}
use rust_shed.BoundedTraversal.{is_nil}
use rust_shed.BoundedTraversal.Tables.{
  total, total-append, total-middle, total-insert, total-lookup, remove_at-parts,
}
use rust_shed.BoundedTraversal.Streams.{push_all_front}
use rust_shed.BoundedTraversal.ByKey.{
  KeyedStream, KeyedAdvance, again, waits, yields, ended, next_of_key, next_of_shard, fill,
  complete, keyed_round,
}
use rust_shed.BoundedTraversal.ByKeyLaws.{
  in_queue, in_shard, held, Option-cases, fill_lem, nil_or_longer,
}

module _ {In : Type 0} where
  next_of_key_lem :
      (self : KeyedStream In) (key : ℕ)
      → ((f : In → ℕ) → held f (next_of_key self key) ≡ held f self)
        × (length (next_of_key self key).scheduled ≤ suc (length self.scheduled))
  unfolding next_of_key
  next_of_key_lem self key = elim (Option-cases (lookup key self.waiting_for_key)) [
    | inl absent ↦ (λ f. rw (next_of_key, absent) refl, rw (next_of_key, absent) (omega arith))
    | inr ([], found) ↦ (
      λ f.
          rw (next_of_key, found)
            (omega (arith, total-lookup (in_queue f) key [] self.waiting_for_key found)),
      rw (next_of_key, found) (omega arith),
    )
    | inr (item ∷ [], found) ↦ (
      λ f.
          rw (next_of_key, found)
            (omega (
              arith,
              total-lookup (in_queue f) key (item ∷ []) self.waiting_for_key found,
              total-append f self.scheduled (item ∷ []),
            )),
      rw (next_of_key, found) (omega (arith, length-append self.scheduled (item ∷ []))),
    )
    | inr (item ∷ (other ∷ queue), found) ↦ (
      λ f.
          rw (next_of_key, found)
            (omega (
              arith,
              total-lookup (in_queue f) key (item ∷ (other ∷ queue)) self.waiting_for_key found,
              total-insert (in_queue f) key (other ∷ queue) self.waiting_for_key,
              total-append f self.scheduled (item ∷ []),
            )),
      rw (next_of_key, found) (omega (arith, length-append self.scheduled (item ∷ []))),
    )
  ]

  next_of_shard_lem :
      (self : KeyedStream In) (shard : Option ℕ)
      → ((f : In → ℕ) → held f (next_of_shard self shard) ≡ held f self)
        × ((next_of_shard self shard).scheduled ≡ self.scheduled)
  unfolding next_of_shard
  next_of_shard_lem self none = (λ f. refl, refl)
  next_of_shard_lem self (some key) = elim (Option-cases (lookup key self.waiting_for_shard)) [
    | inl absent ↦ (λ f. rw (next_of_shard, absent) refl, rw (next_of_shard, absent) refl)
    | inr ((inflight, []), found) ↦ (
      λ f.
          rw (next_of_shard, found)
            (omega (
              arith,
              total-lookup (in_shard f) key (inflight, []) self.waiting_for_shard found,
              total-insert (in_shard f) key (inflight - 1, []) self.waiting_for_shard,
            )),
      rw (next_of_shard, found) refl,
    )
    | inr ((inflight, item ∷ queue), found) ↦ (
      λ f.
          rw (next_of_shard, found)
            (omega (
              arith,
              total-lookup (in_shard f) key (inflight, item ∷ queue) self.waiting_for_shard found,
              total-insert (in_shard f) key (inflight - 1, queue) self.waiting_for_shard,
            )),
      rw (next_of_shard, found) refl,
    )
  ]

  total-push_all_front :
      (f : In → ℕ) (children u : List In)
      → total f (push_all_front children u) ≡ total f children + total f u
  total-push_all_front f [] u = omega arith
  total-push_all_front f (c ∷ cs) u = omega (arith, total-push_all_front f cs (c ∷ u))

-- The children that an item unfolds to.
abbrev pub children_of : {In Out Err : Type 0} → Result (Option (Out × List In)) Err → List In
children_of (err e) = []
children_of (ok none) = []
children_of (ok (some (out, children))) = children

-- The results of an item.
Unfolded-cases :
    {A : Type 0} {Err : Type 0} (x : Result (Option A) Err)
    → ((e : Err) × (x ≡ err e)) ⊎ ((x ≡ ok none) ⊎ ((a : A) × (x ≡ ok (some a))))
Unfolded-cases (err e) = inl (e, refl)
Unfolded-cases (ok none) = inr (inl refl)
Unfolded-cases (ok (some a)) = inr (inr (a, refl))

module _ {In Out Err : Type 0}
    (unfold_fn : In → ℕ × Option ℕ × Result (Option (Out × List In)) Err) where
  complete_lem :
      (self : KeyedStream In) (item : In)
      → (self' : KeyedStream In) × ((complete unfold_fn self item ≡ again self')
          ⊎ ((r : Result Out Err) × (complete unfold_fn self item ≡ yields r self')))
        × (length self'.scheduled ≤ suc (length self.scheduled))
        × ((f : In → ℕ) → held f self' ≡ held f self + total f (children_of (unfold_fn item).2))
  unfolding complete
  complete_lem self item =
      let self1 : KeyedStream In = next_of_key self (unfold_fn item).0 in
      let self2 : KeyedStream In = next_of_shard self1 (unfold_fn item).1 in
      let (sums, short) = next_of_key_lem self (unfold_fn item).0 in
      let (sums', same) = next_of_shard_lem self1 (unfold_fn item).1 in
      let short' : length self2.scheduled ≤ suc (length self.scheduled) =
        omega (arith, short, ap length same) in
      elim (Unfolded-cases (unfold_fn item).2) [
        | inl (e, failed) ↦ (
          self2,
          inr (err e, rw (complete, failed) refl),
          short',
          λ f. rw failed (omega (arith, sums f, sums' f)),
        )
        | inr (inl empty) ↦ (
          self2,
          inl (rw (complete, empty) refl),
          short',
          λ f. rw empty (omega (arith, sums f, sums' f)),
        )
        | inr (inr ((out, children), full)) ↦ (
          record self2 { unscheduled = push_all_front children self2.unscheduled },
          inr (ok out, rw (complete, full) refl),
          short',
          λ f.
              rw full
                (omega (arith, sums f, sums' f, total-push_all_front f children self2.unscheduled)),
        )
      ]

  -- What a round leads to: the end, where nothing is scheduled or unscheduled; a state that holds the
  -- same items; or a state in which one item is done and its children are there.
  pub data RoundCase (scheduled_max : ℕ) (self : KeyedStream In) (p : KeyedAdvance In Out Err)
      : Type 0 where
    at_end :
        p ≡ ended → self.scheduled ≡ [] → self.unscheduled ≡ [] → RoundCase scheduled_max self p
    idle :
        (self' : KeyedStream In)
        → (p ≡ again self') ⊎ (p ≡ waits self')
        → length self'.scheduled ≤ scheduled_max
        → ((f : In → ℕ) → held f self' ≡ held f self)
        → RoundCase scheduled_max self p
    ran :
        (item : In) (self' : KeyedStream In)
        → (p ≡ again self') ⊎ ((r : Result Out Err) × (p ≡ yields r self'))
        → length self'.scheduled ≤ scheduled_max
        → ((f : In → ℕ)
            → f item + held f self' ≡ held f self + total f (children_of (unfold_fn item).2))
        → RoundCase scheduled_max self p

  -- If at most `scheduled_max` items are scheduled, then a round does not panic, has at most
  -- `scheduled_max` scheduled at its end, and loses and doubles no item: what the stream holds, in its
  -- queues for keys and shards too, is what it held before, with the children of the item that is done
  -- in the place of that item. The stream ends only where nothing is scheduled or unscheduled.
  pub keyed_round_lem :
      (key_fn : In → ℕ × Option (ℕ × ℕ)) (scheduled_max pick : ℕ) (self : KeyedStream In)
      → length self.scheduled ≤ scheduled_max
      → (p : KeyedAdvance In Out Err) × (keyed_round unfold_fn key_fn scheduled_max pick self
          ≡ done p)
        × RoundCase scheduled_max self p
  unfolding keyed_round
  keyed_round_lem key_fn scheduled_max pick self fits =
      let self1 : KeyedStream In = fill key_fn scheduled_max (length self.unscheduled) self in
      let (sums, bound, full) =
        fill_lem key_fn scheduled_max (length self.unscheduled) self (omega arith) fits in
      elim (Bool-cases (is_nil self.scheduled && is_nil self.unscheduled)) [
        | inl none_left ↦
            let (no_scheduled, no_unscheduled) =
              both_nil (is_nil self.scheduled) (is_nil self.unscheduled) none_left in
            (
              ended,
              rw (keyed_round, none_left) refl,
              at_end refl ((nil_or_longer self.scheduled).1 no_scheduled)
                  ((nil_or_longer self.unscheduled).1 no_unscheduled),
            )
        | inr some_left ↦ elim (Bool-cases (is_nil self1.scheduled)) [
          | inl empty ↦ (
            again self1,
            rw (keyed_round, some_left, empty) refl,
            idle self1 (inl refl) bound sums,
          )
          | inr some_item ↦ elim (Bool-cases (ltb pick (length self1.scheduled))) [
            | inr outside ↦ (
              waits self1,
              rw (keyed_round, some_left, some_item, outside) refl,
              idle self1 (inr refl) bound sums,
            )
            | inl inside ↦
                let picked : pick < length self1.scheduled = ground (arith, inside) in
                let (before, item, behind, parts, removed) =
                  remove_at-parts self1.scheduled pick picked in
                let self2 : KeyedStream In = record self1 { scheduled = before ++ behind } in
                let (self', result, short, sums') = complete_lem self2 item in
                (
                  complete unfold_fn self2 item,
                  rw (keyed_round, some_left, some_item, inside, removed) refl,
                  ran item self' result
                      (omega (
                        arith,
                        short,
                        bound,
                        ap length parts,
                        length-append before (item ∷ behind),
                        length-append before behind,
                      ))
                      (λ f. omega (
                        arith,
                        sums f,
                        sums' f,
                        ap (total f) parts,
                        total-middle f before item behind,
                      )),
                )
          ]
        ]
      ]
    where
      both_nil : (b c : Bool) → (b && c) ≡ true → (b ≡ true) × (c ≡ true)
      both_nil true c h = (refl, h)
      both_nil false c h = absurd (cc h)
