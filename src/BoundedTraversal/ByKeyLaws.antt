-- ===== src/BoundedTraversal/ByKeyLaws.antt =====
-- What the rounds of the stream keep: the limit, and each item.
use rust_shed.Prelude.{
  ℕ, zero, suc, ◌+◌, ◌-◌, ◌≤◌, ◌<◌, ◌≡◌, ◌⊎◌, inl, inr, refl, ap, ◌∙◌, min, Bool, true, false, ◌&&◌,
  not, Bool-cases, Option, none, some, List, [], ◌∷◌, ◌++◌, length, length-append, length-take,
  length-drop, take, drop, ltb, arith,
}
use rust_shed.Prelude.Results.{lookup, insert}
use rust_shed.BoundedTraversal.{is_nil}
use rust_shed.BoundedTraversal.Tables.{
  total, total-append, total-insert, total-lookup, total-fresh, remove-none,
}
use rust_shed.BoundedTraversal.Rounds.{take-drop, no_length}
use rust_shed.BoundedTraversal.ByKey.{KeyedStream, or_default, admit, admit_all, fill}

pub Option-cases {ℓ} : {A : Type ℓ} (x : Option A) → (x ≡ none) ⊎ ((a : A) × (x ≡ some a))
Option-cases none = inl refl
Option-cases (some a) = inr (a, refl)

both : (b c : Bool) → (b && not c) ≡ true → (b ≡ true) × (c ≡ false)
both true false h = (refl, refl)
both true true h = absurd (cc h)
both false c h = absurd (cc h)

one_not : (b c : Bool) → (b && not c) ≡ false → (b ≡ false) ⊎ (c ≡ true)
one_not true true h = inr refl
one_not true false h = absurd (cc h)
one_not false c h = inl refl

pub nil_or_longer :
    {A : Type 0} (xs : List A) → (is_nil xs ≡ false → 0 < length xs) × (is_nil xs ≡ true → xs ≡ [])
nil_or_longer [] = (λ h. absurd (cc h), λ h. refl)
nil_or_longer (x ∷ xs) = (λ h. omega arith, λ h. absurd (cc h))

module _ {In : Type 0} where
  module _ (f : In → ℕ) where
    abbrev pub in_queue : ℕ × List In → ℕ
    in_queue e = total f e.1

    abbrev pub in_shard : ℕ × (ℕ × List In) → ℕ
    in_shard e = total f e.1.1

    -- The items that the stream holds, weighed by `f`.
    abbrev pub held : KeyedStream In → ℕ
    held self =
        total f self.unscheduled
        + total f self.scheduled
        + total in_queue self.waiting_for_key
        + total in_shard self.waiting_for_shard

  -- The queue of a shard is replaced.
  shard_queue :
      (f : In → ℕ) (shard_key inflight : ℕ) (queue : List In) (m : List (ℕ × (ℕ × List In)))
      → total (in_shard f) (insert shard_key (inflight, queue) m)
          + total f (or_default (lookup shard_key m)).1
        ≡ total f queue + total (in_shard f) m
  shard_queue f shard_key inflight queue m = elim (Option-cases (lookup shard_key m)) [
    | inl absent ↦ rw absent (
        omega (
          arith,
          total-fresh (in_shard f) shard_key (inflight, queue) m (remove-none shard_key m absent),
        ))
    | inr (entry, found) ↦ rw found (
        omega (
          arith,
          total-insert (in_shard f) shard_key (inflight, queue) m,
          total-lookup (in_shard f) shard_key entry m found,
        ))
  ]

  module _ (key_fn : In → ℕ × Option (ℕ × ℕ)) where
    -- An item that is admitted is held, and one more is scheduled at most.
    admit_lem :
        (self : KeyedStream In) (item : In)
        → ((f : In → ℕ) → held f (admit key_fn self item) ≡ f item + held f self)
          × (length (admit key_fn self item).scheduled ≤ suc (length self.scheduled))
          × ((admit key_fn self item).unscheduled ≡ self.unscheduled)
    unfolding admit
    admit_lem self item =
        let key : ℕ = (key_fn item).0 in
        let single = length-append self.scheduled (item ∷ []) in
        elim (Option-cases (lookup key self.waiting_for_key)) [
          | inr (queue, found) ↦ (
            λ f.
                rw (admit, found)
                  (omega (
                    arith,
                    total-insert (in_queue f) key (queue ++ item ∷ []) self.waiting_for_key,
                    total-lookup (in_queue f) key queue self.waiting_for_key found,
                    total-append f queue (item ∷ []),
                  )),
            rw (admit, found) (omega arith),
            rw (admit, found) refl,
          )
          | inl absent ↦ elim (Option-cases (key_fn item).1) [
            | inl no_shard ↦ (
              λ f.
                  rw (admit, absent, no_shard)
                    (omega (
                      arith,
                      total-fresh (in_queue f) key [] self.waiting_for_key
                          (remove-none key self.waiting_for_key absent),
                      total-append f self.scheduled (item ∷ []),
                    )),
              rw (admit, absent, no_shard) (omega (arith, single)),
              rw (admit, absent, no_shard) refl,
            )
            | inr ((shard_key, most), has_shard) ↦
                let m = self.waiting_for_shard in
                let (inflight, queue) = or_default (lookup shard_key m) in
                elim (Bool-cases (ltb most inflight)) [
                  | inl busy ↦ (
                    λ f.
                        rw (admit, absent, has_shard, busy)
                          (omega (
                            arith,
                            shard_queue f shard_key inflight (queue ++ item ∷ []) m,
                            total-append f queue (item ∷ []),
                          )),
                    rw (admit, absent, has_shard, busy) (omega arith),
                    rw (admit, absent, has_shard, busy) refl,
                  )
                  | inr free ↦ (
                    λ f.
                        rw (admit, absent, has_shard, free)
                          (omega (
                            arith,
                            shard_queue f shard_key (inflight + 1) queue m,
                            total-fresh (in_queue f) key [] self.waiting_for_key
                                (remove-none key self.waiting_for_key absent),
                            total-append f self.scheduled (item ∷ []),
                          )),
                    rw (admit, absent, has_shard, free) (omega (arith, single)),
                    rw (admit, absent, has_shard, free) refl,
                  )
                ]
          ]
        ]

    admit_all_lem :
        (self : KeyedStream In) (items : List In)
        → ((f : In → ℕ) → held f (admit_all key_fn self items) ≡ total f items + held f self)
          × (length (admit_all key_fn self items).scheduled ≤ length items + length self.scheduled)
          × ((admit_all key_fn self items).unscheduled ≡ self.unscheduled)
    unfolding admit_all
    admit_all_lem self [] = (λ f. omega arith, omega arith, refl)
    admit_all_lem self (item ∷ items) =
        let (sums, short, same) = admit_lem self item in
        let (sums', short', same') = admit_all_lem (admit key_fn self item) items in
        (λ f. omega (arith, sums f, sums' f), omega (arith, short, short'), same' ∙ same)

    -- The loop keeps each item and the limit, and leaves no room that an item waits for.
    pub fill_lem :
        (scheduled_max fuel : ℕ) (self : KeyedStream In)
        → length self.unscheduled ≤ fuel
        → length self.scheduled ≤ scheduled_max
        → ((f : In → ℕ) → held f (fill key_fn scheduled_max fuel self) ≡ held f self)
          × (length (fill key_fn scheduled_max fuel self).scheduled ≤ scheduled_max)
          × ((length (fill key_fn scheduled_max fuel self).scheduled ≡ scheduled_max)
              ⊎ ((fill key_fn scheduled_max fuel self).unscheduled ≡ []))
    unfolding fill
    fill_lem scheduled_max zero self enough fits =
        (λ f. refl, fits, inr (no_length self.unscheduled (omega (arith, enough))))
    fill_lem scheduled_max (suc fuel) self enough fits =
        let n : ℕ = min (length self.unscheduled) (scheduled_max - length self.scheduled) in
        elim (Bool-cases
          (ltb (length self.scheduled) scheduled_max && not (is_nil self.unscheduled))) [
            | inl more ↦
                let (room, some_item) =
                  both (ltb (length self.scheduled) scheduled_max) (is_nil self.unscheduled) more in
                let has_room : length self.scheduled < scheduled_max = ground (arith, room) in
                let has_item = (nil_or_longer self.unscheduled).0 some_item in
                let drained : KeyedStream In = record self {
                  unscheduled = drop n self.unscheduled;
                } in
                let (sums, short, same) = admit_all_lem drained (take n self.unscheduled) in
                let taken = length-take n self.unscheduled in
                let left = length-drop n self.unscheduled in
                let (sums', fits', full) =
                  fill_lem scheduled_max fuel (admit_all key_fn drained (take n self.unscheduled))
                    (omega (arith, ap length same, left, enough, has_room, has_item))
                    (omega (arith, short, taken, has_room)) in
                (
                  λ f.
                      rw (fill, more)
                        (omega (
                          arith,
                          sums f,
                          sums' f,
                          total-append f (take n self.unscheduled) (drop n self.unscheduled),
                          ap (total f) (take-drop n self.unscheduled),
                        )),
                  rw (fill, more) fits',
                  rw (fill, more) full,
                )
            | inr no_more ↦ (
              λ f. rw (fill, no_more) refl,
              rw (fill, no_more) fits,
              rw (fill, no_more)
                  (elim (one_not (ltb (length self.scheduled) scheduled_max)
                    (is_nil self.unscheduled) no_more) [
                      | inl full ↦ inl (ground (arith, full, fits))
                      | inr nil ↦ inr ((nil_or_longer self.unscheduled).1 nil)
                    ]),
            )
          ]
