-- ===== src/FuturesRetry/Outcomes.antt =====
-- A retry with a limit on its attempts comes to an end.
use rust_shed.Prelude.{
  ℕ, zero, suc, ◌+◌, ◌-◌, ◌%◌, ◌≤◌, ◌<◌, ◌≡◌, ◌⊎◌, inl, inr, refl, sym, ap, ap₂, ◌∙◌, max, Bool,
  true, false, ◌&&◌, Bool-cases, Option, none, some, List, [], ◌∷◌, Outcome, done, ◌==◌, arith,
}
use rust_shed.Prelude.Results.{Result, ok, err, Polled, ready}
use rust_shed.FuturesRetry.Intervals.{Duration, Backoff}
use rust_shed.FuturesRetry.{Retry, Turn, returns, may_attempt, clamp, turn, start, drive}
use rust_shed.FuturesRetry.Attempts.{
  Settles, failures, failures-ok, failures-err, clamp-at_most, naps, drive-fut, drive-sleep,
  drive-goes_on, drive-gives_up, turn-ok, sleeping,
}

-- How a retry ends: at the attempt with the number `last`, with a result, and with the state that it
-- leaves.
pub record Ends {Fut V S E B : Type 0} (outcome : ℕ → Result V E) (interval : ℕ → Duration)
    (limit : ℕ) (longest : Option Duration) (retry_if : ℕ → E → Bool) (r : Result (V × ℕ) E)
    (self : Retry Fut S E B) : Type 0 where
  pub last : ℕ
  pub first_or_later : 1 ≤ last
  pub limited : last ≤ max 1 limit
  pub earlier : (i : ℕ) → 1 ≤ i → i < last → (e : E) × (outcome i ≡ err e) × (retry_if i e ≡ true)
  pub verdict :
      ((v : V) × (outcome last ≡ ok v) × (r ≡ ok (v, last)))
      ⊎ ((e : E) × (outcome last ≡ err e)
          × (r ≡ err e)
          × ((limit ≤ last) ⊎ (retry_if last e ≡ false)))
  pub inspects : self.inspected ≡ failures outcome last
  pub sleeps : self.slept ≡ naps longest interval (last - 1)

Result-cases : {V E : Type 0} (r : Result V E) → ((v : V) × (r ≡ ok v)) ⊎ ((e : E) × (r ≡ err e))
Result-cases (ok v) = inl (v, refl)
Result-cases (err e) = inr (e, refl)

both : (b c : Bool) → (b && c) ≡ true → (b ≡ true) × (c ≡ true)
both true c h = (refl, h)
both false c h = absurd (cc h)

one_not : (b c : Bool) → (b && c) ≡ false → (b ≡ false) ⊎ (c ≡ false)
one_not true c h = inr h
one_not false c h = inl refl

module _ {Fut V S E B : Type 0} ⦃backoff : Backoff B⦄ (func : ℕ → Fut)
    (poll_fut : Fut → Polled (Result V E) × Fut) (sleep : Duration → S)
    (poll_sleep : S → Polled Unit × S) (outcome : ℕ → Result V E) (polls : ℕ → ℕ)
    (settles : (k : ℕ) → Settles poll_fut (func k) (outcome k) (polls k)) (snooze : Duration → ℕ)
    (wakes : (d : Duration) → Settles poll_sleep (sleep d) tt (snooze d)) (state : ℕ → B)
    (interval : ℕ → Duration) (limit : ℕ) (limit_fits : limit < 18446744073709551616)
    (yields : (k : ℕ)
      → suc k < limit
      → backoff.next (state k) ≡ done (some (interval k), state (suc k)))
    (longest : Option Duration) (retry_if : ℕ → E → Bool) where
  -- The attempt with the number `suc k`.
  abbrev trying : ℕ → Fut → ℕ → List (ℕ × E) → Retry Fut S E B
  trying k f attempt inspected = record {
    fut = some f;
    sleep = none;
    attempt = attempt;
    backoff = state k;
    max_attempts = some limit;
    max_interval = longest;
    retry_if = retry_if;
    inspected = inspected;
    slept = naps longest interval k;
  }

  abbrev Finishes : Retry Fut S E B → Type 0
  Finishes self =
      (turns : ℕ) × (r : Result (V × ℕ) E) × (self' : Retry Fut S E B) × ((fuel : ℕ)
        → drive func poll_fut sleep poll_sleep (turns + fuel) self ≡ done (returns r self'))
      × Ends outcome interval limit longest retry_if r self'

  -- The attempt succeeds.
  Finishes-ok :
      (k : ℕ) (v : V)
      → outcome (suc k) ≡ ok v
      → suc k ≤ max 1 limit
      → ((i : ℕ) → 1 ≤ i → i < suc k → (e : E) × (outcome i ≡ err e) × (retry_if i e ≡ true))
      → Finishes (trying k (func (suc k)) (suc k) (failures outcome k))
  unfolding drive
  Finishes-ok k v won within fail =
      let self : Retry Fut S E B = trying k (func (suc k)) (suc k) (failures outcome k) in
      let (f, y, is_ready, waited) =
        drive-fut func poll_fut sleep poll_sleep self (func (suc k)) (outcome (suc k))
          (polls (suc k)) (settles (suc k)) in
      let yields_ok : poll_fut f ≡ (ready (ok v), y) = is_ready ∙ ap (λ r. (ready r, y)) won in
      (
        polls (suc k) + 1,
        ok (v, suc k),
        record self { fut = some f },
        λ fuel.
            let split : polls (suc k) + 1 + fuel ≡ polls (suc k) + suc fuel = omega arith in
            rw
              (
                split,
                waited (suc fuel),
                drive,
                turn-ok func poll_fut sleep poll_sleep self f y v yields_ok,
              )
              refl,
        record {
          last = suc k;
          first_or_later = omega arith;
          limited = within;
          earlier = fail;
          verdict = inl (v, won, refl);
          inspects = sym (failures-ok outcome k v won);
          sleeps =
              let one_less : k ≡ suc k - 1 = omega arith in ap (naps longest interval) one_less;
        },
      )

  Finishes-err :
      (k : ℕ) (e : E)
      → outcome (suc k) ≡ err e
      → suc k ≤ max 1 limit
      → ((i : ℕ) → 1 ≤ i → i < suc k → (e : E) × (outcome i ≡ err e) × (retry_if i e ≡ true))
      → (suc k < limit
          → retry_if (suc k) e ≡ true
          → Finishes (trying (suc k) (func (suc (suc k))) (suc (suc k)) (failures outcome (suc k))))
      → Finishes (trying k (func (suc k)) (suc k) (failures outcome k))
  Finishes-err k e lost within fail next =
      let self : Retry Fut S E B = trying k (func (suc k)) (suc k) (failures outcome k) in
      let (f, y, is_ready, waited) =
        drive-fut func poll_fut sleep poll_sleep self (func (suc k)) (outcome (suc k))
          (polls (suc k)) (settles (suc k)) in
      let yields_err : poll_fut f ≡ (ready (err e), y) = is_ready ∙ ap (λ r. (ready r, y)) lost in
      elim (Bool-cases (may_attempt (some limit) (suc k) && retry_if (suc k) e)) [
        | inl goes_on ↦
            let (may, wanted) =
              both (may_attempt (some limit) (suc k)) (retry_if (suc k) e) goes_on in
            let below : suc k < limit = ground (arith, may) in
            let (turns, r, self', ends, spec) = next below wanted in
            let i : Duration = clamp longest (interval k) in
            let asleep : Retry Fut S E B =
              sleeping func poll_fut sleep poll_sleep self f e (state (suc k)) (interval k) in
            let awake : Duration → Retry Fut S E B = λ d.
              record (trying (suc k) (func ((suc k + 1) % 18446744073709551616))
                ((suc k + 1) % 18446744073709551616) ((suc k, e) ∷ failures outcome k)) {
                  slept = d ∷ naps longest interval k;
                } in
            let number : (suc k + 1) % 18446744073709551616 ≡ suc (suc k) =
              omega (arith, below, limit_fits) in
            let logged = sym (failures-err outcome k e lost) in
            (
              polls (suc k) + (suc (snooze i) + turns),
              r,
              self',
              λ fuel.
                  let split : polls (suc k) + (suc (snooze i) + turns) + fuel
                      ≡ polls (suc k) + suc (snooze i + (turns + fuel)) =
                    omega arith in
                  let split' : suc (snooze i + (turns + fuel)) ≡ suc (snooze i) + (turns + fuel) =
                    omega arith in
                  let run : ℕ → Retry Fut S E B → Outcome (Turn Fut V S E B) =
                    drive func poll_fut sleep poll_sleep in
                  ap (λ n. run n self) split
                  ∙ waited (suc (snooze i + (turns + fuel)))
                  ∙ drive-goes_on func poll_fut sleep poll_sleep self f e y (interval k)
                      (state (suc k)) (snooze i + (turns + fuel)) yields_err may wanted
                      (yields k below)
                  ∙ ap (λ n. run n asleep) split'
                  ∙ drive-sleep func poll_fut sleep poll_sleep asleep (sleep i) (snooze i)
                      (turns + fuel) (wakes i)
                  ∙ ap (λ d. run (turns + fuel) (awake d)) (clamp-at_most longest (interval k))
                  ∙ ap₂ (λ n log. run (turns + fuel) (trying (suc k) (func n) n log)) number logged
                  ∙ ends fuel,
              spec,
            )
        | inr stops ↦ (
          polls (suc k) + 1,
          err e,
          record self { fut = none; inspected = (suc k, e) ∷ failures outcome k },
          λ fuel.
              let split : polls (suc k) + 1 + fuel ≡ polls (suc k) + suc fuel = omega arith in
              rw
                (
                  split,
                  waited (suc fuel),
                  drive-gives_up func poll_fut sleep poll_sleep self f e y fuel yields_err stops,
                )
                refl,
          record {
            last = suc k;
            first_or_later = omega arith;
            limited = within;
            earlier = fail;
            verdict = inr (e, lost, refl, stopped e stops);
            inspects = sym (failures-err outcome k e lost);
            sleeps =
                let one_less : k ≡ suc k - 1 = omega arith in ap (naps longest interval) one_less;
          },
        )
      ]
    where
      stopped :
          (e : E)
          → (may_attempt (some limit) (suc k) && retry_if (suc k) e) ≡ false
          → (limit ≤ suc k) ⊎ (retry_if (suc k) e ≡ false)
      stopped e stops =
          elim (one_not (may_attempt (some limit) (suc k)) (retry_if (suc k) e) stops) [
            | inl no_more ↦ inl (ground (arith, no_more))
            | inr unwanted ↦ inr unwanted
          ]

  FailedUntil : ℕ → Type 0
  FailedUntil k = (i : ℕ) → 1 ≤ i → i < k → (e : E) × (outcome i ≡ err e) × (retry_if i e ≡ true)

  one_more :
      (k : ℕ) (e : E)
      → outcome k ≡ err e
      → retry_if k e ≡ true
      → FailedUntil k
      → FailedUntil (suc k)
  unfolding FailedUntil
  one_more k e lost wanted fail i positive below = elim (same_or_below i k below) [
    | inl same ↦ (e, ap outcome same ∙ lost, ap (λ z. retry_if z e) same ∙ wanted)
    | inr less ↦ fail i positive less
  ]
    where
      same_or_below : (i k : ℕ) → i < suc k → (i ≡ k) ⊎ (i < k)
      same_or_below i k h = elim (Bool-cases (i == k)) [
        | inl e ↦ inl (ground (arith, e))
        | inr n ↦ inr (ground (arith, n, h))
      ]

  Finishes-attempt :
      (k : ℕ)
      → suc k ≤ max 1 limit
      → FailedUntil (suc k)
      → (suc k < limit
          → FailedUntil (suc (suc k))
          → Finishes (trying (suc k) (func (suc (suc k))) (suc (suc k)) (failures outcome (suc k))))
      → Finishes (trying k (func (suc k)) (suc k) (failures outcome k))
  unfolding FailedUntil
  Finishes-attempt k within fail next = elim (Result-cases (outcome (suc k))) [
    | inl (v, won) ↦ Finishes-ok k v won within fail
    | inr (e, lost) ↦
        Finishes-err k e lost within fail
          (λ below wanted. next below (one_more (suc k) e lost wanted fail))
  ]

  finishes :
      (d k : ℕ)
      → limit ≤ suc k + d
      → suc k ≤ max 1 limit
      → FailedUntil (suc k)
      → Finishes (trying k (func (suc k)) (suc k) (failures outcome k))
  finishes zero k far within fail =
      Finishes-attempt k within fail (λ below fail'. absurd (omega (arith, far, below)))
  finishes (suc d) k far within fail =
      Finishes-attempt k within fail
        (λ below fail'. finishes d (suc k) (omega (arith, far)) (omega (arith, below)) fail')

  -- A retry that has not been polled, with a limit on its attempts.
  abbrev pub unpolled : Retry Fut S E B
  unpolled = record {
    fut = none;
    sleep = none;
    attempt = 0;
    backoff = state 0;
    max_attempts = some limit;
    max_interval = longest;
    retry_if = retry_if;
    inspected = [];
    slept = [];
  }

  -- If each attempt and each sleep is ready after some polls, and the back-off yields an interval for
  -- each pause that the limit on the attempts allows, then the retry is ready after some turns. It makes
  -- one attempt at least, and no more than the limit if that is not 0; all attempts but the last one fail
  -- and are to be retried. The result is that of the last attempt, with its number where it succeeds; it
  -- is an error only at the limit or if `retry_if` is against another attempt. Each failure is inspected,
  -- in order, and the pauses are the intervals of the back-off, in order, with `max_interval` in place of
  -- each that is longer.
  pub drive-Ends :
      (turns : ℕ) × (r : Result (V × ℕ) E) × (self' : Retry Fut S E B) × ((fuel : ℕ)
        → drive func poll_fut sleep poll_sleep (turns + fuel) unpolled ≡ done (returns r self'))
      × Ends outcome interval limit longest retry_if r self'
  unfolding drive turn start FailedUntil
  drive-Ends =
      let (turns, r, self', ends, spec) =
        finishes limit 0 (omega arith) (omega arith)
          (λ i positive below. absurd (omega (arith, positive, below))) in
      (
        suc turns,
        r,
        self',
        λ fuel.
            let split : suc turns + fuel ≡ suc (turns + fuel) = omega arith in
            rw (split, drive) (ends fuel),
        spec,
      )
