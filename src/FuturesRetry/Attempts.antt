-- ===== src/FuturesRetry/Attempts.antt =====
-- What a retry with a limit on its attempts leads to.
use rust_shed.Prelude.{
  ℕ, zero, suc, ◌+◌, ◌%◌, ◌≡◌, refl, ap, true, false, ◌&&◌, Option, none, some, List, [], ◌∷◌, done,
  arith, ltb, if◌then◌else◌,
}
use rust_shed.Prelude.Results.{Result, ok, err, Polled, pending, ready}
use rust_shed.FuturesRetry.Intervals.{Duration, Backoff}
use rust_shed.FuturesRetry.{
  Retry, waits, returns, may_attempt, clamp, start, wake, failed, turn, drive,
}

-- After that many polls that are pending, a poll is ready.
pub data Settles {A X : Type 0} (poll : X → Polled A × X) : X → A → ℕ → Type 0 where
  now : {x : X} {a : A} {n : ℕ} (y : X) → poll x ≡ (ready a, y) → n ≡ 0 → Settles poll x a n
  later :
      {x : X} {a : A} {n : ℕ} (y : X) (m : ℕ)
      → poll x ≡ (pending, y)
      → Settles poll y a m
      → n ≡ suc m
      → Settles poll x a n

module _ {V E : Type 0} where
  -- The errors of the first attempts, with their numbers, the latest first.
  abbrev pub failures : (ℕ → Result V E) → ℕ → List (ℕ × E)
  failures outcome zero = []
  failures outcome (suc k) = elim (outcome (suc k)) [
    | ok v ↦ failures outcome k
    | err e ↦ (suc k, e) ∷ failures outcome k
  ]

  pub failures-ok :
      (outcome : ℕ → Result V E) (k : ℕ) (v : V)
      → outcome (suc k) ≡ ok v
      → failures outcome (suc k) ≡ failures outcome k
  failures-ok outcome k v h = rw (failures, h) refl

  pub failures-err :
      (outcome : ℕ → Result V E) (k : ℕ) (e : E)
      → outcome (suc k) ≡ err e
      → failures outcome (suc k) ≡ (suc k, e) ∷ failures outcome k
  failures-err outcome k e h = rw (failures, h) refl

-- An interval, cut down to the longest one that is wanted.
abbrev pub at_most : Option Duration → Duration → Duration
at_most none interval = interval
at_most (some longest) interval = if ltb longest interval then longest else interval

pub clamp-at_most :
    (longest : Option Duration) (interval : Duration)
    → clamp longest interval ≡ at_most longest interval
clamp-at_most none interval = refl
clamp-at_most (some longest) interval = ground arith

-- The intervals of the first sleeps, the latest first.
abbrev pub naps : Option Duration → (ℕ → Duration) → ℕ → List Duration
naps longest interval zero = []
naps longest interval (suc k) = at_most longest (interval k) ∷ naps longest interval k

module _ {Fut V S E B : Type 0} ⦃backoff : Backoff B⦄ (func : ℕ → Fut)
    (poll_fut : Fut → Polled (Result V E) × Fut) (sleep : Duration → S)
    (poll_sleep : S → Polled Unit × S) where
  module _ (self : Retry Fut S E B) where
    turn-pending :
        (f y : Fut)
        → poll_fut f ≡ (pending, y)
        → turn func poll_fut sleep poll_sleep (record self { fut = some f })
          ≡ done (waits (record self { fut = some y }))
    unfolding turn
    turn-pending f y e = rw (turn, ap (λ z. z.0) e, ap (λ z. z.1) e) refl

    pub turn-ok :
        (f y : Fut) (v : V)
        → poll_fut f ≡ (ready (ok v), y)
        → turn func poll_fut sleep poll_sleep (record self { fut = some f })
          ≡ done (returns (ok (v, self.attempt)) (record self { fut = some f }))
    unfolding turn
    turn-ok f y v e = rw (turn, ap (λ z. z.0) e) refl

    turn-err :
        (f y : Fut) (e : E)
        → poll_fut f ≡ (ready (err e), y)
        → turn func poll_fut sleep poll_sleep (record self { fut = some f })
          ≡ failed func poll_fut sleep poll_sleep (record self { fut = some f }) e
    unfolding turn
    turn-err f y e h = rw (turn, ap (λ z. z.0) h) refl

    wake-pending :
        (s s' : S)
        → poll_sleep s ≡ (pending, s')
        → wake func poll_fut sleep poll_sleep (record self { sleep = some s })
          ≡ waits (record self { sleep = some s' })
    unfolding wake
    wake-pending s s' e = rw (wake, ap (λ z. z.0) e, ap (λ z. z.1) e) refl

    wake-ready :
        (s s' : S)
        → poll_sleep s ≡ (ready tt, s')
        → wake func poll_fut sleep poll_sleep (record self { sleep = some s })
          ≡ start func poll_fut sleep poll_sleep (record self { sleep = none })
    unfolding wake
    wake-ready s s' e = rw (wake, ap (λ z. z.0) e) refl

  pub drive-fut :
      (self : Retry Fut S E B) (f : Fut) (r : Result V E) (n : ℕ)
      → Settles poll_fut f r n
      → (f' : Fut) × (y : Fut) × (poll_fut f' ≡ (ready r, y))
        × ((fuel : ℕ)
            → drive func poll_fut sleep poll_sleep (n + fuel) (record self { fut = some f })
              ≡ drive func poll_fut sleep poll_sleep fuel (record self { fut = some f' }))
  unfolding drive
  drive-fut self f r n (now y e z) = (
    f,
    y,
    e,
    λ fuel.
        let none_more : n + fuel ≡ fuel = omega (arith, z) in
        ap (λ k. drive func poll_fut sleep poll_sleep k (record self { fut = some f })) none_more,
  )
  drive-fut self f r n (later y m e s z) =
      let (f', y', e', d) = drive-fut self y r m s in
      (
        f',
        y',
        e',
        λ fuel.
            let one_more : n + fuel ≡ suc (m + fuel) = omega (arith, z) in
            rw (one_more, drive, turn-pending self f y e) (d fuel),
      )

  -- A sleep ends, and the next attempt starts.
  pub drive-sleep :
      (self : Retry Fut S E B) (s : S) (n fuel : ℕ)
      → Settles poll_sleep s tt n
      → drive func poll_fut sleep poll_sleep
          (suc n + fuel)
          (record self { fut = none; sleep = some s })
        ≡ drive func poll_fut sleep poll_sleep fuel (record self {
          fut = some (func ((self.attempt + 1) % 18446744073709551616));
          sleep = none;
          attempt = (self.attempt + 1) % 18446744073709551616;
        })
  unfolding drive turn start
  drive-sleep self s n fuel (now y e z) =
      let one_more : suc n + fuel ≡ suc fuel = omega (arith, z) in
      rw (one_more, drive, turn, wake-ready (record self { fut = none }) s y e) refl
  drive-sleep self s n fuel (later y m e h z) =
      let one_more : suc n + fuel ≡ suc (suc m + fuel) = omega (arith, z) in
      rw (one_more, drive, turn, wake-pending (record self { fut = none }) s y e)
        (drive-sleep self y m fuel h)

  module _ (self : Retry Fut S E B) (f : Fut) (e : E) where
    -- The state behind an attempt that failed, which sleeps.
    abbrev pub sleeping : B → Duration → Retry Fut S E B
    sleeping rest i = record self {
      fut = none;
      inspected = (self.attempt, e) ∷ self.inspected;
      backoff = rest;
      sleep = some (sleep (clamp self.max_interval i));
      slept = clamp self.max_interval i ∷ self.slept;
    }

    -- An attempt that fails and may be followed by another one.
    pub drive-goes_on :
        (y : Fut) (i : Duration) (rest : B) (fuel : ℕ)
        → poll_fut f ≡ (ready (err e), y)
        → may_attempt self.max_attempts self.attempt ≡ true
        → self.retry_if self.attempt e ≡ true
        → backoff.next self.backoff ≡ done (some i, rest)
        → drive func poll_fut sleep poll_sleep (suc fuel) (record self { fut = some f })
          ≡ drive func poll_fut sleep poll_sleep (suc fuel) (sleeping rest i)
    unfolding drive turn failed
    drive-goes_on y i rest fuel h may wanted yields =
        rw (drive, turn-err self f y e h, failed, may, wanted, yields) refl

    -- An attempt that fails and is the last one.
    pub drive-gives_up :
        (y : Fut) (fuel : ℕ)
        → poll_fut f ≡ (ready (err e), y)
        → (may_attempt self.max_attempts self.attempt && self.retry_if self.attempt e) ≡ false
        → drive func poll_fut sleep poll_sleep (suc fuel) (record self { fut = some f })
          ≡ done (
              returns
                (err e)
                (record self { fut = none; inspected = (self.attempt, e) ∷ self.inspected }))
    unfolding drive failed
    drive-gives_up y fuel h stops = rw (drive, turn-err self f y e h, failed, stops) refl
