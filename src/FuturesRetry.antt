-- ===== src/FuturesRetry.antt =====
-- shed/futures_retry/src/lib.rs: a future that is made again, after a pause, for as long as it fails.
-- Futures, sleeps and the closures are parameters. A closure that is called with the number of the
-- attempt is called once for each number, so it is a function of it. What `inspect_err` is called with
-- and the intervals of the sleeps are recorded, the latest first.
pub mod Intervals
pub mod Sequences
pub mod Attempts
pub mod Outcomes
use rust_shed.Prelude.{
  ℕ, zero, suc, ◌+◌, ◌%◌, min, Bool, true, false, ◌&&◌, Option, none, some, List, [], ◌∷◌, Outcome,
  done, panic, ◌>>=◌, ltb, if◌then◌else◌,
}
use rust_shed.Prelude.Results.{Result, ok, err, Polled, pending, ready}
use rust_shed.FuturesRetry.Intervals.{
  Duration, Backoff, FixedInterval, ExponentialBackoff, FibonacciBackoff, Jitter, new_fixed,
  new_exponential, binary, new_fibonacci, new_jitter,
}

pub record Retry (Fut S E B : Type 0) : Type 0 where
  pub fut : Option Fut
  pub sleep : Option S
  pub attempt : ℕ
  pub backoff : B
  pub max_attempts : Option ℕ
  pub max_interval : Option Duration
  pub retry_if : ℕ → E → Bool
  pub inspected : List (ℕ × E)
  pub slept : List Duration

-- `unwrap_or(Duration::from_millis(10))`
abbrev pub or_ten_millis : Option Duration → Duration
or_ten_millis none = 10000000
or_ten_millis (some interval) = interval

module _ {Fut S E : Type 0} where
  unfoldable pub retry : Duration → Retry Fut S E FixedInterval
  retry interval = record {
    fut = none;
    sleep = none;
    attempt = 0;
    backoff = new_fixed interval;
    max_attempts = none;
    max_interval = none;
    retry_if = λ attempt e. true;
    inspected = [];
    slept = [];
  }

  module _ {B : Type 0} where
    unfoldable pub max_attempts : Retry Fut S E B → ℕ → Retry Fut S E B
    max_attempts self attempts = record self { max_attempts = some attempts }

    unfoldable pub max_interval : Retry Fut S E B → Duration → Retry Fut S E B
    max_interval self interval = record self { max_interval = some interval }

    unfoldable pub retry_if : Retry Fut S E B → (ℕ → E → Bool) → Retry Fut S E B
    retry_if self f = record self { retry_if = f }

    -- The same retry with another back-off.
    abbrev pub with_backoff : {C : Type 0} → Retry Fut S E B → C → Retry Fut S E C
    with_backoff self backoff = record {
      fut = self.fut;
      sleep = self.sleep;
      attempt = self.attempt;
      backoff = backoff;
      max_attempts = self.max_attempts;
      max_interval = self.max_interval;
      retry_if = self.retry_if;
      inspected = self.inspected;
      slept = self.slept;
    }

    module _ ⦃backoff : Backoff B⦄ where
      unfoldable pub binary_exponential_backoff :
          {F : Type 0} → F → Retry Fut S E B → Outcome (Retry Fut S E (ExponentialBackoff F))
      binary_exponential_backoff two self = do
        (interval, rest) ← backoff.next self.backoff
        done (with_backoff self (binary two (or_ten_millis interval)))

      unfoldable pub exponential_backoff :
          {F : Type 0} → Retry Fut S E B → F → Outcome (Retry Fut S E (ExponentialBackoff F))
      exponential_backoff self base = do
        (interval, rest) ← backoff.next self.backoff
        done (with_backoff self (new_exponential (or_ten_millis interval) base))

      unfoldable pub fibonacci_backoff : Retry Fut S E B → Outcome (Retry Fut S E FibonacciBackoff)
      fibonacci_backoff self = do
        (interval, rest) ← backoff.next self.backoff
        done (with_backoff self (new_fibonacci (or_ten_millis interval)))

    unfoldable pub jitter : Retry Fut S E B → Duration → Retry Fut S E (Jitter B)
    jitter self d = with_backoff self (new_jitter self.backoff d)

-- What a turn of the loop in `poll` leads to: another turn, a return of `Pending`, and a return of the
-- result.
pub data Turn (Fut V S E B : Type 0) : Type 0 where
  again : Retry Fut S E B → Turn Fut V S E B
  waits : Retry Fut S E B → Turn Fut V S E B
  returns : Result (V × ℕ) E → Retry Fut S E B → Turn Fut V S E B

-- `max_attempts.is_none_or(|max| attempt < max)`
abbrev pub may_attempt : Option ℕ → ℕ → Bool
may_attempt none attempt = true
may_attempt (some max) attempt = ltb attempt max

-- `interval.clamp(Duration::ZERO, max_interval)`
abbrev pub clamp : Option Duration → Duration → Duration
clamp none interval = interval
clamp (some max_interval) interval = min interval max_interval

-- `this.sleep.set(Some(tokio::time::sleep(interval)))`; `slept` records what each timer is set to.
abbrev pub set_sleep :
    {Fut S E B : Type 0} → (Duration → S) → Duration → Retry Fut S E B → Retry Fut S E B
set_sleep sleep interval self = record self {
  sleep = some (sleep interval);
  slept = interval ∷ self.slept;
}

module _ {Fut V S E B : Type 0} ⦃backoff : Backoff B⦄ (func : ℕ → Fut)
    (poll_fut : Fut → Polled (Result V E) × Fut) (sleep : Duration → S)
    (poll_sleep : S → Polled Unit × S) where
  -- The next attempt; `attempt` is a 64-bit number.
  unfoldable pub start : Retry Fut S E B → Turn Fut V S E B
  start self =
      let attempt = (self.attempt + 1) % 18446744073709551616 in
      again (record self { attempt = attempt; fut = some (func attempt) })

  -- The second half of the loop, from the sleep on.
  unfoldable pub wake : Retry Fut S E B → Turn Fut V S E B
  unfolding start
  wake self = elim self.sleep [
    | none ↦ start self
    | some s ↦
        let (polled, s') = poll_sleep s in
        elim polled [
          | pending ↦ waits (record self { sleep = some s' })
          | ready u ↦ start (record self { sleep = none })
        ]
  ]

  -- An attempt that failed.
  unfoldable pub failed : Retry Fut S E B → E → Outcome (Turn Fut V S E B)
  unfolding wake
  failed self e =
      let self' : Retry Fut S E B = record self {
        fut = none;
        inspected = (self.attempt, e) ∷ self.inspected;
      } in
      if may_attempt self.max_attempts self.attempt && self.retry_if self.attempt e
      then (do
        (interval, rest) ← backoff.next self.backoff
        elim interval [
          | none ↦ done (returns (err e) (record self' { backoff = rest }))
          | some i ↦
              let clamped = clamp self.max_interval i in
              done (wake (set_sleep sleep clamped (record self' { backoff = rest })))
        ])
      else done (returns (err e) self')

  unfoldable pub turn : Retry Fut S E B → Outcome (Turn Fut V S E B)
  unfolding failed wake
  turn self = elim self.fut [
    | none ↦ done (wake self)
    | some fut ↦
        let (polled, fut') = poll_fut fut in
        elim polled [
          | pending ↦ done (waits (record self { fut = some fut' }))
          | ready (ok v) ↦ done (returns (ok (v, self.attempt)) self)
          | ready (err e) ↦ failed self e
        ]
  ]

  -- The retry is polled until it is ready: a call of `poll` is the turns up to one that waits, and the
  -- next call takes the next turn.
  unfoldable pub drive : ℕ → Retry Fut S E B → Outcome (Turn Fut V S E B)
  drive zero self = done (waits self)
  drive (suc fuel) self = do
    t ← turn self
    elim t [
      | again self' ↦ drive fuel self'
      | waits self' ↦ drive fuel self'
      | returns r self' ↦ done (returns r self')
    ]
