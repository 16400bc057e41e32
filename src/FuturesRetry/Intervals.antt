-- ===== src/FuturesRetry/Intervals.antt =====
-- shed/futures_retry/src/backoff.rs. A duration is its number of nanoseconds, and addition panics
-- where `Duration` cannot hold the sum. The multiplication by a floating-point number and the random
-- numbers are parameters.
use rust_shed.Prelude.{ℕ, ◌+◌, Option, none, some, Outcome, done, panic, ◌>>=◌, leb, if◌then◌else◌}

abbrev pub Duration : Type 0
Duration = ℕ

-- `Duration::MAX`: 2⁶⁴ - 1 seconds and 999999999 nanoseconds.
abbrev pub duration_max : ℕ
duration_max = 18446744073709551615999999999

-- `Duration + Duration`
abbrev pub plus : Duration → Duration → Outcome Duration
plus a b = if leb (a + b) duration_max then done (a + b) else panic

-- `Iterator<Item = Duration>`
pub record Backoff (B : Type 0) : Type 0 where
  pub next : B → Outcome (Option Duration × B)

pub record FixedInterval : Type 0 where
  pub interval : Duration

unfoldable pub new_fixed : Duration → FixedInterval
new_fixed interval = record { interval = interval }

unfoldable pub fixed_next : FixedInterval → Outcome (Option Duration × FixedInterval)
fixed_next self = done (some self.interval, self)

instance unfoldable pub fixed_Backoff : Backoff FixedInterval
unfolding fixed_next
fixed_Backoff = record { next = fixed_next }

pub record ExponentialBackoff (F : Type 0) : Type 0 where
  pub base : F
  pub current : Duration

module _ {F : Type 0} where
  unfoldable pub new_exponential : Duration → F → ExponentialBackoff F
  new_exponential initial_interval base = record { base = base; current = initial_interval }

  -- `two` is the number 2.0.
  unfoldable pub binary : F → Duration → ExponentialBackoff F
  unfolding new_exponential
  binary two initial_interval = new_exponential initial_interval two

  unfoldable pub exponential_next :
      (Duration → F → Outcome Duration)
      → ExponentialBackoff F
      → Outcome (Option Duration × ExponentialBackoff F)
  exponential_next mul_f64 self = do
    scaled ← mul_f64 self.current self.base
    done (some self.current, record self { current = scaled })

pub record FibonacciBackoff : Type 0 where
  pub current : Duration
  pub next : Duration

unfoldable pub new_fibonacci : Duration → FibonacciBackoff
new_fibonacci initial_interval = record { current = initial_interval; next = initial_interval }

unfoldable pub fibonacci_next : FibonacciBackoff → Outcome (Option Duration × FibonacciBackoff)
fibonacci_next self = do
  next_next ← plus self.current self.next
  done (some self.current, record { current = self.next; next = next_next })

instance unfoldable pub fibonacci_Backoff : Backoff FibonacciBackoff
unfolding fibonacci_next
fibonacci_Backoff = record { next = fibonacci_next }

-- The number of the random numbers that were drawn stands for the state of their generator.
pub record Jitter (B : Type 0) : Type 0 where
  pub inner : B
  pub jitter : Duration
  pub drawn : ℕ

unfoldable pub new_jitter : {B : Type 0} → B → Duration → Jitter B
new_jitter inner jitter = record { inner = inner; jitter = jitter; drawn = 0 }

module _ {B F : Type 0} ⦃backoff : Backoff B⦄ where
  unfoldable pub jitter_next :
      (Duration → F → Outcome Duration) → (ℕ → F) → Jitter B → Outcome (Option Duration × Jitter B)
  jitter_next mul_f64 random self = do
    (interval, rest) ← backoff.next self.inner
    elim interval [
      | none ↦ done (none, record self { inner = rest })
      | some i ↦ do
        extra ← mul_f64 self.jitter (random self.drawn)
        sum ← plus i extra
        done (some sum, record self { inner = rest; drawn = self.drawn + 1 })
    ]
