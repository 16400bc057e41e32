-- ===== src/Tests/Retries.antt =====
-- A future that fails twice, and back-offs.
use rust_shed.Prelude.{
  ℕ, zero, suc, ◌+◌, ◌*◌, ◌≡◌, refl, true, some, arith, done, panic, leb, if◌then◌else◌,
}
use rust_shed.Prelude.Results.{Result, ok, err, Polled, pending, ready}
use rust_shed.FuturesRetry.Intervals.{
  Duration, FixedInterval, fixed_Backoff, new_fixed, fixed_next, fibonacci_next, new_fibonacci,
  duration_max,
}
use rust_shed.FuturesRetry.{Retry, returns, retry, max_attempts, max_interval, drive}
use rust_shed.FuturesRetry.Attempts.{Settles, now, later}
use rust_shed.FuturesRetry.Outcomes.{Ends, drive-Ends}
use rust_shed.FuturesRetry.Sequences.{take_next, multiples, fib, fibonacci_next_lem}

-- What is ready after that many polls.
abbrev poll : {A : Type 0} → ℕ × A → Polled A × (ℕ × A)
poll (zero, a) = (ready a, (zero, a))
poll (suc n, a) = (pending, (n, a))

poll-Settles : {A : Type 0} (n : ℕ) (a : A) → Settles poll (n, a) a n
poll-Settles zero a = now {x = (zero, a)} (zero, a) refl refl
poll-Settles (suc n) a = later {x = (suc n, a)} (n, a) n refl (poll-Settles n a) refl

-- The third attempt succeeds.
abbrev outcome : ℕ → Result ℕ ℕ
outcome zero = err 0
outcome (suc zero) = err 10
outcome (suc (suc zero)) = err 20
outcome (suc (suc (suc n))) = ok 30

abbrev func : ℕ → ℕ × Result ℕ ℕ
func k = (k, outcome k)

abbrev sleep : Duration → ℕ × Unit {0}
sleep d = (d, tt)

abbrev seven_apart : Retry (ℕ × Result ℕ ℕ) (ℕ × Unit {0}) ℕ FixedInterval
seven_apart = max_interval (max_attempts (retry 7) 5) 6

drive-Ends_example :
    (turns : ℕ) × (r : Result (ℕ × ℕ) ℕ) × (self' : Retry
      (ℕ × Result ℕ ℕ)
      (ℕ × Unit {0})
      ℕ
      FixedInterval)
    × ((fuel : ℕ) → drive func poll sleep poll (turns + fuel) seven_apart ≡ done (returns r self'))
    × Ends outcome (λ k. 7) 5 (some 6) (λ attempt e. true) r self'
unfolding retry max_attempts max_interval new_fixed fixed_next fixed_Backoff
drive-Ends_example =
    drive-Ends func poll sleep poll outcome (λ k. k) (λ k. poll-Settles k (outcome k)) (λ d. d)
      (λ d. poll-Settles d tt) (λ k. new_fixed 7) (λ k. 7) 5 (omega arith) (λ k h. refl) (some 6)
      (λ attempt e. true)

fibonacci_next_lem_example : take_next fibonacci_next 6 (new_fibonacci 100) ≡ (
    if leb (100 * fib 7) duration_max
    then done (multiples 100 0 6, record { current = 100 * fib 6; next = 100 * fib 7 })
    else panic)
fibonacci_next_lem_example = fibonacci_next_lem 100 6 (omega arith)
