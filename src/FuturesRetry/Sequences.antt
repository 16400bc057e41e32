-- ===== src/FuturesRetry/Sequences.antt =====
-- What the back-offs yield.
use rust_shed.Prelude.{
  ℕ, zero, suc, ◌+◌, ◌*◌, ◌≤◌, ◌≡◌, refl, sym, ap, ◌∙◌, Option, none, some, List, [], ◌∷◌, Outcome,
  done, panic, ◌>>=◌, leb, arith, if◌then◌else◌, true, false, Bool-cases, inl, inr,
}
use native.Mathlib.Nat.{mul-le-mul_left}
use rust_shed.FuturesRetry.Intervals.{
  Duration, duration_max, FibonacciBackoff, new_fibonacci, fibonacci_next,
}

-- Several calls of `next`, and what they yield.
abbrev pub take_next :
    {B : Type 0} → (B → Outcome (Option Duration × B)) → ℕ → B → Outcome (List Duration × B)
take_next next zero b = done ([], b)
take_next next (suc n) b = next b >>= λ r. elim r.0 [
  | none ↦ done ([], r.1)
  | some i ↦ take_next next n r.1 >>= λ s. done (i ∷ s.0, s.1)
]

-- The Fibonacci numbers, each with the next one.
abbrev pub fibonacci : ℕ → ℕ × ℕ
fibonacci zero = (1, 1)
fibonacci (suc n) = let (a, b) = fibonacci n in (b, a + b)

abbrev pub fib : ℕ → ℕ
fib n = (fibonacci n).0

-- The multiples of an interval, from an index on.
abbrev pub multiples : ℕ → ℕ → ℕ → List Duration
multiples i k zero = []
multiples i k (suc n) = i * fib k ∷ multiples i (suc k) n

fibonacci-ascends : (k n : ℕ) → fib (suc k) ≤ fib (suc (n + k))
fibonacci-ascends k zero = let here : 0 + k ≡ k = omega arith in rw here (omega arith)
fibonacci-ascends k (suc n) =
    let shift : suc n + k ≡ suc (n + k) = omega arith in
    rw shift (omega (arith, fibonacci-ascends k n))

-- The state of the back-off after `k` calls.
at : ℕ → ℕ → FibonacciBackoff
at i k = record { current = i * fib k; next = i * fib (suc k) }

next-at :
    (i k : ℕ)
    → fibonacci_next (at i k) ≡ (
        if leb (i * fib (suc (suc k))) duration_max
        then done (some (i * fib k), at i (suc k))
        else panic)
unfolding fibonacci_next at
next-at i k =
    let sum : i * fib k + i * fib (suc k) ≡ i * fib (suc (suc k)) = ground arith in
    elim (Bool-cases (leb (i * fib (suc (suc k))) duration_max)) [
      | inl fits ↦ rw (fibonacci_next, sum, fits) refl
      | inr over ↦ rw (fibonacci_next, sum, over) refl
    ]

take_next-at :
    (i n k : ℕ)
    → i * fib (suc k) ≤ duration_max
    → take_next fibonacci_next n (at i k) ≡ (
        if leb (i * fib (suc (n + k))) duration_max
        then done (multiples i k n, at i (n + k))
        else panic)
take_next-at i zero k h =
    let here : 0 + k ≡ k = omega arith in
    let fits : leb (i * fib (suc k)) duration_max ≡ true = ground (arith, h) in rw (here, fits) refl
take_next-at i (suc n) k h = elim (Bool-cases (leb (i * fib (suc (suc k))) duration_max)) [
  | inl fits ↦
      let shift : suc n + k ≡ n + suc k = omega arith in
      let below : i * fib (suc (suc k)) ≤ duration_max = ground (arith, fits) in
      let rest = take_next-at i n (suc k) below in
      elim (Bool-cases (leb (i * fib (suc (n + suc k))) duration_max)) [
        | inl all ↦ rw (shift, next-at i k, fits, rest, all) refl
        | inr some_over ↦ rw (shift, next-at i k, fits, rest, some_over) refl
      ]
  | inr over ↦
      let shift : suc n + k ≡ n + suc k = omega arith in
      let grows = mul-le-mul_left i (fibonacci-ascends (suc k) n) in
      let above : leb (i * fib (suc (n + suc k))) duration_max ≡ false =
        ground (arith, over, grows) in
      rw (shift, next-at i k, over, above) refl
]

-- The Fibonacci back-off yields the interval times the Fibonacci numbers: `n` calls of `next` succeed
-- if the interval times the Fibonacci number of index `n` + 1 is a duration, and otherwise one of
-- them panics.
pub fibonacci_next_lem :
    (interval n : ℕ)
    → interval ≤ duration_max
    → take_next fibonacci_next n (new_fibonacci interval) ≡ (
        if leb (interval * fib (suc n)) duration_max
        then done (
          multiples interval 0 n,
          record { current = interval * fib n; next = interval * fib (suc n) },
        )
        else panic)
unfolding new_fibonacci at
fibonacci_next_lem interval n h =
    let once : interval * 1 ≡ interval = omega arith in
    let same : n + 0 ≡ n = omega arith in
    let runs = take_next-at interval n 0 (omega (arith, h, once)) in
    let start : new_fibonacci interval ≡ at interval 0 =
      ap (λ z. record { current = z; next = z }) (sym once) in
    ap (take_next fibonacci_next n) start
    ∙ runs
    ∙ ap
        (λ z.
          if leb (interval * fib (suc z)) duration_max
          then done (multiples interval 0 n, at interval z)
          else panic)
        same
