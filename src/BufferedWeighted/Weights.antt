-- ===== src/BufferedWeighted/Weights.antt =====
-- global_weight.rs and memory_bound.rs.
use rust_shed.Prelude.{
  ℕ, ◌+◌, ◌-◌, ◌≤◌, ◌<◌, ◌≡◌, min, Bool, true, Option, none, some, Outcome, done, leb, ltb, arith,
  if◌then◌else◌, expect, ◌>>=◌,
}

-- The values of a `usize` and a `u64` are below this one.
abbrev pub word : ℕ
word = 18446744073709551616

pub record GlobalWeight : Type 0 where
  pub max : ℕ
  pub current : ℕ

unfoldable pub new_weight : ℕ → GlobalWeight
new_weight max = record { max = max; current = 0 }

unfoldable pub has_space_for : GlobalWeight → ℕ → Bool
has_space_for self weight = leb self.current (self.max - min weight self.max)

-- `checked_add` and `checked_sub`.
abbrev checked_add : ℕ → ℕ → Option ℕ
checked_add a b = if ltb (a + b) word then some (a + b) else none

abbrev checked_sub : ℕ → ℕ → Option ℕ
checked_sub a b = if leb b a then some (a - b) else none

unfoldable pub add_weight : GlobalWeight → ℕ → Outcome GlobalWeight
add_weight self weight = do
  current' ← expect (checked_add self.current (min weight self.max))
  done (record self { current = current' })

unfoldable pub sub_weight : GlobalWeight → ℕ → Outcome GlobalWeight
sub_weight self weight = do
  current' ← expect (checked_sub self.current (min weight self.max))
  done (record self { current = current' })

pub record MemoryBound : Type 0 where
  pub bound : Option ℕ

-- On Linux. `rss` is the process's resident bytes, where they can be read.
unfoldable pub within_bound : MemoryBound → Option ℕ → ℕ → Bool
within_bound self rss weight = elim self.bound [
  | none ↦ true
  | some bound ↦ elim rss [
    | none ↦ true
    | some rss_bytes ↦ ltb (min (rss_bytes + weight) (word - 1)) bound
  ]
]

pub add_weight_lem :
    (g : GlobalWeight) (weight : ℕ)
    → g.max < word
    → g.current ≤ g.max
    → has_space_for g weight ≡ true
    → (add_weight g weight ≡ done (record g { current = g.current + min weight g.max }))
      × (g.current + min weight g.max ≤ g.max)
unfolding has_space_for add_weight
add_weight_lem g weight h le s =
    let fits : g.current + min weight g.max ≤ g.max = ground (arith, s, le) in
    (ground (arith, fits, h), fits)

pub sub_weight_lem :
    (g : GlobalWeight) (weight : ℕ)
    → min weight g.max ≤ g.current
    → sub_weight g weight ≡ done (record g { current = g.current - min weight g.max })
unfolding sub_weight
sub_weight_lem g weight h = ground arith

pub has_space-zero : (g : GlobalWeight) (weight : ℕ) → g.current ≡ 0 → has_space_for g weight ≡ true
unfolding has_space_for
has_space-zero g weight h = ground (arith, h)
