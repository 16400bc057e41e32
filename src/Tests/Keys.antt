-- ===== src/Tests/Keys.antt =====
-- Streams whose items wait for each other.
use rust_shed.Prelude.{ℕ, zero, suc, ◌≡◌, refl, Option, none, some, List, [], ◌∷◌, arith, done}
use rust_shed.Prelude.Results.{Result, ok, err}
use rust_shed.BoundedTraversal.ByKey.{
  KeyedStream, KeyedAdvance, yields, admit, admit_all, fill, next_of_key, next_of_shard, complete,
  keyed_round,
}
use rust_shed.BoundedTraversal.ByKeyRounds.{RoundCase, keyed_round_lem}

-- All items have the key seven and no shard.
abbrev key_fn : ℕ → ℕ × Option (ℕ × ℕ)
key_fn i = (7, none)

-- One has the child three.
abbrev unfold_fn : ℕ → ℕ × Option ℕ × Result (Option (ℕ × List ℕ)) ℕ
unfold_fn zero = (7, none, err 0)
unfold_fn (suc zero) = (7, none, ok (some (1, 3 ∷ [])))
unfold_fn (suc (suc n)) = (7, none, ok none)

-- One runs, and two waits for it.
abbrev one_runs : KeyedStream ℕ
one_runs = record {
  unscheduled = [];
  scheduled = 1 ∷ [];
  waiting_for_key = (7, 2 ∷ []) ∷ [];
  waiting_for_shard = [];
}

abbrev two_runs : KeyedStream ℕ
two_runs = record {
  unscheduled = 3 ∷ [];
  scheduled = 2 ∷ [];
  waiting_for_key = [];
  waiting_for_shard = [];
}

keyed_round_lem_example :
    (p : KeyedAdvance ℕ ℕ ℕ) × (keyed_round unfold_fn key_fn 2 0 one_runs ≡ done p)
    × RoundCase unfold_fn 2 one_runs p
keyed_round_lem_example = keyed_round_lem unfold_fn key_fn 2 0 one_runs (omega arith)

-- When one is done, two runs and its key has no entry, so that three, which has the same key, runs too.
one_done : keyed_round unfold_fn key_fn 2 0 one_runs ≡ done (yields (ok 1) two_runs)
unfolding keyed_round complete next_of_key next_of_shard fill
one_done = refl

three_runs_too : (fill key_fn 2 1 two_runs).scheduled ≡ 2 ∷ 3 ∷ []
unfolding fill admit_all admit
three_runs_too = refl
