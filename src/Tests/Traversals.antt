-- ===== src/Tests/Traversals.antt =====
-- A tree that is traversed.
use rust_shed.Prelude.{
  true, ℕ, zero, suc, ◌+◌, ◌≤◌, ◌<◌, ◌≡◌, refl, List, [], ◌∷◌, ◌++◌, arith, length, min, done,
}
use rust_shed.Prelude.Results.{Result, ok, err}
use rust_shed.BoundedTraversal.{Job, Traversal, new, schedule, poll_round, run, Progress, finished}
use rust_shed.BoundedTraversal.Tables.{total}
use rust_shed.BoundedTraversal.Reference.{Evaluates, call, nil, cons}
use rust_shed.BoundedTraversal.Rounds.{run-Evaluates}
use rust_shed.BoundedTraversal.Limits.{poll_round-limit, in_progress}
use rust_shed.BoundedTraversal.Streams.{collect, new_stream, YieldsAll, fails, node, no_item, items}
use rust_shed.BoundedTraversal.StreamLaws.{collect-YieldsAll}

-- Three has the children one and two, two has the child one.
abbrev unfold_fn : ℕ → Result (ℕ × List ℕ) ℕ
unfold_fn zero = err 0
unfold_fn (suc zero) = ok (1, [])
unfold_fn (suc (suc zero)) = ok (2, 1 ∷ [])
unfold_fn (suc (suc (suc zero))) = ok (3, 1 ∷ 2 ∷ [])
unfold_fn (suc (suc (suc (suc n)))) = err n

abbrev fold_fn : ℕ → List ℕ → Result ℕ ℕ
fold_fn context outs = ok (context + total (λ n. n) outs)

one-Evaluates : Evaluates unfold_fn fold_fn 1 1 2
one-Evaluates = call {i = 1} 1 [] [] 0 refl (nil refl) refl refl

two-Evaluates : Evaluates unfold_fn fold_fn 2 3 4
two-Evaluates =
    call {i = 2} 2 (1 ∷ []) (1 ∷ []) 2 refl (cons 2 0 one-Evaluates (nil refl) refl) refl refl

three-Evaluates : Evaluates unfold_fn fold_fn 3 7 8
three-Evaluates =
    call {i = 3} 3 (1 ∷ 2 ∷ []) (1 ∷ 3 ∷ []) 6 refl
      (cons 2 4 one-Evaluates (cons 4 0 two-Evaluates (nil refl) refl) refl) refl refl

-- The last job of the queue is the first that is done.
abbrev last : ℕ → List (Job ℕ ℕ ℕ) → ℕ
last fuel [] = 0
last fuel (j ∷ js) = length js

last-inside : (f : ℕ) (js : List (Job ℕ ℕ ℕ)) → 0 < length js → last f js < length js
last-inside f [] h = absurd (omega (arith, h))
last-inside f (j ∷ js) h = omega arith

run-Evaluates_example : run unfold_fn fold_fn 2 last 8 (new 3) ≡ done (finished (ok 7))
run-Evaluates_example =
    run-Evaluates unfold_fn fold_fn 2 last 8 3 7 8 (omega arith) last-inside three-Evaluates
      (omega arith)

-- The traversal of a value.
abbrev start : ℕ → Traversal ℕ ℕ ℕ
start n = new n

poll_round-limit_example :
    ((self1 : Traversal ℕ ℕ ℕ) × (schedule 2 (start 3) ≡ done self1)
      × (length self1.scheduled ≡ min 2 (length (start 3).scheduled + length (start 3).unscheduled))
      × (self1.scheduled ++ self1.unscheduled ≡ (start 3).scheduled ++ (start 3).unscheduled))
    × ((p : Progress ℕ ℕ ℕ ℕ)
        → poll_round unfold_fn fold_fn 2 0 (start 3) ≡ done p
        → in_progress p ≤ 2)
unfolding new
poll_round-limit_example = poll_round-limit unfold_fn fold_fn 2 0 (start 3) (omega arith)

two-YieldsAll : YieldsAll unfold_fn (2 ∷ 5 ∷ []) (ok 2 ∷ ok 1 ∷ err 1 ∷ [])
two-YieldsAll =
    items (ok 2 ∷ ok 1 ∷ []) (err 1 ∷ [])
      (node 2 (1 ∷ []) (ok 1 ∷ []) refl
        (items (ok 1 ∷ []) [] (node 1 [] [] refl (no_item refl) refl) (no_item refl) refl) refl)
      (items (err 1 ∷ []) [] (fails 1 refl refl) (no_item refl) refl) refl

-- The first item of the queue is the first that is done.
abbrev first : ℕ → List ℕ → ℕ
first fuel js = 0

collect-YieldsAll_example :
    (yielded : List (Result ℕ ℕ)) × (collect unfold_fn 2 first 4 (new_stream (2 ∷ 5 ∷ []))
      ≡ done (yielded, true))
    × ((f : Result ℕ ℕ → ℕ) → total f yielded ≡ total f (ok 2 ∷ ok 1 ∷ err 1 ∷ []))
collect-YieldsAll_example =
    collect-YieldsAll unfold_fn 2 first 4 (2 ∷ 5 ∷ []) (ok 2 ∷ ok 1 ∷ err 1 ∷ []) (omega arith)
      (λ f js h. h) two-YieldsAll (omega arith)
