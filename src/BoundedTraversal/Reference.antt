-- ===== src/BoundedTraversal/Reference.antt =====
-- What a traversal computes, as a recursion on the tree that `unfold` spans, with the number of
-- calls that it makes.
use rust_shed.Prelude.{ℕ, ◌+◌, ◌≡◌, List, [], ◌∷◌}
use rust_shed.Prelude.Results.{Result, ok}

module _ {In Ctx Out Err : Type 0} (unfold_fn : In → Result (Ctx × List In) Err)
    (fold_fn : Ctx → List Out → Result Out Err) where
  mutual
    -- The value unfolds, its children evaluate, and their results fold to the output.
    pub data Evaluates : In → Out → ℕ → Type 0 where
      call :
          {i : In} {o : Out} {calls : ℕ} (context : Ctx) (children : List In) (outs : List Out)
          (below : ℕ)
          → unfold_fn i ≡ ok (context, children)
          → EvaluatesAll children outs below
          → fold_fn context outs ≡ ok o
          → calls ≡ 2 + below
          → Evaluates i o calls

    pub data EvaluatesAll : List In → List Out → ℕ → Type 0 where
      nil : {calls : ℕ} → calls ≡ 0 → EvaluatesAll [] [] calls
      cons :
          {i : In} {o : Out} {is : List In} {os : List Out} {calls : ℕ} (first rest : ℕ)
          → Evaluates i o first
          → EvaluatesAll is os rest
          → calls ≡ first + rest
          → EvaluatesAll (i ∷ is) (o ∷ os) calls
