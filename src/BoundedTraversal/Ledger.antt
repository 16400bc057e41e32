-- ===== src/BoundedTraversal/Ledger.antt =====
-- The invariant of a traversal: each location that waits for a result is the location of one job or
-- of one node, and what is there computes the result that the reference gives it.
use rust_shed.Prelude.{
  ℕ, suc, ◌+◌, ◌≤◌, ◌<◌, ◌≡◌, refl, Option, none, some, List, [], ◌∷◌, ◌++◌, All, arith, get_elem?,
  length, ◌==◌, if◌then◌else◌,
}
use rust_shed.Prelude.Results.{Result, ok}
use rust_shed.BoundedTraversal.{NodeLocation, Either2, left, right, Job, Node, root}
use rust_shed.BoundedTraversal.Tables.{total, total-middle, is_key}
use rust_shed.BoundedTraversal.Reference.{Evaluates}

-- The two locations are the same.
abbrev pub same_place : NodeLocation → NodeLocation → ℕ
same_place a b =
    if b.node_index == a.node_index then (if b.child_index == a.child_index then 1 else 0) else 0

-- The child has no result yet.
abbrev pub is_open : {Out : Type 0} → Option (Option Out) → ℕ
is_open none = 0
is_open (some none) = 1
is_open (some (some o)) = 0

-- How many children have no result yet.
abbrev pub missing : {Out : Type 0} → List (Option Out) → ℕ
missing [] = 0
missing (none ∷ cs) = suc (missing cs)
missing (some o ∷ cs) = missing cs

module _ {In Ctx Out : Type 0} where
  abbrev pub job_at : NodeLocation → Job In Ctx Out → ℕ
  job_at l j = same_place l j.location

module _ {Ctx Out : Type 0} where
  abbrev pub parent_at : NodeLocation → ℕ × Node Ctx Out → ℕ
  parent_at l e = same_place l e.1.parent

  abbrev pub need : NodeLocation → ℕ × Node Ctx Out → ℕ
  need l e = if e.0 == l.node_index then is_open (get_elem? e.1.children l.child_index) else 0

abbrev pub place : ℕ → ℕ → NodeLocation
place n k = record { node_index = n; child_index = k }

module _ {Out : Type 0} (expected : NodeLocation → Out) where
  -- The results that the node's children are to have, from a child index on.
  abbrev pub wanted : ℕ → ℕ → List (Option Out) → List Out
  wanted n k [] = []
  wanted n k (c ∷ cs) = expected (place n k) ∷ wanted n (k + 1) cs

  -- The results that are there are those that are expected.
  abbrev pub Matches : ℕ → ℕ → List (Option Out) → Type 0
  Matches n k [] = Unit
  Matches n k (none ∷ cs) = Matches n (k + 1) cs
  Matches n k (some o ∷ cs) = (o ≡ expected (place n k)) × Matches n (k + 1) cs

module _ {In Ctx Out Err : Type 0} (unfold_fn : In → Result (Ctx × List In) Err)
    (fold_fn : Ctx → List Out → Result Out Err) (expected : NodeLocation → Out) where
  -- The future gives the output, with that many calls.
  abbrev pub Computes : Either2 In Ctx Out → Out → ℕ → Type 0
  Computes (left i) o calls = Evaluates unfold_fn fold_fn i o calls
  Computes (right c outs) o calls = (fold_fn c outs ≡ ok o) × (calls ≡ 1)

  abbrev pub GoodJob : ℕ → Job In Ctx Out → ℕ → Type 0
  GoodJob top j calls =
      (j.location.node_index ≤ top) × Computes j.future (expected j.location) calls

  -- All jobs are good, with that many calls together.
  abbrev pub Weighed : ℕ → List (Job In Ctx Out) → ℕ → Type 0
  Weighed top [] calls = calls ≡ 0
  Weighed top (j ∷ js) calls =
      (first : ℕ) × (rest : ℕ) × GoodJob top j first × Weighed top js rest × (calls ≡ first + rest)

  pub record GoodNode (top : ℕ) (e : ℕ × Node Ctx Out) : Type 0 where
    pub positive : 1 ≤ e.0
    pub allocated : e.0 ≤ top
    pub above : e.1.parent.node_index < e.0
    pub counted : e.1.children_left ≡ missing e.1.children
    pub unfinished : 0 < e.1.children_left
    pub folds : fold_fn e.1.context (wanted expected e.0 0 e.1.children) ≡ ok (expected e.1.parent)
    pub matches : Matches expected e.0 0 e.1.children

  -- `hole` is what else is to be at a location.
  pub record Ledger (hole : NodeLocation → ℕ) (jobs : List (Job In Ctx Out))
      (tree : List (ℕ × Node Ctx Out)) (top calls : ℕ) : Type 0 where
    pub occupied :
        (l : NodeLocation)
        → hole l + total (job_at l) jobs + total (parent_at l) tree
          ≡ same_place l root + total (need l) tree
    pub unique : (n : ℕ) → total (is_key n) tree ≤ 1
    pub nodes : All (GoodNode top) tree
    pub calls_of_jobs : ℕ
    pub weighed : Weighed top jobs calls_of_jobs
    pub all_calls : calls ≡ calls_of_jobs + length tree

  abbrev pub no_hole : NodeLocation → ℕ
  no_hole l = 0

  pub Weighed-insert :
      (top : ℕ) (before : List (Job In Ctx Out)) (j : Job In Ctx Out)
      (behind : List (Job In Ctx Out)) (first rest : ℕ)
      → GoodJob top j first
      → Weighed top (before ++ behind) rest
      → Weighed top (before ++ (j ∷ behind)) (first + rest)
  Weighed-insert top [] j behind first rest g w = (first, rest, g, w, refl)
  Weighed-insert top (x ∷ before) j behind first rest g (a, b, gx, w, e) =
      (a, first + b, gx, Weighed-insert top before j behind first b g w, omega (arith, e))

  pub Weighed-remove :
      (top : ℕ) (before : List (Job In Ctx Out)) (j : Job In Ctx Out)
      (behind : List (Job In Ctx Out)) (calls : ℕ)
      → Weighed top (before ++ (j ∷ behind)) calls
      → (first : ℕ) × (rest : ℕ) × GoodJob top j first
        × Weighed top (before ++ behind) rest
        × (calls ≡ first + rest)
  Weighed-remove top [] j behind calls w = w
  Weighed-remove top (x ∷ before) j behind calls (a, b, gx, w, e) =
      let (first, rest, g, w', e') = Weighed-remove top before j behind b w in
      (first, a + rest, g, (a, rest, gx, w', refl), omega (arith, e, e'))

  -- A job that is taken away leaves a hole at its location.
  pub take_job :
      (before : List (Job In Ctx Out)) (j : Job In Ctx Out) (behind : List (Job In Ctx Out))
      (tree : List (ℕ × Node Ctx Out)) (top calls : ℕ)
      → Ledger no_hole (before ++ (j ∷ behind)) tree top calls
      → (first : ℕ) × (rest : ℕ) × GoodJob top j first
        × Ledger (λ l. same_place l j.location) (before ++ behind) tree top rest
        × (calls ≡ first + rest)
  take_job before j behind tree top calls g =
      let (first, rest, good, w, e) =
        Weighed-remove top before j behind g.calls_of_jobs g.weighed in
      (
        first,
        rest + length tree,
        good,
        record {
          occupied = λ l. omega (arith, g.occupied l, total-middle (job_at l) before j behind);
          unique = g.unique;
          nodes = g.nodes;
          calls_of_jobs = rest;
          weighed = w;
          all_calls = refl;
        },
        omega (arith, e, g.all_calls),
      )

  -- A job fills the hole at its location.
  pub put_job :
      (before : List (Job In Ctx Out)) (j : Job In Ctx Out) (behind : List (Job In Ctx Out))
      (tree : List (ℕ × Node Ctx Out)) (top first rest : ℕ)
      → GoodJob top j first
      → Ledger (λ l. same_place l j.location) (before ++ behind) tree top rest
      → Ledger no_hole (before ++ (j ∷ behind)) tree top (first + rest)
  put_job before j behind tree top first rest good g = record {
    occupied = λ l. omega (arith, g.occupied l, total-middle (job_at l) before j behind);
    unique = g.unique;
    nodes = g.nodes;
    calls_of_jobs = first + g.calls_of_jobs;
    weighed = Weighed-insert top before j behind first g.calls_of_jobs good g.weighed;
    all_calls = omega (arith, g.all_calls);
  }
