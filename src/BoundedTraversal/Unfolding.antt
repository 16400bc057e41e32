-- ===== src/BoundedTraversal/Unfolding.antt =====
-- `process_unfold` keeps the invariant: a job that unfolds leaves its location to a new node with jobs
-- for its children, or to the fold of a leaf.
use rust_shed.Prelude.{
  ℕ, ◌+◌, ◌≤◌, ◌<◌, ◌≡◌, refl, sym, ap, ◌∙◌, subst, List, [], ◌∷◌, ◌++◌, All, append_assoc, arith,
  length,
}
use rust_shed.Prelude.Results.{Result, ok, insert, remove}
use rust_shed.BoundedTraversal.{NodeLocation, left, Job, Node, nones}
use rust_shed.BoundedTraversal.Tables.{
  total, total-fresh, is_key, is_key-insert, All-insert, length-total,
}
use rust_shed.BoundedTraversal.Reference.{Evaluates, EvaluatesAll, nil, cons}
use rust_shed.BoundedTraversal.Ledger.{
  same_place, parent_at, need, place, Computes, GoodJob, Weighed, GoodNode, Ledger, no_hole,
  Weighed-insert, wanted,
}
use rust_shed.BoundedTraversal.Growth.{
  extend, extend-old, extend-new, wanted-new, wanted-old, Matches-old, Matches-nones, missing-nones,
  pushed, total-pushed, slots-need, length-snoc,
}

module _ {In Ctx Out Err : Type 0} (unfold_fn : In → Result (Ctx × List In) Err)
    (fold_fn : Ctx → List Out → Result Out Err) (expected : NodeLocation → Out) (top : ℕ) where
  -- No node has an index that is not allocated.
  pub absent :
      (n : ℕ) (tree : List (ℕ × Node Ctx Out))
      → top < n
      → All (GoodNode unfold_fn fold_fn expected top) tree
      → (total (is_key n) tree ≡ 0) × (remove n tree ≡ tree)
  absent n [] h a = (refl, refl)
  absent n ((m, v) ∷ tree) h a =
      let (e, r) = absent n tree h a.1 in
      let below : m ≤ top = a.0.allocated in
      (ground (arith, e, below, h), ground (arith, r, below, h))

  module _ (outs : List Out) where
    pub GoodJob-extend :
        (j : Job In Ctx Out) (calls : ℕ)
        → GoodJob unfold_fn fold_fn expected top j calls
        → GoodJob unfold_fn fold_fn (extend expected (top + 1) outs) (top + 1) j calls
    GoodJob-extend j calls g = (
      omega (arith, g.0),
      subst (λ o. Computes unfold_fn fold_fn expected j.future o calls)
          (sym (extend-old expected (top + 1) outs j.location (omega (arith, g.0)))) g.1,
    )

    pub Weighed-extend :
        (js : List (Job In Ctx Out)) (calls : ℕ)
        → Weighed unfold_fn fold_fn expected top js calls
        → Weighed unfold_fn fold_fn (extend expected (top + 1) outs) (top + 1) js calls
    Weighed-extend [] calls w = w
    Weighed-extend (j ∷ js) calls (first, rest, g, w, e) =
        (first, rest, GoodJob-extend j first g, Weighed-extend js rest w, e)

    pub GoodNode-extend :
        (e : ℕ × Node Ctx Out)
        → GoodNode unfold_fn fold_fn expected top e
        → GoodNode unfold_fn fold_fn (extend expected (top + 1) outs) (top + 1) e
    GoodNode-extend e g =
        let below : e.0 < top + 1 = omega (arith, g.allocated) in
        let parent : e.1.parent.node_index < top + 1 = omega (arith, g.above, below) in
        record {
          positive = g.positive;
          allocated = omega (arith, below);
          above = g.above;
          counted = g.counted;
          unfinished = g.unfinished;
          folds =
              ap (fold_fn e.1.context) (wanted-old expected (top + 1) outs e.0 0 e.1.children below)
              ∙ g.folds
              ∙ ap ok (sym (extend-old expected (top + 1) outs e.1.parent parent));
          matches = Matches-old expected (top + 1) outs e.0 0 e.1.children below g.matches;
        }

    pub nodes-extend :
        (tree : List (ℕ × Node Ctx Out))
        → All (GoodNode unfold_fn fold_fn expected top) tree
        → All (GoodNode unfold_fn fold_fn (extend expected (top + 1) outs) (top + 1)) tree
    nodes-extend [] a = tt
    nodes-extend (e ∷ tree) a = (GoodNode-extend e a.0, nodes-extend tree a.1)

    Weighed-pushed :
        (front rest : List Out) (k : ℕ) (ins : List In) (below : ℕ) (s u : List (Job In Ctx Out))
        (calls : ℕ)
        → outs ≡ front ++ rest
        → k ≡ length front
        → EvaluatesAll unfold_fn fold_fn ins rest below
        → Weighed unfold_fn fold_fn (extend expected (top + 1) outs) (top + 1) (s ++ u) calls
        → Weighed unfold_fn fold_fn
            (extend expected (top + 1) outs)
            (top + 1)
            (s ++ pushed (top + 1) k ins u)
            (below + calls)
    Weighed-pushed front [] k [] below s u calls e h (nil none_below) w =
        let counted : calls ≡ below + calls = omega (arith, none_below) in
        subst (Weighed unfold_fn fold_fn (extend expected (top + 1) outs) (top + 1) (s ++ u))
          counted w
    Weighed-pushed front [] k (i ∷ ins) below s u calls e h evs w = elim evs [ ]
    Weighed-pushed front (o ∷ rest) k [] below s u calls e h evs w = elim evs [ ]
    Weighed-pushed front (o ∷ rest) k (i ∷ ins) below s u calls e h (cons first others ev evs sum)
          w =
        let j : Job In Ctx Out = record { location = place (top + 1) k; future = left i } in
        let found =
          ap (λ z. extend expected (top + 1) outs (place (top + 1) z)) h
          ∙ extend-new expected (top + 1) outs front o rest e in
        let good = subst (λ z. Evaluates unfold_fn fold_fn i z first) (sym found) ev in
        let grown =
          Weighed-insert unfold_fn fold_fn (extend expected (top + 1) outs) (top + 1) s j u first
            calls (omega arith, good) w in
        let counted : others + (first + calls) ≡ below + calls = omega (arith, sum) in
        subst
          (Weighed unfold_fn fold_fn (extend expected (top + 1) outs) (top + 1)
            (s ++ pushed (top + 1) (k + 1) ins (j ∷ u)))
          counted
          (Weighed-pushed (front ++ o ∷ []) rest (k + 1) ins others s (j ∷ u) (first + calls)
            (e ∙ sym (append_assoc front (o ∷ []) rest))
            (ap (λ z. z + 1) h ∙ sym (length-snoc front o)) evs grown)

    -- The children have a result each.
    EvaluatesAll-length :
        (ins : List In) (os : List Out) (below : ℕ)
        → EvaluatesAll unfold_fn fold_fn ins os below
        → length ins ≡ length os
    EvaluatesAll-length [] [] below evs = refl
    EvaluatesAll-length [] (o ∷ os) below evs = elim evs [ ]
    EvaluatesAll-length (i ∷ ins) [] below evs = elim evs [ ]
    EvaluatesAll-length (i ∷ ins) (o ∷ os) below (cons first rest ev evs e) =
        omega (arith, EvaluatesAll-length ins os rest evs)

  -- A new node with a child takes the location of the job that unfolded.
  pub grow :
      (parent : NodeLocation) (context : Ctx) (i : In) (ins : List In) (outs : List Out)
      (below rest : ℕ) (s u : List (Job In Ctx Out)) (tree : List (ℕ × Node Ctx Out))
      → parent.node_index ≤ top
      → EvaluatesAll unfold_fn fold_fn (i ∷ ins) outs below
      → fold_fn context outs ≡ ok (expected parent)
      → Ledger unfold_fn fold_fn expected (λ l. same_place l parent) (s ++ u) tree top rest
      → Ledger unfold_fn fold_fn
          (extend expected (top + 1) outs)
          (no_hole unfold_fn fold_fn (extend expected (top + 1) outs))
          (s ++ pushed (top + 1) 0 (i ∷ ins) u)
          (insert
            (top + 1)
            (record {
              parent = parent;
              context = context;
              children = nones (length (i ∷ ins));
              children_left = length (i ∷ ins);
            })
            tree)
          (top + 1)
          (1 + below + rest)
  grow parent context i ins outs below rest s u tree bound evs folds g =
      let n : ℕ = top + 1 in
      let expected' : NodeLocation → Out = extend expected n outs in
      let node : Node Ctx Out = record {
        parent = parent;
        context = context;
        children = nones (length (i ∷ ins));
        children_left = length (i ∷ ins);
      } in
      let fresh : (total (is_key n) tree ≡ 0) × (remove n tree ≡ tree) =
        absent n tree (omega arith) g.nodes in
      let sized = EvaluatesAll-length outs (i ∷ ins) outs below evs in
      let expects : wanted expected' n 0 (nones (length (i ∷ ins))) ≡ outs =
        ap (λ c. wanted expected' n 0 (nones c)) sized
        ∙ wanted-new expected n outs [] outs 0 refl refl in
      record {
        occupied = λ l. omega (
          arith,
          g.occupied l,
          total-pushed l n 0 (i ∷ ins) s u,
          slots-need Out l n (length (i ∷ ins)) (i ∷ ins) parent context,
          total-fresh (parent_at l) n node tree fresh.1,
          total-fresh (need l) n node tree fresh.1,
        );
        unique = is_key-insert n node tree g.unique;
        nodes =
            All-insert (GoodNode unfold_fn fold_fn expected' n) n node tree
              (record {
                positive = omega arith;
                allocated = omega arith;
                above = omega (arith, bound);
                counted = sym (missing-nones Out (length (i ∷ ins)));
                unfinished = omega arith;
                folds =
                    ap (fold_fn context) expects
                    ∙ folds
                    ∙ ap ok (sym (extend-old expected n outs parent (omega (arith, bound))));
                matches = Matches-nones expected' n 0 (length (i ∷ ins));
              })
              (subst (All (GoodNode unfold_fn fold_fn expected' n)) (sym fresh.1)
                (nodes-extend outs tree g.nodes));
        calls_of_jobs = below + g.calls_of_jobs;
        weighed =
            Weighed-pushed outs [] outs 0 (i ∷ ins) below s u g.calls_of_jobs refl refl evs
              (Weighed-extend outs (s ++ u) g.calls_of_jobs g.weighed);
        all_calls = omega (
          arith,
          g.all_calls,
          length-total tree,
          length-total (insert n node tree),
          total-fresh (λ e. 1) n node tree fresh.1,
        );
      }
