-- ===== src/BoundedTraversal/Folding.antt =====
-- `process_fold` keeps the invariant: the result of a child goes to its node, and a node that has all
-- its results leaves its location to the job of its fold.
use rust_shed.Prelude.{
  ℕ, ◌+◌, ◌-◌, ◌≤◌, ◌<◌, ◌≡◌, ◌≢◌, refl, sym, ap, ◌∙◌, subst, false, Bool-cases, inl, inr, Option,
  none, some, List, [], ◌∷◌, ◌++◌, All, arith, length, get_elem?, set, done, ◌==◌,
}
use rust_shed.Prelude.Results.{Result, lookup, insert, remove}
use rust_shed.BoundedTraversal.{
  NodeLocation, right, Job, Node, Traversal, root, flatten, complete_node, process_fold,
  enqueue_fold,
}
use rust_shed.BoundedTraversal.Tables.{
  total, total-insert, total-lookup, lookup-total, remove-insert, All-lookup, All-insert, is_key,
  is_key-insert, is_key-removed, is_key-remove, length-total,
}
use rust_shed.BoundedTraversal.Ledger.{
  same_place, is_open, missing, parent_at, need, GoodNode, Ledger, no_hole, put_job,
}
use rust_shed.BoundedTraversal.Slots.{
  is_open-child, is_open-missing, missing-set, is_open-set, wanted-set, Matches-set, flatten-wanted,
}

pub need-is_key :
    {Ctx Out : Type 0} (l : NodeLocation) (tree : List (ℕ × Node Ctx Out))
    → total (need l) tree ≤ total (is_key l.node_index) tree
need-is_key l [] = omega arith
need-is_key l ((m, v) ∷ tree) =
    ground (arith, need-is_key l tree, is_open-bound (get_elem? v.children l.child_index))
  where
    is_open-bound : {Out : Type 0} (x : Option (Option Out)) → is_open x ≤ 1
    is_open-bound none = omega arith
    is_open-bound (some none) = omega arith
    is_open-bound (some (some o)) = omega arith

module _ {In Ctx Out Err : Type 0} (unfold_fn : In → Result (Ctx × List In) Err)
    (fold_fn : Ctx → List Out → Result Out Err) (expected : NodeLocation → Out) where
  -- What the parent of a location without a result is.
  record Waiting (l : NodeLocation) (top : ℕ) (tree : List (ℕ × Node Ctx Out)) : Type 0 where
    node : Node Ctx Out
    found : lookup l.node_index tree ≡ some node
    open_child : 0 < is_open (get_elem? node.children l.child_index)
    good : GoodNode unfold_fn fold_fn expected top (l.node_index, node)
    others : All (GoodNode unfold_fn fold_fn expected top) (remove l.node_index tree)

  waiting :
      (l : NodeLocation) (jobs : List (Job In Ctx Out)) (tree : List (ℕ × Node Ctx Out))
      (top calls : ℕ)
      → l.node_index ≢ 0
      → Ledger unfold_fn fold_fn expected (λ l'. same_place l' l) jobs tree top calls
      → Waiting l top tree
  waiting l jobs tree top calls h g =
      let here : same_place l l ≡ 1 = ground arith in
      let elsewhere : same_place l root ≡ 0 = ground (arith, h) in
      let needed : 0 < total (need l) tree = omega (arith, g.occupied l, here, elsewhere) in
      let (v, found) = lookup-total l.node_index tree (omega (arith, needed, need-is_key l tree)) in
      let (good, others) =
        All-lookup (GoodNode unfold_fn fold_fn expected top) l.node_index v tree found g.nodes in
      let alone = is_key-remove l.node_index tree (g.unique l.node_index) in
      let split = total-lookup (need l) l.node_index v tree found in
      let same : l.node_index ≡ l.node_index = refl in
      record {
        node = v;
        found = found;
        open_child = ground (arith, split, alone, needed, need-is_key l (remove l.node_index tree));
        good = good;
        others = others;
      }

  module _ (l : NodeLocation) (o : Out) where
    -- The node with the result of the child.
    updated : Node Ctx Out → Node Ctx Out
    updated v = record v {
      children = set v.children l.child_index (some o);
      children_left = v.children_left - 1;
    }

    kept :
        (jobs : List (Job In Ctx Out)) (tree : List (ℕ × Node Ctx Out)) (top calls : ℕ)
        (w : Waiting l top tree)
        → o ≡ expected l
        → 1 < w.node.children_left
        → Ledger unfold_fn fold_fn expected (λ l'. same_place l' l) jobs tree top calls
        → Ledger unfold_fn fold_fn expected
            (no_hole unfold_fn fold_fn expected)
            jobs
            (insert l.node_index (updated w.node) tree)
            top
            calls
    unfolding updated
    kept jobs tree top calls w e more g =
        let n : ℕ = l.node_index in
        let v : Node Ctx Out = w.node in
        let v' : Node Ctx Out = updated v in
        record {
          occupied = λ l'.
              let opened = is_open-set v.children l.child_index o l'.child_index w.open_child in
              let needs : need l' (n, v) ≡ same_place l' l + need l' (n, v') =
                ground (arith, opened) in
              omega (
                arith,
                needs,
                g.occupied l',
                total-insert (parent_at l') n v' tree,
                total-lookup (parent_at l') n v tree w.found,
                total-insert (need l') n v' tree,
                total-lookup (need l') n v tree w.found,
              );
          unique = is_key-insert n v' tree g.unique;
          nodes =
              All-insert (GoodNode unfold_fn fold_fn expected top) n v' tree
                (record {
                  positive = w.good.positive;
                  allocated = w.good.allocated;
                  above = w.good.above;
                  counted =
                      omega (
                        arith,
                        w.good.counted,
                        missing-set v.children l.child_index o w.open_child,
                      );
                  unfinished = omega (arith, more);
                  folds =
                      ap (fold_fn v.context) (wanted-set expected n 0 v.children l.child_index o)
                      ∙ w.good.folds;
                  matches =
                      Matches-set expected n 0 v.children l.child_index o l.child_index
                        (omega arith) e w.open_child w.good.matches;
                })
                w.others;
          calls_of_jobs = g.calls_of_jobs;
          weighed = g.weighed;
          all_calls = omega (
            arith,
            g.all_calls,
            length-total tree,
            length-total (insert n v' tree),
            total-insert (λ z. 1) n v' tree,
            total-lookup (λ z. 1) n v tree w.found,
          );
        }

    completed :
        (s u : List (Job In Ctx Out)) (tree : List (ℕ × Node Ctx Out)) (top calls : ℕ)
        (w : Waiting l top tree)
        → o ≡ expected l
        → w.node.children_left ≡ 1
        → Ledger unfold_fn fold_fn expected (λ l'. same_place l' l) (s ++ u) tree top calls
        → Ledger unfold_fn fold_fn expected
            (no_hole unfold_fn fold_fn expected)
            (s
              ++ record {
                location = w.node.parent;
                future = right w.node.context (flatten (updated w.node).children);
              }
                ∷ u)
            (remove l.node_index (insert l.node_index (updated w.node) tree))
            top
            calls
    unfolding updated
    completed s u tree top calls w e last g =
        let n : ℕ = l.node_index in
        let v : Node Ctx Out = w.node in
        let cs : List (Option Out) = set v.children l.child_index (some o) in
        let all_there : missing cs ≡ 0 =
          omega
            (arith, last, w.good.counted, missing-set v.children l.child_index o w.open_child) in
        let matched =
          Matches-set expected n 0 v.children l.child_index o l.child_index (omega arith) e
            w.open_child w.good.matches in
        let results =
          flatten-wanted expected n 0 cs all_there matched
          ∙ wanted-set expected n 0 v.children l.child_index o in
        let t : List (ℕ × Node Ctx Out) = remove n tree in
        let gone : remove n (insert n (updated v) tree) ≡ t = remove-insert n (updated v) tree in
        let hole : Ledger unfold_fn fold_fn expected (λ l'. same_place l' v.parent) (s ++ u) t top
            (g.calls_of_jobs + length t) =
          record {
            occupied = λ l'.
                let opened = is_open-set v.children l.child_index o l'.child_index w.open_child in
                let rest = is_open-missing cs l'.child_index in
                let needs : need l' (n, v) ≡ same_place l' l =
                  ground (arith, opened, rest, all_there) in
                omega (
                  arith,
                  needs,
                  g.occupied l',
                  total-lookup (parent_at l') n v tree w.found,
                  total-lookup (need l') n v tree w.found,
                );
            unique = is_key-removed n tree g.unique;
            nodes = w.others;
            calls_of_jobs = g.calls_of_jobs;
            weighed = g.weighed;
            all_calls = refl;
          } in
        let job : Job In Ctx Out = record {
          location = v.parent;
          future = right v.context (flatten cs);
        } in
        let filled =
          put_job unfold_fn fold_fn expected s job u t top 1 (g.calls_of_jobs + length t)
            (
              omega (arith, w.good.above, w.good.allocated),
              (ap (fold_fn v.context) results ∙ w.good.folds, refl),
            )
            hole in
        let counted : 1 + (g.calls_of_jobs + length t) ≡ calls = omega (
          arith,
          g.all_calls,
          length-total tree,
          length-total t,
          total-lookup (λ z. 1) n v tree w.found,
        ) in
        subst
          (λ z.
            Ledger unfold_fn fold_fn expected (no_hole unfold_fn fold_fn expected) (s ++ job ∷ u) z
              top calls)
          (sym gone)
          (subst
            (Ledger unfold_fn fold_fn expected (no_hole unfold_fn fold_fn expected) (s ++ job ∷ u) t
              top)
            counted filled)

    -- The result of a child leads to a state that keeps the invariant.
    pub process_fold-Ledger :
        (self : Traversal In Ctx Out) (calls : ℕ)
        → l.node_index ≢ 0
        → o ≡ expected l
        → Ledger unfold_fn fold_fn expected
            (λ l'. same_place l' l)
            (self.scheduled ++ self.unscheduled)
            self.execution_tree
            self.execution_tree_index
            calls
        → (self' : Traversal In Ctx Out) × (process_fold self l o ≡ done self')
          × (self'.scheduled ≡ self.scheduled)
          × Ledger unfold_fn fold_fn expected
              (no_hole unfold_fn fold_fn expected)
              (self'.scheduled ++ self'.unscheduled)
              self'.execution_tree
              self'.execution_tree_index
              calls
    unfolding process_fold complete_node enqueue_fold updated
    process_fold-Ledger self calls h e g =
        let w : Waiting l self.execution_tree_index self.execution_tree =
          waiting l (self.scheduled ++ self.unscheduled) self.execution_tree
            self.execution_tree_index calls h g in
        let child = is_open-child w.node.children l.child_index w.open_child in
        elim (Bool-cases (w.node.children_left - 1 == 0)) [
          | inl last ↦
              let one : w.node.children_left ≡ 1 = ground (arith, last, w.good.unfinished) in
              (
                complete_node
                    (record self {
                      execution_tree = insert l.node_index (updated w.node) self.execution_tree;
                    })
                    l.node_index (updated w.node),
                rw (w.found, child, one) refl,
                refl,
                completed self.scheduled self.unscheduled self.execution_tree
                    self.execution_tree_index calls w e one g,
              )
          | inr more ↦
              let two : 1 < w.node.children_left = ground (arith, more, w.good.unfinished) in
              let some_left : (w.node.children_left == 0) ≡ false = ground (arith, two) in
              (
                record self {
                  execution_tree = insert l.node_index (updated w.node) self.execution_tree;
                },
                rw (w.found, child, some_left, more) refl,
                refl,
                kept (self.scheduled ++ self.unscheduled) self.execution_tree
                    self.execution_tree_index calls w e two g,
              )
        ]
