-- ===== src/BoundedTraversal/Finishing.antt =====
-- Where a traversal ends: the job at the root is the last one, and until then there is a job.
use rust_shed.Prelude.{
  ℕ, zero, suc, ◌+◌, ◌≤◌, ◌<◌, ◌≡◌, ◌⊎◌, inl, inr, refl, ap, ◌∙◌, Option, none, some, List, [], ◌∷◌,
  All, arith, get_elem?,
}
use rust_shed.Prelude.Results.{Result}
use rust_shed.BoundedTraversal.{NodeLocation, Job, Node, root}
use rust_shed.BoundedTraversal.Tables.{total, total-lookup, lookup-total, is_key, All-lookup}
use rust_shed.BoundedTraversal.Ledger.{
  same_place, is_open, missing, job_at, parent_at, need, place, GoodNode, Ledger, no_hole,
}
use rust_shed.BoundedTraversal.Unfolding.{absent}
use rust_shed.BoundedTraversal.Folding.{need-is_key}

-- A map in which no key is counted is empty.
no_key : {V : Type 0} (m : List (ℕ × V)) → ((n : ℕ) → total (is_key n) m ≡ 0) → m ≡ []
no_key [] h = refl
no_key ((j, w) ∷ m) h =
    let counted : total (is_key j) ((j, w) ∷ m) ≡ 0 = h j in absurd (ground (arith, counted))

pub zero_or_more : (n : ℕ) → (n ≡ 0) ⊎ (0 < n)
zero_or_more zero = inl refl
zero_or_more (suc n) = inr (omega arith)

-- Some entry is counted.
counted_entry {κ} :
    {V : Type 0} (P : ℕ × V → Type κ) (f : ℕ × V → ℕ) (m : List (ℕ × V))
    → 0 < total f m
    → All P m
    → (e : ℕ × V) × P e × (0 < f e) × (0 < total (is_key e.0) m)
counted_entry P f [] h a = absurd (omega (arith, h))
counted_entry P f (e ∷ m) h a = elim (zero_or_more (f e)) [
  | inl z ↦
      let (e', p, more, found) = counted_entry P f m (omega (arith, h, z)) a.1 in
      (e', p, more, omega (arith, found))
  | inr s ↦ let here : is_key e.0 e ≡ 1 = ground arith in (e, a.0, s, omega (arith, here))
]

open_child :
    {Out : Type 0} (cs : List (Option Out))
    → 0 < missing cs
    → (k : ℕ) × (0 < is_open (get_elem? cs k))
open_child [] h = absurd (omega (arith, h))
open_child (none ∷ cs) h = (0, omega arith)
open_child (some o ∷ cs) h = let (k, found) = open_child cs h in (suc k, found)

module _ {In Ctx Out Err : Type 0} (unfold_fn : In → Result (Ctx × List In) Err)
    (fold_fn : Ctx → List Out → Result Out Err) (expected : NodeLocation → Out) (top : ℕ) where
  zero_absent :
      (tree : List (ℕ × Node Ctx Out))
      → All (GoodNode unfold_fn fold_fn expected top) tree
      → total (is_key 0) tree ≡ 0
  zero_absent [] a = refl
  zero_absent ((m, v) ∷ tree) a =
      let positive : 1 ≤ m = a.0.positive in ground (arith, zero_absent tree a.1, positive)

  -- Where nothing waits for the root, no location is occupied.
  no_node :
      (jobs : List (Job In Ctx Out)) (tree : List (ℕ × Node Ctx Out))
      → ((l : NodeLocation)
          → total (job_at l) jobs + total (parent_at l) tree ≡ total (need l) tree)
      → All (GoodNode unfold_fn fold_fn expected top) tree
      → (b n : ℕ) → n < b
      → total (is_key n) tree ≡ 0
  no_node jobs tree occupied nodes zero n below = absurd (omega (arith, below))
  no_node jobs tree occupied nodes (suc b) n below = elim (zero_or_more (total (is_key n) tree)) [
    | inl z ↦ z
    | inr s ↦
        let (v, found) = lookup-total n tree s in
        let good : GoodNode unfold_fn fold_fn expected top (n, v) =
          (All-lookup (GoodNode unfold_fn fold_fn expected top) n v tree found nodes).0 in
        let above : v.parent.node_index < n = good.above in
        let itself : parent_at v.parent (n, v) ≡ 1 = ground arith in
        let parents = total-lookup (parent_at v.parent) n v tree found in
        let none_there =
          no_node jobs tree occupied nodes b v.parent.node_index (omega (arith, above, below)) in
        absurd
          (omega (arith, itself, parents, none_there, occupied v.parent, need-is_key v.parent tree))
  ]

  no_job :
      (jobs : List (Job In Ctx Out)) → ((l : NodeLocation) → total (job_at l) jobs ≡ 0) → jobs ≡ []
  no_job [] h = refl
  no_job (j ∷ js) h =
      let itself : job_at j.location j ≡ 1 = ground arith in
      absurd (omega (arith, h j.location, itself))

  -- A job that is taken from a location of index 0 is the only one left, and no node is.
  pub last_job :
      (l : NodeLocation) (jobs : List (Job In Ctx Out)) (tree : List (ℕ × Node Ctx Out)) (calls : ℕ)
      → l.node_index ≡ 0
      → Ledger unfold_fn fold_fn expected (λ l'. same_place l' l) jobs tree top calls
      → (jobs ≡ []) × (tree ≡ []) × (l.child_index ≡ 0)
  last_job l jobs tree calls h g =
      let keys = ap (λ z. total (is_key z) tree) h ∙ zero_absent tree g.nodes in
      let itself : same_place l l ≡ 1 = ground arith in
      let at_root : same_place l root ≡ 1 =
        ground (arith, g.occupied l, itself, keys, need-is_key l tree) in
      let child : l.child_index ≡ 0 = ground (arith, at_root) in
      let hole : (l' : NodeLocation) → same_place l' l ≡ same_place l' root =
        λ l'. ground (arith, h, child) in
      let free : (l' : NodeLocation)
          → total (job_at l') jobs + total (parent_at l') tree ≡ total (need l') tree =
        λ l'. omega (arith, hole l', g.occupied l') in
      let empty : tree ≡ [] =
        no_key tree (λ n. no_node jobs tree free g.nodes (suc n) n (omega arith)) in
      let unneeded : (l' : NodeLocation) → total (need l') tree ≡ 0 =
        λ l'. ap (total (need l')) empty in
      (no_job jobs (λ l'. omega (arith, free l', unneeded l')), empty, child)

  no_branch :
      (tree : List (ℕ × Node Ctx Out)) (calls : ℕ)
      → Ledger unfold_fn fold_fn expected (no_hole unfold_fn fold_fn expected) [] tree top calls
      → (b n : ℕ) → top < n + b
      → total (is_key n) tree ≡ 0
  no_branch tree calls g zero n below =
      (absent unfold_fn fold_fn expected top n tree (omega (arith, below)) g.nodes).0
  no_branch tree calls g (suc b) n below = elim (zero_or_more (total (is_key n) tree)) [
    | inl z ↦ z
    | inr s ↦
        let (v, found) = lookup-total n tree s in
        let good : GoodNode unfold_fn fold_fn expected top (n, v) =
          (All-lookup (GoodNode unfold_fn fold_fn expected top) n v tree found g.nodes).0 in
        let (k, opened) = open_child v.children (omega (arith, good.counted, good.unfinished)) in
        let here : need (place n k) (n, v) ≡ is_open (get_elem? v.children k) = ground arith in
        let needed = total-lookup (need (place n k)) n v tree found in
        let (e, child, at_place, keyed) =
          counted_entry (GoodNode unfold_fn fold_fn expected top) (parent_at (place n k)) tree
            (omega (arith, g.occupied (place n k), here, needed, opened)) g.nodes in
        let parent : e.1.parent.node_index ≡ n = ground (arith, at_place) in
        let above : e.1.parent.node_index < e.0 = child.above in
        absurd
          (omega (arith, keyed, no_branch tree calls g b e.0 (omega (arith, parent, above, below))))
  ]

  -- A traversal that waits has a job.
  pub has_job :
      (tree : List (ℕ × Node Ctx Out)) (calls : ℕ)
      → Ledger unfold_fn fold_fn expected (no_hole unfold_fn fold_fn expected) [] tree top calls
      → ⊥
  has_job tree calls g =
      let empty : tree ≡ [] = no_key tree (λ n. no_branch tree calls g (suc top) n (omega arith)) in
      let unneeded : total (need root) tree ≡ 0 = ap (total (need root)) empty in
      let parents : total (parent_at root) tree ≡ 0 = ap (total (parent_at root)) empty in
      omega (arith, g.occupied root, unneeded, parents)
