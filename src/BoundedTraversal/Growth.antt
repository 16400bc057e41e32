-- ===== src/BoundedTraversal/Growth.antt =====
-- `process_unfold`: a job that unfolds leaves its location to a new node with jobs for its children,
-- or to the fold of a leaf.
use rust_shed.Prelude.{
  ℕ, zero, suc, ◌+◌, ◌<◌, ◌≡◌, refl, sym, ap, ◌∙◌, Option, none, some, List, [], ◌∷◌, ◌++◌,
  append_assoc, arith, get_elem?, length, ◌==◌, leb, ltb, if◌then◌else◌,
}
use rust_shed.BoundedTraversal.{
  NodeLocation, left, Job, Traversal, nones, enqueue_unfold, enqueue_children,
}
use rust_shed.BoundedTraversal.Tables.{total, total-middle}
use rust_shed.BoundedTraversal.Ledger.{
  same_place, is_open, missing, job_at, need, place, wanted, Matches,
}

get_elem?-middle {ℓ} :
    {A : Type ℓ} (xs : List A) (y : A) (ys : List A)
    → get_elem? (xs ++ (y ∷ ys)) (length xs) ≡ some y
get_elem?-middle [] y ys = refl
get_elem?-middle (x ∷ xs) y ys = get_elem?-middle xs y ys

pub length-snoc {ℓ} : {A : Type ℓ} (xs : List A) (y : A) → length (xs ++ y ∷ []) ≡ length xs + 1
length-snoc [] y = refl
length-snoc (x ∷ xs) y = omega (arith, length-snoc xs y)

-- The results that the children of a new node are to have.
pub extend : {Out : Type 0} → (NodeLocation → Out) → ℕ → List Out → NodeLocation → Out
extend expected n outs l = elim (if l.node_index == n then get_elem? outs l.child_index else none) [
  | none ↦ expected l
  | some o ↦ o
]

module _ {Out : Type 0} (expected : NodeLocation → Out) (n : ℕ) (outs : List Out) where
  pub extend-old : (l : NodeLocation) → l.node_index < n → extend expected n outs l ≡ expected l
  unfolding extend
  extend-old l h = ground arith

  pub extend-new :
      (front : List Out) (o : Out) (rest : List Out)
      → outs ≡ front ++ (o ∷ rest)
      → extend expected n outs (place n (length front)) ≡ o
  unfolding extend
  extend-new front o rest e =
      let found = ap (λ z. get_elem? z (length front)) e ∙ get_elem?-middle front o rest in
      ground (arith, found)

  pub wanted-new :
      (front rest : List Out) (k : ℕ)
      → outs ≡ front ++ rest
      → k ≡ length front
      → wanted (extend expected n outs) n k (nones (length rest)) ≡ rest
  wanted-new front [] k e h = refl
  wanted-new front (o ∷ rest) k e h =
      let head = ap (λ z. extend expected n outs (place n z)) h ∙ extend-new front o rest e in
      let tail =
        wanted-new (front ++ o ∷ []) rest (k + 1) (e ∙ sym (append_assoc front (o ∷ []) rest))
          (ap (λ z. z + 1) h ∙ sym (length-snoc front o)) in
      cc (head, tail)

  pub wanted-old :
      (m k : ℕ) (cs : List (Option Out))
      → m < n
      → wanted (extend expected n outs) m k cs ≡ wanted expected m k cs
  wanted-old m k [] h = refl
  wanted-old m k (c ∷ cs) h = cc (extend-old (place m k) h, wanted-old m (k + 1) cs h)

  pub Matches-old :
      (m k : ℕ) (cs : List (Option Out))
      → m < n
      → Matches expected m k cs
      → Matches (extend expected n outs) m k cs
  Matches-old m k [] h a = tt
  Matches-old m k (none ∷ cs) h a = Matches-old m (k + 1) cs h a
  Matches-old m k (some o ∷ cs) h a =
      (a.0 ∙ sym (extend-old (place m k) h), Matches-old m (k + 1) cs h a.1)

pub Matches-nones :
    {Out : Type 0} (expected : NodeLocation → Out) (n k c : ℕ) → Matches expected n k (nones c)
Matches-nones expected n k zero = tt
Matches-nones expected n k (suc c) = Matches-nones expected n (k + 1) c

pub missing-nones : (Out : Type 0) (c : ℕ) → missing (nones {Out = Out} c) ≡ c
missing-nones Out zero = refl
missing-nones Out (suc c) = omega (arith, missing-nones Out c)

-- The jobs for the children, in front of those that wait.
abbrev pub pushed :
    {In Ctx Out : Type 0} → ℕ → ℕ → List In → List (Job In Ctx Out) → List (Job In Ctx Out)
pushed n k [] u = u
pushed n k (i ∷ ins) u = pushed n (k + 1) ins (record { location = place n k; future = left i } ∷ u)

pub enqueue_children-pushed :
    {In Ctx Out : Type 0} (self : Traversal In Ctx Out) (n k : ℕ) (ins : List In)
    → enqueue_children self n k ins
      ≡ (k + length ins, record self { unscheduled = pushed n k ins self.unscheduled })
unfolding enqueue_children enqueue_unfold
enqueue_children-pushed self n k [] =
    let counted : k ≡ k + 0 = omega arith in ap (λ z. (z, self)) counted
enqueue_children-pushed {In} {Ctx} {Out} self n k (i ∷ ins) =
    let j : Job In Ctx Out = record { location = place n k; future = left i } in
    let counted : k + 1 + length ins ≡ k + suc (length ins) = omega arith in
    enqueue_children-pushed (record self { unscheduled = j ∷ self.unscheduled }) n (k + 1) ins
    ∙ ap (λ z. (z, record self { unscheduled = pushed n (k + 1) ins (j ∷ self.unscheduled) }))
        counted

-- How many of the new jobs are at the location.
abbrev pub slots : {In : Type 0} → NodeLocation → ℕ → ℕ → List In → ℕ
slots l n k [] = 0
slots l n k (i ∷ ins) = same_place l (place n k) + slots l n (k + 1) ins

pub total-pushed :
    {In Ctx Out : Type 0} (l : NodeLocation) (n k : ℕ) (ins : List In) (s u : List (Job In Ctx Out))
    → total (job_at l) (s ++ pushed n k ins u) ≡ slots l n k ins + total (job_at l) (s ++ u)
total-pushed l n k [] s u = omega arith
total-pushed {In} {Ctx} {Out} l n k (i ∷ ins) s u =
    let j : Job In Ctx Out = record { location = place n k; future = left i } in
    omega (arith, total-pushed l n (k + 1) ins s (j ∷ u), total-middle (job_at l) s j u)

is_open-nones :
    (Out : Type 0) (i c : ℕ)
    → is_open (get_elem? (nones {Out = Out} c) i) ≡ (if ltb i c then 1 else 0)
is_open-nones Out i zero = ground arith
is_open-nones Out zero (suc c) = ground arith
is_open-nones Out (suc i) (suc c) = ground (arith, is_open-nones Out i c)

slots_lem :
    {In : Type 0} (l : NodeLocation) (n k : ℕ) (ins : List In)
    → slots l n k ins ≡ (
        if n == l.node_index
        then (if leb k l.child_index
            then (if ltb l.child_index (k + length ins) then 1 else 0)
            else 0)
        else 0)
slots_lem l n k [] = ground arith
slots_lem l n k (i ∷ ins) = ground (arith, slots_lem l n (k + 1) ins)

-- The new jobs are at the locations that the new node waits for.
pub slots-need :
    (Out : Type 0) {In Ctx : Type 0} (l : NodeLocation) (n waits : ℕ) (ins : List In)
    (p : NodeLocation) (c : Ctx)
    → slots l n 0 ins
      ≡ need {Out = Out} l (
        n,
        record { parent = p; context = c; children = nones (length ins); children_left = waits },
      )
slots-need Out l n waits ins p c =
    ground (arith, slots_lem l n 0 ins, is_open-nones Out l.child_index (length ins))
