-- ===== src/BufferedWeighted/Account.antt =====
-- The weight that is accounted for is that of the futures in the queue.
use rust_shed.Prelude.{ℕ, ◌+◌, ◌≤◌, ◌<◌, ◌≡◌, refl, ap, min, List, [], ◌∷◌, ◌++◌, map, arith}
use rust_shed.BufferedWeighted.Weights.{word}
use rust_shed.BufferedWeighted.Peekable.{Polled, pending, ready, Source}
use rust_shed.BufferedWeighted.{
  FutureWithWeight, with_weight, poll_future, Tags, FuturesOrdered, BufferedWeighted,
}

-- The weights of the futures, each at most the maximum.
abbrev pub load : ℕ → List ℕ → ℕ
load max [] = 0
load max (w ∷ ws) = min w max + load max ws

pub load-append :
    (max : ℕ) (ws : List ℕ) (w : ℕ) → load max (ws ++ (w ∷ [])) ≡ load max ws + min w max
load-append max [] w = omega arith
load-append max (v ∷ ws) w = omega (arith, load-append max ws w)

pub map-append {ℓ κ} :
    {A : Type ℓ} {B : Type κ} (f : A → B) (xs : List A) (x : A)
    → map f (xs ++ (x ∷ [])) ≡ map f xs ++ (f x ∷ [])
map-append f [] x = refl
map-append f (y ∷ xs) x = ap (◌∷◌ (f y)) (map-append f xs x)

abbrev pub weight_of : {F : Type 0} → FutureWithWeight F → ℕ
weight_of f = f.weight

abbrev pub weight_out : {Out : Type 0} → ℕ × Out → ℕ
weight_out x = x.0

keeps :
    {F Out : Type 0} (poll : F → Polled Out × F) (f g : FutureWithWeight F) (r : Polled Out × F)
    → poll f.future ≡ r
    → poll_future poll f ≡ (pending, g)
    → g.weight ≡ f.weight
unfolding poll_future
keeps poll f g (pending, h) k e =
    let c : poll_future poll f ≡ (pending, record { future = h; weight = f.weight }) =
      ap (with_weight f.weight) k in
    ap weight_of {x = g} {y = record { future = h; weight = f.weight }} (cc (c, e))
keeps poll f g (ready x, h) k e =
    let c : poll_future poll f ≡ (ready (f.weight, x), record { future = h; weight = f.weight }) =
      ap (with_weight f.weight) k in
    absurd (cc (c, e))

gives :
    {F Out : Type 0} (poll : F → Polled Out × F) (f g : FutureWithWeight F) (x : ℕ × Out)
    (r : Polled Out × F)
    → poll f.future ≡ r
    → poll_future poll f ≡ (ready x, g)
    → x.0 ≡ f.weight
unfolding poll_future
gives poll f g x (pending, h) k e =
    let c : poll_future poll f ≡ (pending, record { future = h; weight = f.weight }) =
      ap (with_weight f.weight) k in
    absurd (cc (c, e))
gives poll f g x (ready y, h) k e =
    let c : poll_future poll f ≡ (ready (f.weight, y), record { future = h; weight = f.weight }) =
      ap (with_weight f.weight) k in
    ap weight_out {x = x} {y = (f.weight, y)} (cc (c, e))

-- A future keeps its weight while it is polled, and gives it with its output.
pub weight-Tags :
    {F Out : Type 0} (poll : F → Polled Out × F) → Tags (poll_future poll) weight_of weight_out
unfolding poll_future
weight-Tags poll = record {
  kept = λ f g e. keeps poll f g (poll f.future) refl e;
  given = λ f g x e. gives poll f g x (poll f.future) refl e;
}

module _ {F Out Q : Type 0} (poll : F → Polled Out × F)
    ⦃futures : FuturesOrdered (poll_future poll) Q⦄ where
  abbrev pub weights : Q → List ℕ
  weights q = map weight_of (futures.held q)

module _ {S F Out Q : Type 0} (poll : F → Polled Out × F) ⦃source : Source S F⦄
    ⦃futures : FuturesOrdered (poll_future poll) Q⦄ where
  -- The weight in progress is that of the queue, and at most the maximum, which is a `usize`.
  pub record IsAccounted (s : BufferedWeighted S F Q) : Type 0 where
    pub bounded : s.global_weight.max < word
    pub within : s.global_weight.current ≤ s.global_weight.max
    pub accounted :
        s.global_weight.current ≡ load s.global_weight.max (weights poll s.in_progress_queue)
