-- ===== src/Prelude/Order.antt =====
-- Rust's `Ord` as an instance: a total preorder. Keys that compare equal need not be identical, so
-- a theorem can say which of two equal keys a container keeps. `Borrow<Q>` promises that `Q` orders
-- like `K`, and `Q` is read as `K`.
use Prim.Native.Nat.{ℕ, ◌/◌, compare, Ordering}
use Prim.Native.Nat.Ordering.{lt, eq, gt}
use mathlib.Core.Path.{◌≡◌, refl}
use mathlib.Core.Logic.{◌⊎◌, inl, inr}
use mathlib.Core.Bool.{Bool, true, false}
use native.Mathlib.Omega.{arith}

-- `Ordering::reverse`
abbrev pub flip : Ordering → Ordering
flip lt = gt
flip eq = eq
flip gt = lt

pub Ordering-cases : (c : Ordering) → (c ≡ lt) ⊎ (c ≡ eq) ⊎ (c ≡ gt)
Ordering-cases lt = inl refl
Ordering-cases eq = inr (inl refl)
Ordering-cases gt = inr (inr refl)

-- What the documentation of `Ord` asks of `cmp`.
pub record IsOrd {ℓ} {K : Type ℓ} (cmp : K → K → Ordering) : Type ℓ where
  pub cmp_swap : (a b : K) → cmp b a ≡ flip (cmp a b)
  pub cmp_lt_trans : (a b c : K) → cmp a b ≡ lt → cmp b c ≡ lt → cmp a c ≡ lt
  pub cmp_eq_left : (a b c : K) → cmp a b ≡ eq → cmp a c ≡ cmp b c

pub record Ord {ℓ} (K : Type ℓ) : Type ℓ where
  pub cmp : K → K → Ordering
  pub laws : IsOrd cmp
  pub open laws use *

module _ {ℓ} {K : Type ℓ} ⦃o : Ord K⦄ where
  infix 50 ◌≺◌ ◌≈◌
  abbrev pub ◌≺◌ : K → K → Type 0
  a ≺ b = o.cmp a b ≡ lt

  abbrev pub ◌≈◌ : K → K → Type 0
  a ≈ b = o.cmp a b ≡ eq

  pub cmp_refl : (a : K) → o.cmp a a ≡ eq
  cmp_refl a = ground (arith, o.cmp_swap a a)

  pub cmp_eq_right : (a b c : K) → o.cmp a b ≡ eq → o.cmp c a ≡ o.cmp c b
  cmp_eq_right a b c e = ground (arith, o.cmp_eq_left a b c e, o.cmp_swap a c, o.cmp_swap b c)

  pub cmp_gt_trans : (a b c : K) → o.cmp a b ≡ gt → o.cmp b c ≡ gt → o.cmp a c ≡ gt
  cmp_gt_trans a b c h k =
      ground (arith, o.cmp_swap a b, o.cmp_swap b c, o.cmp_swap a c, o.cmp_lt_trans c b a)

-- The operators of `PartialOrd` and `PartialEq`, which the program's keys derive from `cmp`.
abbrev pub is_lt : Ordering → Bool
is_lt lt = true
is_lt _ = false

abbrev pub is_gt : Ordering → Bool
is_gt gt = true
is_gt _ = false

abbrev pub is_eq : Ordering → Bool
is_eq eq = true
is_eq _ = false

pub compare-IsOrd : IsOrd compare
compare-IsOrd = ground arith

instance unfoldable pub nat_ord : Ord ℕ
nat_ord = record { cmp = compare; laws = compare-IsOrd }

-- An order in which different keys compare equal: numbers by their tens.
pub tens : ℕ → ℕ → Ordering
tens a b = compare (a / 10) (b / 10)

pub tens-IsOrd : IsOrd tens
unfolding tens
tens-IsOrd = ground arith

unfoldable pub tens_ord : Ord ℕ
unfolding tens
tens_ord = record { cmp = tens; laws = tens-IsOrd }
