-- ===== src/SortedVector/Ascending.antt =====
-- Vectors in ascending order that may hold a key several times, as `sort_by` returns them, and what
-- `DedupIter` makes of them.
use Prim.Native.Nat.Ordering.{gt}
use rust_shed.Prelude.{
  ◌≤◌, ◌≡◌, refl, inl, inr, ◌≢◌, Option, none, some, List, [], ◌∷◌, arith, All, Ord, ◌≺◌, ◌≈◌,
  Ordering-cases, is_eq, if◌then◌else◌, or_else, cmp_eq_right, cmp_refl, length,
}
use rust_shed.SortedVector.Sorted.{IsSorted, Above, find, Above-eq}
use rust_shed.SortedVector.Iter.{skip_dups}

module _ {ℓ κ} {E : Type ℓ} {K : Type κ} ⦃o : Ord K⦄ (key : E → K) where
  -- No key of the vector is less.
  abbrev pub AtLeast : K → List E → Type 0
  AtLeast k = All (λ e. o.cmp k (key e) ≢ gt)

  abbrev pub IsAscending : List E → Type 0
  IsAscending [] = Unit
  IsAscending (e ∷ es) = AtLeast (key e) es × IsAscending es

  -- The last entry whose key compares equal.
  abbrev pub latest : K → List E → Option E
  latest q [] = none
  latest q (e ∷ es) = or_else (latest q es) (if is_eq (o.cmp (key e) q) then some e else none)

  pub latest-Above : (q : K) (es : List E) → Above key q es → latest q es ≡ none
  latest-Above q [] h = refl
  latest-Above q (e ∷ es) h = ground (arith, o.cmp_swap q (key e), latest-Above q es h.1)

  -- In strict order the last entry for a key is the first.
  pub latest-find : (q : K) (es : List E) → IsSorted key es → latest q es ≡ find key q es
  latest-find q [] s = refl
  latest-find q (e ∷ es) s = ground (
    arith,
    latest-find q es s.1,
    latest-Above q es,
    Above-eq key q (key e) es,
    o.cmp_swap (key e) q,
  )

  Above-of_AtLeast : (k b : K) (es : List E) → k ≺ b → AtLeast b es → Above key k es
  Above-of_AtLeast k b [] h a = tt
  Above-of_AtLeast k b (e ∷ es) h a = (head, Above-of_AtLeast k b es h a.1)
    where
      head : k ≺ key e
      head = elim (Ordering-cases (o.cmp b (key e))) [
        | inl l ↦ o.cmp_lt_trans k b (key e) h l
        | inr (inl m) ↦ ground (arith, cmp_eq_right b (key e) k m)
        | inr (inr g) ↦ absurd (a.0 g)
      ]

  pub Above-first :
      (k : K) (b : E) (es : List E) → k ≺ key b → IsAscending (b ∷ es) → Above key k (b ∷ es)
  Above-first k b es h a = (h, Above-of_AtLeast k (key b) es h a.0)

  -- What `DedupIter::next` takes from a non-empty vector, and what it leaves.
  pub record Skipped (b : E) (es : List E) (next : E) (rest : List E) : Type (ℓ ⊔ κ) where
    pub equal : key next ≈ key b
    pub above : Above key (key next) rest
    pub ascending : IsAscending rest
    pub shorter : length rest ≤ length es
    pub latest_lem :
        (q : K)
        → latest q (b ∷ es) ≡ (if is_eq (o.cmp (key next) q) then some next else latest q rest)

  Skipped-more :
      (b x : E) (es : List E) {next : E} {rest : List E}
      → key x ≈ key b
      → Skipped x es next rest
      → Skipped b (x ∷ es) next rest
  Skipped-more b x es {next} m s = record {
    equal = ground (arith, s.equal, o.cmp_eq_left (key next) (key x) (key b));
    above = s.above;
    ascending = s.ascending;
    shorter = omega (arith, s.shorter);
    latest_lem = λ q. ground (
      arith,
      s.latest_lem q,
      s.equal,
      o.cmp_eq_left (key next) (key x) q,
      o.cmp_eq_left (key x) (key b) q,
    );
  }

  pub skip_dups-Skipped :
      (b : E) (es : List E)
      → IsAscending (b ∷ es)
      → Skipped b es (skip_dups key b es).0 (skip_dups key b es).1
  unfolding skip_dups
  skip_dups-Skipped b [] a = record {
    equal = cmp_refl (key b);
    above = tt;
    ascending = tt;
    shorter = omega arith;
    latest_lem = λ q. refl;
  }
  skip_dups-Skipped b (x ∷ es) a = elim (Ordering-cases (o.cmp (key x) (key b))) [
    | inl l ↦ absurd (a.0.0 (ground (arith, o.cmp_swap (key x) (key b))))
    | inr (inl m) ↦ rw m (Skipped-more b x es m (skip_dups-Skipped x es a.1))
    | inr (inr g) ↦ rw g (record {
      equal = cmp_refl (key b);
      above = Above-first (key b) x es (ground (arith, o.cmp_swap (key x) (key b))) a.1;
      ascending = a.1;
      shorter = omega arith;
      latest_lem = λ q. ground (
        arith,
        latest-Above q (x ∷ es),
        Above-eq key q (key b) (x ∷ es),
        o.cmp_swap (key b) q,
        o.cmp_swap (key x) (key b),
        Above-first (key b) x es,
      );
    })
  ]

  Above-AtLeast : (k : K) (es : List E) → Above key k es → AtLeast k es
  Above-AtLeast k [] a = tt
  Above-AtLeast k (e ∷ es) a = ((λ g. ground (arith, a.0)), Above-AtLeast k es a.1)

  pub IsSorted-IsAscending : (es : List E) → IsSorted key es → IsAscending es
  IsSorted-IsAscending [] s = tt
  IsSorted-IsAscending (e ∷ es) s = (Above-AtLeast (key e) es s.0, IsSorted-IsAscending es s.1)
