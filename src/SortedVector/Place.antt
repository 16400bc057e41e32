-- ===== src/SortedVector/Place.antt =====
-- What a client of `find_index` may use: the vector operations at the index that it returns, and
-- the recursions on the vector that they amount to.
use Prim.Native.Nat.Ordering.{lt, gt}
use rust_shed.Prelude.{
  ℕ, suc, ◌≤◌, ◌<◌, ◌≡◌, refl, ◌≢◌, subst, inl, inr, none, some, List, [], ◌∷◌, arith, All, Ord,
  ◌≺◌, ◌≈◌, Ordering-cases, done, index, insert_at, remove_at, set, length, take, drop,
}
use rust_shed.SortedVector.Search.{IndexResult, ok, err}
use rust_shed.SortedVector.Sorted.{
  IsSorted, Above, find, shift, locate, upsert, delete, find-Above, Above-of_ge,
}

module _ {ℓ κ} {E : Type ℓ} {K : Type κ} ⦃o : Ord K⦄ (key : E → K) where
  -- At an index of a hit.
  pub record Hit (q : K) (es : List E) (i : ℕ) (e : E) : Type (ℓ ⊔ κ) where
    pub equal : key e ≈ q
    pub inside : i < length es
    pub indexed : index es i ≡ done e
    pub found : find key q es ≡ some e
    pub stored : (upd : E → E) (x : E) → key x ≡ q → set es i (upd e) ≡ upsert key upd x es
    pub removed : remove_at es i ≡ done (e, delete key q es)
    pub below : All (λ x. key x ≺ q) (take i es)
    pub rest : drop i es ≡ e ∷ drop (suc i) es
    pub above : Above key q (drop (suc i) es)

  -- At an index where the key would go.
  pub record Miss (q : K) (es : List E) (i : ℕ) : Type (ℓ ⊔ κ) where
    pub inside : i ≤ length es
    pub missing : find key q es ≡ none
    pub inserted : (upd : E → E) (x : E) → key x ≡ q → insert_at es i x ≡ done (upsert key upd x es)
    pub unchanged : delete key q es ≡ es
    pub below : All (λ x. key x ≺ q) (take i es)
    pub above : Above key q (drop i es)

  abbrev pub Place : K → List E → IndexResult → Type (ℓ ⊔ κ)
  Place q es (ok i) = (e : E) × Hit q es i e
  Place q es (err i) = Miss q es i

  Place-shift :
      (q : K) (y : E) (es : List E) (r : IndexResult)
      → key y ≺ q
      → Place q es r
      → Place q (y ∷ es) (shift r)
  Place-shift q y es (ok i) l (e, h) = (
    e,
    record {
      equal = h.equal;
      inside = omega (arith, h.inside);
      indexed = h.indexed;
      found = ground (arith, h.found);
      stored = λ upd x k. ground (arith, h.stored upd x k);
      removed = ground (arith, h.removed);
      below = (l, h.below);
      rest = h.rest;
      above = h.above;
    },
  )
  Place-shift q y es (err i) l h = record {
    inside = omega (arith, h.inside);
    missing = ground (arith, h.missing);
    inserted = λ upd x k. ground (arith, h.inserted upd x k);
    unchanged = ground (arith, h.unchanged);
    below = (l, h.below);
    above = h.above;
  }

  Place-hit : (q : K) (y : E) (es : List E) → key y ≈ q → Above key q es → Place q (y ∷ es) (ok 0)
  Place-hit q y es m a = (
    y,
    record {
      equal = m;
      inside = omega arith;
      indexed = refl;
      found = ground arith;
      stored = λ upd x k. ground arith;
      removed = ground arith;
      below = tt;
      rest = refl;
      above = a;
    },
  )

  Place-miss :
      (q : K) (y : E) (es : List E)
      → o.cmp (key y) q ≡ gt
      → Above key q es
      → Place q (y ∷ es) (err 0)
  Place-miss q y es g a = record {
    inside = omega arith;
    missing = ground (arith, find-Above key q es a);
    inserted = λ upd x k. ground arith;
    unchanged = ground arith;
    below = tt;
    above = (ground (arith, o.cmp_swap (key y) q), a);
  }

  -- The search for a key answers with its place.
  pub locate-Place : (q : K) (es : List E) → IsSorted key es → Place q es (locate key q es)
  locate-Place q [] s = record {
    inside = omega arith;
    missing = refl;
    inserted = λ upd x k. refl;
    unchanged = refl;
    below = tt;
    above = tt;
  }
  locate-Place q (y ∷ es) s = elim (Ordering-cases (o.cmp (key y) q)) [
    | inl l ↦
        at (shift (locate key q es)) (ground arith)
          (Place-shift q y es (locate key q es) l (locate-Place q es s.1))
    | inr (inl m) ↦ at (ok 0) (ground arith) (Place-hit q y es m (behind (ground arith)))
    | inr (inr g) ↦ at (err 0) (ground arith) (Place-miss q y es g (behind (ground arith)))
  ]
    where
      at :
          (r : IndexResult)
          → r ≡ locate key q (y ∷ es)
          → Place q (y ∷ es) r
          → Place q (y ∷ es) (locate key q (y ∷ es))
      at r = subst (Place q (y ∷ es))

      behind : o.cmp (key y) q ≢ lt → Above key q es
      behind = Above-of_ge key q y es s
