-- ===== src/SortedVectorMap/Ends.antt =====
-- `first_key_value`, `last_key_value`, `pop_last` and `retain` of map.rs.
use rust_shed.Prelude.{
  ◌≡◌, refl, ap, Bool, Option, none, some, [], ◌∷◌, ◌++◌, arith, All, Ord, ◌≺◌, if◌then◌else◌, ◌⊎◌,
  inl, inr, last, pop,
}
use rust_shed.SortedVector.Sorted.{Above, find, find-Above, Above-eq}
use rust_shed.SortedVectorMap.{
  SortedVectorMap, key_of, first_key_value, last_key_value, pop_last, retain,
}
use rust_shed.SortedVectorMap.Reads.{IsValid}

module _ {ℓ κ} {K : Type ℓ} {V : Type κ} ⦃o : Ord K⦄ where
  -- What `pop_last` and `last_key_value` return, and what is left, of a map that is not empty.
  pub pop_parts :
      (x : K × V) (m : SortedVectorMap K V)
      → IsValid (x ∷ m)
      → (e : K × V) × (last (x ∷ m) ≡ some e)
        × ((pop (x ∷ m)).0 ≡ some e)
        × ((pop (x ∷ m)).1 ++ e ∷ [] ≡ x ∷ m)
        × All (λ y. y.0 ≺ e.0) (pop (x ∷ m)).1
        × IsValid (pop (x ∷ m)).1
        × ((k : K) → Above key_of k (x ∷ m) → Above key_of k (pop (x ∷ m)).1 × (k ≺ e.0))
  pop_parts x [] s = (x, refl, refl, refl, tt, tt, λ k a. (tt, a.0))
  pop_parts x (y ∷ m) s =
      let (e, l, p, w, a, v, above) = pop_parts y m s.1 in
      let here = above x.0 s.0 in
      (
        e,
        l,
        p,
        ap (◌∷◌ x) w,
        (here.1, a),
        (here.0, v),
        λ k b. let r = above k b.1 in ((b.0, r.0), r.1),
      )

  -- On a valid map `pop_last` takes off the entry that `last_key_value` reads, and leaves a valid map
  -- of the entries before it, whose keys are all less; the entry that `first_key_value` reads is the
  -- front of the map, and all other keys are greater. An empty map has neither.
  pub ends_correct :
      (m : SortedVectorMap K V)
      → IsValid m
      → ((m ≡ [])
          × (pop_last m ≡ (none, []))
          × (last_key_value m ≡ none)
          × (first_key_value m ≡ none))
        ⊎ ((e : K × V) × (rest : SortedVectorMap K V) × (f : K × V) × (behind : SortedVectorMap K V)
            × (pop_last m ≡ (some e, rest))
            × (last_key_value m ≡ some e)
            × (rest ++ e ∷ [] ≡ m)
            × All (λ y. y.0 ≺ e.0) rest
            × IsValid rest
            × (first_key_value m ≡ some f)
            × (f ∷ behind ≡ m)
            × Above key_of f.0 behind)
  unfolding pop_last last_key_value first_key_value
  ends_correct [] s = inl (refl, refl, refl, refl)
  ends_correct (x ∷ m) s =
      let (e, l, p, w, a, v, above) = pop_parts x m s in
      inr (e, (pop (x ∷ m)).1, x, m, ground (arith, p), l, w, a, v, refl, refl, s.0)

  -- A closure with no state of its own: it keeps an entry by `p` and leaves the value `g`.
  abbrev pub pure_closure : (K → V → Bool) → (K → V → V) → Unit {0} → K → V → Unit {0} × V × Bool
  pure_closure p g s k v = (s, g k v, p k v)

  Above-retain :
      {S : Type 0} (f : S → K → V → S × V × Bool) (s : S) (k : K) (m : SortedVectorMap K V)
      → Above key_of k m
      → Above key_of k (retain f s m).1
  unfolding retain
  Above-retain f s k [] a = tt
  Above-retain f s k ((j, v) ∷ m) a = ground (arith, Above-retain f (f s j v).0 k m a.1)

  -- `retain` keeps a map valid, whatever the closure does to values and to its own state.
  pub retain-IsValid :
      {S : Type 0} (f : S → K → V → S × V × Bool) (s : S) (m : SortedVectorMap K V)
      → IsValid m
      → IsValid (retain f s m).1
  unfolding retain
  retain-IsValid f s [] v = tt
  retain-IsValid f s ((j, w) ∷ m) v =
      ground (arith, Above-retain f (f s j w).0 j m v.0, retain-IsValid f (f s j w).0 m v.1)

  -- What a key finds after a `retain`.
  abbrev pub kept : (K → V → Bool) → (K → V → V) → Option (K × V) → Option (K × V)
  kept p g none = none
  kept p g (some e) = if p e.0 e.1 then some (e.0, g e.0 e.1) else none

  find-retain :
      (p : K → V → Bool) (g : K → V → V) (m : SortedVectorMap K V) (q : K)
      → IsValid m
      → find key_of q (retain (pure_closure p g) tt m).1 ≡ kept p g (find key_of q m)
  unfolding retain
  find-retain p g [] q s = refl
  find-retain p g ((j, w) ∷ m) q s =
      ground (
        arith,
        find-retain p g m q s.1,
        find-Above key_of q m,
        Above-eq key_of q j m,
        o.cmp_swap j q,
      )

  -- On a valid map `retain` with a closure that keeps no state leaves a valid map, in which a key
  -- finds its entry exactly where the closure kept it, with the value that the closure left.
  pub retain_correct :
      (p : K → V → Bool) (g : K → V → V) (m : SortedVectorMap K V)
      → IsValid m
      → IsValid (retain (pure_closure p g) tt m).1
        × ((q : K) → find key_of q (retain (pure_closure p g) tt m).1 ≡ kept p g (find key_of q m))
  retain_correct p g m s = (retain-IsValid (pure_closure p g) tt m s, λ q. find-retain p g m q s)
