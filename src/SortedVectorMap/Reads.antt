-- ===== src/SortedVectorMap/Reads.antt =====
-- The reading methods of map.rs, against a scan of the vector.
use mathlib.Core.Option
use rust_shed.Prelude.{
  ℕ, ◌≡◌, refl, sym, subst, ◌⊎◌, inl, inr, Option, none, some, arith, Ord, done, panic, is_some,
}
use rust_shed.SortedVector.Search.{IndexResult, ok, err}
use rust_shed.SortedVector.Sorted.{IsSorted, find, search-locate}
use rust_shed.SortedVector.Place.{Hit, Miss, Place, locate-Place}
use rust_shed.SortedVectorMap.{
  SortedVectorMap, key_of, find_index, get, get_key_value, contains_key, index_of,
}

module _ {ℓ κ} {K : Type ℓ} {V : Type κ} ⦃o : Ord K⦄ where
  -- The vector is in strictly ascending order of its keys.
  abbrev pub IsValid : SortedVectorMap K V → Type 0
  IsValid m = IsSorted key_of m

  -- The value of the first entry for a key: what the map means.
  abbrev pub lookup : SortedVectorMap K V → K → Option V
  lookup m q = Option.map (λ e. e.1) (find key_of q m)

  Place-cases :
      (q : K) (m : SortedVectorMap K V) (r : IndexResult)
      → Place key_of q m r
      → ((i : ℕ) × (e : K × V) × (r ≡ ok i) × Hit key_of q m i e)
        ⊎ ((i : ℕ) × (r ≡ err i) × Miss key_of q m i)
  Place-cases q m (ok i) (e, h) = inl (i, e, refl, h)
  Place-cases q m (err i) h = inr (i, refl, h)

  -- The index that the search returns is that of the entry, or where it would go.
  pub find_index_cases :
      (m : SortedVectorMap K V) (q : K)
      → IsValid m
      → ((i : ℕ) × (e : K × V) × (find_index m q ≡ ok i) × Hit key_of q m i e)
        ⊎ ((i : ℕ) × (find_index m q ≡ err i) × Miss key_of q m i)
  unfolding find_index
  find_index_cases m q s =
      Place-cases q m (find_index m q)
        (subst (Place key_of q m) (sym (search-locate key_of q m s)) (locate-Place key_of q m s))

  pub get_lem : (m : SortedVectorMap K V) (q : K) → IsValid m → get m q ≡ done (lookup m q)
  unfolding get
  get_lem m q s = elim (find_index_cases m q s) [
    | inl (i, e, at, h) ↦ ground (arith, h.indexed, h.found)
    | inr (i, at, h) ↦ ground (arith, h.missing)
  ]

  pub get_key_value_lem :
      (m : SortedVectorMap K V) (q : K) → IsValid m → get_key_value m q ≡ done (find key_of q m)
  unfolding get_key_value
  get_key_value_lem m q s = elim (find_index_cases m q s) [
    | inl (i, e, at, h) ↦ ground (arith, h.indexed, h.found)
    | inr (i, at, h) ↦ ground (arith, h.missing)
  ]

  pub contains_key_lem :
      (m : SortedVectorMap K V) (q : K) → IsValid m → contains_key m q ≡ is_some (lookup m q)
  unfolding contains_key
  contains_key_lem m q s = elim (find_index_cases m q s) [
    | inl (i, e, at, h) ↦ ground (arith, h.found)
    | inr (i, at, h) ↦ ground (arith, h.missing)
  ]

  -- `m[q]` panics exactly where the key is missing.
  pub index_of_lem :
      (m : SortedVectorMap K V) (q : K)
      → IsValid m
      → index_of m q ≡ elim (lookup m q) [ none ↦ panic | some v ↦ done v ]
  unfolding index_of
  index_of_lem m q s = elim (find_index_cases m q s) [
    | inl (i, e, at, h) ↦ ground (arith, h.indexed, h.found)
    | inr (i, at, h) ↦ ground (arith, h.missing)
  ]

  -- On a valid map no reading method panics but `m[q]`, which does where the key is missing, and all
  -- of them see the value that a scan of the vector finds.
  pub reads_agree :
      (m : SortedVectorMap K V) (q : K)
      → IsValid m
      → (get m q ≡ done (lookup m q))
        × (get_key_value m q ≡ done (find key_of q m))
        × (contains_key m q ≡ is_some (lookup m q))
        × (index_of m q ≡ elim (lookup m q) [ none ↦ panic | some v ↦ done v ])
  reads_agree m q s =
      (get_lem m q s, get_key_value_lem m q s, contains_key_lem m q s, index_of_lem m q s)
