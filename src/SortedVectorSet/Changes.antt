-- ===== src/SortedVectorSet/Changes.antt =====
-- The methods of set.rs that read or change one value.
use rust_shed.Prelude.{
  ℕ, ◌≡◌, refl, ap, ◌∙◌, cmp_refl, sym, subst, ◌⊎◌, inl, inr, true, none, some, [], ◌∷◌, arith, All,
  Ord, ◌≺◌, done, is_eq, is_lt, is_some, is_none, last, if◌then◌else◌, Bool-cases,
}
use rust_shed.SortedVector.Search.{IndexResult, ok, err}
use rust_shed.SortedVector.Sorted.{IsSorted, find, upsert, delete, search-locate}
use rust_shed.SortedVector.Place.{Hit, Miss, Place, locate-Place}
use rust_shed.SortedVector.Update.{upsert-IsSorted, find-upsert, delete-IsSorted, find-delete}
use rust_shed.SortedVector.Extend.{All-last, upsert-last}
use rust_shed.SortedVectorSet.{
  SortedVectorSet, itself, find_index, contains, get, replace, replace_found, insert, take, remove,
}

module _ {ℓ} {T : Type ℓ} ⦃o : Ord T⦄ where
  abbrev pub IsValid : SortedVectorSet T → Type 0
  IsValid s = IsSorted itself s

  Place-cases :
      (q : T) (s : SortedVectorSet T) (r : IndexResult)
      → Place itself q s r
      → ((i : ℕ) × (e : T) × (r ≡ ok i) × Hit itself q s i e)
        ⊎ ((i : ℕ) × (r ≡ err i) × Miss itself q s i)
  Place-cases q s (ok i) (e, h) = inl (i, e, refl, h)
  Place-cases q s (err i) h = inr (i, refl, h)

  pub find_index_cases :
      (s : SortedVectorSet T) (q : T)
      → IsValid s
      → ((i : ℕ) × (e : T) × (find_index s q ≡ ok i) × Hit itself q s i e)
        ⊎ ((i : ℕ) × (find_index s q ≡ err i) × Miss itself q s i)
  unfolding find_index
  find_index_cases s q v =
      Place-cases q s (find_index s q)
        (subst (Place itself q s) (sym (search-locate itself q s v)) (locate-Place itself q s v))

  contains_lem :
      (s : SortedVectorSet T) (q : T) → IsValid s → contains s q ≡ is_some (find itself q s)
  unfolding contains
  contains_lem s q v = elim (find_index_cases s q v) [
    | inl (i, e, at, h) ↦ ground (arith, h.found)
    | inr (i, at, h) ↦ ground (arith, h.missing)
  ]

  get_lem : (s : SortedVectorSet T) (q : T) → IsValid s → get s q ≡ done (find itself q s)
  unfolding get
  get_lem s q v = elim (find_index_cases s q v) [
    | inl (i, e, at, h) ↦ ground (arith, h.indexed, h.found)
    | inr (i, at, h) ↦ ground (arith, h.missing)
  ]

  -- `replace` as a recursion on the vector.
  abbrev pub put : SortedVectorSet T → T → SortedVectorSet T
  put s t = upsert itself (λ e. t) t s

  find-All : (k : T) (s : SortedVectorSet T) → All (λ e. e ≺ k) s → find itself k s ≡ none
  find-All k [] a = refl
  find-All k (e ∷ s) a = ground (arith, a.0, find-All k s a.1)

  pub last_cases : (e : T) (s : SortedVectorSet T) → (x : T) × (last (e ∷ s) ≡ some x)
  last_cases e [] = (e, refl)
  last_cases e (x ∷ s) = last_cases x s

  replace_found_lem :
      (s : SortedVectorSet T) (t : T)
      → IsValid s
      → replace_found s t (find_index s t) ≡ done (put s t, find itself t s)
  unfolding replace_found
  replace_found_lem s t v = elim (find_index_cases s t v) [
    | inl (i, e, at, h) ↦ ground (arith, h.indexed, h.found, h.stored (λ x. t) t refl)
    | inr (i, at, h) ↦ ground (arith, h.missing, h.inserted (λ x. t) t refl)
  ]

  pub replace_lem :
      (s : SortedVectorSet T) (t : T) → IsValid s → replace s t ≡ done (put s t, find itself t s)
  unfolding replace
  replace_lem [] t v = refl
  replace_lem (e ∷ s) t v =
      let (x, h) = last_cases e s in
      elim (Bool-cases (is_lt (o.cmp x t))) [
        | inl l ↦ at_end x h (ground arith)
        | inr l ↦ ground (arith, h, replace_found_lem (e ∷ s) t v)
      ]
    where
      at_end :
          (x : T)
          → last (e ∷ s) ≡ some x
          → x ≺ t
          → replace (e ∷ s) t ≡ done (put (e ∷ s) t, find itself t (e ∷ s))
      at_end x h l =
          let all = All-last itself t (e ∷ s) v h l in
          let none_found = find-All t (e ∷ s) all in
          let appended = upsert-last itself (λ y. t) t (e ∷ s) all in
          ground (arith, none_found, appended)

  pub put-IsValid : (s : SortedVectorSet T) (t : T) → IsValid s → IsValid (put s t)
  put-IsValid s t = upsert-IsSorted itself (λ e. t) t s (λ e h. ground (arith, cmp_refl t))

  pub find-put :
      (s : SortedVectorSet T) (t q : T)
      → IsValid s
      → find itself q (put s t) ≡ (if is_eq (o.cmp t q) then some t else find itself q s)
  find-put s t q v = ground (arith, find-upsert itself (λ e. t) t q s (λ e h. cmp_refl t) v)

  -- On a valid set `replace` and `insert` do not panic and leave the same valid set, in which a value
  -- that compares equal finds the new one and every other what it did. `replace` returns the value
  -- that was there, and `insert` whether there was none; `get` and `contains` read accordingly.
  pub replace_correct :
      (s : SortedVectorSet T) (t : T)
      → IsValid s
      → (s' : SortedVectorSet T) × (replace s t ≡ done (s', find itself t s))
        × (insert s t ≡ done (s', is_none (find itself t s)))
        × IsValid s'
        × ((q : T) → get s' q ≡ done (if is_eq (o.cmp t q) then some t else find itself q s))
        × ((q : T) → contains s' q ≡ (if is_eq (o.cmp t q) then true else contains s q))
  unfolding insert
  replace_correct s t v =
      let v' = put-IsValid s t v in
      (
        put s t,
        replace_lem s t v,
        ground (arith, replace_lem s t v),
        v',
        (λ q. get_lem (put s t) q v' ∙ ap done (find-put s t q v)),
        λ q. ground (arith, contains_lem (put s t) q v', contains_lem s q v, find-put s t q v),
      )

  take_lem :
      (s : SortedVectorSet T) (t : T)
      → IsValid s
      → take s t ≡ done (delete itself t s, find itself t s)
  unfolding take
  take_lem s t v = elim (find_index_cases s t v) [
    | inl (i, e, at, h) ↦ ground (arith, h.removed, h.found)
    | inr (i, at, h) ↦ ground (arith, h.missing, h.unchanged)
  ]

  -- On a valid set `take` and `remove` do not panic and leave the same valid set, in which the value
  -- finds nothing and every other what it did. `take` returns the value that was there, and `remove`
  -- whether there was one.
  pub take_correct :
      (s : SortedVectorSet T) (t : T)
      → IsValid s
      → (s' : SortedVectorSet T) × (take s t ≡ done (s', find itself t s))
        × (remove s t ≡ done (s', is_some (find itself t s)))
        × IsValid s'
        × ((q : T) → get s' q ≡ done (if is_eq (o.cmp t q) then none else find itself q s))
  unfolding remove
  take_correct s t v =
      let v' = delete-IsSorted itself t s v in
      (
        delete itself t s,
        take_lem s t v,
        ground (arith, take_lem s t v),
        v',
        λ q. get_lem (delete itself t s) q v' ∙ ap done (find-delete itself t q s v),
      )
