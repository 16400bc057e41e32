-- ===== src/SortedVectorMap/Writes.antt =====
-- The methods of map.rs that change one entry.
use rust_shed.Prelude.{
  ◌≡◌, refl, ◌⊎◌, inl, inr, none, some, [], ◌∷◌, arith, All, Ord, ◌≺◌, done, set, is_eq, is_lt,
  last, if◌then◌else◌, Bool-cases,
}
use rust_shed.SortedVector.Sorted.{find, upsert, delete}
use rust_shed.SortedVector.Update.{
  updated, upsert-IsSorted, find-upsert, delete-IsSorted, find-delete,
}
use rust_shed.SortedVector.Extend.{All-last, upsert-last}
use rust_shed.SortedVectorMap.{
  SortedVectorMap, key_of, find_index, insert, insert_found, remove, remove_entry, get_mut,
}
use rust_shed.SortedVectorMap.Reads.{IsValid, lookup, find_index_cases}

module _ {ℓ κ} {K : Type ℓ} {V : Type κ} ⦃o : Ord K⦄ where
  -- The new value under the key that is stored already.
  abbrev pub with_value : V → K × V → K × V
  with_value v e = (e.0, v)

  -- `insert` as a recursion on the vector.
  abbrev pub put : SortedVectorMap K V → K → V → SortedVectorMap K V
  put m k v = upsert key_of (with_value v) (k, v) m

  pub put-IsValid : (m : SortedVectorMap K V) (k : K) (v : V) → IsValid m → IsValid (put m k v)
  put-IsValid m k v = upsert-IsSorted key_of (with_value v) (k, v) m (λ e h. h)

  find-All : (k : K) (m : SortedVectorMap K V) → All (λ e. e.0 ≺ k) m → find key_of k m ≡ none
  find-All k [] a = refl
  find-All k (e ∷ m) a = ground (arith, a.0, find-All k m a.1)

  pub last_cases : (e : K × V) (m : SortedVectorMap K V) → (x : K × V) × (last (e ∷ m) ≡ some x)
  last_cases e [] = (e, refl)
  last_cases e (x ∷ m) = last_cases x m

  insert_found_lem :
      (m : SortedVectorMap K V) (k : K) (v : V)
      → IsValid m
      → insert_found m k v (find_index m k) ≡ done (put m k v, lookup m k)
  unfolding insert_found
  insert_found_lem m k v s = elim (find_index_cases m k s) [
    | inl (i, e, at, h) ↦ ground (arith, h.indexed, h.found, h.stored (with_value v) (k, v) refl)
    | inr (i, at, h) ↦ ground (arith, h.missing, h.inserted (with_value v) (k, v) refl)
  ]

  pub insert_lem :
      (m : SortedVectorMap K V) (k : K) (v : V)
      → IsValid m
      → insert m k v ≡ done (put m k v, lookup m k)
  unfolding insert
  insert_lem [] k v s = refl
  insert_lem (e ∷ m) k v s =
      let (x, h) = last_cases e m in
      elim (Bool-cases (is_lt (o.cmp x.0 k))) [
        | inl l ↦ at_end x h (ground arith)
        | inr l ↦ ground (arith, h, insert_found_lem (e ∷ m) k v s)
      ]
    where
      at_end :
          (x : K × V)
          → last (e ∷ m) ≡ some x
          → x.0 ≺ k
          → insert (e ∷ m) k v ≡ done (put (e ∷ m) k v, lookup (e ∷ m) k)
      at_end x h l =
          let all = All-last key_of k (e ∷ m) s h l in
          let none_found = find-All k (e ∷ m) all in
          let appended = upsert-last key_of (with_value v) (k, v) (e ∷ m) all in
          ground (arith, none_found, appended)

  -- On a valid map `insert` does not panic, leaves a valid map and returns the old value. An equal
  -- key then finds the new value under the key that was stored first; all others find what they did.
  pub insert_correct :
      (m : SortedVectorMap K V) (k : K) (v : V)
      → IsValid m
      → (m' : SortedVectorMap K V) × (insert m k v ≡ done (m', lookup m k))
        × IsValid m'
        × ((q : K)
            → find key_of q m' ≡ (
                if is_eq (o.cmp k q)
                then updated key_of (with_value v) (k, v) (find key_of q m)
                else find key_of q m))
  insert_correct m k v s = (
    put m k v,
    insert_lem m k v s,
    put-IsValid m k v s,
    λ q. find-upsert key_of (with_value v) (k, v) q m (λ e h. h) s,
  )

  pub remove_entry_lem :
      (m : SortedVectorMap K V) (q : K)
      → IsValid m
      → remove_entry m q ≡ done (delete key_of q m, find key_of q m)
  unfolding remove_entry
  remove_entry_lem m q s = elim (find_index_cases m q s) [
    | inl (i, e, at, h) ↦ ground (arith, h.removed, h.found)
    | inr (i, at, h) ↦ ground (arith, h.missing, h.unchanged)
  ]

  pub remove_lem :
      (m : SortedVectorMap K V) (q : K)
      → IsValid m
      → remove m q ≡ done (delete key_of q m, lookup m q)
  unfolding remove
  remove_lem m q s = elim (find_index_cases m q s) [
    | inl (i, e, at, h) ↦ ground (arith, h.removed, h.found)
    | inr (i, at, h) ↦ ground (arith, h.missing, h.unchanged)
  ]

  -- On a valid map `remove` and `remove_entry` do not panic, leave the same valid map and return
  -- what the key found. The key then finds nothing; all others find what they did.
  pub remove_correct :
      (m : SortedVectorMap K V) (k : K)
      → IsValid m
      → (m' : SortedVectorMap K V) × (remove m k ≡ done (m', lookup m k))
        × (remove_entry m k ≡ done (m', find key_of k m))
        × IsValid m'
        × ((q : K) → find key_of q m' ≡ (if is_eq (o.cmp k q) then none else find key_of q m))
  remove_correct m k s = (
    delete key_of k m,
    remove_lem m k s,
    remove_entry_lem m k s,
    delete-IsSorted key_of k m s,
    λ q. find-delete key_of k q m s,
  )

  -- On a valid map, writing through the reference that `get_mut` returns is an `insert` of the key,
  -- and there is a reference exactly where the key is present.
  pub get_mut_lem :
      (m : SortedVectorMap K V) (k : K)
      → IsValid m
      → ((get_mut m k ≡ done none) × (lookup m k ≡ none))
        ⊎ ((v : V) × (write : V → SortedVectorMap K V) × (get_mut m k ≡ done (some (v, write)))
            × (lookup m k ≡ some v)
            × ((w : V) → insert m k w ≡ done (write w, some v)))
  unfolding get_mut
  get_mut_lem m k s = elim (find_index_cases m k s) [
    | inl (i, e, at, h) ↦ inr (
      e.1,
      (λ w. set m i (e.0, w)),
      ground (arith, h.indexed),
      ground (arith, h.found),
      λ w. ground (arith, h.stored (with_value w) (k, w) refl, h.found, insert_lem m k w s),
    )
    | inr (i, at, h) ↦ inl (ground arith, ground (arith, h.missing))
  ]
