-- ===== src/SortedVectorMap/EntryLaws.antt =====
-- What an entry does to the map, against `insert` and `remove`.
use mathlib.Core.Option
use rust_shed.Prelude.{
  ℕ, zero, suc, ◌<◌, ◌≡◌, refl, ap, inl, inr, some, List, [], ◌∷◌, arith, Ord, done, ◌>>=◌, index,
  insert_at, set, length,
}
use rust_shed.SortedVector.Sorted.{find, delete}
use rust_shed.SortedVectorMap.{SortedVectorMap, key_of, insert, remove, remove_entry}
use rust_shed.SortedVectorMap.Reads.{IsValid, lookup, find_index_cases}
use rust_shed.SortedVectorMap.Writes.{put, with_value, insert_lem, remove_lem, remove_entry_lem}
use rust_shed.SortedVectorMap.Entry.{
  VacantEntry, OccupiedEntry, occupied, entry, or_insert, and_modify, occupied_get, occupied_key,
  occupied_insert, occupied_remove, occupied_remove_entry, vacant_insert,
}

module _ {ℓ} {A : Type ℓ} where
  -- What an insertion at an index leaves there.
  index-insert_at :
      (xs : List A) (i : ℕ) (x : A) (ys : List A) → insert_at xs i x ≡ done ys → index ys i ≡ done x
  index-insert_at xs zero x [] h = cc
  index-insert_at xs zero x (y ∷ ys) h = ground arith
  index-insert_at [] (suc i) x ys h = cc
  index-insert_at (z ∷ xs) (suc i) x [] h = absurd (ground arith)
  index-insert_at (z ∷ xs) (suc i) x (y ∷ ys) h = index-insert_at xs i x ys (ground arith)

  -- Writing to it again is the insertion of the other value.
  set-insert_at :
      (xs : List A) (i : ℕ) (x y : A) (ys : List A)
      → insert_at xs i x ≡ done ys
      → insert_at xs i y ≡ done (set ys i y)
  set-insert_at xs zero x y [] h = cc
  set-insert_at xs zero x y (z ∷ ys) h = ground arith
  set-insert_at [] (suc i) x y ys h = cc
  set-insert_at (a ∷ xs) (suc i) x y [] h = absurd (ground arith)
  set-insert_at (a ∷ xs) (suc i) x y (z ∷ ys) h = ground (arith, set-insert_at xs i x y ys)

  index-set : (xs : List A) (i : ℕ) (x : A) → i < length xs → index (set xs i x) i ≡ done x
  index-set [] i x h = absurd (omega arith)
  index-set (y ∷ xs) zero x h = refl
  index-set (y ∷ xs) (suc i) x h = index-set xs i x (omega arith)

  set-set : (xs : List A) (i : ℕ) (x y : A) → set (set xs i x) i y ≡ set xs i y
  set-set [] i x y = refl
  set-set (z ∷ xs) zero x y = refl
  set-set (z ∷ xs) (suc i) x y = ap (◌∷◌ z) (set-set xs i x y)

module _ {ℓ κ} {K : Type ℓ} {V : Type κ} ⦃o : Ord K⦄ where
  vacant_insert_lem :
      (e : VacantEntry K V) (d : V) (m : SortedVectorMap K V)
      → insert_at e.map e.index (e.key, d) ≡ done m
      → vacant_insert e d ≡ done (d, λ w. set m e.index (e.key, w))
  unfolding vacant_insert
  vacant_insert_lem e d m h = rw (h, index-insert_at e.map e.index (e.key, d) m h)

  -- For a valid map: `or_insert` on the entry of a key does not panic, its reference reads the stored
  -- value, or the default where the key is missing, and a write of `w` through it leaves the map
  -- that `insert` of the key and `w` leaves.
  pub or_insert_correct :
      (m : SortedVectorMap K V) (k : K) (d : V)
      → IsValid m
      → (v : V) × (write : V → SortedVectorMap K V) × (or_insert (entry m k) d ≡ done (v, write))
        × (v ≡ Option.get_or (lookup m k) d)
        × ((w : V) → insert m k w ≡ done (write w, lookup m k))
  unfolding entry or_insert
  or_insert_correct m k d s = elim (find_index_cases m k s) [
    | inl (i, e, at, h) ↦ (
      e.1,
      (λ w. set m i (e.0, w)),
      ground (arith, h.indexed),
      ground (arith, h.found),
      λ w. ground (arith, h.stored (with_value w) (k, w) refl, insert_lem m k w s),
    )
    | inr (i, at, h) ↦
        let inserted = λ (v : V). h.inserted (with_value v) (k, v) refl in
        (
          d,
          (λ w. set (put m k d) i (k, w)),
          rw (at, or_insert)
              (vacant_insert_lem (record { key = k; map = m; index = i }) d (put m k d)
                (inserted d)),
          ground (arith, h.missing),
          λ w. ground (
            arith,
            inserted w,
            set-insert_at m i (k, d) (k, w) (put m k d) (inserted d),
            insert_lem m k w s,
            h.missing,
          ),
        )
  ]

  -- For a valid map: `and_modify` then `or_insert` on the entry of a key do not panic. The reference
  -- reads the modified value, or the default where the key is missing, and a write of `w` through it
  -- leaves the map that `insert` of the key and `w` leaves.
  pub and_modify_correct :
      (m : SortedVectorMap K V) (k : K) (f : V → V) (d : V)
      → IsValid m
      → (v : V) × (write : V → SortedVectorMap K V) × ((and_modify (entry m k) f >>= λ e.
            or_insert e d)
          ≡ done (v, write))
        × (v ≡ Option.get_or (Option.map f (lookup m k)) d)
        × ((w : V) → insert m k w ≡ done (write w, lookup m k))
  unfolding entry or_insert and_modify
  and_modify_correct m k f d s = elim (find_index_cases m k s) [
    | inl (i, e, at, h) ↦ (
      f e.1,
      (λ w. set (set m i (e.0, f e.1)) i (e.0, w)),
      rw (at, and_modify)
          (rw (h.indexed, and_modify) (rw (index-set m i (e.0, f e.1) h.inside, or_insert))),
      ground (arith, h.found),
      λ w. ground (
        arith,
        h.stored (with_value w) (k, w) refl,
        insert_lem m k w s,
        set-set m i (e.0, f e.1) (e.0, w),
        h.found,
      ),
    )
    | inr (i, at, h) ↦
        let (v, write, e, r, w) = or_insert_correct m k d s in
        (v, write, ground (arith, at, e), ground (arith, r, h.missing), w)
  ]

  -- For a valid map and the occupied entry of a key: `key` and `get` read the stored pair, `remove`
  -- and `remove_entry` leave the map that those of the map do, `insert` leaves that of `insert`, and
  -- none of them panics.
  pub occupied_correct :
      (m : SortedVectorMap K V) (k : K) (e : OccupiedEntry K V)
      → IsValid m
      → entry m k ≡ occupied e
      → (x : K × V) × (m' : SortedVectorMap K V) × (find key_of k m ≡ some x)
        × (occupied_key e ≡ done x.0)
        × (occupied_get e ≡ done x.1)
        × (occupied_remove e ≡ done (m', x.1))
        × (remove m k ≡ done (m', some x.1))
        × (occupied_remove_entry e ≡ done (m', x))
        × (remove_entry m k ≡ done (m', some x))
        × ((w : V)
            → (e' : OccupiedEntry K V) × (occupied_insert e w ≡ done (e', x.1))
              × (insert m k w ≡ done (e'.map, some x.1)))
  unfolding entry occupied_key occupied_get occupied_remove occupied_remove_entry occupied_insert
  occupied_correct m k e s at_entry = elim (find_index_cases m k s) [
    | inl (i, x, at, h) ↦ (
      x,
      delete key_of k m,
      h.found,
      ground (arith, h.indexed),
      ground (arith, h.indexed),
      ground (arith, h.removed),
      ground (arith, remove_lem m k s, h.found),
      ground (arith, h.removed),
      ground (arith, remove_entry_lem m k s, h.found),
      λ w. (
        record e { map = set m i (x.0, w) },
        ground (arith, h.indexed),
        ground (arith, insert_lem m k w s, h.stored (with_value w) (k, w) refl, h.found),
      ),
    )
    | inr (i, at, h) ↦ absurd (ground arith)
  ]
