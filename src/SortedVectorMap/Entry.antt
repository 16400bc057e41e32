-- ===== src/SortedVectorMap/Entry.antt =====
-- The entry API of map.rs. An entry borrows the map, so it holds it; a method that consumes the
-- entry returns the map that it leaves. `&mut V` is the value with the function that writes it.
use rust_shed.Prelude.{
  ℕ, ◌-◌, Option, none, some, [], ◌∷◌, Ord, Outcome, done, ◌>>=◌, index, insert_at, remove_at, set,
  length,
}
use rust_shed.SortedVector.Search.{ok, err}
use rust_shed.SortedVectorMap.{SortedVectorMap, find_index}

pub record VacantEntry {ℓ κ} (K : Type ℓ) (V : Type κ) : Type (ℓ ⊔ κ) where
  pub key : K
  pub map : SortedVectorMap K V
  pub index : ℕ

pub record OccupiedEntry {ℓ κ} (K : Type ℓ) (V : Type κ) : Type (ℓ ⊔ κ) where
  pub map : SortedVectorMap K V
  pub index : ℕ

pub data Entry {ℓ κ} (K : Type ℓ) (V : Type κ) : Type (ℓ ⊔ κ) where
  vacant : VacantEntry K V → Entry K V
  occupied : OccupiedEntry K V → Entry K V

module _ {ℓ κ} {K : Type ℓ} {V : Type κ} where
  unfoldable pub vacant_key : VacantEntry K V → K
  vacant_key e = e.key

  unfoldable pub vacant_into_key : VacantEntry K V → K
  vacant_into_key e = e.key

  unfoldable pub vacant_insert : VacantEntry K V → V → Outcome (V × (V → SortedVectorMap K V))
  vacant_insert e value = do
    m ← insert_at e.map e.index (e.key, value)
    x ← index m e.index
    done (x.1, λ w. set m e.index (x.0, w))

  unfoldable pub occupied_key : OccupiedEntry K V → Outcome K
  occupied_key e = do x ← index e.map e.index; done x.0

  unfoldable pub occupied_remove_entry : OccupiedEntry K V → Outcome (SortedVectorMap K V × (K × V))
  occupied_remove_entry e = do r ← remove_at e.map e.index; done (r.1, r.0)

  unfoldable pub occupied_get : OccupiedEntry K V → Outcome V
  occupied_get e = do x ← index e.map e.index; done x.1

  -- `get_mut` and `into_mut`
  unfoldable pub occupied_get_mut : OccupiedEntry K V → Outcome (V × (V → SortedVectorMap K V))
  occupied_get_mut e = do x ← index e.map e.index; done (x.1, λ w. set e.map e.index (x.0, w))

  unfoldable pub occupied_insert : OccupiedEntry K V → V → Outcome (OccupiedEntry K V × V)
  occupied_insert e value = do
    x ← index e.map e.index
    done (record e { map = set e.map e.index (x.0, value) }, x.1)

  unfoldable pub occupied_remove : OccupiedEntry K V → Outcome (SortedVectorMap K V × V)
  occupied_remove e = do r ← remove_at e.map e.index; done (r.1, r.0.1)

  unfoldable pub or_insert_with :
      Entry K V → (Unit {0} → V) → Outcome (V × (V → SortedVectorMap K V))
  unfolding vacant_insert occupied_get_mut
  or_insert_with (occupied e) default = occupied_get_mut e
  or_insert_with (vacant e) default = vacant_insert e (default tt)

  unfoldable pub or_insert : Entry K V → V → Outcome (V × (V → SortedVectorMap K V))
  unfolding vacant_insert occupied_get_mut
  or_insert (occupied e) default = occupied_get_mut e
  or_insert (vacant e) default = vacant_insert e default

  unfoldable pub entry_key : Entry K V → Outcome K
  unfolding occupied_key vacant_key
  entry_key (occupied e) = occupied_key e
  entry_key (vacant e) = done (vacant_key e)

  unfoldable pub and_modify : Entry K V → (V → V) → Outcome (Entry K V)
  unfolding occupied_get_mut
  and_modify (occupied e) f = do
    r ← occupied_get_mut e
    done (occupied (record e { map = r.1 (f r.0) }))
  and_modify (vacant e) f = done (vacant e)

  unfoldable pub first_entry : SortedVectorMap K V → Option (OccupiedEntry K V)
  first_entry [] = none
  first_entry (x ∷ m) = some (record { map = x ∷ m; index = 0 })

  unfoldable pub last_entry : SortedVectorMap K V → Option (OccupiedEntry K V)
  last_entry [] = none
  last_entry (x ∷ m) = some (record { map = x ∷ m; index = length (x ∷ m) - 1 })

module _ {ℓ κ} {K : Type ℓ} {V : Type κ} ⦃o : Ord K⦄ where
  unfoldable pub entry : SortedVectorMap K V → K → Entry K V
  entry m key = elim (find_index m key) [
    | ok i ↦ occupied (record { map = m; index = i })
    | err i ↦ vacant (record { key = key; map = m; index = i })
  ]
