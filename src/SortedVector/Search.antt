-- ===== src/SortedVector/Search.antt =====
-- `slice::binary_search_by` of the standard library, which `find_index` of map.rs and set.rs calls,
-- and that it finds the one place that a key has in a sorted vector.
use Prim.Native.Nat.Ordering.{lt, eq, gt}
use rust_shed.Prelude.{
  ℕ, zero, suc, ◌+◌, ◌-◌, ◌/◌, ◌≤◌, ◌<◌, Ordering, ◌≡◌, refl, ◌⊎◌, true, false, List, [], ◌∷◌,
  arith, ltb, is_gt, if◌then◌else◌, length,
}

-- `Result<usize, usize>`: the index of a hit, or the index at which the key would go.
pub data IndexResult : Type 0 where
  ok err : ℕ → IndexResult

-- The loop: while size > 1, move `base` to the middle unless the probe there is greater. The fuel
-- is the length, which bounds the rounds.
narrow : ℕ → (ℕ → Ordering) → ℕ → ℕ → ℕ
narrow zero g base size = base
narrow (suc fuel) g base size = elim (ltb 1 size) [
  | true ↦
      narrow fuel g (if is_gt (g (base + size / 2)) then base else base + size / 2)
        (size - size / 2)
  | false ↦ base
]

finish : (ℕ → Ordering) → ℕ → IndexResult
finish g base = elim (g base) [ lt ↦ err (base + 1) | eq ↦ ok base | gt ↦ err base ]

search : (ℕ → Ordering) → ℕ → IndexResult
unfolding narrow finish
search g n = if ltb 0 n then finish g (narrow n g 0 n) else err 0

-- The probe at an index. No index past the end is ever probed.
abbrev pub probe {ℓ} : {A : Type ℓ} → (A → Ordering) → List A → ℕ → Ordering
probe f [] i = gt
probe f (x ∷ xs) zero = f x
probe f (x ∷ xs) (suc i) = probe f xs i

unfoldable pub binary_search_by {ℓ} : {A : Type ℓ} → List A → (A → Ordering) → IndexResult
unfolding search
binary_search_by xs f = search (probe f xs) (length xs)

-- The answer that the order of the probes determines: less before it, greater behind it.
abbrev pub Answers : (ℕ → Ordering) → IndexResult → Type 0
Answers g (ok p) = (g p ≡ eq) × ((j : ℕ) → j < p → g j ≡ lt) × ((j : ℕ) → p < j → g j ≡ gt)
Answers g (err p) = ((j : ℕ) → j < p → g j ≡ lt) × ((j : ℕ) → p ≤ j → g j ≡ gt)

narrow_hit :
    (fuel : ℕ) (g : ℕ → Ordering) (base size p : ℕ)
    → Answers g (ok p)
    → size ≤ fuel
    → base ≤ p
    → p < base + size
    → narrow fuel g base size ≡ p
unfolding narrow
narrow_hit zero g base size p a h lo hi = omega arith
narrow_hit (suc fuel) g base size p a h lo hi = ground (
  arith,
  a.0,
  a.1 (base + size / 2),
  a.2 (base + size / 2),
  narrow_hit fuel g base (size - size / 2) p a,
  narrow_hit fuel g (base + size / 2) (size - size / 2) p a,
)

narrow_miss :
    (fuel : ℕ) (g : ℕ → Ordering) (base size p : ℕ)
    → Answers g (err p)
    → size ≤ fuel
    → 0 < size
    → (base ≡ 0) ⊎ (base < p)
    → p ≤ base + size
    → finish g (narrow fuel g base size) ≡ err p
unfolding narrow finish
narrow_miss zero g base size p a h some_left lo hi = absurd (omega arith)
narrow_miss (suc fuel) g base size p a h some_left lo hi = ground (
  arith,
  a.0 base,
  a.1 base,
  a.0 (base + size / 2),
  a.1 (base + size / 2),
  narrow_miss fuel g base (size - size / 2) p a,
  narrow_miss fuel g (base + size / 2) (size - size / 2) p a,
)

search-Answers :
    (g : ℕ → Ordering) (n : ℕ) (r : IndexResult)
    → Answers g r
    → ((j : ℕ) → n ≤ j → g j ≡ gt)
    → search g n ≡ r
unfolding search finish
search-Answers g n (ok p) a beyond = ground (arith, a.0, beyond p, narrow_hit n g 0 n p a)
search-Answers g n (err p) a beyond =
    ground (arith, a.0 n, beyond n, a.1 0, a.0 0, narrow_miss n g 0 n p a)

probe-beyond {ℓ} :
    {A : Type ℓ} (f : A → Ordering) (xs : List A) (j : ℕ) → length xs ≤ j → probe f xs j ≡ gt
probe-beyond f [] j h = refl
probe-beyond f (x ∷ xs) zero h = elim h [ ]
probe-beyond f (x ∷ xs) (suc j) h = probe-beyond f xs j (omega arith)

-- The binary search returns any answer that the probes determine, so there is one at most.
pub binary_search_by-Answers {ℓ} :
    {A : Type ℓ} (f : A → Ordering) (xs : List A) (r : IndexResult)
    → Answers (probe f xs) r
    → binary_search_by xs f ≡ r
unfolding binary_search_by
binary_search_by-Answers f xs r a = search-Answers (probe f xs) (length xs) r a (probe-beyond f xs)
