-- ===== src/SortedVectorMap/Iterators.antt =====
-- The iterators of map.rs over the entries, the keys and the values. Each wraps a double-ended
-- iterator over the vector: the list of what lies between its two ends.
use mathlib.Core.Option
use mathlib.Core.List.{reverse, reverse-cons}
use rust_shed.Prelude.{
  ℕ, suc, ◌+◌, ◌-◌, min, arith, ◌≡◌, refl, ap, Bool, true, false, Option, none, some, List, [], ◌∷◌,
  ◌++◌, append_assoc, append-nil, map, first, pop, length,
}
use rust_shed.SortedVector.Iter.{SizeHint, exact_hint, tail}
use rust_shed.SortedVectorMap.{SortedVectorMap}

module _ {ℓ κ} {K : Type ℓ} {V : Type κ} where
  -- `Iter` and `IterMut` yield pairs, `Keys` keys, `Values` and `ValuesMut` values.
  unfoldable pub iter_next : List (K × V) → Option (K × V) × List (K × V)
  iter_next it = (first it, tail it)

  unfoldable pub iter_next_back : List (K × V) → Option (K × V) × List (K × V)
  iter_next_back it = pop it

  unfoldable pub iter_size_hint : List (K × V) → SizeHint
  iter_size_hint it = exact_hint it

  unfoldable pub keys_next : List (K × V) → Option K × List (K × V)
  keys_next it = (Option.map (λ e. e.0) (first it), tail it)

  unfoldable pub keys_next_back : List (K × V) → Option K × List (K × V)
  keys_next_back it = let (e, rest) = pop it in (Option.map (λ x. x.0) e, rest)

  unfoldable pub values_next : List (K × V) → Option V × List (K × V)
  values_next it = (Option.map (λ e. e.1) (first it), tail it)

  unfoldable pub values_next_back : List (K × V) → Option V × List (K × V)
  values_next_back it = let (e, rest) = pop it in (Option.map (λ x. x.1) e, rest)

-- A client that calls `next` (true) or `next_back` (false) in any order: what came from the front
-- and from the back, in the order of the calls, and what is left.
abbrev pub push_some {ℓ} : {A : Type ℓ} → Option A → List A → List A
push_some none xs = xs
push_some (some a) xs = a ∷ xs

module _ {ℓ κ} {S : Type κ} {A : Type ℓ} (next next_back : S → Option A × S) where
  abbrev pub drive : List Bool → S → List A × List A × S
  drive [] s = ([], [], s)
  drive (true ∷ calls) s =
      let (a, t) = next s in
      let (front, back, rest) = drive calls t in (push_some a front, back, rest)
  drive (false ∷ calls) s =
      let (a, t) = next_back s in
      let (front, back, rest) = drive calls t in (front, push_some a back, rest)

push_some-map {ℓ κ} :
    {A : Type ℓ} {B : Type κ} (f : A → B) (a : Option A) (xs : List A)
    → push_some (Option.map f a) (map f xs) ≡ map f (push_some a xs)
push_some-map f none xs = refl
push_some-map f (some a) xs = refl

-- An iterator that yields a part of each entry, beside the one that yields the entries.
module _ {ℓ κ μ} {S : Type κ} {A : Type ℓ} {B : Type μ} (next next_back : S → Option A × S)
    (f : A → B) where
  abbrev pub part_of : (S → Option A × S) → S → Option B × S
  part_of step s = (Option.map f (step s).0, (step s).1)

  drive-part_of :
      (calls : List Bool) (s : S)
      → let (front, back, rest) = drive next next_back calls s in
        drive (part_of next) (part_of next_back) calls s ≡ (map f front, map f back, rest)
  drive-part_of [] s = refl
  drive-part_of (true ∷ calls) s =
      let (front, back, rest) = drive next next_back calls (next s).1 in
      rw (drive-part_of calls (next s).1, push_some-map f (next s).0 front) refl
  drive-part_of (false ∷ calls) s =
      let (front, back, rest) = drive next next_back calls (next_back s).1 in
      rw (drive-part_of calls (next_back s).1, push_some-map f (next_back s).0 back) refl

module _ {ℓ κ} {K : Type ℓ} {V : Type κ} where
  pop-append :
      (x : K × V) (m : List (K × V))
      → (e : K × V) × ((pop (x ∷ m)).0 ≡ some e)
        × ((pop (x ∷ m)).1 ++ e ∷ [] ≡ x ∷ m)
        × (length (pop (x ∷ m)).1 ≡ length m)
  pop-append x [] = (x, refl, refl, refl)
  pop-append x (y ∷ m) = let (e, p, h, n) = pop-append y m in (e, p, ap (◌∷◌ x) h, ap suc n)

  back_step :
      (front rest back m whole : List (K × V)) (a : Option (K × V)) (e : K × V)
      → a ≡ some e
      → front ++ (rest ++ reverse back) ≡ m
      → m ++ e ∷ [] ≡ whole
      → front ++ (rest ++ reverse (push_some a back)) ≡ whole
  back_step front rest back m whole a e p h w = rw (p, ← w, ← h) (simp (reverse-cons, append_assoc))

  count_step :
      (calls size size' : ℕ) (front back : List (K × V)) (a : Option (K × V)) (e : K × V)
      → a ≡ some e
      → size' ≡ size
      → length front + length back ≡ min calls size'
      → length front + length (push_some a back) ≡ min (suc calls) (suc size)
  count_step calls size size' front back a e p n h = rw p (omega (arith, n, h))

  iter_yields :
      (calls : List Bool) (m : SortedVectorMap K V)
      → let (front, back, rest) = drive iter_next iter_next_back calls m in
        (front ++ (rest ++ reverse back) ≡ m)
        × (length front + length back ≡ min (length calls) (length m))
        × (length rest ≡ length m - length calls)
  unfolding iter_next iter_next_back
  iter_yields [] m = (append-nil m, omega arith, omega arith)
  iter_yields (true ∷ calls) [] =
      let (h, k, l) = iter_yields calls [] in (h, omega (arith, k), omega (arith, l))
  iter_yields (true ∷ calls) (e ∷ m) =
      let (h, k, l) = iter_yields calls m in (ap (◌∷◌ e) h, omega (arith, k), omega (arith, l))
  iter_yields (false ∷ calls) [] =
      let (h, k, l) = iter_yields calls [] in (h, omega (arith, k), omega (arith, l))
  iter_yields (false ∷ calls) (x ∷ m) =
      let (e, p, w, n) = pop-append x m in
      let (last, shorter) = pop (x ∷ m) in
      let (h, k, l) = iter_yields calls shorter in
      let (front, back, rest) = drive iter_next iter_next_back calls shorter in
      (
        back_step front rest back shorter (x ∷ m) last e p h w,
        count_step (length calls) (length m) (length shorter) front back last e p n k,
        omega (arith, l, n),
      )

  -- In whatever order a client calls `next` and `next_back`, each call yields an entry as long as one
  -- is left: there are as many as calls, or as the map has if that is less. The entries from the
  -- front, those left, and those from the back in reverse make up the map, so each is yielded once.
  -- The size hint is the number left. The iterators over the keys and over the values yield the keys
  -- and the values of the same entries.
  pub iter_ends :
      (calls : List Bool) (m : SortedVectorMap K V)
      → let (front, back, rest) = drive iter_next iter_next_back calls m in
        (front ++ (rest ++ reverse back) ≡ m)
        × (length front + length back ≡ min (length calls) (length m))
        × (length rest ≡ length m - length calls)
        × (iter_size_hint rest ≡ (length rest, some (length rest)))
        × (drive keys_next keys_next_back calls m
            ≡ (map (λ e. e.0) front, map (λ e. e.0) back, rest))
        × (drive values_next values_next_back calls m
            ≡ (map (λ e. e.1) front, map (λ e. e.1) back, rest))
  unfolding iter_next iter_next_back iter_size_hint keys_next keys_next_back values_next
      values_next_back
  iter_ends calls m =
      let (whole, count, left) = iter_yields calls m in
      (
        whole,
        count,
        left,
        refl,
        drive-part_of iter_next iter_next_back (λ e. e.0) calls m,
        drive-part_of iter_next iter_next_back (λ e. e.1) calls m,
      )
