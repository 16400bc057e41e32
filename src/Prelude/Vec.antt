-- ===== src/Prelude/Vec.antt =====
-- The operations of Rust's `Vec` that panic when an index is out of range.
use rust_shed.Prelude.Panics.{Outcome, done, panic, ◌>>=◌}
use rust_shed.Prelude.Tests.{ltb, if◌then◌else◌, if_false, not_ltb}
use rust_shed.Prelude.Lists.{length, take, drop, take_all, length-drop}
use Prim.Native.Nat.{ℕ, zero, suc, ◌-◌, ◌≤◌}
use mathlib.Core.List.{List, [], ◌∷◌, ◌++◌}
use mathlib.Core.Path.{◌≡◌, refl, ap, ◌∙◌}
use native.Mathlib.Omega.{arith}
use mathlib.Core.Option.{Option, none, some}

module _ {ℓ} {A : Type ℓ} where
  -- `v[index]`
  abbrev pub index : List A → ℕ → Outcome A
  index [] i = panic
  index (x ∷ xs) zero = done x
  index (x ∷ xs) (suc i) = index xs i

  -- `Vec::insert(index, element)`
  abbrev pub insert_at : List A → ℕ → A → Outcome (List A)
  insert_at xs zero a = done (a ∷ xs)
  insert_at [] (suc i) a = panic
  insert_at (x ∷ xs) (suc i) a = insert_at xs i a >>= λ r. done (x ∷ r)

  -- `Vec::remove(index)`: the element and what is left.
  abbrev pub remove_at : List A → ℕ → Outcome (A × List A)
  remove_at [] i = panic
  remove_at (x ∷ xs) zero = done (x, xs)
  remove_at (x ∷ xs) (suc i) = remove_at xs i >>= λ r. done (r.0, x ∷ r.1)

  -- `Vec::split_off(at)`: what stays, and what is returned.
  abbrev pub split_off : List A → ℕ → Outcome (List A × List A)
  split_off xs n = if ltb (length xs) n then panic else done (take n xs, drop n xs)

  -- `&v[start..end]`
  abbrev pub slice : List A → ℕ → ℕ → Outcome (List A)
  slice xs start end =
      if ltb end start
      then panic
      else if ltb (length xs) end
      then panic
      else done (take (end - start) (drop start xs))

  -- `Vec::pop`: the last element, if any, and what is left.
  abbrev pub pop : List A → Option A × List A
  pop [] = (none, [])
  pop (x ∷ []) = (some x, [])
  pop (x ∷ y ∷ xs) = let r = pop (y ∷ xs) in (r.0, x ∷ r.1)

module _ {ℓ} {A : Type ℓ} where
  pub slice-drop : (n : ℕ) (xs : List A) → n ≤ length xs → slice xs n (length xs) ≡ done (drop n xs)
  slice-drop n xs h =
      if_false (ltb (length xs) n) panic _ (not_ltb n (length xs) h)
      ∙ if_false (ltb (length xs) (length xs)) panic _
          (not_ltb (length xs) (length xs) (omega arith))
      ∙ ap done (take_all (length xs - n) (drop n xs) (omega (arith, length-drop n xs)))

  pub index-append :
      (xs : List A) (y : A) (ys : List A) → index (xs ++ (y ∷ ys)) (length xs) ≡ done y
  index-append [] y ys = refl
  index-append (x ∷ xs) y ys = index-append xs y ys
