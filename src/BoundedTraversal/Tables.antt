-- ===== src/BoundedTraversal/Tables.antt =====
-- Sums over lists and over the entries of a map.
use rust_shed.Prelude.{
  ℕ, zero, suc, ◌+◌, ◌≤◌, ◌<◌, ◌≡◌, refl, sym, ap, ◌∙◌, none, some, List, [], ◌∷◌, ◌++◌, All, arith,
  length, ◌==◌, if◌then◌else◌, Bool-cases, if_true, if_false, subst, inl, inr, remove_at, done,
}
use rust_shed.Prelude.Results.{lookup, insert, remove}

abbrev pub total {ℓ} : {A : Type ℓ} → (A → ℕ) → List A → ℕ
total f [] = 0
total f (x ∷ xs) = f x + total f xs

pub total-middle {ℓ} :
    {A : Type ℓ} (f : A → ℕ) (xs : List A) (x : A) (ys : List A)
    → total f (xs ++ (x ∷ ys)) ≡ f x + total f (xs ++ ys)
total-middle f [] x ys = refl
total-middle f (y ∷ xs) x ys = omega (arith, total-middle f xs x ys)

pub total-append {ℓ} :
    {A : Type ℓ} (f : A → ℕ) (xs ys : List A) → total f (xs ++ ys) ≡ total f xs + total f ys
total-append f [] ys = omega arith
total-append f (x ∷ xs) ys = omega (arith, total-append f xs ys)

-- An index in range takes out an element.
pub remove_at-parts {ℓ} :
    {A : Type ℓ} (xs : List A) (i : ℕ)
    → i < length xs
    → (before : List A) × (x : A) × (behind : List A) × (xs ≡ before ++ (x ∷ behind))
      × (remove_at xs i ≡ done (x, before ++ behind))
remove_at-parts [] i h = absurd (omega arith)
remove_at-parts (x ∷ xs) zero h = ([], x, xs, refl, refl)
remove_at-parts (x ∷ xs) (suc i) h =
    let (before, y, behind, e, r) = remove_at-parts xs i (omega (arith, h)) in
    (x ∷ before, y, behind, ap (◌∷◌ x) e, rw r)

module _ {ℓ} {V : Type ℓ} where
  abbrev pub is_key : ℕ → ℕ × V → ℕ
  is_key n e = if e.0 == n then 1 else 0

  pub total-insert :
      (f : ℕ × V → ℕ) (n : ℕ) (v : V) (m : List (ℕ × V))
      → total f (insert n v m) ≡ f (n, v) + total f (remove n m)
  total-insert f n v [] = refl
  total-insert f n v ((j, w) ∷ m) = ground (arith, total-insert f n v m)

  pub total-lookup :
      (f : ℕ × V → ℕ) (n : ℕ) (v : V) (m : List (ℕ × V))
      → lookup n m ≡ some v
      → total f m ≡ f (n, v) + total f (remove n m)
  total-lookup f n v [] h = absurd (cc h)
  total-lookup f n v ((j, w) ∷ m) h = elim (Bool-cases (j == n)) [
    | inl e ↦
        let same : j ≡ n = ground (arith, e) in
        let value : w ≡ v = ground (arith, e, h) in ground (arith, e, ap f (pair same value))
    | inr e ↦ ground (arith, e, total-lookup f n v m)
  ]
    where
      pair : {a b : ℕ} {x y : V} → a ≡ b → x ≡ y → ◌≡◌ {A = ℕ × V} (a, x) (b, y)
      pair p q = cc (p, q)

  pub remove-none : (n : ℕ) (m : List (ℕ × V)) → lookup n m ≡ none → remove n m ≡ m
  remove-none n [] h = refl
  remove-none n ((j, w) ∷ m) h = ground (arith, remove-none n m)

  pub remove-insert : (n : ℕ) (v : V) (m : List (ℕ × V)) → remove n (insert n v m) ≡ remove n m
  remove-insert n v [] = ground arith
  remove-insert n v ((j, w) ∷ m) = ground (arith, remove-insert n v m)

  pub total-fresh :
      (f : ℕ × V → ℕ) (n : ℕ) (v : V) (m : List (ℕ × V))
      → remove n m ≡ m
      → total f (insert n v m) ≡ f (n, v) + total f m
  total-fresh f n v m h = total-insert f n v m ∙ ap (λ z. f (n, v) + total f z) h

  total-remove : (f : ℕ × V → ℕ) (n : ℕ) (m : List (ℕ × V)) → total f (remove n m) ≤ total f m
  total-remove f n [] = omega arith
  total-remove f n ((j, w) ∷ m) = ground (arith, total-remove f n m)

  pub is_key-remove :
      (n : ℕ) (m : List (ℕ × V)) → total (is_key n) m ≤ 1 → total (is_key n) (remove n m) ≡ 0
  is_key-remove n [] h = refl
  is_key-remove n ((j, w) ∷ m) h = ground (arith, is_key-remove n m, h)

  -- A key stays unique where an entry is replaced, added or taken away.
  pub is_key-insert :
      (n : ℕ) (v : V) (m : List (ℕ × V))
      → ((k : ℕ) → total (is_key k) m ≤ 1)
      → (k : ℕ) → total (is_key k) (insert n v m) ≤ 1
  is_key-insert n v m h k =
      let added = total-insert (is_key k) n v m in
      let others = total-remove (is_key k) n m in
      elim (Bool-cases (n == k)) [
        | inl e ↦
            let same : n ≡ k = ground (arith, e) in
            let gone = is_key-remove k m (h k) in
            let removed : total (is_key k) (remove n m) ≡ 0 =
              ap (λ z. total (is_key k) (remove z m)) same ∙ gone in
            ground (arith, e, added, removed)
        | inr e ↦ ground (arith, e, added, others, h k)
      ]

  pub is_key-removed :
      (n : ℕ) (m : List (ℕ × V))
      → ((k : ℕ) → total (is_key k) m ≤ 1)
      → (k : ℕ) → total (is_key k) (remove n m) ≤ 1
  is_key-removed n m h k = omega (arith, h k, total-remove (is_key k) n m)

  -- A key that is counted is found.
  pub lookup-total :
      (n : ℕ) (m : List (ℕ × V)) → 0 < total (is_key n) m → (v : V) × (lookup n m ≡ some v)
  lookup-total n [] h = absurd (omega arith)
  lookup-total n ((j, w) ∷ m) h = elim (Bool-cases (j == n)) [
    | inl e ↦ (w, ground (arith, e))
    | inr e ↦
        let (v, found) = lookup-total n m (ground (arith, e, h)) in (v, ground (arith, e, found))
  ]

  pub All-lookup {κ} :
      (P : ℕ × V → Type κ) (n : ℕ) (v : V) (m : List (ℕ × V))
      → lookup n m ≡ some v
      → All P m
      → P (n, v) × All P (remove n m)
  All-lookup P n v [] h a = absurd (cc h)
  All-lookup P n v ((j, w) ∷ m) h a = elim (Bool-cases (j == n)) [
    | inl e ↦
        let same : ◌≡◌ {A = ℕ × V} (j, w) (n, v) = ground (arith, e, h) in
        (subst P same a.0, subst (All P) (sym (if_true (j == n) m ((j, w) ∷ remove n m) e)) a.1)
    | inr e ↦
        let found : lookup n m ≡ some v = ground (arith, e, h) in
        let (p, rest) = All-lookup P n v m found a.1 in
        (p, subst (All P) (sym (if_false (j == n) m ((j, w) ∷ remove n m) e)) (a.0, rest))
  ]

  pub All-insert {κ} :
      (P : ℕ × V → Type κ) (n : ℕ) (v : V) (m : List (ℕ × V))
      → P (n, v)
      → All P (remove n m)
      → All P (insert n v m)
  All-insert P n v [] p a = (p, tt)
  All-insert P n v ((j, w) ∷ m) p a = elim (Bool-cases (j == n)) [
    | inl e ↦
        subst (All P) (sym (if_true (j == n) ((n, v) ∷ m) ((j, w) ∷ insert n v m) e))
          (p, subst (All P) (if_true (j == n) m ((j, w) ∷ remove n m) e) a)
    | inr e ↦
        let kept = subst (All P) (if_false (j == n) m ((j, w) ∷ remove n m) e) a in
        subst (All P) (sym (if_false (j == n) ((n, v) ∷ m) ((j, w) ∷ insert n v m) e))
          (kept.0, All-insert P n v m p kept.1)
  ]

pub length-total {ℓ} : {A : Type ℓ} (xs : List A) → length xs ≡ total (λ x. 1) xs
length-total [] = refl
length-total (x ∷ xs) = omega (arith, length-total xs)
