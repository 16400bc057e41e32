-- ===== src/Netstring/Numbers.antt =====
-- The decimal length of a netstring, printed and scanned.
use rust_shed.Prelude.{
  ℕ, zero, suc, ◌+◌, ◌*◌, ◌-◌, ◌/◌, ◌%◌, ◌≤◌, ◌<◌, ◌≡◌, refl, sym, ap, ap₂, subst, ◌∙◌, [], ◌∷◌,
  ◌++◌, All, All-append, ◌≢◌, ◌⊎◌, append_assoc, length, length-append, arith, ltb, ◌==◌, false,
  Bool-cases, inl, inr,
}
use rust_shed.Netstring.{Bytes, usize_range, complete, partial, bad, scan, digits}

-- The byte is a digit.
abbrev pub IsDigit : ℕ → Type 0
IsDigit b = (48 ≤ b) × (b ≤ 57)

-- One round of the loop over the bytes of a number, at a digit and at a colon.
pub scan_digit :
    (cur idx b : ℕ) (buf : Bytes)
    → IsDigit b
    → scan cur idx (b ∷ buf) ≡ scan ((cur * 10 + (b - 48)) % usize_range) (idx + 1) buf
unfolding scan
scan_digit cur idx b buf h = ground arith

pub scan_colon : (cur idx : ℕ) (buf : Bytes) → scan cur idx (b':' ∷ buf) ≡ complete (idx + 1) cur
unfolding scan
scan_colon cur idx buf = refl

-- The printed number is all digits.
pub digits-All : (fuel n : ℕ) → All IsDigit (digits fuel n)
unfolding digits
digits-All zero n = tt
digits-All (suc fuel) n = elim (Bool-cases (ltb n 10)) [
  | inl h ↦ ground (arith, h)
  | inr h ↦
      let rest =
        All-append IsDigit (digits fuel (n / 10)) ((b'0' + n % 10) ∷ []) (digits-All fuel (n / 10))
          ((omega arith, omega arith), tt) in
      ground (arith, h, rest)
]

digits_large :
    (fuel n : ℕ)
    → ltb n 10 ≡ false
    → digits (suc fuel) n ≡ digits fuel (n / 10) ++ ((b'0' + n % 10) ∷ [])
unfolding digits
digits_large fuel n l = rw l

-- Scanned from 0, the printed number is read back, and the scan goes on behind it.
pub scan-digits :
    (fuel n idx : ℕ) (buf : Bytes)
    → n < fuel
    → n < usize_range
    → scan 0 idx (digits fuel n ++ buf) ≡ scan n (idx + length (digits fuel n)) buf
unfolding digits
scan-digits zero n idx buf h k = absurd (omega arith)
scan-digits (suc fuel) n idx buf h k = elim (Bool-cases (ltb n 10)) [
  | inl l ↦ ground (arith, l, scan_digit 0 idx (48 + n) buf)
  | inr l ↦
      let front = digits fuel (n / 10) in
      let last_digit = 48 + n % 10 in
      subst (λ ds. scan 0 idx (ds ++ buf) ≡ scan n (idx + length ds) buf)
        (sym (digits_large fuel n l))
        (ap (scan 0 idx) (append_assoc front (last_digit ∷ []) buf)
          ∙ scan-digits fuel (n / 10) idx (last_digit ∷ buf) (ground (arith, l)) (omega arith)
          ∙ scan_digit (n / 10) (idx + length front) last_digit buf (omega arith, omega arith)
          ∙ ap₂ (λ c i. scan c i buf) (omega arith)
              (omega (arith, length-append front (last_digit ∷ []))))
]

-- Only digits: the scan runs out of input.
pub scan-All :
    (cur idx : ℕ) (buf : Bytes) → All IsDigit buf → (c : ℕ) × (scan cur idx buf ≡ partial c)
unfolding scan
scan-All cur idx [] h = (cur, refl)
scan-All cur idx (b ∷ buf) h =
    let (c, e) = scan-All ((cur * 10 + (b - 48)) % usize_range) (idx + 1) buf h.1 in
    (c, scan_digit cur idx b buf h.0 ∙ e)

-- The number that the digits make behind `cur`, as a `usize` computes it.
abbrev pub numeral : ℕ → Bytes → ℕ
numeral cur [] = cur
numeral cur (b ∷ number) = numeral ((cur * 10 + (b - 48)) % usize_range) number

-- What the scan of a number finds.
pub data ScanCase (cur idx : ℕ) (buf : Bytes) : Type 0 where
  colon :
      (number rest : Bytes)
      → All IsDigit number
      → buf ≡ number ++ (b':' ∷ rest)
      → scan cur idx buf ≡ complete (idx + length number + 1) (numeral cur number)
      → ScanCase cur idx buf
  only_digits :
      All IsDigit buf → scan cur idx buf ≡ partial (numeral cur buf) → ScanCase cur idx buf
  neither :
      (number : Bytes) (b : ℕ) (rest : Bytes)
      → All IsDigit number
      → ¬ IsDigit b
      → b ≢ b':'
      → buf ≡ number ++ (b ∷ rest)
      → scan cur idx buf ≡ bad
      → ScanCase cur idx buf

scan_digit_case :
    (cur idx b : ℕ) (buf : Bytes)
    → IsDigit b
    → ScanCase ((cur * 10 + (b - 48)) % usize_range) (idx + 1) buf
    → ScanCase cur idx (b ∷ buf)
scan_digit_case cur idx b buf d (colon number rest a e s) =
    colon (b ∷ number) rest (d, a) (ap (◌∷◌ b) e)
      (scan_digit cur idx b buf d
        ∙ s
        ∙ ap (λ z. complete z (numeral cur (b ∷ number))) (omega arith))
scan_digit_case cur idx b buf d (only_digits a s) =
    only_digits (d, a) (scan_digit cur idx b buf d ∙ s)
scan_digit_case cur idx b buf d (neither number c rest a n m e s) =
    neither (b ∷ number) c rest (d, a) n m (ap (◌∷◌ b) e) (scan_digit cur idx b buf d ∙ s)

IsDigit-cases : (b : ℕ) → IsDigit b ⊎ ((¬ IsDigit b) × ((b ≡ b':') ⊎ (b ≢ b':')))
IsDigit-cases b = elim (Bool-cases (ltb b 48)) [
  | inl l ↦ inr (λ d. ground (arith, l, d.0), inr (λ e. ground (arith, l, e)))
  | inr l ↦ elim (Bool-cases (ltb 57 b)) [
    | inr m ↦ inl (ground (arith, l), ground (arith, m))
    | inl m ↦ elim (Bool-cases (b == 58)) [
      | inl e ↦ inr (λ d. ground (arith, m, d.1), inl (ground (arith, e)))
      | inr n ↦ inr (λ d. ground (arith, m, d.1), inr (λ e. ground (arith, n, e)))
    ]
  ]
]

scan_bad : (cur idx b : ℕ) (buf : Bytes) → ¬ IsDigit b → b ≢ b':' → scan cur idx (b ∷ buf) ≡ bad
unfolding scan
scan_bad cur idx b buf n m = ground (arith, n, m)

scan_end : (cur idx : ℕ) → scan cur idx [] ≡ partial cur
unfolding scan
scan_end cur idx = refl

pub scan_cases : (cur idx : ℕ) (buf : Bytes) → ScanCase cur idx buf
scan_cases cur idx [] = only_digits tt (scan_end cur idx)
scan_cases cur idx (b ∷ buf) = elim (IsDigit-cases b) [
  | inl d ↦
      scan_digit_case cur idx b buf d
        (scan_cases ((cur * 10 + (b - 48)) % usize_range) (idx + 1) buf)
  | inr (n, inl e) ↦ colon [] buf tt (ap (λ z. z ∷ buf) e) (
      ap (λ z. scan cur idx (z ∷ buf)) e
      ∙ scan_colon cur idx buf
      ∙ ap (λ z. complete z cur) (omega arith))
  | inr (n, inr m) ↦ neither [] b buf tt n m refl (scan_bad cur idx b buf n m)
]
