-- ===== src/Netstring/Partial.antt =====
-- A message that is not all in the buffer yet.
use rust_shed.Prelude.{
  ℕ, suc, ◌+◌, ◌-◌, ◌≤◌, ◌<◌, ◌≡◌, ◌⊎◌, inl, inr, refl, sym, ap, ◌∙◌, subst, [], ◌∷◌, ◌++◌, All,
  length, length-append, drop, none, some, done, arith, append-nil,
}
use rust_shed.Netstring.{
  Bytes, BytesMut, usize_range, body, default_decoder, ok, scan, decode, decimal, encode,
}
use rust_shed.Netstring.Numbers.{IsDigit, digits-All, scan-All}
use rust_shed.Netstring.Rounds.{reading, after_number, body_short, behind_colon, scan-decimal}
use rust_shed.Netstring.RoundTrip.{netstring, encode_lem}
use rust_shed.Netstring.Cases.{decode_nothing, decode_part, first_round_partial}

-- Of two texts that are cut in two, one front is a start of the other.
prefix_cases :
    (xs ys p q : Bytes)
    → p ++ q ≡ xs ++ ys
    → ((r : Bytes) × (xs ≡ p ++ r)) ⊎ ((r : Bytes) × (p ≡ xs ++ r) × (r ++ q ≡ ys))
prefix_cases [] ys p q e = inr (p, refl, e)
prefix_cases (x ∷ xs) ys [] q e = inl (x ∷ xs, refl)
prefix_cases (x ∷ xs) ys (y ∷ p) q e =
    let same : y ≡ x = cc e in
    elim (prefix_cases xs ys p q (cc e)) [
      | inl (r, h) ↦ inl (r, cc (same, h))
      | inr (r, h, k) ↦ inr (r, cc (same, h), k)
    ]

All-front : (p r : Bytes) → All IsDigit (p ++ r) → All IsDigit p
All-front [] r h = tt
All-front (x ∷ p) r h = (h.0, All-front p r h.1)

module _ {B : Type 0} ⦃bytes : BytesMut B⦄ where
  decode_digits :
      (buf : B)
      → All IsDigit (bytes.as_ref buf)
      → decode default_decoder buf ≡ done (ok none, default_decoder, buf)
  decode_digits buf h =
      let (c, e) = scan-All 0 0 (bytes.as_ref buf) h in
      decode_nothing default_decoder (reading c) buf (0 + length (bytes.as_ref buf))
        (first_round_partial (bytes.as_ref buf) 0 c e)

  decode_body :
      (len : ℕ) (tail : Bytes) (buf : B)
      → len < usize_range
      → length tail ≤ len
      → bytes.as_ref buf ≡ decimal len ++ (b':' ∷ tail)
      → decode default_decoder buf ≡ done (ok none, default_decoder, buf)
  decode_body len tail buf h le e =
      let number = decimal len in
      let input = bytes.as_ref buf in
      let c = 0 + (0 + length number + 1) in
      decode_part default_decoder (record { state = some (body (len - length tail)) }) buf
        (c + length tail) (record { base = c; len = length tail })
        (after_number input 0 (0 + length number + 1) len
            (ap (scan 0 0) e ∙ scan-decimal len tail h)
          ∙ body_short input tail c len
              (omega (arith, ap length e, length-append number (b':' ∷ tail)))
              (ap (drop c) e ∙ behind_colon number tail) le)

  -- On a buffer with the start of what `encode` writes for a message shorter than 2^64 bytes, the
  -- last byte or more of which is missing, the default decoder returns that there is no message yet,
  -- and leaves itself and the buffer as they were.
  pub decode_partial :
      (msg missing : Bytes) (empty buf : B)
      → length msg < usize_range
      → bytes.as_ref empty ≡ []
      → bytes.as_ref buf ++ missing ≡ bytes.as_ref (encode msg empty)
      → 0 < length missing
      → decode default_decoder buf ≡ done (ok none, default_decoder, buf)
  decode_partial msg missing empty buf h none_before e more =
      elim (prefix_cases (decimal len) (b':' ∷ (msg ++ (b',' ∷ []))) input missing whole) [
        | inl (r, k) ↦ decode_digits buf (All-front input r (subst (All IsDigit) k digits))
        | inr (r, k, l) ↦ behind r k l
      ]
    where
      len : ℕ
      len = length msg

      input : Bytes
      input = bytes.as_ref buf

      digits : All IsDigit (decimal len)
      digits = digits-All (suc len) len

      whole : input ++ missing ≡ netstring msg
      whole = e ∙ encode_lem msg empty ∙ ap (λ z. z ++ netstring msg) none_before

      behind :
          (r : Bytes)
          → input ≡ decimal len ++ r
          → r ++ missing ≡ b':' ∷ (msg ++ (b',' ∷ []))
          → decode default_decoder buf ≡ done (ok none, default_decoder, buf)
      behind [] k l =
          decode_digits buf (subst (All IsDigit) (sym (k ∙ append-nil (decimal len))) digits)
      behind (c ∷ r) k l =
          let rest : r ++ missing ≡ msg ++ (b',' ∷ []) = cc l in
          let colon : c ≡ b':' = cc l in
          decode_body len r buf h
            (omega
              (arith, ap length rest, length-append r missing, length-append msg (b',' ∷ []), more))
            (k ∙ ap (λ z. decimal len ++ (z ∷ r)) colon)
