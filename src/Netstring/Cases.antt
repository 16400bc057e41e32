-- ===== src/Netstring/Cases.antt =====
-- All that `decode` can do with a buffer, by what the buffer holds.
use rust_shed.Prelude.{
  ℕ, zero, suc, ◌+◌, ◌-◌, ◌≤◌, ◌≡◌, ◌≢◌, inl, inr, refl, sym, ap, ◌∙◌, subst, [], ◌∷◌, ◌++◌, All,
  length, length-append, drop, slice-drop, none, some, done, arith, false, Bool-cases, ◌==◌,
}
use rust_shed.Netstring.{
  Bytes, BytesMut, body, NetstringDecoder, ErrorKind, default_decoder, ok, error, Slice, scan,
  round, decode_loop, decode_buf, decode, complete, partial, bad, bad_state, bad_character,
  missing_comma,
}
use rust_shed.Netstring.Numbers.{
  IsDigit, numeral, ScanCase, colon, only_digits, neither, scan_cases,
}
use rust_shed.Netstring.Rounds.{reading, after_number, body_short, body_no_comma, behind_colon}
use rust_shed.Netstring.RoundTrip.{decode_message}

-- The bytes behind the colon, of which the body takes `len`.
data BodyCase (len : ℕ) (tail : Bytes) : Type 0 where
  short : length tail ≤ len → BodyCase len tail
  split :
      (msg : Bytes) (b : ℕ) (rest : Bytes)
      → tail ≡ msg ++ (b ∷ rest)
      → length msg ≡ len
      → BodyCase len tail

body_cases : (len : ℕ) (tail : Bytes) → BodyCase len tail
body_cases len [] = short (omega arith)
body_cases zero (b ∷ tail) = split [] b tail refl refl
body_cases (suc len) (b ∷ tail) = longer (body_cases len tail)
  where
    longer : BodyCase len tail → BodyCase (suc len) (b ∷ tail)
    longer (short h) = short (omega (arith, h))
    longer (split msg c rest e h) = split (b ∷ msg) c rest (ap (◌∷◌ b) e) (ap suc h)

-- The decoder that an error leaves.
abbrev pub broken : NetstringDecoder
broken = record { state = none }

pub first_round_partial :
    (input : Bytes) (cur c : ℕ)
    → scan cur 0 input ≡ partial c
    → decode_buf (reading cur) input ≡ done (ok (0 + length input, none), reading c)
unfolding decode_buf decode_loop round
first_round_partial input cur c e = rw (slice-drop 0 input (omega arith), e) refl

first_round_bad :
    (input : Bytes) (cur : ℕ)
    → scan cur 0 input ≡ bad
    → decode_buf (reading cur) input ≡ done (error bad_character, broken)
unfolding decode_buf decode_loop round
first_round_bad input cur e = rw (slice-drop 0 input (omega arith), e) refl

module _ {B : Type 0} ⦃bytes : BytesMut B⦄ where
  -- What a call of `decode` does, by the bytes of the buffer: a whole netstring, digits only, a body
  -- that is not all there, a bad character in the number, and a body that no comma follows.
  pub data Decodes (cur : ℕ) (buf : B) : Type 0 where
    message :
        (number msg rest : Bytes) (ret buf' : B)
        → All IsDigit number
        → bytes.as_ref buf ≡ number ++ (b':' ∷ (msg ++ (b',' ∷ rest)))
        → length msg ≡ numeral cur number
        → decode (reading cur) buf ≡ done (ok (some ret), default_decoder, buf')
        → bytes.as_ref ret ≡ msg
        → bytes.as_ref buf' ≡ rest
        → Decodes cur buf
    more_number :
        All IsDigit (bytes.as_ref buf)
        → decode (reading cur) buf ≡ done (ok none, reading cur, buf)
        → Decodes cur buf
    more_body :
        (number tail : Bytes)
        → All IsDigit number
        → bytes.as_ref buf ≡ number ++ (b':' ∷ tail)
        → length tail ≤ numeral cur number
        → decode (reading cur) buf ≡ done (ok none, reading cur, buf)
        → Decodes cur buf
    not_number :
        (number : Bytes) (b : ℕ) (rest : Bytes)
        → All IsDigit number
        → ¬ IsDigit b
        → b ≢ b':'
        → bytes.as_ref buf ≡ number ++ (b ∷ rest)
        → decode (reading cur) buf ≡ done (error bad_character, broken, buf)
        → Decodes cur buf
    no_comma :
        (number msg : Bytes) (b : ℕ) (rest : Bytes)
        → All IsDigit number
        → b ≢ b','
        → bytes.as_ref buf ≡ number ++ (b':' ∷ (msg ++ (b ∷ rest)))
        → length msg ≡ numeral cur number
        → decode (reading cur) buf ≡ done (error missing_comma, broken, buf)
        → Decodes cur buf

  decode_error :
      (self after : NetstringDecoder) (buf : B) (e : ErrorKind)
      → decode_buf self (bytes.as_ref buf) ≡ done (error e, after)
      → decode self buf ≡ done (error e, after, buf)
  unfolding decode
  decode_error self after buf e h = rw h

  pub decode_nothing :
      (self after : NetstringDecoder) (buf : B) (consumed : ℕ)
      → decode_buf self (bytes.as_ref buf) ≡ done (ok (consumed, none), after)
      → decode self buf ≡ done (ok none, self, buf)
  unfolding decode
  decode_nothing self after buf consumed h = rw h

  pub decode_part :
      (self after : NetstringDecoder) (buf : B) (consumed : ℕ) (part : Slice)
      → decode_buf self (bytes.as_ref buf) ≡ done (ok (consumed, some (false, part)), after)
      → decode self buf ≡ done (ok none, self, buf)
  unfolding decode
  decode_part self after buf consumed part h = rw h

  fits :
      (number tail : Bytes) (buf : B)
      → bytes.as_ref buf ≡ number ++ (b':' ∷ tail)
      → 0 + (0 + length number + 1) ≤ length (bytes.as_ref buf)
  fits number tail buf e = omega (arith, ap length e, length-append number (b':' ∷ tail))

  -- Behind a complete number.
  body-Decodes :
      (cur : ℕ) (buf : B) (number tail : Bytes)
      → All IsDigit number
      → bytes.as_ref buf ≡ number ++ (b':' ∷ tail)
      → scan cur 0 (bytes.as_ref buf) ≡ complete (0 + length number + 1) (numeral cur number)
      → BodyCase (numeral cur number) tail
      → Decodes cur buf
  body-Decodes cur buf number tail digits e s (short h) =
      let c = 0 + (0 + length number + 1) in
      more_body number tail digits e h (
        decode_part (reading cur)
          (record { state = some (body (numeral cur number - length tail)) }) buf (c + length tail)
          (record { base = c; len = length tail })
          (after_number (bytes.as_ref buf) cur (0 + length number + 1) (numeral cur number) s
            ∙ body_short (bytes.as_ref buf) tail c (numeral cur number) (fits number tail buf e)
                (ap (drop c) e ∙ behind_colon number tail) h))
  body-Decodes cur buf number tail digits e s (split msg b rest t h) =
      let c = 0 + (0 + length number + 1) in
      let whole = e ∙ ap (λ z. number ++ (b':' ∷ z)) t in
      let scanned = s ∙ ap (complete (0 + length number + 1)) (sym h) in
      elim (Bool-cases (b == b',')) [
        | inl y ↦
            let comma : b ≡ b',' = ground (arith, y) in
            let whole' = whole ∙ ap (λ z. number ++ (b':' ∷ (msg ++ (z ∷ rest)))) comma in
            let (ret, buf', d, f, g) = decode_message cur number msg rest buf whole' scanned in
            message number msg rest ret buf' digits whole' h d f g
        | inr n ↦
            let other : b ≢ b',' = λ y. ground (arith, n, y) in
            no_comma number msg b rest digits other whole h (
              decode_error (reading cur) broken buf missing_comma (
                after_number (bytes.as_ref buf) cur (0 + length number + 1) (length msg) scanned
                ∙ body_no_comma (bytes.as_ref buf) msg b rest c (fits number tail buf e)
                    (ap (drop c) whole ∙ behind_colon number (msg ++ (b ∷ rest))) other))
      ]

  -- From a decoder that reads a number, `decode` does not panic, and does what the bytes of the
  -- buffer ask for. A whole netstring is split off the buffer, and the decoder is in its default
  -- state; a start of one leaves the decoder and the buffer as they were; and a byte that is out of
  -- place is an error, which leaves the decoder broken.
  pub decode_cases : (cur : ℕ) (buf : B) → Decodes cur buf
  decode_cases cur buf = go (scan_cases cur 0 (bytes.as_ref buf))
    where
      go : ScanCase cur 0 (bytes.as_ref buf) → Decodes cur buf
      go (colon number rest d e s) =
          body-Decodes cur buf number rest d e s (body_cases (numeral cur number) rest)
      go (only_digits d s) = more_number d (
          decode_nothing (reading cur) (reading (numeral cur (bytes.as_ref buf))) buf
            (0 + length (bytes.as_ref buf))
            (first_round_partial (bytes.as_ref buf) cur (numeral cur (bytes.as_ref buf)) s))
      go (neither number b rest d n m e s) = not_number number b rest d n m e (
          decode_error (reading cur) broken buf bad_character
            (first_round_bad (bytes.as_ref buf) cur s))

  decode-broken : (next : B) → decode broken next ≡ done (error bad_state, broken, next)
  unfolding decode decode_buf decode_loop
  decode-broken next = refl

  -- A call that returns an error leaves a decoder that gives the error of a bad state on any buffer,
  -- and it leaves the buffer as it was.
  pub error_sticks :
      (cur : ℕ) (buf : B) (e : ErrorKind) (after : NetstringDecoder) (buf' : B)
      → decode (reading cur) buf ≡ done (error e, after, buf')
      → (buf' ≡ buf) × ((next : B) → decode after next ≡ done (error bad_state, after, next))
  error_sticks cur buf e after buf' h = go (decode_cases cur buf)
    where
      stuck :
          (k : ErrorKind)
          → decode (reading cur) buf ≡ done (error k, broken, buf)
          → (buf' ≡ buf) × ((next : B) → decode after next ≡ done (error bad_state, after, next))
      stuck k d = (
        cc (d, h),
        λ next.
            subst (λ x. decode x next ≡ done (error bad_state, x, next)) {x = broken} (cc (d, h))
              (decode-broken next),
      )

      go :
          Decodes cur buf
          → (buf' ≡ buf) × ((next : B) → decode after next ≡ done (error bad_state, after, next))
      go (message number msg rest ret b digits w l d f g) = absurd (cc (d, h))
      go (more_number digits d) = absurd (cc (d, h))
      go (more_body number tail digits w l d) = absurd (cc (d, h))
      go (not_number number b rest digits n m w d) = stuck bad_character d
      go (no_comma number msg b rest digits n w l d) = stuck missing_comma d
