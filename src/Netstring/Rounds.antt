-- ===== src/Netstring/Rounds.antt =====
-- The rounds of the loop in `decode_buf`, on a number and on a body.
use rust_shed.Prelude.{
  ℕ, suc, ◌+◌, ◌-◌, ◌≤◌, ◌<◌, ◌≡◌, refl, sym, ap, ◌∙◌, ◌∷◌, ◌++◌, length, length-append, drop,
  drop-append, drop-drop, drop_cong, ltb-true, differ, ◌≢◌, not_ltb, slice-drop, index-append, none,
  some, done, arith, true, false,
}
use rust_shed.Netstring.{
  Bytes, usize_range, num, body, NetstringDecoder, default_decoder, ok, error, scan, round,
  decode_loop, decode_buf, decimal, complete, missing_comma,
}
use rust_shed.Netstring.Numbers.{scan-digits, scan_colon}

-- The first round, where the number is complete.
pub after_number :
    (input : Bytes) (cur eaten len : ℕ)
    → scan cur 0 input ≡ complete eaten len
    → decode_buf (record { state = some (num cur) }) input
      ≡ decode_loop 1 (record { state = some (body len) }) (0 + eaten) input
unfolding decode_buf decode_loop round
after_number input cur eaten len e = rw (slice-drop 0 input (omega arith), e) refl

-- A round on a whole body.
pub body_whole :
    (input msg rest : Bytes) (c : ℕ)
    → c ≤ length input
    → drop c input ≡ msg ++ (b',' ∷ rest)
    → decode_loop 1 (record { state = some (body (length msg)) }) c input
      ≡ done (
        ok (c + (length msg + 1), some (true, record { base = c; len = length msg })),
        default_decoder,
      )
unfolding decode_loop round
body_whole input msg rest c le e =
    rw
      (
        slice-drop c input le,
        e,
        ltb-true (length msg) (length (msg ++ (b',' ∷ rest)))
            (omega (arith, length-append msg (b',' ∷ rest))),
        index-append msg b',' rest,
      )
      refl

-- A round on a body that no comma follows.
pub body_no_comma :
    (input msg : Bytes) (b : ℕ) (rest : Bytes) (c : ℕ)
    → c ≤ length input
    → drop c input ≡ msg ++ (b ∷ rest)
    → b ≢ b','
    → decode_loop 1 (record { state = some (body (length msg)) }) c input
      ≡ done (error missing_comma, record { state = none })
unfolding decode_loop round
body_no_comma input msg b rest c le e n =
    rw
      (
        slice-drop c input le,
        e,
        ltb-true (length msg) (length (msg ++ (b ∷ rest)))
            (omega (arith, length-append msg (b ∷ rest))),
        index-append msg b rest,
        differ b b',' n,
      )
      refl

-- A round on a body that is not all there.
pub body_short :
    (input tail : Bytes) (c len : ℕ)
    → c ≤ length input
    → drop c input ≡ tail
    → length tail ≤ len
    → decode_loop 1 (record { state = some (body len) }) c input
      ≡ done (
        ok (c + length tail, some (false, record { base = c; len = length tail })),
        record { state = some (body (len - length tail)) },
      )
unfolding decode_loop round
body_short input tail c len le e short =
    rw (slice-drop c input le, e, not_ltb (length tail) len short) refl

-- The bytes behind the number and its colon.
pub behind_colon :
    (number tail : Bytes) → drop (0 + (0 + length number + 1)) (number ++ (b':' ∷ tail)) ≡ tail
behind_colon number tail =
    drop_cong (0 + (0 + length number + 1)) (length number + 1) (number ++ (b':' ∷ tail))
      (omega arith)
    ∙ sym (drop-drop (length number) 1 (length number + 1) (number ++ (b':' ∷ tail)) refl)
    ∙ ap (drop 1) (drop-append number (b':' ∷ tail))

pub scan-decimal :
    (len : ℕ) (tail : Bytes)
    → len < usize_range
    → scan 0 0 (decimal len ++ (b':' ∷ tail)) ≡ complete (0 + length (decimal len) + 1) len
scan-decimal len tail h =
    scan-digits (suc len) len 0 (b':' ∷ tail) (omega arith) h
    ∙ scan_colon len (0 + length (decimal len)) tail

-- A decoder that has read the digits of `cur`.
abbrev pub reading : ℕ → NetstringDecoder
reading cur = record { state = some (num cur) }

-- The two rounds of `decode_buf` on a whole netstring.
pub decode_buf_whole :
    (cur : ℕ) (input number msg rest : Bytes)
    → input ≡ number ++ (b':' ∷ (msg ++ (b',' ∷ rest)))
    → scan cur 0 input ≡ complete (0 + length number + 1) (length msg)
    → decode_buf (reading cur) input
      ≡ done (
        ok (
          0 + (0 + length number + 1) + (length msg + 1),
          some (true, record { base = 0 + (0 + length number + 1); len = length msg }),
        ),
        default_decoder,
      )
decode_buf_whole cur input number msg rest e s =
    let tail = msg ++ (b',' ∷ rest) in
    let c = 0 + (0 + length number + 1) in
    after_number input cur (0 + length number + 1) (length msg) s
    ∙ body_whole input msg rest c (omega (arith, ap length e, length-append number (b':' ∷ tail)))
        (ap (drop c) e ∙ behind_colon number tail)
