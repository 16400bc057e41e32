-- ===== src/Netstring/RoundTrip.antt =====
-- A message that `encode` writes is the one that `decode` reads, with what follows it left in the
-- buffer.
use rust_shed.Prelude.{
  ℕ, ◌+◌, ◌-◌, ◌≤◌, ◌<◌, ◌≡◌, refl, sym, ap, ◌∙◌, [], ◌∷◌, ◌++◌, append_assoc, length,
  length-append, take, drop, take-append, drop-append, drop-drop, drop_cong, ltb-false, drop-take,
  length-take, length-drop, some, done, arith, true, if_true, if_false, if◌then◌else◌, ltb,
  Bool-cases, inl, inr,
}
use rust_shed.Netstring.{
  Bytes, BytesMut, usize_range, NetstringDecoder, default_decoder, slice_end, ok, Slice, scan,
  decode_buf, decimal, decode, encode, complete,
}
use rust_shed.Netstring.Rounds.{behind_colon, scan-decimal, reading, decode_buf_whole}

-- The framing of a message: its length in decimal, a colon, the message and a comma.
abbrev pub netstring : Bytes → Bytes
netstring msg = decimal (length msg) ++ (b':' ∷ (msg ++ (b',' ∷ [])))

module _ {B : Type 0} ⦃bytes : BytesMut B⦄ where
  pub encode_lem :
      (msg : Bytes) (buf : B) → bytes.as_ref (encode msg buf) ≡ bytes.as_ref buf ++ netstring msg
  unfolding encode
  encode_lem msg buf =
      let number = decimal (length msg) ++ (b':' ∷ []) in
      let b1 = bytes.put_slice number buf in
      bytes.put_slice_lem (b',' ∷ []) (bytes.put_slice msg b1)
      ∙ ap (λ z. z ++ (b',' ∷ []))
          (bytes.put_slice_lem msg b1 ∙ ap (λ z. z ++ msg) (bytes.put_slice_lem number buf))
      ∙ simp append_assoc

  -- What `decode` skips behind the body.
  skip :
      (end consumed : ℕ) (b : B)
      → end ≤ consumed
      → consumed - end ≤ length (bytes.as_ref b)
      → (s : B) × (r : B) × ((if ltb end consumed
            then bytes.split_to (consumed - end) b
            else done (b, b))
          ≡ done (s, r))
        × (bytes.as_ref r ≡ drop (consumed - end) (bytes.as_ref b))
  skip end consumed b le fits = elim (Bool-cases (ltb end consumed)) [
    | inl l ↦
        let (s, r, e, f, g) = bytes.split_to_lem (consumed - end) b fits in
        (
          s,
          r,
          if_true (ltb end consumed) (bytes.split_to (consumed - end) b) (done (b, b)) l ∙ e,
          g,
        )
    | inr l ↦ (
      b,
      b,
      if_false (ltb end consumed) (bytes.split_to (consumed - end) b) (done (b, b)) l,
      drop_cong 0 (consumed - end) (bytes.as_ref b) (omega (arith, le, ltb-false consumed end l)),
    )
  ]

  -- Where `decode_buf` finds a whole body, `decode` splits it off the buffer.
  pub decode_whole :
      (self after : NetstringDecoder) (buf : B) (consumed : ℕ) (part : Slice)
      → decode_buf self (bytes.as_ref buf) ≡ done (ok (consumed, some (true, part)), after)
      → slice_end part ≤ consumed
      → consumed ≤ length (bytes.as_ref buf)
      → (ret : B) × (buf' : B) × (decode self buf ≡ done (ok (some ret), after, buf'))
        × (bytes.as_ref ret ≡ take part.len (drop part.base (bytes.as_ref buf)))
        × (bytes.as_ref buf' ≡ drop consumed (bytes.as_ref buf))
  unfolding decode
  decode_whole self after buf consumed part e le fits =
      let input = bytes.as_ref buf in
      let end = slice_end part in
      let (front, r1, e1, f1, g1) = bytes.split_to_lem end buf (omega (arith, le, fits)) in
      let (s, r2, e2, g2) =
        skip end consumed r1 le (omega (arith, fits, ap length g1, length-drop end input)) in
      let (head, ret, e3, f3, g3) =
        bytes.split_to_lem part.base front
          (omega (arith, le, fits, ap length f1, length-take end input)) in
      (
        ret,
        r2,
        rw (e, e1, e2, e3),
        g3 ∙ ap (drop part.base) f1 ∙ drop-take part.base part.len end input refl,
        g2
            ∙ ap (drop (consumed - end)) g1
            ∙ drop-drop end (consumed - end) consumed input (omega (arith, le)),
      )

module _ {B : Type 0} ⦃bytes : BytesMut B⦄ where
  -- A whole netstring at the start of the buffer is split off.
  pub decode_message :
      (cur : ℕ) (number msg rest : Bytes) (buf : B)
      → bytes.as_ref buf ≡ number ++ (b':' ∷ (msg ++ (b',' ∷ rest)))
      → scan cur 0 (bytes.as_ref buf) ≡ complete (0 + length number + 1) (length msg)
      → (ret : B) × (buf' : B) × (decode (reading cur) buf
          ≡ done (ok (some ret), default_decoder, buf'))
        × (bytes.as_ref ret ≡ msg)
        × (bytes.as_ref buf' ≡ rest)
  decode_message cur number msg rest buf e s =
      let tail = msg ++ (b',' ∷ rest) in
      let c = 0 + (0 + length number + 1) in
      let behind : drop c (bytes.as_ref buf) ≡ tail = ap (drop c) e ∙ behind_colon number tail in
      let size : length (bytes.as_ref buf) ≡ c + (length msg + 1) + length rest =
        omega (
          arith,
          ap length e,
          length-append number (b':' ∷ tail),
          length-append msg (b',' ∷ rest),
        ) in
      let (ret, buf', d, f, g) =
        decode_whole (reading cur) default_decoder buf (c + (length msg + 1))
          (record { base = c; len = length msg })
          (decode_buf_whole cur (bytes.as_ref buf) number msg rest e s) (omega arith)
          (omega (arith, size)) in
      (
        ret,
        buf',
        d,
        f ∙ ap (take (length msg)) behind ∙ take-append msg (b',' ∷ rest),
        g
            ∙ sym (drop-drop c (length msg + 1) (c + (length msg + 1)) (bytes.as_ref buf) refl)
            ∙ ap (drop (length msg + 1)) behind
            ∙ sym (drop-drop (length msg) 1 (length msg + 1) tail refl)
            ∙ ap (drop 1) (drop-append msg (b',' ∷ rest)),
      )

  -- From a buffer that starts with what `encode` writes for a message shorter than 2^64 bytes, the
  -- default decoder reads the message. It is in its default state again, and what followed the
  -- message is left in the buffer.
  pub decode-encode :
      (msg rest : Bytes) (empty buf : B)
      → length msg < usize_range
      → bytes.as_ref empty ≡ []
      → bytes.as_ref buf ≡ bytes.as_ref (encode msg empty) ++ rest
      → (ret : B) × (buf' : B) × (decode default_decoder buf
          ≡ done (ok (some ret), default_decoder, buf'))
        × (bytes.as_ref ret ≡ msg)
        × (bytes.as_ref buf' ≡ rest)
  decode-encode msg rest empty buf h none_before e =
      let number = decimal (length msg) in
      let tail = msg ++ (b',' ∷ rest) in
      let whole : bytes.as_ref buf ≡ number ++ (b':' ∷ tail) =
        e
        ∙ ap (λ z. z ++ rest) (encode_lem msg empty ∙ ap (λ z. z ++ netstring msg) none_before)
        ∙ simp append_assoc in
      decode_message 0 number msg rest buf whole
        (ap (scan 0 0) whole ∙ scan-decimal (length msg) tail h)
