-- ===== src/Netstring.antt =====
-- shed/netstring/src/decode.rs and encode.rs: the netstring codec. A byte is a number. The buffers are
-- those of the `bytes` crate, which is a parameter: a type with the calls that the codec makes.
pub mod Numbers
pub mod Rounds
pub mod RoundTrip
pub mod Partial
pub mod Cases
use Prim.Native.String.{String}
use rust_shed.Prelude.{
  ℕ, zero, suc, ◌+◌, ◌-◌, ◌*◌, ◌/◌, ◌%◌, ◌≤◌, ◌≡◌, Bool, true, false, Option, none, some, List, [],
  ◌∷◌, ◌++◌, Outcome, done, panic, ◌>>=◌, slice, index, length, take, drop, ltb, leb, ◌==◌, ◌&&◌,
  if◌then◌else◌,
}

abbrev pub Bytes : Type 0
Bytes = List ℕ

-- `BytesMut`: its bytes, `split_to`, which returns the bytes before an index and what is left, and
-- `put_slice`; with what their documentation says of them.
pub record BytesMut (B : Type 0) : Type 0 where
  pub as_ref : B → Bytes
  pub split_to : ℕ → B → Outcome (B × B)
  pub put_slice : Bytes → B → B
  pub split_to_lem :
      (i : ℕ) (b : B)
      → i ≤ length (as_ref b)
      → (front : B) × (rest : B) × (split_to i b ≡ done (front, rest))
        × (as_ref front ≡ take i (as_ref b))
        × (as_ref rest ≡ drop i (as_ref b))
  pub put_slice_lem : (s : Bytes) (b : B) → as_ref (put_slice s b) ≡ as_ref b ++ s

-- The values of a `usize` are below this one.
abbrev pub usize_range : ℕ
usize_range = 18446744073709551616

pub data State : Type 0 where
  num : ℕ → State
  body : ℕ → State

pub record NetstringDecoder : Type 0 where
  pub state : Option State

-- `Default::default`
abbrev pub default_decoder : NetstringDecoder
default_decoder = record { state = some (num 0) }

pub record Slice : Type 0 where
  pub base : ℕ
  pub len : ℕ

abbrev pub slice_start : Slice → ℕ
slice_start s = s.base

abbrev pub slice_end : Slice → ℕ
slice_end s = s.base + s.len

pub data ErrorKind : Type 0 where
  netstring_decode : String → ErrorKind

-- The errors that the decoder returns.
abbrev pub bad_state : ErrorKind
bad_state = netstring_decode "bad state"

abbrev pub bad_character : ErrorKind
bad_character = netstring_decode "Bad character in payload size"

abbrev pub missing_comma : ErrorKind
missing_comma = netstring_decode "missing ','"

pub data Result (A : Type 0) : Type 0 where
  ok : A → Result A
  error : ErrorKind → Result A

-- The `for` over the bytes of a number: it breaks behind a colon, with the bytes eaten and the
-- number, runs out of input with the number so far, or bails.
pub data Scan : Type 0 where
  complete : (eaten : ℕ) → (cur : ℕ) → Scan
  partial : (cur : ℕ) → Scan
  bad : Scan

-- `cur * 10 + digit` wraps, as it does in a release build.
unfoldable pub scan : ℕ → ℕ → Bytes → Scan
scan cur idx [] = partial cur
scan cur idx (inp ∷ buf) =
    let rest = scan ((cur * 10 + (inp - b'0')) % usize_range) (idx + 1) buf in
    if leb b'0' inp && leb inp b'9'
    then rest
    else if inp == b':'
    then complete (idx + 1) cur
    else bad

-- What one round of the loop leaves: the bytes consumed, the next state, and what to return, if
-- anything.
abbrev pub Round : Type 0
Round = ℕ × State × Option (Option (Bool × Slice))

abbrev pub number_round : ℕ → ℕ → Scan → Result Round
number_round consumed len (complete eaten cur) = ok (consumed + eaten, body cur, none)
number_round consumed len (partial cur) = ok (consumed + len, num cur, some none)
number_round consumed len bad = error bad_character

-- Behind the `ensure!` of a whole body.
abbrev pub checked_body : ℕ → ℕ → Bool → Outcome (Result Round)
checked_body consumed len true =
    done
      (ok (consumed + (len + 1), num 0, some (some (true, record { base = consumed; len = len }))))
checked_body consumed len false = done (error missing_comma)

-- The `match state`, on the bytes that are not consumed yet.
unfoldable pub round : State → ℕ → Bytes → Outcome (Result Round)
round (num cur) consumed buf = done (number_round consumed (length buf) (scan cur 0 buf))
round (body len) consumed buf =
    if ltb len (length buf)
    then (do comma ← index buf len; checked_body consumed len (comma == b','))
    else done (
        ok (
          consumed + length buf,
          body (len - length buf),
          some (some (false, record { base = consumed; len = length buf })),
        ))

abbrev pub Buffered : Type 0
Buffered = Result (ℕ × Option (Bool × Slice))

-- The loop of `decode_buf`. The fuel bounds the rounds; the function panics where it runs out.
unfoldable pub decode_loop :
    ℕ → NetstringDecoder → ℕ → Bytes → Outcome (Buffered × NetstringDecoder)
decode_loop zero self consumed buf = panic
decode_loop (suc fuel) self consumed buf = elim self.state [
  | none ↦ done (error bad_state, record { state = none })
  | some state ↦ do
    left ← slice buf consumed (length buf)
    result ← round state consumed left
    elim result [
      | error e ↦ done (error e, record { state = none })
      | ok (consumed', next, ret) ↦ elim ret [
        | none ↦ decode_loop fuel (record { state = some next }) consumed' buf
        | some r ↦ done (ok (consumed', r), record { state = some next })
      ]
    ]
]

-- A number is followed by a body, and a body returns: two rounds.
unfoldable pub decode_buf : NetstringDecoder → Bytes → Outcome (Buffered × NetstringDecoder)
decode_buf self buf = decode_loop 2 self 0 buf

-- `write!(buf, "{}", n)`: the decimal digits. The fuel bounds their number.
unfoldable pub digits : ℕ → ℕ → Bytes
digits zero n = []
digits (suc fuel) n =
    let front = digits fuel (n / 10) in
    if ltb n 10 then (b'0' + n) ∷ [] else front ++ ((b'0' + n % 10) ∷ [])

abbrev pub decimal : ℕ → Bytes
decimal n = digits (suc n) n

module _ {B : Type 0} ⦃bytes : BytesMut B⦄ where
  -- The result, the decoder and the buffer behind the call.
  unfoldable pub decode : NetstringDecoder → B → Outcome (Result (Option B) × NetstringDecoder × B)
  decode self buf = do
    (res, after) ← decode_buf self (bytes.as_ref buf)
    elim res [
      | error e ↦ done (error e, after, buf)
      | ok (consumed, none) ↦ done (ok none, self, buf)
      | ok (consumed, some (full, part)) ↦
          if full
          then (do
            (ret, buf') ← bytes.split_to (slice_end part) buf
            (skipped, buf'') ←
                if ltb (slice_end part) consumed
                then bytes.split_to (consumed - slice_end part) buf'
                else done (buf', buf')
            (head, ret') ← bytes.split_to (slice_start part) ret
            done (ok (some ret'), after, buf''))
          else done (ok none, self, buf)
    ]

  -- `reserve` changes no bytes.
  unfoldable pub encode : Bytes → B → B
  encode msg buf =
      bytes.put_slice (b',' ∷ [])
        (bytes.put_slice msg (bytes.put_slice (decimal (length msg) ++ (b':' ∷ [])) buf))
