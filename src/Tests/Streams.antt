-- ===== src/Tests/Streams.antt =====
-- Runs of the theorems on netstrings and on `buffered_weighted`, with buffers, streams and queues that
-- are lists.
use rust_shed.Prelude.{
  ℕ, ◌<◌, ◌≡◌, refl, sym, ap, ap₂, ◌∙◌, ◌↔◌, Bool, true, false, Option, none, some, List, [], ◌∷◌,
  ◌++◌, map, take, drop, length, ltb, not_ltb, if_false, if◌then◌else◌, done, panic, arith,
}
use rust_shed.Netstring.{
  Bytes, BytesMut, default_decoder, ok, error, bad_state, missing_comma, decode, decode_buf,
  decode_loop, round, scan, digits, encode,
}
use rust_shed.Netstring.Rounds.{reading}
use rust_shed.Netstring.RoundTrip.{decode-encode}
use rust_shed.Netstring.Partial.{decode_partial}
use rust_shed.Netstring.Cases.{broken, Decodes, decode_cases, error_sticks}
use rust_shed.BufferedWeighted.Peekable.{Polled, pending, ready, Source, stock}
use rust_shed.BufferedWeighted.{
  FutureWithWeight, poll_future, Tags, FuturesOrdered, BufferedWeighted, poll_next,
}
use rust_shed.BufferedWeighted.Account.{IsAccounted}
use rust_shed.BufferedWeighted.Poll.{Polls, poll_next_correct}

instance unfoldable list_bytes : BytesMut Bytes
list_bytes = record {
  as_ref = λ b. b;
  split_to = λ i b. if ltb (length b) i then panic else done (take i b, drop i b);
  put_slice = λ s b. b ++ s;
  split_to_lem = λ i b h. (
    take i b,
    drop i b,
    if_false (ltb (length b) i) panic (done (take i b, drop i b)) (not_ltb i (length b) h),
    refl,
    refl,
  );
  put_slice_lem = λ s b. refl;
}

-- "2:hi,!" and "2:h"
abbrev hi : Bytes
hi = b'h' ∷ b'i' ∷ []

abbrev sent : Bytes
sent = b'2' ∷ b':' ∷ b'h' ∷ b'i' ∷ b',' ∷ b'!' ∷ []

abbrev half : Bytes
half = b'2' ∷ b':' ∷ b'h' ∷ []

abbrev garbled : Bytes
garbled = b'2' ∷ b':' ∷ b'h' ∷ b'i' ∷ b'!' ∷ []

encoded : list_bytes.as_ref sent ≡ list_bytes.as_ref (encode hi []) ++ (b'!' ∷ [])
unfolding encode digits list_bytes
encoded = refl

encoded_half : list_bytes.as_ref half ++ (b'i' ∷ b',' ∷ []) ≡ list_bytes.as_ref (encode hi [])
unfolding encode digits list_bytes
encoded_half = refl

nothing_sent : list_bytes.as_ref [] ≡ []
unfolding list_bytes
nothing_sent = refl

decode-garbled : decode (reading 0) garbled ≡ done (error missing_comma, broken, garbled)
unfolding decode decode_buf decode_loop round scan list_bytes
decode-garbled = refl

decode-encode_example :
    (ret : Bytes) × (buf' : Bytes) × (decode default_decoder sent
      ≡ done (ok (some ret), default_decoder, buf'))
    × (list_bytes.as_ref ret ≡ hi)
    × (list_bytes.as_ref buf' ≡ b'!' ∷ [])
decode-encode_example = decode-encode hi (b'!' ∷ []) [] sent (omega arith) nothing_sent encoded

decode_partial_example : decode default_decoder half ≡ done (ok none, default_decoder, half)
decode_partial_example =
    decode_partial hi (b'i' ∷ b',' ∷ []) [] half (omega arith) nothing_sent encoded_half
      (omega arith)

decode_cases_example : Decodes 0 sent
decode_cases_example = decode_cases 0 sent

error_sticks_example :
    (garbled ≡ garbled)
    × ((next : Bytes) → decode broken next ≡ done (error bad_state, broken, next))
error_sticks_example = error_sticks 0 garbled missing_comma broken garbled decode-garbled

-- A stream that is ready with its items, and a future that is ready with its number.
abbrev poll_list : List (ℕ × ℕ) → Polled (Option (ℕ × ℕ)) × List (ℕ × ℕ)
poll_list [] = (ready none, [])
poll_list (x ∷ s) = (ready (some x), s)

abbrev no_item : List (ℕ × ℕ) → Bool
no_item [] = true
no_item (x ∷ s) = false

poll_list_lem :
    (s t : List (ℕ × ℕ)) (x : ℕ × ℕ) → poll_list s ≡ (ready (some x), t) → length t < length s
poll_list_lem [] t x e = absurd (cc e)
poll_list_lem (y ∷ s) t x e = let rest : s ≡ t = cc e in omega (arith, ap length rest)

instance unfoldable list_source : Source (List (ℕ × ℕ)) ℕ
list_source = record {
  poll_next = poll_list;
  is_terminated = no_item;
  at_once = length;
  poll_next_lem = poll_list_lem;
}

abbrev Queue : Type 0
Queue = List (FutureWithWeight ℕ)

abbrev poll_number : ℕ → Polled ℕ × ℕ
poll_number n = (ready n, n)

abbrev poll_front : Queue → Polled (Option (ℕ × ℕ)) × Queue
poll_front [] = (ready none, [])
poll_front (f ∷ fs) = (ready (some (f.weight, f.future)), fs)

abbrev no_future : Queue → Bool
no_future [] = true
no_future (f ∷ fs) = false

no_future_lem : (q : Queue) → (no_future q ≡ true) ↔ (q ≡ [])
no_future_lem [] = (λ e. refl, λ e. refl)
no_future_lem (f ∷ fs) = (λ e. absurd (cc e), λ e. absurd (cc e))

poll_front-pending : (q r : Queue) → poll_front q ≡ (pending, r) → r ≡ q
poll_front-pending [] r e = absurd (cc e)
poll_front-pending (f ∷ fs) r e = absurd (cc e)

poll_front-ready :
    (tag : FutureWithWeight ℕ → ℕ) (tag_out : ℕ × ℕ → ℕ)
    → Tags (poll_future poll_number) tag tag_out
    → (q r : Queue) (x : ℕ × ℕ) → poll_front q ≡ (ready (some x), r)
    → map tag q ≡ tag_out x ∷ map tag r
unfolding poll_future
poll_front-ready tag tag_out t [] r x e = absurd (cc e)
poll_front-ready tag tag_out t (f ∷ fs) r x e =
    let same : (f.weight, f.future) ≡ x = cc e in
    let rest : fs ≡ r = cc e in
    ap₂ (λ a b. a ∷ map tag b) (sym (t.given f f (f.weight, f.future) refl) ∙ ap tag_out same) rest

poll_front-none : (q r : Queue) → poll_front q ≡ (ready none, r) → (q ≡ []) × (r ≡ [])
poll_front-none [] r e = (refl, sym (cc e))
poll_front-none (f ∷ fs) r e = absurd (cc e)

instance unfoldable list_futures : FuturesOrdered (poll_future poll_number) Queue
list_futures = record {
  held = λ q. q;
  empty = [];
  push_back = λ f q. q ++ (f ∷ []);
  is_empty = no_future;
  poll_next = poll_front;
  empty_lem = refl;
  push_back_lem = λ f q. refl;
  is_empty_lem = no_future_lem;
  poll_pending = λ tag tag_out t q r e. ap (map tag) (poll_front-pending q r e);
  poll_ready = poll_front-ready;
  poll_none = poll_front-none;
}

abbrev two_futures : BufferedWeighted (List (ℕ × ℕ)) ℕ (List (FutureWithWeight ℕ))
two_futures = record {
  stream = record { stream = (4, 40) ∷ (9, 90) ∷ []; peeked = none };
  in_progress_queue = [];
  global_weight = record { max = 5; current = 0 };
  bound = record { bound = none };
}

two_futures-IsAccounted : IsAccounted poll_number two_futures
unfolding list_futures
two_futures-IsAccounted = record { bounded = omega arith; within = omega arith; accounted = refl }

two_items : stock two_futures.stream < 3
unfolding list_source
two_items = omega arith

poll_next_correct_example :
    Polls poll_number (poll_next poll_number (λ round. none) 3 two_futures) 5
poll_next_correct_example =
    poll_next_correct poll_number (λ round. none) 3 two_futures two_futures-IsAccounted two_items
