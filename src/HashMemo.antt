-- ===== src/HashMemo.antt =====
-- shed/hash_memo/src/lib.rs: hashers that take a hash that was computed before. The inner hasher and
-- the `Hash` of the values are parameters; a value feeds a hasher with writes. A hasher is used by one
-- thread at a time, so its atomic flags are fields.
pub mod Agreement
use rust_shed.Prelude.{ℕ, Bool, true, false, Option, none, some, List, [], ◌∷◌, if◌then◌else◌}

-- The writes of `Hasher`; an integer is its bits.
pub data Write : Type 0 where
  write : List ℕ → Write
  write_u8 : ℕ → Write
  write_u16 : ℕ → Write
  write_u32 : ℕ → Write
  write_u64 : ℕ → Write
  write_u128 : ℕ → Write
  write_usize : ℕ → Write
  write_i8 : ℕ → Write
  write_i16 : ℕ → Write
  write_i32 : ℕ → Write
  write_i64 : ℕ → Write
  write_i128 : ℕ → Write
  write_isize : ℕ → Write

-- `Hasher`; `finish` may change what a hasher keeps in its flags.
pub record Hasher (H : Type 0) : Type 0 where
  pub finish : H → ℕ × H
  pub feed : H → Write → H

pub record MemoHasher (H : Type 0) : Type 0 where
  pub inner_hasher : H
  pub finish_memo : Option ℕ
  pub needs_finish : Bool
  pub accept_memo : Bool

module _ {H : Type 0} where
  -- `MemoHasher::new`, and `build_hasher` where `H` is what the inner factory builds.
  unfoldable pub new_hasher : H → MemoHasher H
  new_hasher inner = record {
    inner_hasher = inner;
    finish_memo = none;
    needs_finish = false;
    accept_memo = false;
  }

  module _ ⦃hasher : Hasher H⦄ where
    unfoldable pub memo_finish : MemoHasher H → ℕ × MemoHasher H
    memo_finish self = elim self.finish_memo [
      | some v ↦ (v, record self { needs_finish = false })
      | none ↦
          if self.needs_finish
          then (let (v, inner) = hasher.finish self.inner_hasher in
              (v, record self { inner_hasher = inner; needs_finish = false }))
          else (0, record self { accept_memo = true; needs_finish = false })
    ]

    -- What all the writes but `write_u64` do.
    unfoldable pub pass_on : MemoHasher H → Write → MemoHasher H
    pass_on self w = record self {
      needs_finish = true;
      inner_hasher = hasher.feed self.inner_hasher w;
    }

    unfoldable pub memo_write_u64 : MemoHasher H → ℕ → MemoHasher H
    unfolding pass_on
    memo_write_u64 self v =
        if self.accept_memo
        then record self { finish_memo = some v }
        else pass_on self (write_u64 v)

    unfoldable pub memo_feed : MemoHasher H → Write → MemoHasher H
    unfolding pass_on memo_write_u64
    memo_feed self (write_u64 v) = memo_write_u64 self v
    memo_feed self (write bytes) = pass_on self (write bytes)
    memo_feed self (write_u8 i) = pass_on self (write_u8 i)
    memo_feed self (write_u16 i) = pass_on self (write_u16 i)
    memo_feed self (write_u32 i) = pass_on self (write_u32 i)
    memo_feed self (write_u128 i) = pass_on self (write_u128 i)
    memo_feed self (write_usize i) = pass_on self (write_usize i)
    memo_feed self (write_i8 i) = pass_on self (write_i8 i)
    memo_feed self (write_i16 i) = pass_on self (write_i16 i)
    memo_feed self (write_i32 i) = pass_on self (write_i32 i)
    memo_feed self (write_i64 i) = pass_on self (write_i64 i)
    memo_feed self (write_i128 i) = pass_on self (write_i128 i)
    memo_feed self (write_isize i) = pass_on self (write_isize i)

    instance unfoldable pub memo_Hasher : Hasher (MemoHasher H)
    memo_Hasher = record { finish = memo_finish; feed = memo_feed }

module _ {H : Type 0} ⦃hasher : Hasher H⦄ where
  -- `Hash::hash` of a value that feeds a hasher with the writes.
  abbrev pub feed_all : H → List Write → H
  feed_all h [] = h
  feed_all h (w ∷ ws) = feed_all (hasher.feed h w) ws

  -- `BuildHasher::hash_one`, with a hasher that is just built.
  abbrev pub hash_one : H → List Write → ℕ
  hash_one h writes = (hasher.finish (feed_all h writes)).0

  -- The `Hash` of both memoizers: a `finish`, whose result is dropped, and the memo.
  unfoldable pub hash_memoized : H → ℕ → H
  hash_memoized state memo = hasher.feed (hasher.finish state).1 (write_u64 memo)

pub record EagerHashMemoizer (T : Type 0) : Type 0 where
  pub hash_memo : ℕ
  pub inner : T

-- `OnceLock` is an option that is set once.
pub record LazyHashMemoizer (T : Type 0) : Type 0 where
  pub inner : T
  pub hash_memo : Option ℕ

module _ {T : Type 0} (hash : T → List Write) where
  module _ {F : Type 0} ⦃inner : Hasher F⦄ where
    -- `factory` is the hasher that the factory builds.
    unfoldable pub new_eager : T → F → EagerHashMemoizer T
    new_eager value factory = record { hash_memo = hash_one factory (hash value); inner = value }

    -- `get_or_init`
    unfoldable pub lazy_memo : F → LazyHashMemoizer T → ℕ × LazyHashMemoizer T
    lazy_memo factory self = elim self.hash_memo [
      | some v ↦ (v, self)
      | none ↦ let v = hash_one factory (hash self.inner) in (v, record self { hash_memo = some v })
    ]

  unfoldable pub new_lazy : T → LazyHashMemoizer T
  new_lazy value = record { inner = value; hash_memo = none }

  module _ {H : Type 0} ⦃hasher : Hasher H⦄ where
    unfoldable pub eager_hash : EagerHashMemoizer T → H → H
    unfolding hash_memoized
    eager_hash self state = hash_memoized state self.hash_memo

    -- `Hash` of a lazy memoizer sets the memo.
    unfoldable pub lazy_hash :
        {F : Type 0} ⦃inner : Hasher F⦄ → F → LazyHashMemoizer T → H → H × LazyHashMemoizer T
    unfolding hash_memoized lazy_memo
    lazy_hash factory self state =
        let (v, self') = lazy_memo factory self in (hash_memoized state v, self')
