-- ===== src/HashMemo/Agreement.antt =====
-- The hashes of a value and of its memoizers agree, so a map finds one by the other.
use rust_shed.Prelude.{
  ℕ, ◌≡◌, ◌⊎◌, inl, inr, refl, ap, ◌∙◌, Bool, true, false, Option, none, some, List, [], ◌∷◌,
}
use rust_shed.HashMemo.{
  Write, write, write_u8, write_u16, write_u32, write_u64, write_u128, write_usize, write_i8,
  write_i16, write_i32, write_i64, write_i128, write_isize, Hasher, new_hasher, memo_finish,
  pass_on, memo_write_u64, memo_feed, memo_Hasher, feed_all, hash_one, new_eager, lazy_memo,
  eager_hash, lazy_hash,
}

module _ {H : Type 0} ⦃hasher : Hasher H⦄ where
  -- A hasher that has not seen a `finish` passes every write on.
  feeding :
      (inner : H) (needs : Bool) (w : Write)
      → memo_feed
          (record {
            inner_hasher = inner;
            finish_memo = none;
            needs_finish = needs;
            accept_memo = false;
          })
          w
        ≡ record {
          inner_hasher = hasher.feed inner w;
          finish_memo = none;
          needs_finish = true;
          accept_memo = false;
        }
  unfolding memo_feed memo_write_u64 pass_on
  feeding inner needs (write bytes) = refl
  feeding inner needs (write_u8 i) = refl
  feeding inner needs (write_u16 i) = refl
  feeding inner needs (write_u32 i) = refl
  feeding inner needs (write_u64 i) = refl
  feeding inner needs (write_u128 i) = refl
  feeding inner needs (write_usize i) = refl
  feeding inner needs (write_i8 i) = refl
  feeding inner needs (write_i16 i) = refl
  feeding inner needs (write_i32 i) = refl
  feeding inner needs (write_i64 i) = refl
  feeding inner needs (write_i128 i) = refl
  feeding inner needs (write_isize i) = refl

  feeding_all :
      (inner : H) (ws : List Write)
      → feed_all ⦃hasher = memo_Hasher⦄
          (record {
            inner_hasher = inner;
            finish_memo = none;
            needs_finish = true;
            accept_memo = false;
          })
          ws
        ≡ record {
          inner_hasher = feed_all inner ws;
          finish_memo = none;
          needs_finish = true;
          accept_memo = false;
        }
  unfolding memo_Hasher
  feeding_all inner [] = refl
  feeding_all inner (w ∷ ws) =
      ap (λ s. feed_all ⦃hasher = memo_Hasher⦄ s ws) (feeding inner true w)
      ∙ feeding_all (hasher.feed inner w) ws

-- The hash of a value by a memo hasher, if the value makes the writes.
abbrev pub plain_hash : {H : Type 0} ⦃hasher : Hasher H⦄ → H → List Write → ℕ
plain_hash h [] = 0
plain_hash h (w ∷ ws) = hash_one h (w ∷ ws)

module _ {T H : Type 0} (hash : T → List Write) ⦃hasher : Hasher H⦄ where
  -- If the lock of a lazy memoizer is empty or holds the hash of its value, then a memo hasher that is
  -- just built gives the value, its eager memoizer and its lazy memoizer the hash that the inner hasher
  -- gives the value, and the lock holds it afterwards. A value that makes no writes is the exception:
  -- its own hash is 0.
  pub hash_memoized_lem :
      (h : H) (value : T) (memo : Option ℕ)
      → (memo ≡ none) ⊎ (memo ≡ some (hash_one h (hash value)))
      → (hash_one ⦃hasher = memo_Hasher⦄ (new_hasher h) (hash value) ≡ plain_hash h (hash value))
        × ((memo_finish (eager_hash hash (new_eager hash value h) (new_hasher h))).0
            ≡ hash_one h (hash value))
        × ((memo_finish
              (lazy_hash hash h (record { inner = value; hash_memo = memo }) (new_hasher h)).0).0
            ≡ hash_one h (hash value))
        × ((lazy_hash hash h
              (record { inner = value; hash_memo = memo })
              (new_hasher h)).1.hash_memo
            ≡ some (hash_one h (hash value)))
  unfolding memo_Hasher memo_finish new_hasher eager_hash new_eager lazy_hash lazy_memo memo_feed
      memo_write_u64
  hash_memoized_lem h value memo lock = elim lock [
    | inl e ↦ (plain (hash value), refl, rw (lazy_memo, e) refl, rw (lazy_memo, e) refl)
    | inr e ↦ (plain (hash value), refl, rw (lazy_memo, e) refl, rw (lazy_memo, e) e)
  ]
    where
      plain :
          (ws : List Write) → hash_one ⦃hasher = memo_Hasher⦄ (new_hasher h) ws ≡ plain_hash h ws
      plain [] = refl
      plain (w ∷ ws) =
          ap (λ s. (memo_finish (feed_all ⦃hasher = memo_Hasher⦄ s ws)).0) (feeding h false w)
          ∙ ap (λ s. (memo_finish s).0) (feeding_all (hasher.feed h w) ws)
