-- ===== src/Tests/Hashes.antt =====
-- A hasher that adds up what it is fed.
use rust_shed.Prelude.{ℕ, ◌+◌, ◌*◌, ◌≡◌, refl, none, some, List, [], ◌∷◌, inl}
use rust_shed.HashMemo.{
  Write, write_u8, write_u32, Hasher, new_hasher, memo_finish, memo_Hasher, hash_one, new_eager,
  eager_hash, lazy_hash,
}
use rust_shed.HashMemo.Agreement.{plain_hash, hash_memoized_lem}

abbrev amount : Write → ℕ
amount (write_u8 i) = i
amount (write_u32 i) = i
amount w = 1

instance sum_Hasher : Hasher ℕ
sum_Hasher = record { finish = λ h. (h, h); feed = λ h w. 31 * h + amount w }

abbrev hash : ℕ → List Write
hash n = write_u32 n ∷ write_u8 2 ∷ []

abbrev seed : ℕ
seed = 7

hash_memoized_lem_example :
    (hash_one ⦃hasher = memo_Hasher {H = ℕ}⦄ (new_hasher seed) (hash 5) ≡ plain_hash seed (hash 5))
    × ((memo_finish (eager_hash hash (new_eager hash 5 seed) (new_hasher seed))).0
        ≡ hash_one seed (hash 5))
    × ((memo_finish
          (lazy_hash hash seed (record { inner = 5; hash_memo = none }) (new_hasher seed)).0).0
        ≡ hash_one seed (hash 5))
    × ((lazy_hash hash seed (record { inner = 5; hash_memo = none }) (new_hasher seed)).1.hash_memo
        ≡ some (hash_one seed (hash 5)))
hash_memoized_lem_example = hash_memoized_lem hash seed 5 none (inl refl)
