-- ===== src/Cache/Sharded.antt =====
-- src/cache.rs: `ShardedRwLruStore`. A shard's lock makes each access to it one step; what other
-- threads do between two steps is an argument. The hash of a key (`DefaultHasher`) is a function of
-- the key. The lock metrics are left out.
use pd_edge.Common.{
  ℕ, zero, suc, ◌+◌, ◌-◌, ◌/◌, ◌%◌, List, [], ◌∷◌, Option, none, some, length, get_elem?, ltb,
  if◌then◌else◌,
}
use pd_edge.Cache.Lru.{BoundedLruStore, new, peek, insert_value}
use Prim.Native.Nat.{min, max}
pub mod Capacity
pub mod Access

abbrev pub default_shard_count : ℕ
default_shard_count = 32

-- `capacity.clamp(1, DEFAULT_SHARD_COUNT)`
unfoldable pub recommended_shard_count : ℕ → ℕ
recommended_shard_count capacity =
    if ltb capacity 1
    then 1
    else if ltb default_shard_count capacity
    then default_shard_count
    else capacity

-- `(from..from + count).map(…)`
unfoldable pub new_shards {ℓ} :
    {K V : Type ℓ} → (base extra from count : ℕ) → List (BoundedLruStore K V)
new_shards base extra from zero = []
new_shards base extra from (suc count) =
    new (base + (if ltb from extra then 1 else 0)) ∷ new_shards base extra (from + 1) count

pub record ShardedRwLruStore {ℓ} (K V : Type ℓ) : Type ℓ where
  pub shards : List (BoundedLruStore K V)

unfoldable pub new_sharded {ℓ} : {K V : Type ℓ} → ℕ → ShardedRwLruStore K V
new_sharded capacity =
    let shard_count = recommended_shard_count capacity in
    record { shards = new_shards (capacity / shard_count) (capacity % shard_count) 0 shard_count }

-- `shards.iter().map(|shard| shard.capacity).sum()`
unfoldable pub total_capacity {ℓ} : {K V : Type ℓ} → List (BoundedLruStore K V) → ℕ
total_capacity [] = 0
total_capacity (s ∷ shards) = s.capacity + total_capacity shards

-- An access under the write lock of one shard.
unfoldable pub modify_at {ℓ} : {A : Type ℓ} → ℕ → (A → A) → List A → List A
modify_at i f [] = []
modify_at zero f (x ∷ xs) = f x ∷ xs
modify_at (suc i) f (x ∷ xs) = x ∷ modify_at i f xs

abbrev pub and_then {ℓ} : {A B : Type ℓ} → Option A → (A → Option B) → Option B
and_then none f = none
and_then (some a) f = f a

unfoldable pub shard_index_for {ℓ} : {K : Type ℓ} → (hash : K → ℕ) → K → ℕ → ℕ
shard_index_for hash key shard_count = hash key % max shard_count 1

module _ {ℓ} {K V : Type ℓ} (dec : Discrete K) (hash : K → ℕ) where
  unfoldable pub shard_of : K → ShardedRwLruStore K V → ℕ
  unfolding shard_index_for
  shard_of key s = shard_index_for hash key (length s.shards)

  -- `peek_cloned`
  unfoldable pub peek_sharded : K → ShardedRwLruStore K V → Option V
  peek_sharded key s = and_then (get_elem? s.shards (shard_of key s)) (peek dec key)

  unfoldable pub insert_sharded : K → V → ShardedRwLruStore K V → ShardedRwLruStore K V
  insert_sharded key value s = record s {
    shards = modify_at (shard_of key s) (λ shard. (insert_value dec key value shard).1) s.shards;
  }

  -- `get_or_insert_with_cloned`: a look under the read lock, then a second one and the insertion
  -- under the write lock. `others` is what other threads do in between.
  unfoldable pub get_or_insert :
      K
      → (create : V) → (others : ShardedRwLruStore K V → ShardedRwLruStore K V)
      → ShardedRwLruStore K V
      → V × ShardedRwLruStore K V
  get_or_insert key create others s = elim (peek_sharded key s) [
    | some existing ↦ (existing, s)
    | none ↦
        let s' = others s in
        elim (peek_sharded key s') [
          | some existing ↦ (existing, s')
          | none ↦ (create, insert_sharded key create s')
        ]
  ]

-- `clear`
unfoldable pub clear {ℓ} : {K V : Type ℓ} → List (BoundedLruStore K V) → List (BoundedLruStore K V)
clear [] = []
clear (s ∷ shards) = record s { values = []; lru_order = [] } ∷ clear shards
