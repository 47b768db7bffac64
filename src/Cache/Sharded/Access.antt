-- ===== src/Cache/Sharded/Access.antt =====
-- src/cache.rs: what the accesses of `ShardedRwLruStore` return.
use pd_edge.Common.{
  ℕ, zero, suc, ◌≤◌, ◌<◌, ◌≡◌, ◌≢◌, refl, ap, ◌∙◌, List, [], ◌∷◌, Option, none, some, ◌⊎◌, length,
  get_elem?, arith, Option-cases, inl, inr,
}
use pd_edge.Cache.Lru.{BoundedLruStore, peek, insert_value}
use pd_edge.Cache.Lru.Refines.{Represents}
use pd_edge.Cache.Lru.Run.{peek-insert_value_self}
use pd_edge.Cache.Sharded.{
  ShardedRwLruStore, modify_at, shard_of, shard_index_for, peek_sharded, insert_sharded,
  get_or_insert, and_then,
}
use native.Mathlib.Nat.{mod-lt}
use Prim.Native.Nat.{max}

module _ {ℓ} {A : Type ℓ} where
  get_elem?-modify_at_self :
      (xs : List A) (i : ℕ) (f : A → A) {x : A}
      → get_elem? xs i ≡ some x
      → get_elem? (modify_at i f xs) i ≡ some (f x)
  unfolding modify_at
  get_elem?-modify_at_self [] i f e = cc
  get_elem?-modify_at_self (x ∷ xs) zero f e = cc
  get_elem?-modify_at_self (x ∷ xs) (suc i) f e = get_elem?-modify_at_self xs i f e

  get_elem?-modify_at_ne :
      (xs : List A) (i j : ℕ) (f : A → A) → j ≢ i → get_elem? (modify_at i f xs) j ≡ get_elem? xs j
  unfolding modify_at
  get_elem?-modify_at_ne [] i j f h = refl
  get_elem?-modify_at_ne (x ∷ xs) zero zero f h = absurd (h refl)
  get_elem?-modify_at_ne (x ∷ xs) zero (suc j) f h = refl
  get_elem?-modify_at_ne (x ∷ xs) (suc i) zero f h = refl
  get_elem?-modify_at_ne (x ∷ xs) (suc i) (suc j) f h =
      get_elem?-modify_at_ne xs i j f (λ e. h (ap suc e))

  length-modify_at : (xs : List A) (i : ℕ) (f : A → A) → length (modify_at i f xs) ≡ length xs
  unfolding modify_at
  length-modify_at [] i f = refl
  length-modify_at (x ∷ xs) zero f = refl
  length-modify_at (x ∷ xs) (suc i) f = ap suc (length-modify_at xs i f)

  get_elem?_within : (xs : List A) (i : ℕ) → i < length xs → (x : A) × (get_elem? xs i ≡ some x)
  get_elem?_within [] i h = absurd (omega arith)
  get_elem?_within (x ∷ xs) zero h = (x, refl)
  get_elem?_within (x ∷ xs) (suc i) h = get_elem?_within xs i (omega arith)

-- The value of the first look-up that finds one.
abbrev pub found_or {ℓ} : {V : Type ℓ} → Option V → V → V
found_or none default = default
found_or (some value) default = value

-- There are shards, each holds entries as it should, and each has room for one.
pub record IsSound {ℓ} {K V : Type ℓ} (dec : Discrete K) (s : ShardedRwLruStore K V) : Type ℓ where
  pub some_shard : 1 ≤ length s.shards
  pub each :
      (i : ℕ) (shard : BoundedLruStore K V)
      → get_elem? s.shards i ≡ some shard
      → (entries : List (K × V)) × Represents dec entries shard × (shard.capacity ≢ 0)

module _ {ℓ} {K V : Type ℓ} (dec : Discrete K) (hash : K → ℕ) where
  shard_of-lt :
      (key : K) (s : ShardedRwLruStore K V)
      → 1 ≤ length s.shards
      → shard_of dec hash key s < length s.shards
  unfolding shard_of shard_index_for
  shard_of-lt key s h = omega (arith, mod-lt (hash key) {m = max (length s.shards) 1} (omega arith))

  shard_of-insert :
      (j key : K) (value : V) (s : ShardedRwLruStore K V)
      → shard_of dec hash j (insert_sharded dec hash key value s) ≡ shard_of dec hash j s
  unfolding shard_of insert_sharded
  shard_of-insert j key value s = ap (shard_index_for hash j) (
      length-modify_at s.shards (shard_of dec hash key s)
        (λ shard. (insert_value dec key value shard).1))

  -- After an `insert` the key is found, with its value.
  pub peek-insert_sharded_self :
      (key : K) (value : V) (s : ShardedRwLruStore K V)
      → IsSound dec s
      → peek_sharded dec hash key (insert_sharded dec hash key value s) ≡ some value
  unfolding peek_sharded insert_sharded
  peek-insert_sharded_self key value s sound =
      let i = shard_of dec hash key s in
      let (shard, at) = get_elem?_within s.shards i (shard_of-lt key s sound.some_shard) in
      let (entries, r, room) = sound.each i shard at in
      rw (shard_of-insert key key value s) (
        ap (λ o. and_then o (peek dec key))
          (get_elem?-modify_at_self s.shards i (λ shard. (insert_value dec key value shard).1) at)
        ∙ peek-insert_value_self dec key value entries shard r room)

  -- Keys of other shards keep their values.
  pub peek-insert_sharded_ne :
      (key j : K) (value : V) (s : ShardedRwLruStore K V)
      → shard_of dec hash j s ≢ shard_of dec hash key s
      → peek_sharded dec hash j (insert_sharded dec hash key value s) ≡ peek_sharded dec hash j s
  unfolding peek_sharded insert_sharded
  peek-insert_sharded_ne key j value s h = rw (shard_of-insert j key value s) (
      ap (λ o. and_then o (peek dec j))
        (get_elem?-modify_at_ne s.shards (shard_of dec hash key s) (shard_of dec hash j s)
          (λ shard. (insert_value dec key value shard).1) h))

  -- Whatever other threads do between its two locks, as long as they leave a sound store (at least one
  -- shard, each of them as it should be and with room for an entry), `get_or_insert` returns the value
  -- that the store had for the key at the start, else the one that it has under the second lock, else the
  -- new one; that value is the one which the store holds for the key afterwards; and a store that had a
  -- value for the key, at the start or under the second lock, is left as it was then.
  pub peek-get_or_insert :
      (key : K) (create : V) (others : ShardedRwLruStore K V → ShardedRwLruStore K V)
      (s : ShardedRwLruStore K V)
      → IsSound dec (others s)
      → let result = get_or_insert dec hash key create others s in
        (result.0
          ≡ found_or
              (peek_sharded dec hash key s)
              (found_or (peek_sharded dec hash key (others s)) create))
        × (peek_sharded dec hash key result.1 ≡ some result.0)
        × ((peek_sharded dec hash key s ≡ none) ⊎ (result.1 ≡ s))
        × ((peek_sharded dec hash key s ≢ none)
            ⊎ ((peek_sharded dec hash key (others s) ≡ none) ⊎ (result.1 ≡ others s)))
  unfolding get_or_insert
  peek-get_or_insert key create others s sound = elim (Option-cases (peek_sharded dec hash key s)) [
    | inr (v, early) ↦ (
      (rw (early, get_or_insert) refl),
      (rw (early, get_or_insert) early),
      inr (rw (early, get_or_insert) refl),
      inl (λ e. ground (arith, early, e)),
    )
    | inl miss ↦ elim (Option-cases (peek_sharded dec hash key (others s))) [
      | inr (v, by_then) ↦ (
        (rw (miss, by_then, get_or_insert) refl),
        (rw (miss, by_then, get_or_insert) by_then),
        inl miss,
        inr (inr (rw (miss, by_then, get_or_insert) refl)),
      )
      | inl still ↦ (
        (rw (miss, still, get_or_insert) refl),
        (rw (miss, still, get_or_insert) (peek-insert_sharded_self key create (others s) sound)),
        inl miss,
        inr (inl still),
      )
    ]
  ]
