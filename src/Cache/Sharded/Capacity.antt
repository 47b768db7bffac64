-- ===== src/Cache/Sharded/Capacity.antt =====
-- src/cache.rs: how `ShardedRwLruStore::new` divides the capacity.
use pd_edge.Common.{ℕ, zero, suc, ◌+◌, ◌-◌, ◌*◌, ◌/◌, ◌%◌, ◌≤◌, ◌≡◌, refl, ap, ◌∙◌, length, arith}
use pd_edge.Cache.Lru.{new}
use pd_edge.Cache.Sharded.{recommended_shard_count, new_shards, new_sharded, total_capacity}
use Prim.Native.Nat.{min}
use native.Mathlib.Nat.{div-add-mod, mod-lt}

-- The shards numbered from `from` on share the extra capacity with those before them.
total_capacity-new_shards {ℓ} :
    (K V : Type ℓ) (base extra from count : ℕ)
    → total_capacity (new_shards {K = K} {V = V} base extra from count)
      ≡ base * count + (min extra (from + count) - from)
unfolding total_capacity new_shards new
total_capacity-new_shards K V base extra from zero = omega arith
total_capacity-new_shards K V base extra from (suc count) =
    ground (arith, total_capacity-new_shards K V base extra (from + 1) count)

length-new_shards {ℓ} :
    (K V : Type ℓ) (base extra from count : ℕ)
    → length (new_shards {K = K} {V = V} base extra from count) ≡ count
unfolding new_shards
length-new_shards K V base extra from zero = refl
length-new_shards K V base extra from (suc count) =
    ap suc (length-new_shards K V base extra (from + 1) count)

recommended_bounds :
    (capacity : ℕ)
    → (1 ≤ recommended_shard_count capacity) × (recommended_shard_count capacity ≤ 32)
unfolding recommended_shard_count
recommended_bounds capacity = ground arith

-- The capacities of the shards of a new store add up to the capacity asked for, over 1 to 32 shards.
pub total_capacity-new_sharded {ℓ} :
    (K V : Type ℓ) (capacity : ℕ)
    → (total_capacity (new_sharded {K = K} {V = V} capacity).shards ≡ capacity)
      × (1 ≤ length (new_sharded {K = K} {V = V} capacity).shards)
      × (length (new_sharded {K = K} {V = V} capacity).shards ≤ 32)
unfolding new_sharded
total_capacity-new_sharded K V capacity =
    let n = recommended_shard_count capacity in
    let (lo, hi) = recommended_bounds capacity in
    let count = length-new_shards K V (capacity / n) (capacity % n) 0 n in
    (
      total_capacity-new_shards K V (capacity / n) (capacity % n) 0 n
          ∙ omega (arith, div-add-mod capacity n, mod-lt capacity lo),
      omega (arith, count, lo),
      omega (arith, count, hi),
    )
