-- ===== src/Tests/Cache.antt =====
-- src/cache.rs: the theorems on the caches, at concrete stores of numbers.
use pd_edge.Common.{
  ◌⊎◌, refl, ◌≡◌, ◌≢◌, ◌≤◌, ℕ, zero, suc, get_elem?, List, [], ◌∷◌, Option, none, some, length,
  arith,
}
use pd_edge.Cache.Lru.{BoundedLruStore, new, insert_value, evict_to_capacity, remove_from_lru}
use pd_edge.Cache.Lru.Refines.{Represents}
use pd_edge.Cache.Lru.Operations.{new-Represents, insert_value-Represents}
use pd_edge.Cache.Lru.Model.{newest, refresh}
use pd_edge.Cache.Lru.Run.{Operation, inserts, gets, run, promised_run, run-Represents}
use pd_edge.Cache.Sharded.{
  ShardedRwLruStore, shard_index_for, new_sharded, total_capacity, shard_of, peek_sharded,
  get_or_insert,
}
use pd_edge.Cache.Sharded.Capacity.{total_capacity-new_sharded}
use pd_edge.Cache.Sharded.Access.{IsSound, found_or, peek-get_or_insert}
use native.Mathlib.Decide.{ℕ_discrete}
use mathlib.Core.Path.{subst, ap}

abbrev operations : List (Operation ℕ ℕ)
operations = inserts 1 10 ∷ inserts 2 20 ∷ gets 1 ∷ inserts 3 30 ∷ []

run-Represents_example :
    Represents ℕ_discrete
      (promised_run ℕ_discrete 2 operations [])
      (run ℕ_discrete operations (new 2))
unfolding new
run-Represents_example =
    run-Represents ℕ_discrete operations [] (new 2) (new-Represents ℕ_discrete 2)

-- The store after these operations, and what it holds.
abbrev store : BoundedLruStore ℕ ℕ
store = run ℕ_discrete operations (new 2)

abbrev entries : List (ℕ × ℕ)
entries = promised_run ℕ_discrete 2 operations []

store-Represents : Represents ℕ_discrete entries store
unfolding new
store-Represents = run-Represents ℕ_discrete operations [] (new 2) (new-Represents ℕ_discrete 2)

total_capacity-new_sharded_example :
    (total_capacity (new_sharded {K = ℕ} {V = ℕ} 33).shards ≡ 33)
    × (1 ≤ length (new_sharded {K = ℕ} {V = ℕ} 33).shards)
    × (length (new_sharded {K = ℕ} {V = ℕ} 33).shards ≤ 32)
total_capacity-new_sharded_example = total_capacity-new_sharded ℕ ℕ 33

abbrev shards : ShardedRwLruStore ℕ ℕ
shards = record { shards = new 2 ∷ new 2 ∷ [] }

or_else : BoundedLruStore ℕ ℕ → Option (BoundedLruStore ℕ ℕ) → BoundedLruStore ℕ ℕ
or_else default none = default
or_else default (some s) = s

abbrev HoldsSome : BoundedLruStore ℕ ℕ → Type 0
HoldsSome s = (entries : List (ℕ × ℕ)) × Represents ℕ_discrete entries s × (s.capacity ≢ 0)

empty_holds : HoldsSome (new 2)
unfolding new
empty_holds = ([], new-Represents ℕ_discrete 2, λ z. absurd (ground arith))

shards_each :
    (i : ℕ) (shard : BoundedLruStore ℕ ℕ) → get_elem? shards.shards i ≡ some shard → HoldsSome shard
unfolding or_else
shards_each zero shard e = subst HoldsSome (ap (or_else (new 2)) e) empty_holds
shards_each (suc zero) shard e = subst HoldsSome (ap (or_else (new 2)) e) empty_holds
shards_each (suc (suc i)) shard e = absurd (ground arith)

shards-IsSound : IsSound ℕ_discrete shards
shards-IsSound = record { some_shard = omega arith; each = shards_each }

different_shards :
    shard_of {V = ℕ} ℕ_discrete (λ k. k) 4 shards ≢ shard_of {V = ℕ} ℕ_discrete (λ k. k) 5 shards
unfolding shard_of shard_index_for
different_shards = λ e. absurd (ground arith)

-- Another thread gets in first and stores 60 under the key 5.
abbrev held : BoundedLruStore ℕ ℕ
held = (insert_value ℕ_discrete 5 60 (new 2)).1

abbrev busy : ShardedRwLruStore ℕ ℕ
busy = record { shards = new 2 ∷ held ∷ [] }

held-Represents :
    Represents ℕ_discrete
      (newest (new {K = ℕ} {V = ℕ} 2).capacity (refresh ℕ_discrete 5 60 []))
      held
held-Represents =
    (insert_value-Represents ℕ_discrete 5 60 [] (new 2) (new-Represents ℕ_discrete 2)).1

room : held.capacity ≡ 2
unfolding new insert_value evict_to_capacity remove_from_lru
room = refl

held_holds : HoldsSome held
held_holds = (
  newest (new {K = ℕ} {V = ℕ} 2).capacity (refresh ℕ_discrete 5 60 []),
  held-Represents,
  λ z. absurd (ground (arith, room, z)),
)

busy_each :
    (i : ℕ) (shard : BoundedLruStore ℕ ℕ) → get_elem? busy.shards i ≡ some shard → HoldsSome shard
unfolding or_else
busy_each zero shard e = subst HoldsSome (ap (or_else (new 2)) e) empty_holds
busy_each (suc zero) shard e = subst HoldsSome (ap (or_else (new 2)) e) held_holds
busy_each (suc (suc i)) shard e = absurd (ground arith)

busy-IsSound : IsSound ℕ_discrete busy
busy-IsSound = record { some_shard = omega arith; each = busy_each }

abbrev five : ℕ × ShardedRwLruStore ℕ ℕ
five = get_or_insert ℕ_discrete (λ k. k) 5 50 (λ s. busy) shards

peek-get_or_insert_example :
    (five.0
      ≡ found_or
          (peek_sharded ℕ_discrete (λ k. k) 5 shards)
          (found_or (peek_sharded ℕ_discrete (λ k. k) 5 busy) 50))
    × (peek_sharded ℕ_discrete (λ k. k) 5 five.1 ≡ some five.0)
    × ((peek_sharded ℕ_discrete (λ k. k) 5 shards ≡ none) ⊎ (five.1 ≡ shards))
    × ((peek_sharded ℕ_discrete (λ k. k) 5 shards ≢ none)
        ⊎ ((peek_sharded ℕ_discrete (λ k. k) 5 busy ≡ none) ⊎ (five.1 ≡ busy)))
peek-get_or_insert_example =
    peek-get_or_insert ℕ_discrete (λ k. k) 5 50 (λ s. busy) shards busy-IsSound
