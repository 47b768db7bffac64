-- ===== src/Cache/Lru.antt =====
-- src/cache.rs: `BoundedLruStore`, over keys with a decidable equality. `lru_order` has the oldest
-- key first.
use pd_edge.Common.{
  ℕ, List, [], ◌∷◌, ◌++◌, Option, none, some, Bool, true, false, not, length, ltb, ◌==◌,
  if◌then◌else◌,
}
use pd_edge.Cache.HashMap.{remove, insert}
use mathlib.Core.List.{lookup}
use mathlib.Core.Logic.{ite}
use mathlib.Core.Bool.{decide}
pub mod Model
pub mod Refines
pub mod Operations
pub mod Retain
pub mod Run

pub record BoundedLruStore {ℓ} (K V : Type ℓ) : Type ℓ where
  pub capacity : ℕ
  pub values : List (K × V)
  pub lru_order : List K

unfoldable pub new {ℓ} : {K V : Type ℓ} → ℕ → BoundedLruStore K V
new capacity = record { capacity = capacity; values = []; lru_order = [] }

-- `VecDeque::back`
unfoldable pub back {ℓ} : {A : Type ℓ} → List A → Option A
back [] = none
back (x ∷ []) = some x
back (x ∷ y ∷ xs) = back (y ∷ xs)

-- `retain`: the keys to drop, in the order of iteration, and then a `remove` for each.
unfoldable pub to_remove {ℓ} : {K V : Type ℓ} → (K → V → Bool) → List (K × V) → List K
to_remove keep [] = []
to_remove keep ((key, value) ∷ m) =
    let rest = to_remove keep m in if keep key value then rest else key ∷ rest

module _ {ℓ} {K : Type ℓ} (dec : Discrete K) where
  -- The loop of `remove_from_lru`, which keeps the other keys in their order.
  unfoldable pub retained : K → List K → List K
  retained key [] = []
  retained key (candidate ∷ order) =
      let rest = retained key order in ite (dec candidate key) rest (candidate ∷ rest)

  -- `self.lru_order.back().is_some_and(|most_recent| most_recent == key)`
  unfoldable pub is_most_recent : K → List K → Bool
  is_most_recent key order = elim (back order) [
    | none ↦ false
    | some most_recent ↦ decide (dec most_recent key)
  ]

module _ {ℓ} {K V : Type ℓ} (dec : Discrete K) where
  unfoldable pub remove_from_lru : K → BoundedLruStore K V → BoundedLruStore K V
  remove_from_lru key s = record s { lru_order = retained dec key s.lru_order }

  unfoldable pub touch_key : K → BoundedLruStore K V → BoundedLruStore K V
  unfolding remove_from_lru
  touch_key key s =
      if is_most_recent dec key s.lru_order
      then s
      else record s { lru_order = retained dec key s.lru_order ++ key ∷ [] }

  unfoldable pub peek : K → BoundedLruStore K V → Option V
  peek key s = lookup dec key s.values

  -- `get`, and `get_mut` as far as it reads.
  unfoldable pub get : K → BoundedLruStore K V → Option V × BoundedLruStore K V
  unfolding touch_key
  get key s = elim (lookup dec key s.values) [
    | none ↦ (none, s)
    | some value ↦ (some value, touch_key key s)
  ]

  -- The `while` of `evict_to_capacity`: it pops a key in each round.
  unfoldable pub evict : ℕ → List (K × V) → List K → List (K × V) × List K
  evict capacity values [] = (values, [])
  evict capacity values (oldest ∷ order) =
      let rest = evict capacity (remove dec oldest values) order in
      if ltb capacity (length values) then rest else (values, oldest ∷ order)

  unfoldable pub evict_to_capacity : BoundedLruStore K V → BoundedLruStore K V
  evict_to_capacity s =
      let (values, order) = evict s.capacity s.values s.lru_order in
      record s { values = values; lru_order = order }

  -- The previous value of the key, and the store.
  unfoldable pub insert_value : K → V → BoundedLruStore K V → Option V × BoundedLruStore K V
  unfolding remove_from_lru evict_to_capacity
  insert_value key value s =
      let s₁ = remove_from_lru key s in
      if s.capacity == 0
      then (lookup dec key s.values, record s₁ { values = remove dec key s.values })
      else (
        lookup dec key s.values,
        evict_to_capacity (record s₁ {
          values = insert dec key value s.values;
          lru_order = s₁.lru_order ++ key ∷ [];
        }),
      )

  unfoldable pub remove_value : K → BoundedLruStore K V → Option V × BoundedLruStore K V
  unfolding remove_from_lru
  remove_value key s =
      (lookup dec key s.values, record (remove_from_lru key s) { values = remove dec key s.values })

  unfoldable pub remove_all : List K → BoundedLruStore K V → BoundedLruStore K V
  unfolding remove_value
  remove_all [] s = s
  remove_all (key ∷ ks) s = remove_all ks (remove_value key s).1

  unfoldable pub retain : (K → V → Bool) → BoundedLruStore K V → BoundedLruStore K V
  unfolding remove_all to_remove
  retain keep s = remove_all (to_remove keep s.values) s
