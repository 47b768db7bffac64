-- ===== src/Cache/Lru/Model.antt =====
-- What a bounded least-recently-used store promises: the entries, oldest first, with no key twice and
-- never more than the capacity.
use pd_edge.Common.{ℕ, ◌-◌, List, [], ◌∷◌, ◌++◌, none, some, Bool, length, drop, if◌then◌else◌}
use pd_edge.Cache.HashMap.{remove}
use mathlib.Core.List.{lookup}

module _ {ℓ} {K V : Type ℓ} (dec : Discrete K) where
  -- The entry becomes the newest.
  abbrev pub refresh : K → V → List (K × V) → List (K × V)
  refresh k v entries = remove dec k entries ++ ((k, v) ∷ [])

  abbrev pub used : K → List (K × V) → List (K × V)
  used k entries = elim (lookup dec k entries) [ none ↦ entries | some v ↦ refresh k v entries ]

-- The oldest entries beyond the capacity go.
abbrev pub newest {ℓ} : {A : Type ℓ} → ℕ → List A → List A
newest capacity entries = drop (length entries - capacity) entries

abbrev pub kept {ℓ} : {K V : Type ℓ} → (K → V → Bool) → List (K × V) → List (K × V)
kept keep [] = []
kept keep ((k, v) ∷ m) = let rest = kept keep m in if keep k v then (k, v) ∷ rest else rest
