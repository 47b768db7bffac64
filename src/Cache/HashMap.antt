-- ===== src/Cache/HashMap.antt =====
-- `std::collections::HashMap` as an association list with one entry for each key. The order of
-- the entries stands for the order of iteration, which the code does not rely on.
use pd_edge.Common.{◌≤◌, ◌+◌, ◌≡◌, ◌≢◌, refl, List, [], ◌∷◌, none, some, length, arith}
use mathlib.Core.Logic.{if_neg, if_pos, ite}
use mathlib.Core.List.{lookup}

module _ {ℓ} {K V : Type ℓ} where
  abbrev pub keys : List (K × V) → List K
  keys [] = []
  keys ((k, v) ∷ m) = k ∷ keys m

module _ {ℓ} {K V : Type ℓ} (dec : Discrete K) where
  unfoldable pub remove : K → List (K × V) → List (K × V)
  remove k [] = []
  remove k ((j, w) ∷ m) = let rest = remove k m in ite (dec j k) rest ((j, w) ∷ rest)

  abbrev pub insert : K → V → List (K × V) → List (K × V)
  insert k v m = (k, v) ∷ remove k m

  -- No key has two entries.
  abbrev pub IsMap : List (K × V) → Type ℓ
  IsMap [] = Unit
  IsMap ((k, v) ∷ m) = (lookup dec k m ≡ none) × IsMap m

  pub lookup-remove_self : (k : K) (m : List (K × V)) → lookup dec k (remove k m) ≡ none
  unfolding lookup remove
  lookup-remove_self k [] = refl
  lookup-remove_self k ((j, w) ∷ m) = ground (arith, lookup-remove_self k m)

  pub lookup-remove_ne :
      (k j : K) (m : List (K × V)) → j ≢ k → lookup dec j (remove k m) ≡ lookup dec j m
  unfolding lookup remove
  lookup-remove_ne k j [] h = refl
  lookup-remove_ne k j ((i, w) ∷ m) h = ground (arith, lookup-remove_ne k j m)

  -- A key that is not there stays away when others are removed.
  pub lookup-remove_none :
      (k j : K) (m : List (K × V)) → lookup dec j m ≡ none → lookup dec j (remove k m) ≡ none
  unfolding lookup remove
  lookup-remove_none k j [] h = refl
  lookup-remove_none k j ((i, w) ∷ m) h = ground (arith, lookup-remove_none k j m)

  pub remove_absent : (k : K) (m : List (K × V)) → lookup dec k m ≡ none → remove k m ≡ m
  unfolding lookup remove
  remove_absent k [] h = refl
  remove_absent k ((j, w) ∷ m) h = ground (arith, remove_absent k m)

  pub remove-IsMap : (k : K) (m : List (K × V)) → IsMap m → IsMap (remove k m)
  unfolding remove
  remove-IsMap k [] u = tt
  remove-IsMap k ((j, w) ∷ m) (absent, u) = elim (dec j k) [
    | yes p ↦ rw (if_pos _ p) (remove-IsMap k m u)
    | no p ↦ rw (if_neg _ p) (lookup-remove_none k j m absent, remove-IsMap k m u)
  ]

  pub length-remove :
      (k : K) (m : List (K × V)) (v : V)
      → IsMap m
      → lookup dec k m ≡ some v
      → length (remove k m) + 1 ≡ length m
  unfolding lookup remove
  length-remove k [] v u h = cc
  length-remove k ((j, w) ∷ m) v (absent, u) h =
      ground (arith, length-remove k m v u, remove_absent k m)

  pub length-remove-le : (k : K) (m : List (K × V)) → length (remove k m) ≤ length m
  unfolding remove
  length-remove-le k [] = omega arith
  length-remove-le k ((j, w) ∷ m) = ground (arith, length-remove-le k m)
