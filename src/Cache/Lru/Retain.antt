-- ===== src/Cache/Lru/Retain.antt =====
-- src/cache.rs: `BoundedLruStore::retain`. It collects the keys to drop in the order in which the map
-- iterates, and removes each; the order makes no difference.
use pd_edge.Common.{
  ◌≡◌, refl, ap, ◌∙◌, List, [], ◌∷◌, Option, none, some, Bool, true, false, not, ◌||◌,
  if◌then◌else◌, arith, Bool-cases, inl, inr,
}
use pd_edge.Cache.HashMap.{remove, IsMap}
use pd_edge.Cache.Lru.{BoundedLruStore, remove_value, to_remove, remove_all, retain}
use pd_edge.Cache.Lru.Model.{kept}
use pd_edge.Cache.Lru.Refines.{Represents}
use pd_edge.Cache.Lru.Operations.{remove_value-Represents}
use mathlib.Core.Bool.{decide, ◌&&◌}
use mathlib.Core.List.{lookup}
use mathlib.Core.Logic.{if_pos, if_neg}

decide_yes {ℓ} : {P : Type ℓ} (d : Dec P) → P → decide d ≡ true
unfolding decide
decide_yes (yes q) p = refl
decide_yes (no q) p = absurd (q p)

decide_no {ℓ} : {P : Type ℓ} (d : Dec P) → ¬ P → decide d ≡ false
unfolding decide
decide_no (yes q) p = absurd (p q)
decide_no (no q) p = refl

module _ {ℓ} {K : Type ℓ} (dec : Discrete K) where
  is_among : K → List K → Bool
  is_among j [] = false
  is_among j (k ∷ ks) = decide (dec j k) || is_among j ks

module _ {ℓ} {K V : Type ℓ} (dec : Discrete K) where
  remove_keys : List K → List (K × V) → List (K × V)
  remove_keys [] m = m
  remove_keys (k ∷ ks) m = remove_keys ks (remove dec k m)

  remove_all-Represents :
      (ks : List K) (entries : List (K × V)) (s : BoundedLruStore K V)
      → Represents dec entries s
      → Represents dec (remove_keys ks entries) (remove_all dec ks s)
  unfolding remove_keys remove_all
  remove_all-Represents [] entries s r = r
  remove_all-Represents (k ∷ ks) entries s r =
      remove_all-Represents ks (remove dec k entries) (remove_value dec k s).1
        (remove_value-Represents dec k entries s r).1

  remove_keys_nil : (ks : List K) → remove_keys ks [] ≡ []
  unfolding remove_keys remove
  remove_keys_nil [] = refl
  remove_keys_nil (k ∷ ks) = remove_keys_nil ks

  remove_keys_cons :
      (ks : List K) (j : K) (w : V) (m : List (K × V))
      → remove_keys ks ((j, w) ∷ m)
        ≡ (if is_among dec j ks then remove_keys ks m else (j, w) ∷ remove_keys ks m)
  unfolding remove_keys is_among remove
  remove_keys_cons [] j w m = refl
  remove_keys_cons (k ∷ ks) j w m = elim (dec j k) [
    | yes p ↦ rw (if_pos (dec j k) p, decide_yes (dec j k) p) refl
    | no p ↦
        rw (if_neg (dec j k) p, decide_no (dec j k) p) (remove_keys_cons ks j w (remove dec k m))
  ]

  abbrev fails : (K → V → Bool) → K → Option V → Bool
  fails keep j none = false
  fails keep j (some v) = not (keep j v)

  is_among-to_remove_cons :
      (keep : K → V → Bool) (j k : K) (v : V) (m : List (K × V))
      → is_among dec j (to_remove keep ((k, v) ∷ m))
        ≡ ((not (keep k v) && decide (dec j k)) || is_among dec j (to_remove keep m))
  unfolding is_among to_remove
  is_among-to_remove_cons keep j k v m = elim (Bool-cases (keep k v)) [
    | inl stays ↦ rw stays
    | inr goes ↦ rw goes
  ]

  -- A key is dropped if its value fails the test.
  is_among-to_remove :
      (keep : K → V → Bool) (j : K) (m : List (K × V))
      → IsMap dec m
      → is_among dec j (to_remove keep m) ≡ fails keep j (lookup dec j m)
  unfolding lookup
  is_among-to_remove keep j [] u = unfold is_among to_remove in refl
  is_among-to_remove keep j ((k, v) ∷ m) (absent, u) =
      rw (is_among-to_remove_cons keep j k v m, is_among-to_remove keep j m u)
        (elim (dec j k) [
          | yes p ↦ rw (if_pos (dec j k) p, decide_yes (dec j k) p, p, absent) (ground arith)
          | no p ↦ rw (if_neg (dec j k) p, decide_no (dec j k) p) (ground arith)
        ])

  remove_keys-kept :
      (keep : K → V → Bool) (ks : List K) (m : List (K × V))
      → IsMap dec m
      → ((j : K) (v : V) → lookup dec j m ≡ some v → is_among dec j ks ≡ not (keep j v))
      → remove_keys ks m ≡ kept keep m
  unfolding lookup
  remove_keys-kept keep ks [] u h = remove_keys_nil ks
  remove_keys-kept keep ks ((j, w) ∷ m) (absent, u) h =
      rw
        (
          remove_keys_cons ks j w m,
          h j w (if_pos (dec j j) refl _ _),
          remove_keys-kept keep ks m u rest,
        )
        (ground arith)
    where
      rest : (i : K) (v : V) → lookup dec i m ≡ some v → is_among dec i ks ≡ not (keep i v)
      rest i v e =
          h i v
            (elim (dec i j) [ yes p ↦ absurd (ground arith) | no p ↦ if_neg (dec i j) p _ _ ∙ e ])

  -- `retain` keeps exactly the entries that pass the test, in their order of use.
  pub retain-Represents :
      (keep : K → V → Bool) (entries : List (K × V)) (s : BoundedLruStore K V)
      → Represents dec entries s
      → Represents dec (kept keep entries) (retain dec keep s)
  unfolding retain
  retain-Represents keep entries s r =
      let dropped = to_remove keep s.values in
      let same_entries : remove_keys dropped entries ≡ kept keep entries =
        remove_keys-kept keep dropped entries r.distinct (λ j v e.
          is_among-to_remove keep j s.values r.values_distinct
          ∙ ap (fails keep j) (r.same j ∙ e)) in
      rw (← same_entries) (remove_all-Represents dropped entries s r)
