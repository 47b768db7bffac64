-- ===== src/Cache/Lru/Refines.antt =====
-- src/cache.rs: each operation of `BoundedLruStore` does to the entries what Lru/Model.antt promises.
use pd_edge.Common.{
  ℕ, suc, ◌-◌, ◌≤◌, ◌≡◌, ◌≢◌, refl, sym, ap, ◌∙◌, List, [], ◌∷◌, ◌++◌, none, some, true, length,
  ltb, arith, Bool-cases, Option-cases, inl, inr,
}
use pd_edge.Cache.HashMap.{
  remove, insert, keys, IsMap, lookup-remove_self, lookup-remove_ne, remove_absent, remove-IsMap,
  length-remove,
}
use pd_edge.Cache.Lru.{BoundedLruStore, back, retained, is_most_recent, evict}
use pd_edge.Cache.Lru.Model.{refresh, newest}
use mathlib.Core.Bool.{decide_iff}
use mathlib.Core.List.{lookup}
use mathlib.Core.Logic.{if_pos, if_neg}

-- The store holds the entries, the oldest first.
pub record Represents {ℓ} {K V : Type ℓ} (dec : Discrete K) (entries : List (K × V))
    (s : BoundedLruStore K V) : Type ℓ where
  pub same : (k : K) → lookup dec k s.values ≡ lookup dec k entries
  pub order : s.lru_order ≡ keys entries
  pub distinct : IsMap dec entries
  pub values_distinct : IsMap dec s.values
  pub size : length s.values ≡ length entries
  pub bounded : length entries ≤ s.capacity

keys-append {ℓ} : {K V : Type ℓ} (m n : List (K × V)) → keys (m ++ n) ≡ keys m ++ keys n
keys-append [] n = refl
keys-append ((k, v) ∷ m) n = ap (◌∷◌ k) (keys-append m n)

module _ {ℓ} {K V : Type ℓ} (dec : Discrete K) where
  pub keys-remove : (k : K) (m : List (K × V)) → keys (remove dec k m) ≡ retained dec k (keys m)
  unfolding remove retained
  keys-remove k [] = refl
  keys-remove k ((j, w) ∷ m) = ground (arith, keys-remove k m)

  pub keys-refresh :
      (k : K) (v : V) (m : List (K × V))
      → keys (refresh dec k v m) ≡ retained dec k (keys m) ++ k ∷ []
  keys-refresh k v m =
      keys-append (remove dec k m) ((k, v) ∷ []) ∙ ap (λ l. l ++ k ∷ []) (keys-remove k m)

  pub lookup-push_self :
      (k : K) (v : V) (m : List (K × V))
      → lookup dec k m ≡ none
      → lookup dec k (m ++ ((k, v) ∷ [])) ≡ some v
  unfolding lookup
  lookup-push_self k v [] h = ground arith
  lookup-push_self k v ((j, w) ∷ m) h = ground (arith, lookup-push_self k v m)

  pub lookup-push_ne :
      (k j : K) (v : V) (m : List (K × V))
      → j ≢ k
      → lookup dec j (m ++ ((k, v) ∷ [])) ≡ lookup dec j m
  unfolding lookup
  lookup-push_ne k j v [] h = ground arith
  lookup-push_ne k j v ((i, w) ∷ m) h = ground (arith, lookup-push_ne k j v m)

  push-IsMap :
      (k : K) (v : V) (m : List (K × V))
      → lookup dec k m ≡ none
      → IsMap dec m
      → IsMap dec (m ++ ((k, v) ∷ []))
  unfolding lookup
  push-IsMap k v [] h u = (refl, tt)
  push-IsMap k v ((j, w) ∷ m) h (absent, u) = elim (dec j k) [
    | yes p ↦ absurd (ground arith)
    | no p ↦ (lookup-push_ne k j v m p ∙ absent, push-IsMap k v m (ground arith) u)
  ]

  pub refresh-IsMap :
      (k : K) (v : V) (m : List (K × V)) → IsMap dec m → IsMap dec (refresh dec k v m)
  refresh-IsMap k v m u =
      push-IsMap k v (remove dec k m) (lookup-remove_self dec k m) (remove-IsMap dec k m u)

  -- A new entry in the map and at the end of the entries answers the same look-ups.
  pub same_refresh :
      (k : K) (v : V) (m n : List (K × V))
      → ((j : K) → lookup dec j m ≡ lookup dec j n)
      → (j : K) → lookup dec j (insert dec k v m) ≡ lookup dec j (refresh dec k v n)
  unfolding lookup
  same_refresh k v m n same j = elim (dec j k) [
    | yes p ↦ ground (arith, lookup-push_self k v (remove dec k n), lookup-remove_self dec k n)
    | no p ↦ ground (
      arith,
      lookup-remove_ne dec k j m,
      same j,
      lookup-push_ne k j v (remove dec k n),
      lookup-remove_ne dec k j n,
    )
  ]

  pub same_remove :
      (k : K) (m n : List (K × V))
      → ((j : K) → lookup dec j m ≡ lookup dec j n)
      → (j : K) → lookup dec j (remove dec k m) ≡ lookup dec j (remove dec k n)
  same_remove k m n same j = elim (dec j k) [
    | yes p ↦ rw p (lookup-remove_self dec k m ∙ sym (lookup-remove_self dec k n))
    | no p ↦ lookup-remove_ne dec k j m p ∙ same j ∙ sym (lookup-remove_ne dec k j n p)
  ]

  -- The sizes stay equal too.
  pub size_remove :
      (k : K) (m n : List (K × V))
      → IsMap dec m
      → IsMap dec n
      → lookup dec k m ≡ lookup dec k n
      → length m ≡ length n
      → length (remove dec k m) ≡ length (remove dec k n)
  size_remove k m n um un same size = elim (Option-cases (lookup dec k m)) [
    | inl e ↦ rw (remove_absent dec k m e, remove_absent dec k n (sym same ∙ e)) size
    | inr (v, e) ↦
        omega (arith, length-remove dec k m v um e, length-remove dec k n v un (sym same ∙ e))
  ]

  -- Where the key was the newest already, nothing moves.
  newest_present :
      (k : K) (m : List (K × V)) → is_most_recent dec k (keys m) ≡ true → lookup dec k m ≢ none
  unfolding is_most_recent back lookup
  newest_present k [] h = λ e. cc
  newest_present k ((j, w) ∷ []) h = elim (dec j k) [
    | yes p ↦ rw (if_pos (dec k j) (sym p)) (λ e. cc)
    | no p ↦ absurd (p ((decide_iff (dec j k)).0 h))
  ]
  newest_present k ((j, w) ∷ (i, u) ∷ m) h = λ e. ground (arith, newest_present k ((i, u) ∷ m))

  pub refresh_newest :
      (k : K) (v : V) (m : List (K × V))
      → IsMap dec m
      → is_most_recent dec k (keys m) ≡ true
      → lookup dec k m ≡ some v
      → refresh dec k v m ≡ m
  unfolding is_most_recent back lookup remove
  refresh_newest k v [] u h e = cc
  refresh_newest k v ((j, w) ∷ []) u h e = ground arith
  refresh_newest k v ((j, w) ∷ (i, x) ∷ m) (absent, u) h e = elim (dec j k) [
    | yes p ↦ absurd (newest_present k ((i, x) ∷ m) h (ground arith))
    | no p ↦ rw (if_neg _ p) (ap (◌∷◌ (j, w)) (refresh_newest k v ((i, x) ∷ m) u h (ground arith)))
  ]

  pub newest_fits : (capacity : ℕ) (m : List (K × V)) → length m ≤ capacity → newest capacity m ≡ m
  newest_fits capacity m h = let e : length m - capacity ≡ 0 = omega arith in rw e refl

  newest_over :
      (capacity : ℕ) (e : K × V) (m : List (K × V))
      → capacity ≤ length m
      → newest capacity (e ∷ m) ≡ newest capacity m
  newest_over capacity e m h =
      let p : length (e ∷ m) - capacity ≡ suc (length m - capacity) = omega arith in rw p refl

  -- What is left when the oldest key is taken out of the map.
  pub same_rest :
      (j : K) (v : V) (m values : List (K × V)) (k : K)
      → lookup dec j m ≡ none
      → lookup dec k values ≡ lookup dec k ((j, v) ∷ m)
      → lookup dec k (remove dec j values) ≡ lookup dec k m
  unfolding lookup
  same_rest j v m values k absent same = elim (dec k j) [
    | yes p ↦ rw p (lookup-remove_self dec j values ∙ sym absent)
    | no p ↦ ground (arith, lookup-remove_ne dec j k values)
  ]

  pub lookup_head : (j : K) (v : V) (m : List (K × V)) → lookup dec j ((j, v) ∷ m) ≡ some v
  unfolding lookup
  lookup_head j v m = if_pos (dec j j) refl (some v) (lookup dec j m)

  -- The loop drops the oldest entries until the capacity is met.
  pub evict-Represents :
      (capacity : ℕ) (entries values : List (K × V))
      → ((k : K) → lookup dec k values ≡ lookup dec k entries)
      → IsMap dec entries
      → IsMap dec values
      → length values ≡ length entries
      → Represents dec (newest capacity entries) (record {
        capacity = capacity;
        values = (evict dec capacity values (keys entries)).0;
        lru_order = (evict dec capacity values (keys entries)).1;
      })
  unfolding evict
  evict-Represents capacity [] values same u w size =
      rw (newest_fits capacity [] (omega arith)) (record {
        same = same;
        order = refl;
        distinct = tt;
        values_distinct = w;
        size = size;
        bounded = omega arith;
      })
  evict-Represents capacity ((j, v) ∷ m) values same (absent, u) w size =
      elim (Bool-cases (ltb capacity (length values))) [
        | inl over ↦
            rw (newest_over capacity (j, v) m (ground arith), over)
              (evict-Represents capacity m (remove dec j values)
                (λ k. same_rest j v m values k absent (same k)) u (remove-IsMap dec j values w)
                (omega (arith, length-remove dec j values v w (same j ∙ lookup_head j v m))))
        | inr fits ↦
            rw (newest_fits capacity ((j, v) ∷ m) (ground arith), fits)
              (record {
                same = same;
                order = refl;
                distinct = (absent, u);
                values_distinct = w;
                size = size;
                bounded = ground arith;
              })
      ]
