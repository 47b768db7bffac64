-- ===== src/Cache/Lru/Operations.antt =====
-- src/cache.rs: what each operation of `BoundedLruStore` does to the entries, and runs of operations.
use pd_edge.Common.{
  ℕ, suc, ◌-◌, ◌≤◌, ◌≡◌, refl, sym, ap, ◌∙◌, List, [], ◌∷◌, ◌++◌, none, some, length, length-append,
  ◌==◌, arith, Bool-cases, Option-cases, inl, inr,
}
use pd_edge.Cache.HashMap.{
  length-remove-le, remove, insert, keys, IsMap, lookup-remove_self, lookup-remove_ne, remove-IsMap,
  length-remove,
}
use pd_edge.Cache.Lru.{
  BoundedLruStore, retained, is_most_recent, touch_key, get, insert_value, remove_value, new,
}
use pd_edge.Cache.Lru.Model.{refresh, used, newest}
use pd_edge.Cache.Lru.Refines.{
  Represents, evict-Represents, same_refresh, same_remove, size_remove, refresh-IsMap, keys-refresh,
  keys-remove, refresh_newest, lookup-push_self, lookup-push_ne,
}
use mathlib.Core.Path.{subst}
use mathlib.Core.List.{lookup}

pub new-Represents {ℓ} :
    {K V : Type ℓ} (dec : Discrete K) (capacity : ℕ) → Represents {V = V} dec [] (new capacity)
unfolding new lookup
new-Represents dec capacity = record {
  same = λ k. refl;
  order = refl;
  distinct = tt;
  values_distinct = tt;
  size = refl;
  bounded = omega arith;
}

length-refresh {ℓ} :
    {K V : Type ℓ} (dec : Discrete K) (k : K) (v : V) (m : List (K × V))
    → length (refresh dec k v m) ≡ suc (length (remove dec k m))
length-refresh dec k v m = omega (arith, length-append (remove dec k m) ((k, v) ∷ []))

newest_zero {ℓ} : {A : Type ℓ} (m : List A) → newest 0 m ≡ []
newest_zero [] = refl
newest_zero (e ∷ m) =
    let p : length (e ∷ m) - 0 ≡ suc (length m - 0) = omega arith in rw p (newest_zero m)

nil_of_length {ℓ} : {A : Type ℓ} (m : List A) → length m ≤ 0 → m ≡ []
nil_of_length [] h = refl
nil_of_length (x ∷ m) h = absurd (omega arith)

module _ {ℓ} {K V : Type ℓ} (dec : Discrete K) (key : K) where
  pub get_miss :
      (s : BoundedLruStore K V) → lookup dec key s.values ≡ none → get dec key s ≡ (none, s)
  unfolding get
  get_miss s e = rw (e, get)

  pub get_hit :
      (s : BoundedLruStore K V) (v : V)
      → lookup dec key s.values ≡ some v
      → get dec key s ≡ (some v, touch_key dec key s)
  unfolding get
  get_hit s v e = rw (e, get)

  lookup-refresh_present :
      (v : V) (m : List (K × V)) (j : K)
      → lookup dec key m ≡ some v
      → lookup dec j m ≡ lookup dec j (refresh dec key v m)
  lookup-refresh_present v m j e = elim (dec j key) [
    | yes p ↦
        ground (arith, lookup-push_self dec key v (remove dec key m), lookup-remove_self dec key m)
    | no p ↦
        ground (arith, lookup-push_ne dec key j v (remove dec key m), lookup-remove_ne dec key j m)
  ]

  touch_key-Represents :
      (entries : List (K × V)) (s : BoundedLruStore K V) (v : V)
      → Represents dec entries s
      → lookup dec key entries ≡ some v
      → Represents dec (refresh dec key v entries) (touch_key dec key s)
  unfolding touch_key
  touch_key-Represents entries s v r hit = elim (Bool-cases (is_most_recent dec key s.lru_order)) [
    | inl newest_one ↦
        rw (newest_one, refresh_newest dec key v entries r.distinct (rw r.order at newest_one) hit)
          r
    | inr other ↦ rw other (record {
      same = λ j. r.same j ∙ lookup-refresh_present v entries j hit;
      order =
          ap (λ l. retained dec key l ++ key ∷ []) r.order ∙ sym (keys-refresh dec key v entries);
      distinct = refresh-IsMap dec key v entries r.distinct;
      values_distinct = r.values_distinct;
      size = omega (
        arith,
        r.size,
        length-refresh dec key v entries,
        length-remove dec key entries v r.distinct hit,
      );
      bounded = omega (
        arith,
        r.bounded,
        length-refresh dec key v entries,
        length-remove dec key entries v r.distinct hit,
      );
    })
  ]

  -- `get` returns the value of the key, and a hit becomes the newest entry.
  pub get-Represents :
      (entries : List (K × V)) (s : BoundedLruStore K V)
      → Represents dec entries s
      → ((get dec key s).0 ≡ lookup dec key entries)
        × Represents dec (used dec key entries) (get dec key s).1
  get-Represents entries s r = elim (Option-cases (lookup dec key entries)) [
    | inl miss ↦ rw (get_miss s (r.same key ∙ miss), miss, used) (refl, r)
    | inr (v, hit) ↦
        rw (get_hit s v (r.same key ∙ hit), hit, used)
          (refl, touch_key-Represents entries s v r hit)
  ]

  without_room :
      (value : V) (entries : List (K × V)) (s : BoundedLruStore K V)
      → Represents dec entries s
      → s.capacity ≡ 0
      → Represents dec
          (newest s.capacity (refresh dec key value entries))
          (record s { values = remove dec key s.values; lru_order = retained dec key s.lru_order })
  unfolding remove retained
  without_room value entries s r zero_room =
      let emptied : remove dec key s.values ≡ [] =
        ap (remove dec key) (nil_of_length s.values (omega (arith, r.bounded, r.size))) in
      let no_entries : entries ≡ [] = nil_of_length entries (omega (arith, r.bounded)) in
      let kept_none : newest s.capacity (refresh dec key value entries) ≡ [] =
        ap (λ c. newest c (refresh dec key value entries)) zero_room
        ∙ newest_zero (refresh dec key value entries) in
      rw kept_none (record {
        same = λ j. ap (lookup dec j) emptied;
        order = ap (retained dec key) (r.order ∙ ap keys no_entries);
        distinct = tt;
        values_distinct = subst (λ m. IsMap dec m) (sym emptied) tt;
        size = ap length emptied;
        bounded = omega arith;
      })

  -- `insert` returns the value that the key had, makes the new entry the newest, and drops what
  -- does not fit, the oldest entries first; a store of capacity 0 stays empty.
  pub insert_value-Represents :
      (value : V) (entries : List (K × V)) (s : BoundedLruStore K V)
      → Represents dec entries s
      → ((insert_value dec key value s).0 ≡ lookup dec key entries)
        × Represents dec
            (newest s.capacity (refresh dec key value entries))
            (insert_value dec key value s).1
  unfolding insert_value
  insert_value-Represents value entries s r = elim (Bool-cases (s.capacity == 0)) [
    | inl nothing ↦ rw nothing (r.same key, without_room value entries s r (ground arith))
    | inr some_room ↦ rw some_room (
      r.same key,
      rw (r.order, ← keys-refresh dec key value entries)
          (evict-Represents dec s.capacity (refresh dec key value entries)
            (insert dec key value s.values) (same_refresh dec key value s.values entries r.same)
            (refresh-IsMap dec key value entries r.distinct)
            (lookup-remove_self dec key s.values, remove-IsMap dec key s.values r.values_distinct)
            (omega (
              arith,
              length-refresh dec key value entries,
              size_remove dec key s.values entries r.values_distinct r.distinct (r.same key) r.size,
            ))),
    )
  ]

  -- `remove` returns the value that the key had, and takes its entry out.
  pub remove_value-Represents :
      (entries : List (K × V)) (s : BoundedLruStore K V)
      → Represents dec entries s
      → ((remove_value dec key s).0 ≡ lookup dec key entries)
        × Represents dec (remove dec key entries) (remove_value dec key s).1
  unfolding remove_value
  remove_value-Represents entries s r = (
    r.same key,
    record {
      same = same_remove dec key s.values entries r.same;
      order = rw r.order (sym (keys-remove dec key entries));
      distinct = remove-IsMap dec key entries r.distinct;
      values_distinct = remove-IsMap dec key s.values r.values_distinct;
      size = size_remove dec key s.values entries r.values_distinct r.distinct (r.same key) r.size;
      bounded = omega (arith, r.bounded, length-remove-le dec key entries);
    },
  )
