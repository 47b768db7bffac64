-- ===== src/Cache/Lru/Run.antt =====
-- src/cache.rs: runs of operations on `BoundedLruStore`, against the entries that are promised.
use pd_edge.Common.{
  ℕ, ◌-◌, ◌≡◌, ◌≢◌, refl, ap, ◌∙◌, List, [], ◌∷◌, ◌++◌, Option, some, Bool, length, drop, ◌==◌,
  arith, Bool-cases, Option-cases, inl, inr, drop-append, length-append,
}
use pd_edge.Cache.HashMap.{remove, IsMap}
use pd_edge.Cache.Lru.{
  BoundedLruStore, touch_key, get, peek, insert_value, remove_value, retain, remove_all,
  is_most_recent, to_remove,
}
use pd_edge.Cache.Lru.Model.{refresh, used, newest, kept}
use pd_edge.Cache.Lru.Refines.{Represents}
use pd_edge.Cache.Lru.Operations.{
  get_miss, get_hit, get-Represents, insert_value-Represents, remove_value-Represents,
}
use pd_edge.Cache.Lru.Retain.{retain-Represents}
use mathlib.Core.List.{lookup}
use mathlib.Core.Path.{subst}
use mathlib.Core.Logic.{if_pos, if_neg}

pub data Operation {ℓ} (K V : Type ℓ) : Type ℓ where
  gets removes : K → Operation K V
  inserts : K → V → Operation K V
  retains : (K → V → Bool) → Operation K V

module _ {ℓ} {K V : Type ℓ} (dec : Discrete K) where
  pub apply : Operation K V → BoundedLruStore K V → BoundedLruStore K V
  apply (gets k) s = (get dec k s).1
  apply (removes k) s = (remove_value dec k s).1
  apply (inserts k v) s = (insert_value dec k v s).1
  apply (retains keep) s = retain dec keep s

  pub run : List (Operation K V) → BoundedLruStore K V → BoundedLruStore K V
  run [] s = s
  run (o ∷ os) s = run os (apply o s)

  -- What the operations promise, on the entries.
  abbrev pub promised : ℕ → Operation K V → List (K × V) → List (K × V)
  promised capacity (gets k) entries = used dec k entries
  promised capacity (removes k) entries = remove dec k entries
  promised capacity (inserts k v) entries = newest capacity (refresh dec k v entries)
  promised capacity (retains keep) entries = kept keep entries

  abbrev pub promised_run : ℕ → List (Operation K V) → List (K × V) → List (K × V)
  promised_run capacity [] entries = entries
  promised_run capacity (o ∷ os) entries = promised_run capacity os (promised capacity o entries)

  capacity-remove_all :
      (ks : List K) (s : BoundedLruStore K V) → (remove_all dec ks s).capacity ≡ s.capacity
  unfolding remove_all
  capacity-remove_all [] s = refl
  capacity-remove_all (k ∷ ks) s = capacity-remove_all ks (remove_value dec k s).1

  capacity-touch_key : (k : K) (s : BoundedLruStore K V) → (touch_key dec k s).capacity ≡ s.capacity
  unfolding touch_key
  capacity-touch_key k s = elim (Bool-cases (is_most_recent dec k s.lru_order)) [
    | inl e ↦ rw e
    | inr e ↦ rw e
  ]

  capacity-insert_value :
      (k : K) (v : V) (s : BoundedLruStore K V) → (insert_value dec k v s).1.capacity ≡ s.capacity
  unfolding insert_value
  capacity-insert_value k v s = elim (Bool-cases (s.capacity == 0)) [ inl e ↦ rw e | inr e ↦ rw e ]

  capacity-apply : (o : Operation K V) (s : BoundedLruStore K V) → (apply o s).capacity ≡ s.capacity
  unfolding apply
  capacity-apply (gets k) s = elim (Option-cases (lookup dec k s.values)) [
    | inl e ↦ ap (λ (p : Option V × BoundedLruStore K V). p.1.capacity) (get_miss dec k s e)
    | inr (v, e) ↦
        ap (λ (p : Option V × BoundedLruStore K V). p.1.capacity) (get_hit dec k s v e)
        ∙ capacity-touch_key k s
  ]
  capacity-apply (removes k) s = unfold remove_value in refl
  capacity-apply (inserts k v) s = capacity-insert_value k v s
  capacity-apply (retains keep) s = unfold retain in capacity-remove_all (to_remove keep s.values) s

  apply-Represents :
      (o : Operation K V) (entries : List (K × V)) (s : BoundedLruStore K V)
      → Represents dec entries s
      → Represents dec (promised s.capacity o entries) (apply o s)
  unfolding apply
  apply-Represents (gets k) entries s r = (get-Represents dec k entries s r).1
  apply-Represents (removes k) entries s r = (remove_value-Represents dec k entries s r).1
  apply-Represents (inserts k v) entries s r = (insert_value-Represents dec k v entries s r).1
  apply-Represents (retains keep) entries s r = retain-Represents dec keep entries s r

  run_from :
      (capacity : ℕ) (os : List (Operation K V)) (entries : List (K × V)) (s : BoundedLruStore K V)
      → s.capacity ≡ capacity
      → Represents dec entries s
      → Represents dec (promised_run capacity os entries) (run os s)
  unfolding run
  run_from capacity [] entries s e r = r
  run_from capacity (o ∷ os) entries s e r =
      run_from capacity os (promised capacity o entries) (apply o s) (capacity-apply o s ∙ e) (
        subst (λ c. Represents dec (promised c o entries) (apply o s)) e
          (apply-Represents o entries s r))

  -- After any run of gets, removes, inserts and retains the store holds exactly the promised entries:
  -- a use moves an entry to the end, and an insert drops the least recently used ones beyond the
  -- capacity, which is never exceeded.
  pub run-Represents :
      (os : List (Operation K V)) (entries : List (K × V)) (s : BoundedLruStore K V)
      → Represents dec entries s
      → Represents dec (promised_run s.capacity os entries) (run os s)
  run-Represents os entries s r = run_from s.capacity os entries s refl r

newest_append_last {ℓ} :
    {A : Type ℓ} (capacity : ℕ) (m : List A) (e : A)
    → capacity ≢ 0
    → (n : List A) × (newest capacity (m ++ e ∷ []) ≡ n ++ e ∷ [])
newest_append_last capacity m e h = (
  drop (length (m ++ e ∷ []) - capacity) m,
  drop-append (length (m ++ e ∷ []) - capacity) m (e ∷ [])
      (omega (arith, length-append m (e ∷ []))),
)

-- Right after an `insert` into a store with room for an entry, `peek` finds the value.
module _ {ℓ} {K V : Type ℓ} (dec : Discrete K) where
  lookup-last :
      (k : K) (v : V) (m : List (K × V))
      → IsMap dec (m ++ (k, v) ∷ [])
      → lookup dec k (m ++ (k, v) ∷ []) ≡ some v
  unfolding lookup
  lookup-last k v [] u = if_pos (dec k k) refl _ _
  lookup-last k v ((j, w) ∷ m) (absent, u) = elim (dec k j) [
    | yes p ↦ absurd (ground (arith, lookup-last k v m u))
    | no p ↦ if_neg (dec k j) p _ _ ∙ lookup-last k v m u
  ]

  pub peek-insert_value_self :
      (k : K) (v : V) (entries : List (K × V)) (s : BoundedLruStore K V)
      → Represents dec entries s
      → s.capacity ≢ 0
      → peek dec k (insert_value dec k v s).1 ≡ some v
  unfolding peek
  peek-insert_value_self k v entries s r room =
      let after = (insert_value-Represents dec k v entries s r).1 in
      let (front, e) = newest_append_last s.capacity (remove dec k entries) (k, v) room in
      after.same k ∙ ap (lookup dec k) e ∙ lookup-last k v front (rw e at (after.distinct))
