-- ===== src/Common/Outcome.antt =====
-- The result of fallible code: `Ok`, `Err` with an error of the component's own, or a panic, which
-- is what an index or a slice out of range does.
use Prim.Native.Nat.{ℕ, zero, suc, ◌-◌, ◌≤◌, ◌<◌}
use mathlib.Core.Path.{◌≡◌, refl, subst}
use mathlib.Core.Logic.{◌≢◌}
use mathlib.Core.List.{List, [], ◌∷◌}
use native.Mathlib.Omega.{arith}
use mathlib.Core.Option.{none, some}
use mathlib.Core.Bool.{Bool, true, false, ◌&&◌}
use pd_edge.Common.Tests.{leb, le→leb, if◌then◌else◌}
use pd_edge.Common.Lists.{length, get_elem?, take, drop}

pub data Outcome {ℓ} (E : Type 0) (A : Type ℓ) : Type ℓ where
  ok : A → Outcome E A
  err : E → Outcome E A
  panic : Outcome E A

infixl 5 ◌>>=◌ ◌>>◌
abbrev pub ◌>>=◌ {ℓ κ} :
    {E : Type 0} {A : Type ℓ} {B : Type κ} → Outcome E A → (A → Outcome E B) → Outcome E B
ok a >>= f = f a
err e >>= f = err e
panic >>= f = panic

abbrev pub ◌>>◌ {ℓ} : {E : Type 0} {B : Type ℓ} → Outcome E (Unit {0}) → Outcome E B → Outcome E B
m >> k = m >>= λ _. k

-- `if !test { return Err(e) }`
abbrev pub guard : {E : Type 0} → Bool → E → Outcome E (Unit {0})
guard true e = ok tt
guard false e = err e

pub >>=-eq-ok {ℓ κ} :
    {E : Type 0} {A : Type ℓ} {B : Type κ} (first : Outcome E A) (next : A → Outcome E B) {last : B}
    → (first >>= next) ≡ ok last
    → (middle : A) × (first ≡ ok middle) × (next middle ≡ ok last)
>>=-eq-ok (ok middle) next reached = (middle, refl, reached)
>>=-eq-ok (err e) next reached = cc
>>=-eq-ok panic next reached = cc

module _ {ℓ} {E : Type 0} {A : Type ℓ} where
  -- `bytes[i]`
  abbrev pub index : List A → ℕ → Outcome E A
  index xs i = elim (get_elem? xs i) [ some x ↦ ok x | none ↦ panic ]

  -- `&bytes[from..]`
  abbrev pub slice_from : List A → ℕ → Outcome E (List A)
  slice_from xs from = if leb from (length xs) then ok (drop from xs) else panic

  -- `&bytes[from..to]`
  abbrev pub slice : List A → ℕ → ℕ → Outcome E (List A)
  slice xs from to =
      if leb from to && leb to (length xs) then ok (take (to - from) (drop from xs)) else panic

  -- What a successful result satisfies; a panic never does.
  abbrev pub Ensures : (A → Type 0) → Outcome E A → Type 0
  Ensures P (ok a) = P a
  Ensures P (err e) = Unit
  Ensures P panic = ⊥

  pub Ensures-ne-panic : (P : A → Type 0) (m : Outcome E A) → Ensures P m → m ≢ panic
  Ensures-ne-panic P (ok a) h = λ e. cc
  Ensures-ne-panic P (err x) h = λ e. cc
  Ensures-ne-panic P panic h = absurd h

  pub Ensures-ok : (P : A → Type 0) (m : Outcome E A) {a : A} → Ensures P m → m ≡ ok a → P a
  Ensures-ok P (ok b) {a} h e = subst (λ m. Ensures P m) e h
  Ensures-ok P (err x) h e = absurd (ground arith)
  Ensures-ok P panic h e = absurd h

  pub Ensures-mono :
      (P Q : A → Type 0) (m : Outcome E A) → Ensures P m → ((a : A) → P a → Q a) → Ensures Q m
  Ensures-mono P Q (ok a) h k = k a h
  Ensures-mono P Q (err e) h k = tt
  Ensures-mono P Q panic h k = absurd h

pub Ensures-bind {ℓ κ} :
    {E : Type 0} {A : Type ℓ} {B : Type κ} (P : A → Type 0) (Q : B → Type 0) (m : Outcome E A)
    (f : A → Outcome E B)
    → Ensures P m
    → ((a : A) → P a → Ensures Q (f a))
    → Ensures Q (m >>= f)
Ensures-bind P Q (ok a) f h k = k a h
Ensures-bind P Q (err e) f h k = tt
Ensures-bind P Q panic f h k = absurd h

pub Ensures-guard : {E : Type 0} (t : Bool) (e : E) → Ensures (λ _. Unit) (guard t e)
Ensures-guard true e = tt
Ensures-guard false e = tt

pub Ensures-if {ℓ} :
    {E : Type 0} {A : Type ℓ} (P : A → Type 0) (t : Bool) (m n : Outcome E A)
    → (t ≡ true → Ensures P m)
    → (t ≡ false → Ensures P n)
    → Ensures P (if t then m else n)
Ensures-if P true m n h k = h refl
Ensures-if P false m n h k = k refl

-- The rule for each kind of step, with the rest of the block behind it.
module _ {E B : Type 0} (Q : B → Type 0) where
  pub after-guard :
      (t : Bool) (e : E) (k : Outcome E B) → (t ≡ true → Ensures Q k) → Ensures Q (guard t e >> k)
  after-guard true e k h = h refl
  after-guard false e k h = tt

  module _ {A : Type 0} where
    pub after-index :
        (xs : List A) (i : ℕ) (f : A → Outcome E B)
        → i < length xs
        → ((x : A) → get_elem? xs i ≡ some x → Ensures Q (f x))
        → Ensures Q (index xs i >>= f)
    after-index [] i f h k = absurd (omega arith)
    after-index (x ∷ xs) zero f h k = k x refl
    after-index (x ∷ xs) (suc i) f h k = after-index xs i f (omega arith) k

    pub after-slice_from :
        (xs : List A) (from : ℕ) (f : List A → Outcome E B)
        → from ≤ length xs
        → Ensures Q (f (drop from xs))
        → Ensures Q (slice_from xs from >>= f)
    after-slice_from xs from f h k = rw (le→leb from (length xs) h) k

    pub after-slice :
        (xs : List A) (from to : ℕ) (f : List A → Outcome E B)
        → from ≤ to
        → to ≤ length xs
        → Ensures Q (f (take (to - from) (drop from xs)))
        → Ensures Q (slice xs from to >>= f)
    after-slice xs from to f h j k = rw (le→leb from to h, le→leb to (length xs) j) k
