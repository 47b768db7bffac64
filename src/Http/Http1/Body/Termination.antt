-- ===== src/Http/Http1/Body/Termination.antt =====
-- http1_fast_path.rs: the loops of `pull_next` and of `drain_remaining` come to an end.
use pd_edge.Common.{[], ◌++◌, ℕ, zero, suc, ◌<◌, ◌≤◌, Option, none, some, ◌≡◌, refl, ap, arith}
use pd_edge.Http.Http1.Body.{
  FastHttp1RequestBodyState, FastHttp1ReadError, Turn, continues, gives, ends, fails, turn, Pulled,
  chunk, end_of_body, failure, settle, pull_loop, weight, pull_next, Drained, prepend, after_pull,
  drain_loop, drain_remaining, finish, taken_back, take_connection,
}
use pd_edge.Http.Http1.Body.Weight.{Lowers, turn-Lowers}

settle-eq :
    (w : ℕ) (u : Turn)
    (again again' : FastHttp1RequestBodyState → Option (Pulled × FastHttp1RequestBodyState))
    → Lowers w u
    → ((t : FastHttp1RequestBodyState) → weight t < w → again t ≡ again' t)
    → settle u again ≡ settle u again'
unfolding settle
settle-eq w (continues t) again again' h same = same t h
settle-eq w (gives bytes t) again again' h same = refl
settle-eq w (ends t) again again' h same = refl
settle-eq w (fails error t) again again' h same = refl

-- Fuel beyond the weight makes no difference.
pub pull_loop-eq :
    (f g : ℕ) (s : FastHttp1RequestBodyState)
    → weight s < f
    → weight s < g
    → pull_loop f s ≡ pull_loop g s
unfolding pull_loop
pull_loop-eq zero g s h k = absurd (omega arith)
pull_loop-eq (suc f) zero s h k = absurd (omega arith)
pull_loop-eq (suc f) (suc g) s h k =
    settle-eq (weight s) (turn s) (pull_loop f) (pull_loop g) (turn-Lowers s)
      (λ t l. pull_loop-eq f g t (omega arith) (omega arith))

-- A call returns, and what it leaves behind a chunk weighs less.
abbrev pub Descends : ℕ → Option (Pulled × FastHttp1RequestBodyState) → Type 0
Descends w none = ⊥
Descends w (some (chunk bytes, t)) = weight t < w
Descends w (some (end_of_body, t)) = Unit
Descends w (some (failure error, t)) = Unit

Descends-mono :
    (v w : ℕ) (o : Option (Pulled × FastHttp1RequestBodyState))
    → v ≤ w
    → Descends v o
    → Descends w o
Descends-mono v w none h k = k
Descends-mono v w (some (chunk bytes, t)) h k = omega arith
Descends-mono v w (some (end_of_body, t)) h k = tt
Descends-mono v w (some (failure error, t)) h k = tt

settle-Descends :
    (w : ℕ) (u : Turn)
    (again : FastHttp1RequestBodyState → Option (Pulled × FastHttp1RequestBodyState))
    → Lowers w u
    → ((t : FastHttp1RequestBodyState) → weight t < w → Descends (weight t) (again t))
    → Descends w (settle u again)
unfolding settle
settle-Descends w (continues t) again h k =
    Descends-mono (weight t) w (again t) (omega arith) (k t h)
settle-Descends w (gives bytes t) again h k = h
settle-Descends w (ends t) again h k = tt
settle-Descends w (fails error t) again h k = tt

pub pull_loop-Descends :
    (fuel : ℕ) (s : FastHttp1RequestBodyState)
    → weight s < fuel
    → Descends (weight s) (pull_loop fuel s)
unfolding pull_loop
pull_loop-Descends zero s h = absurd (omega arith)
pull_loop-Descends (suc fuel) s h =
    settle-Descends (weight s) (turn s) (pull_loop fuel) (turn-Lowers s)
      (λ t l. pull_loop-Descends fuel t (omega arith))

pull_next-Descends : (s : FastHttp1RequestBodyState) → Descends (weight s) (pull_next s)
unfolding pull_next
pull_next-Descends s = at_error s.terminal_error
  where
    at_error :
        (error : Option FastHttp1ReadError)
        → Descends
            (weight s)
            (elim error [ some e ↦ some (failure e, s) | none ↦ pull_loop (suc (weight s)) s ])
    at_error none = pull_loop-Descends (suc (weight s)) s (omega arith)
    at_error (some e) = tt

after_pull-eq :
    (w : ℕ) (o : Option (Pulled × FastHttp1RequestBodyState))
    (again again' : FastHttp1RequestBodyState → Option Drained)
    → Descends w o
    → ((t : FastHttp1RequestBodyState) → weight t < w → again t ≡ again' t)
    → after_pull o again ≡ after_pull o again'
unfolding after_pull
after_pull-eq w none again again' h same = absurd h
after_pull-eq w (some (chunk bytes, t)) again again' h same = ap (prepend bytes) (same t h)
after_pull-eq w (some (end_of_body, t)) again again' h same = refl
after_pull-eq w (some (failure error, t)) again again' h same = refl

drain_loop-eq :
    (f g : ℕ) (s : FastHttp1RequestBodyState)
    → weight s < f
    → weight s < g
    → drain_loop f s ≡ drain_loop g s
unfolding drain_loop
drain_loop-eq zero g s h k = absurd (omega arith)
drain_loop-eq (suc f) zero s h k = absurd (omega arith)
drain_loop-eq (suc f) (suc g) s h k =
    after_pull-eq (weight s) (pull_next s) (drain_loop f) (drain_loop g) (pull_next-Descends s)
      (λ t l. drain_loop-eq f g t (omega arith) (omega arith))

abbrev pub Returns : {A : Type 0} → Option A → Type 0
Returns {A = A} o = (a : A) × (o ≡ some a)

after_pull-Returns :
    (w : ℕ) (o : Option (Pulled × FastHttp1RequestBodyState))
    (again : FastHttp1RequestBodyState → Option Drained)
    → Descends w o
    → ((t : FastHttp1RequestBodyState) → weight t < w → Returns (again t))
    → Returns (after_pull o again)
unfolding after_pull prepend
after_pull-Returns w none again h returns = absurd h
after_pull-Returns w (some (chunk bytes, t)) again h returns =
    let (d, e) = returns t h in ((bytes ++ d.0, d.1, d.2), ap (prepend bytes) e)
after_pull-Returns w (some (end_of_body, t)) again h returns = (([], none, t), refl)
after_pull-Returns w (some (failure error, t)) again h returns = (([], some error, t), refl)

drain_loop-Returns :
    (fuel : ℕ) (s : FastHttp1RequestBodyState) → weight s < fuel → Returns (drain_loop fuel s)
unfolding drain_loop
drain_loop-Returns zero s h = absurd (omega arith)
drain_loop-Returns (suc fuel) s h =
    after_pull-Returns (weight s) (pull_next s) (drain_loop fuel) (pull_next-Descends s)
      (λ t l. drain_loop-Returns fuel t (omega arith))

Descends-Returns :
    (w : ℕ) (o : Option (Pulled × FastHttp1RequestBodyState)) → Descends w o → Returns o
Descends-Returns w none h = absurd h
Descends-Returns w (some r) h = (r, refl)

finish-Returns : (s : FastHttp1RequestBodyState) → Returns (finish s)
unfolding finish drain_remaining
finish-Returns s =
    at_drained (drain_remaining s) (drain_loop-Returns (suc (weight s)) s (omega arith))
  where
    at_drained :
        (o : Option Drained)
        → Returns o
        → Returns (elim o [
          | none ↦ none
          | some (body, error, t) ↦ some (taken_back error (take_connection t).0)
        ])
    at_drained none h = absurd (ground (arith, h.1))
    at_drained (some (body, error, t)) h = (taken_back error (take_connection t).0, refl)

-- From any state, `pull_next`, `drain_remaining` and `finish` return, and the turns and calls that they
-- make are fewer than any bound above the state's weight: with more fuel each loop comes to the same.
pub loops_return :
    (s : FastHttp1RequestBodyState) (fuel : ℕ)
    → weight s < fuel
    → Returns (pull_next s)
      × Returns (drain_remaining s)
      × Returns (finish s)
      × (pull_loop fuel s ≡ pull_loop (suc (weight s)) s)
      × (drain_loop fuel s ≡ drain_remaining s)
unfolding drain_remaining
loops_return s fuel h = (
  Descends-Returns (weight s) (pull_next s) (pull_next-Descends s),
  drain_loop-Returns (suc (weight s)) s (omega arith),
  finish-Returns s,
  pull_loop-eq fuel (suc (weight s)) s h (omega arith),
  drain_loop-eq fuel (suc (weight s)) s h (omega arith),
)
