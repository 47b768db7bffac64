-- ===== src/Http/Http1/Body/Runs.antt =====
-- http1_fast_path.rs: what a request body delivers as a relation on the turns of `pull_next`.
use pd_edge.Common.{ℕ, zero, suc, ◌<◌, ◌≤◌, [], ◌++◌, Option, none, some, ◌≡◌, refl, ap, ◌∙◌, arith}
use pd_edge.Common.Bytes.{Text}
use mathlib.Core.Path.{subst}
use pd_edge.Http.Http1.Body.{
  FastHttp1RequestBodyState, FastHttp1ReadError, Turn, continues, gives, ends, turn, failure,
  settle, pull_loop, weight, pull_next, prepend, after_pull, drain_loop, drain_remaining,
}
use pd_edge.Http.Http1.Body.Weight.{Lowers, turn-Lowers}

-- From the first state the turns deliver the body, and the body ends in the second state.
pub data Runs : FastHttp1RequestBodyState → Text → FastHttp1RequestBodyState → Type 0 where
  over : {s t : FastHttp1RequestBodyState} → turn s ≡ ends t → Runs s [] t
  goes_on :
      {s t u : FastHttp1RequestBodyState} {body : Text}
      → turn s ≡ continues t
      → Runs t body u
      → Runs s body u
  gave :
      {s t u : FastHttp1RequestBodyState} {bytes body : Text}
      → turn s ≡ gives bytes t
      → t.terminal_error ≡ none
      → Runs t body u
      → Runs s (bytes ++ body) u

pull_next-eq :
    (s : FastHttp1RequestBodyState)
    → s.terminal_error ≡ none
    → pull_next s ≡ pull_loop (suc (weight s)) s
unfolding pull_next
pull_next-eq s e =
    ap
      (λ (error : Option FastHttp1ReadError). elim error [
        | some e ↦ some (failure e, s)
        | none ↦ pull_loop (suc (weight s)) s
      ])
      e

-- The weight of what a turn leaves.
lighter : (s : FastHttp1RequestBodyState) {u : Turn} → turn s ≡ u → Lowers (weight s) u
lighter s e = subst (Lowers (weight s)) e (turn-Lowers s)

drained_by :
    {s u : FastHttp1RequestBodyState} {body : Text} (f g : ℕ)
    → Runs s body u
    → weight s < f
    → weight s ≤ g
    → after_pull (pull_loop f s) (drain_loop g) ≡ some (body, none, u)
unfolding pull_loop settle after_pull drain_loop prepend
drained_by {s = s} zero g r h k = absurd (omega arith)
drained_by (suc f) g (over e) h k = rw e refl
drained_by {s = s} (suc f) g (goes_on {t = t} e r) h k =
    let l : weight t < weight s = lighter s e in rw e (drained_by f g r (omega arith) (omega arith))
drained_by {s = s} (suc f) zero (gave {t = t} e n r) h k =
    let l : weight t < weight s = lighter s e in absurd (omega arith)
drained_by {s = s} (suc f) (suc g) (gave {t = t} {bytes = bytes} e n r) h k =
    let l : weight t < weight s = lighter s e in
    rw e (
      ap (λ o. prepend bytes (after_pull o (drain_loop g))) (pull_next-eq t n)
      ∙ ap (prepend bytes) (drained_by (suc (weight t)) g r (omega arith) (omega arith)))

-- A run is what `drain_remaining` goes through.
pub drain_remaining-Runs :
    {s u : FastHttp1RequestBodyState} {body : Text}
    → s.terminal_error ≡ none
    → Runs s body u
    → drain_remaining s ≡ some (body, none, u)
unfolding drain_remaining drain_loop
drain_remaining-Runs {s = s} n r =
    ap (λ o. after_pull o (drain_loop (weight s))) (pull_next-eq s n)
    ∙ drained_by (suc (weight s)) (weight s) r (omega arith) (omega arith)
