-- ===== src/Http/Http2/Session/Ids.antt =====
-- http2/upstream.rs: the ids of the streams that a session reserves.
use pd_edge.Common.{
  ℕ, ◌+◌, ◌*◌, ◌≤◌, List, [], ◌∷◌, Bool, true, false, not, ◌&&◌, if◌then◌else◌, ◌⊎◌, length, ◌≡◌,
  refl, sym, ap, ◌∙◌, arith, Bool-cases, inl, inr,
}
use Prim.Native.Nat.{zero, suc, min}
use pd_edge.Http.Http2.Model.{Http2StreamGoal}
use pd_edge.Http.Http2.Session.{
  Http2UpstreamSessionDagState, Reservation, reserved_as, refused_not_open, refused_after_goaway,
  largest_u64, any_active, retain_active, is_draining, is_absent, can_accept_new_streams,
  has_active_streams, prune_terminal_streams, advance_stream_goal, with_stream, reserve_stream,
  mark_stream_request_committed, note_stream_reset, advance_session_goal, closed_if_idle,
  mark_goaway, mark_connection_failed, mark_connection_closed, mark_stream_response_head_ready,
  mark_stream_response_body_ready, mark_stream_closed, mark_stream_reset,
}
use pd_edge.Http.Http2.Session.Run.{
  Op, reserve, request_committed, head_ready, body_ready, stream_closed, stream_reset, go_away,
  connection_closed, connection_failed, apply, after_reservation,
}

-- The id that an operation reserves, in front of the later ones.
abbrev pub id_of : Reservation → List ℕ → List ℕ
id_of (reserved_as id t) later = id ∷ later
id_of refused_after_goaway later = later
id_of refused_not_open later = later

abbrev pub op_id : Op → Http2UpstreamSessionDagState → List ℕ → List ℕ
op_id (reserve exchange_handle) s later = id_of (reserve_stream exchange_handle s) later
op_id (request_committed id body_present) s later = later
op_id (head_ready id) s later = later
op_id (body_ready id) s later = later
op_id (stream_closed id) s later = later
op_id (stream_reset id reason source) s later = later
op_id (go_away reason source) s later = later
op_id connection_closed s later = later
op_id (connection_failed reason) s later = later

-- The ids that a run reserves, in order.
abbrev pub reserved_ids : List Op → Http2UpstreamSessionDagState → List ℕ
reserved_ids [] s = []
reserved_ids (op ∷ ops) s = op_id op s (reserved_ids ops (apply op s))

-- Every other number from the first on.
abbrev pub every_other : ℕ → ℕ → List ℕ
every_other first zero = []
every_other first (suc count) = first ∷ every_other (first + 2) count

prune-next :
    (s : Http2UpstreamSessionDagState)
    → (prune_terminal_streams s).next_local_stream_id ≡ s.next_local_stream_id
unfolding prune_terminal_streams
prune-next s =
    elim (Bool-cases (is_draining s.frontier && not (any_active (retain_active s.streams)))) [
      | inl e ↦ rw e refl
      | inr e ↦ rw e refl
    ]

-- An operation reserves the next id and goes on by two, or leaves the next id as it is.
abbrev Steps : Op → Http2UpstreamSessionDagState → Type 0
Steps op s =
    (((later : List ℕ) → op_id op s later ≡ s.next_local_stream_id ∷ later)
      × ((apply op s).next_local_stream_id ≡ min (s.next_local_stream_id + 2) largest_u64))
    ⊎ (((later : List ℕ) → op_id op s later ≡ later)
        × ((apply op s).next_local_stream_id ≡ s.next_local_stream_id))

reserve-Steps :
    (exchange_handle : ℕ) (s : Http2UpstreamSessionDagState) → Steps (reserve exchange_handle) s
unfolding reserve_stream with_stream advance_stream_goal
reserve-Steps exchange_handle s = elim (Bool-cases (can_accept_new_streams s)) [
  | inl e ↦ rw e (inl ((λ later. refl), ap (λ n. min (n + 2) largest_u64) (prune-next s)))
  | inr e ↦ rw e (refused (is_absent s.goaway))
]
  where
    refused :
        (b : Bool)
        → (((later : List ℕ)
              → id_of (if b then refused_not_open else refused_after_goaway) later
                ≡ s.next_local_stream_id ∷ later)
            × ((after_reservation
                  (if b then refused_not_open else refused_after_goaway)
                  s).next_local_stream_id
                ≡ min (s.next_local_stream_id + 2) largest_u64))
          ⊎ (((later : List ℕ)
                → id_of (if b then refused_not_open else refused_after_goaway) later ≡ later)
              × ((after_reservation
                    (if b then refused_not_open else refused_after_goaway)
                    s).next_local_stream_id
                  ≡ s.next_local_stream_id))
    refused true = inr ((λ later. refl), refl)
    refused false = inr ((λ later. refl), refl)

op-Steps : (op : Op) (s : Http2UpstreamSessionDagState) → Steps op s
unfolding mark_stream_request_committed mark_stream_response_head_ready
    mark_stream_response_body_ready mark_stream_closed mark_stream_reset mark_goaway
    mark_connection_failed mark_connection_closed advance_stream_goal note_stream_reset
    advance_session_goal closed_if_idle has_active_streams
op-Steps (reserve exchange_handle) s = reserve-Steps exchange_handle s
op-Steps (request_committed id body_present) s = inr ((λ later. refl), refl)
op-Steps (head_ready id) s = inr ((λ later. refl), refl)
op-Steps (body_ready id) s = inr ((λ later. refl), refl)
op-Steps (stream_closed id) s =
    inr ((λ later. refl), prune-next (advance_stream_goal id Http2StreamGoal.closed s))
op-Steps (stream_reset id reason source) s =
    inr ((λ later. refl), prune-next (note_stream_reset id reason source s))
op-Steps (go_away reason source) s = elim (Bool-cases (any_active s.streams)) [
  | inl e ↦ rw e (inr ((λ later. refl), refl))
  | inr e ↦ rw e (inr ((λ later. refl), refl))
]
op-Steps connection_closed s = elim (Bool-cases (any_active s.streams)) [
  | inl e ↦ rw e (inr ((λ later. refl), refl))
  | inr e ↦ rw e (inr ((λ later. refl), refl))
]
op-Steps (connection_failed reason) s = inr ((λ later. refl), refl)

-- While the ids stay within 64 bits, a run of any methods reserves every other number from the next id
-- on, one after the other: no id twice, and each odd if the next one is.
pub reserved_ids-every_other :
    (ops : List Op) (s : Http2UpstreamSessionDagState)
    → s.next_local_stream_id + 2 * length ops ≤ largest_u64
    → reserved_ids ops s ≡ every_other s.next_local_stream_id (length (reserved_ids ops s))
reserved_ids-every_other [] s h = refl
reserved_ids-every_other (op ∷ ops) s h = elim (op-Steps op s) [
  | inl (e, n) ↦
      let m : (apply op s).next_local_stream_id ≡ s.next_local_stream_id + 2 = omega (arith, n) in
      let ih = reserved_ids-every_other ops (apply op s) (omega (arith, m)) in
      let later = reserved_ids ops (apply op s) in
      e later
      ∙ (ap (◌∷◌ s.next_local_stream_id) (ih ∙ ap (λ k. every_other k (length later)) m)
          ∙ ap (λ l. every_other s.next_local_stream_id (length l)) (sym (e later)))
  | inr (e, n) ↦
      let ih = reserved_ids-every_other ops (apply op s) (omega (arith, n)) in
      let later = reserved_ids ops (apply op s) in
      e later
      ∙ (ih ∙ ap (λ k. every_other k (length later)) n)
      ∙ ap (λ l. every_other s.next_local_stream_id (length l)) (sym (e later))
]
