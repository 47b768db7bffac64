-- ===== src/Http/Http2/Session/Streams.antt =====
-- http2/upstream.rs: what the changes of streams do to the streams that are active.
use pd_edge.Common.{
  ℕ, [], ◌∷◌, Bool, true, false, not, ◌&&◌, ◌||◌, ◌==◌, ◌≡◌, refl, arith, Bool-cases, inl, inr,
}
use pd_edge.Http.Http2.Model.{is_terminal, Http2StreamGoal, Http2StreamFrontier}
use pd_edge.Http.Http2.Session.{
  Http2UpstreamStreamState, Streams, update_stream, is_active, any_active, retain_active,
  attached_if, headers_sent_if, committed_if, head_ready_if, body_ready_if, advanced,
}

-- A test that every frontier passes, by evaluation on each.
abbrev pub passes_all : (Http2StreamFrontier → Bool) → Bool
passes_all test =
    test Http2StreamFrontier.reserved
    && test Http2StreamFrontier.attached_to_exchange
    && test Http2StreamFrontier.request_headers_sent
    && test Http2StreamFrontier.request_body_open
    && test Http2StreamFrontier.request_committed
    && test Http2StreamFrontier.response_head_ready
    && test Http2StreamFrontier.response_body_ready
    && test Http2StreamFrontier.half_closed_local
    && test Http2StreamFrontier.half_closed_remote
    && test Http2StreamFrontier.closed
    && test Http2StreamFrontier.reset

and_true : (a b : Bool) → (a && b) ≡ true → (a ≡ true) × (b ≡ true)
and_true a b h = (ground (arith, h), ground (arith, h))

pub passes_all-at :
    (test : Http2StreamFrontier → Bool)
    → passes_all test ≡ true
    → (f : Http2StreamFrontier) → test f ≡ true
passes_all-at test h f = elim f [
  | Http2StreamFrontier.reserved ↦ ground (arith, h)
  | Http2StreamFrontier.attached_to_exchange ↦ ground (arith, h)
  | Http2StreamFrontier.request_headers_sent ↦ ground (arith, h)
  | Http2StreamFrontier.request_body_open ↦ ground (arith, h)
  | Http2StreamFrontier.request_committed ↦ ground (arith, h)
  | Http2StreamFrontier.response_head_ready ↦ ground (arith, h)
  | Http2StreamFrontier.response_body_ready ↦ ground (arith, h)
  | Http2StreamFrontier.half_closed_local ↦ ground (arith, h)
  | Http2StreamFrontier.half_closed_remote ↦ ground (arith, h)
  | Http2StreamFrontier.closed ↦ ground (arith, h)
  | Http2StreamFrontier.reset ↦ ground (arith, h)
]

-- A goal that ends no stream.
abbrev pub GoesOn : Http2StreamGoal → Type 0
GoesOn goal =
    (f : Http2StreamFrontier) → is_terminal f ≡ false → is_terminal (advanced goal f) ≡ false

going_on :
    (goal : Http2StreamGoal)
    → passes_all (λ f. is_terminal f || not (is_terminal (advanced goal f))) ≡ true
    → GoesOn goal
going_on goal h f e =
    let p = passes_all-at (λ f. is_terminal f || not (is_terminal (advanced goal f))) h f in
    ground (arith, p, e)

pub attached-GoesOn : GoesOn Http2StreamGoal.attached
unfolding advanced attached_if is_terminal
attached-GoesOn = going_on Http2StreamGoal.attached refl

pub response_head_ready-GoesOn : GoesOn Http2StreamGoal.response_head_ready
unfolding advanced attached_if headers_sent_if head_ready_if is_terminal
response_head_ready-GoesOn = going_on Http2StreamGoal.response_head_ready refl

pub response_body_ready-GoesOn : GoesOn Http2StreamGoal.response_body_ready
unfolding advanced attached_if headers_sent_if head_ready_if body_ready_if is_terminal
response_body_ready-GoesOn = going_on Http2StreamGoal.response_body_ready refl

pub request_committed-GoesOn : GoesOn Http2StreamGoal.request_committed
unfolding advanced attached_if headers_sent_if committed_if is_terminal
request_committed-GoesOn = going_on Http2StreamGoal.request_committed refl

or_mono :
    (a b c d : Bool)
    → (a ≡ true → c ≡ true)
    → (b ≡ true → d ≡ true)
    → (a || b) ≡ true
    → (c || d) ≡ true
or_mono true b c d h k e = let f = h refl in rw f refl
or_mono false true true d h k e = refl
or_mono false true false d h k e = k refl
or_mono false false c d h k e = absurd (ground (arith, e))

pub any_active-retain :
    (streams : Streams) → any_active (retain_active streams) ≡ any_active streams
unfolding any_active retain_active
any_active-retain [] = refl
any_active-retain ((key, stream) ∷ streams) = elim (Bool-cases (is_active stream)) [
  | inl e ↦ rw e (rw e refl)
  | inr e ↦ rw e (any_active-retain streams)
]

pub any_active-update :
    (id : ℕ) (change : Http2UpstreamStreamState → Http2UpstreamStreamState) (streams : Streams)
    → ((stream : Http2UpstreamStreamState)
        → is_active stream ≡ true
        → is_active (change stream) ≡ true)
    → any_active streams ≡ true
    → any_active (update_stream id change streams) ≡ true
unfolding any_active update_stream
any_active-update id change [] keeps h = h
any_active-update id change ((key, stream) ∷ streams) keeps h = elim (Bool-cases (key == id)) [
  | inl e ↦ rw e (or_mono (is_active stream) (any_active streams) _ _ (keeps stream) (λ a. a) h)
  | inr e ↦ rw e (
      or_mono (is_active stream) (any_active streams) _ _ (λ a. a)
        (any_active-update id change streams keeps) h)
]
