-- ===== src/Mqtt/Client/Reading.antt =====
-- upstream.rs: what `read_next_packet` returns, and what becomes of the bytes.
use pd_edge.Mqtt.Client.{write_failed}
use pd_edge.Mqtt.Client.{no_carrier}
use pd_edge.Common.{
  ℕ, List, [], ◌∷◌, ◌++◌, Option, none, some, Bool, true, false, drop, ◌≡◌, ◌⊎◌, inl, inr, refl,
  sym, ap, ◌∙◌, if◌then◌else◌,
}
use pd_edge.Common.Outcome.{Outcome, ok, err, panic, Ensures-ne-panic}
use pd_edge.Mqtt.Codec.{MqttIncomingPacket, CodecError}
use pd_edge.Mqtt.Codec.Decode.{decode_packet}
use pd_edge.Mqtt.Codec.Safety.{IsFrame, decode_packet-IsFrame}
use pd_edge.Mqtt.Session.{
  MqttPhase, MqttCarrierAttachment, MqttConnectionState, mark_failed, mark_closed, take_carrier,
  next_keep_alive_wait, note_packet_activity, note_ping_request_sent,
}
use pd_edge.Mqtt.Client.{
  CarrierReadChunk, data_chunk, timed_out, closed_chunk, read_error, Round, ReadResult, packet,
  ended, refused, no_carrier, panicked, waiting, Turn, continues, finishes, expire, write_ping,
  expire_or_ping, read_chunk, is_due, turn, on_decoded, after_turn, read_loop, read_next_packet,
}
use mathlib.Core.Path.{subst}
use mathlib.Core.List.{append_assoc, append-nil}

-- A turn that reads nothing: the keep-alive is due at its first look, or its read times out.
abbrev pub IsQuiet : Round → MqttConnectionState → Type 0
IsQuiet r s = (is_due (next_keep_alive_wait r.first_look s) ≡ true) ⊎ (r.chunk ≡ timed_out)

-- The bytes that arrive from a state on until some rounds are left, each chunk of them in its order: a
-- round is passed over only if it is quiet, and then a ping is sent in it.
pub data Arrived : List Round → MqttConnectionState → List ℕ → List Round → Type 0 where
  nothing : {rounds : List Round} {s : MqttConnectionState} → Arrived rounds s [] rounds
  chunk :
      {r : Round} {rounds rest : List Round} {s : MqttConnectionState} (bytes : List ℕ)
      {more : List ℕ}
      → r.chunk ≡ data_chunk bytes
      → is_due (next_keep_alive_wait r.first_look s) ≡ false
      → Arrived rounds (note_packet_activity r.noted_at s) more rest
      → Arrived (r ∷ rounds) s (bytes ++ more) rest
  pinged :
      {r : Round} {rounds rest : List Round} {s : MqttConnectionState} {more : List ℕ}
      → IsQuiet r s
      → Arrived rounds (note_ping_request_sent r.noted_at s) more rest
      → Arrived (r ∷ rounds) s more rest

-- The connection is over in a round: the keep-alive has run out, or the carrier was closed.
abbrev pub IsOver : Round → MqttPhase → Type 0
IsOver r p = (p ≡ MqttPhase.failed) ⊎ ((p ≡ MqttPhase.closed) × (r.chunk ≡ closed_chunk))

-- How a turn ends: what arrived in it is added to the buffer and the phase stays; or the connection
-- is over and keeps the buffer; or an error leaves the state as it is.
abbrev TurnsWell : Round → List ℕ → MqttConnectionState → Turn → Type 0
TurnsWell r buffer s (continues buffer' s') =
    (s'.phase ≡ s.phase)
    × (s'.pending_read_buffer ≡ s.pending_read_buffer)
    × (((buffer' ≡ buffer) × IsQuiet r s × (s' ≡ note_ping_request_sent r.noted_at s))
        ⊎ ((bytes : List ℕ) × (r.chunk ≡ data_chunk bytes)
            × (is_due (next_keep_alive_wait r.first_look s) ≡ false)
            × (s' ≡ note_packet_activity r.noted_at s)
            × (buffer' ≡ buffer ++ bytes)))
TurnsWell r buffer s (finishes (ended s')) = IsOver r s'.phase × (s'.pending_read_buffer ≡ buffer)
TurnsWell r buffer s (finishes (refused e s')) = s' ≡ s
TurnsWell r buffer s (finishes _) = ⊥

if-TurnsWell :
    (r : Round) (buffer : List ℕ) (s : MqttConnectionState) (b : Bool) (t u : Turn)
    → (b ≡ true → TurnsWell r buffer s t)
    → (b ≡ false → TurnsWell r buffer s u)
    → TurnsWell r buffer s (if b then t else u)
if-TurnsWell r buffer s true t u h k = h refl
if-TurnsWell r buffer s false t u h k = k refl

write_ping-TurnsWell :
    (r : Round) (buffer : List ℕ) (s : MqttConnectionState)
    → IsQuiet r s
    → TurnsWell r buffer s (write_ping r buffer s)
unfolding write_ping note_ping_request_sent
write_ping-TurnsWell r buffer s q = written s.carrier
  where
    written :
        (c : Option MqttCarrierAttachment)
        → TurnsWell r buffer s (elim c [
          | none ↦ finishes (refused no_carrier s)
          | some carrier ↦
              if r.ping_written
              then continues buffer (note_ping_request_sent r.noted_at s)
              else finishes (refused write_failed s)
        ])
    written none = refl
    written (some carrier) =
        if-TurnsWell r buffer s r.ping_written _ _ (λ e. (refl, refl, inl (refl, q, refl)))
          (λ e. refl)

expire_or_ping-TurnsWell :
    (r : Round) (buffer : List ℕ) (s : MqttConnectionState)
    → IsQuiet r s
    → TurnsWell r buffer s (expire_or_ping r buffer s)
unfolding expire_or_ping expire mark_failed take_carrier
expire_or_ping-TurnsWell r buffer s q =
    if-TurnsWell r buffer s s.ping_response_pending _ _ (λ e. (inl refl, refl))
      (λ e. write_ping-TurnsWell r buffer s q)

read_chunk-TurnsWell :
    (r : Round) (wait : Option ℕ) (c : CarrierReadChunk) (buffer : List ℕ) (s : MqttConnectionState)
    → r.chunk ≡ c
    → is_due (next_keep_alive_wait r.first_look s) ≡ false
    → TurnsWell r buffer s (read_chunk r wait c buffer s)
unfolding read_chunk mark_closed note_packet_activity
read_chunk-TurnsWell r wait (data_chunk bytes) buffer s e d =
    (refl, refl, inr (bytes, e, d, refl, refl))
read_chunk-TurnsWell r none timed_out buffer s e d = refl
read_chunk-TurnsWell r (some wait) timed_out buffer s e d =
    expire_or_ping-TurnsWell r buffer s (inr e)
read_chunk-TurnsWell r wait closed_chunk buffer s e d = (inr (refl, e), refl)
read_chunk-TurnsWell r wait read_error buffer s e d = refl

turn-TurnsWell :
    (r : Round) (buffer : List ℕ) (s : MqttConnectionState) → TurnsWell r buffer s (turn r buffer s)
unfolding turn
turn-TurnsWell r buffer s =
    if-TurnsWell r buffer s (is_due (next_keep_alive_wait r.first_look s)) _ _
      (λ due. expire_or_ping-TurnsWell r buffer s (inl due))
      (λ idle.
        read_chunk-TurnsWell r (next_keep_alive_wait r.second_look s) r.chunk buffer s refl idle)

-- What the reading of a connection that starts with the buffer comes to.
abbrev pub ReadsWell : List Round → List ℕ → MqttConnectionState → ReadResult → Type 0
ReadsWell rounds buffer s (packet found s') =
    (arrived : List ℕ) × (rest : List Round) × (consumed : ℕ) × Arrived rounds s arrived rest
    × (decode_packet (buffer ++ arrived) ≡ ok (some (found, consumed)))
    × (s'.pending_read_buffer ≡ drop consumed (buffer ++ arrived))
    × (s'.phase ≡ s.phase)
ReadsWell rounds buffer s (ended s') =
    (arrived : List ℕ) × (r : Round) × (rest : List Round) × Arrived rounds s arrived (r ∷ rest)
    × (decode_packet (buffer ++ arrived) ≡ ok none)
    × (s'.pending_read_buffer ≡ buffer ++ arrived)
    × IsOver r s'.phase
ReadsWell rounds buffer s (refused e s') =
    (s'.pending_read_buffer ≡ s.pending_read_buffer) × (s'.phase ≡ s.phase)
ReadsWell rounds buffer s panicked = ⊥
ReadsWell rounds buffer s (waiting buffer' s') =
    (arrived : List ℕ) × Arrived rounds s arrived []
    × (decode_packet (buffer ++ arrived) ≡ ok none)
    × (buffer' ≡ buffer ++ arrived)
    × (s'.phase ≡ s.phase)

decoded-ReadsWell :
    (rounds : List Round) (buffer : List ℕ) (s : MqttConnectionState)
    (m : Outcome CodecError (Option (MqttIncomingPacket × ℕ))) (otherwise : ReadResult)
    → decode_packet buffer ≡ m
    → (m ≡ ok none → ReadsWell rounds buffer s otherwise)
    → ReadsWell rounds buffer s (on_decoded m buffer s otherwise)
unfolding on_decoded
decoded-ReadsWell rounds buffer s (ok (some (found, consumed))) otherwise e h = (
  [],
  rounds,
  consumed,
  nothing,
  ap decode_packet (append-nil buffer) ∙ e,
  ap (drop consumed) (sym (append-nil buffer)),
  refl,
)
decoded-ReadsWell rounds buffer s (ok none) otherwise e h = h refl
decoded-ReadsWell rounds buffer s (err x) otherwise e h = (refl, refl)
decoded-ReadsWell rounds buffer s panic otherwise e h =
    absurd
      (Ensures-ne-panic (IsFrame buffer) (decode_packet buffer) (decode_packet-IsFrame buffer) e)

-- What holds from a later turn on holds from this one on, with what this turn added.
shifted-ReadsWell :
    (r : Round) (rounds : List Round) (buffer added buffer' : List ℕ) (s s' : MqttConnectionState)
    (result : ReadResult)
    → buffer' ≡ buffer ++ added
    → ((more : List ℕ) (rest : List Round)
        → Arrived rounds s' more rest
        → Arrived (r ∷ rounds) s (added ++ more) rest)
    → s'.phase ≡ s.phase
    → s'.pending_read_buffer ≡ s.pending_read_buffer
    → ReadsWell rounds buffer' s' result
    → ReadsWell (r ∷ rounds) buffer s result
shifted-ReadsWell r rounds buffer added buffer' s s' (packet found t) e k p q
      (arrived, rest, consumed, a, d, b, f) =
    let joined : buffer' ++ arrived ≡ buffer ++ (added ++ arrived) =
      ap (λ x. x ++ arrived) e ∙ append_assoc buffer added arrived in
    (
      added ++ arrived,
      rest,
      consumed,
      k arrived rest a,
      sym (ap decode_packet joined) ∙ d,
      b ∙ ap (drop consumed) joined,
      f ∙ p,
    )
shifted-ReadsWell r rounds buffer added buffer' s s' (ended t) e k p q
      (arrived, last, rest, a, d, b, o) =
    let joined : buffer' ++ arrived ≡ buffer ++ (added ++ arrived) =
      ap (λ x. x ++ arrived) e ∙ append_assoc buffer added arrived in
    (
      added ++ arrived,
      last,
      rest,
      k arrived (last ∷ rest) a,
      sym (ap decode_packet joined) ∙ d,
      b ∙ joined,
      o,
    )
shifted-ReadsWell r rounds buffer added buffer' s s' (refused x t) e k p q (b, f) = (b ∙ q, f ∙ p)
shifted-ReadsWell r rounds buffer added buffer' s s' panicked e k p q h = h
shifted-ReadsWell r rounds buffer added buffer' s s' (waiting b t) e k p q (arrived, a, d, c, f) =
    let joined : buffer' ++ arrived ≡ buffer ++ (added ++ arrived) =
      ap (λ x. x ++ arrived) e ∙ append_assoc buffer added arrived in
    (added ++ arrived, k arrived [] a, sym (ap decode_packet joined) ∙ d, c ∙ joined, f ∙ p)

turned-ReadsWell :
    (r : Round) (rounds : List Round) (buffer : List ℕ) (s : MqttConnectionState) (t : Turn)
    (again : List ℕ → MqttConnectionState → ReadResult)
    → decode_packet buffer ≡ ok none
    → TurnsWell r buffer s t
    → ((b : List ℕ) (s' : MqttConnectionState) → ReadsWell rounds b s' (again b s'))
    → ReadsWell (r ∷ rounds) buffer s (after_turn t again)
unfolding after_turn
turned-ReadsWell r rounds buffer s (continues b s') again d (p, q, inl (e, quiet, next)) h =
    shifted-ReadsWell r rounds buffer [] b s s' (again b s') (e ∙ sym (append-nil buffer))
      (λ more rest a. pinged quiet (subst (λ t. Arrived rounds t more rest) next a)) p q (h b s')
turned-ReadsWell r rounds buffer s (continues b s') again d (p, q, inr (bytes, c, idle, next, e))
      h =
    shifted-ReadsWell r rounds buffer bytes b s s' (again b s') e
      (λ more rest a. chunk bytes c idle (subst (λ t. Arrived rounds t more rest) next a)) p q
      (h b s')
turned-ReadsWell r rounds buffer s (finishes (ended s')) again d (o, b) h = (
  [],
  r,
  rounds,
  nothing,
  ap decode_packet (append-nil buffer) ∙ d,
  b ∙ sym (append-nil buffer),
  o,
)
turned-ReadsWell r rounds buffer s (finishes (refused x s')) again d e h =
    (ap (λ t. t.pending_read_buffer) e, ap (λ t. t.phase) e)
turned-ReadsWell r rounds buffer s (finishes (packet x s')) again d e h = absurd e
turned-ReadsWell r rounds buffer s (finishes panicked) again d e h = absurd e
turned-ReadsWell r rounds buffer s (finishes (waiting b s')) again d e h = absurd e

read_loop-ReadsWell :
    (rounds : List Round) (buffer : List ℕ) (s : MqttConnectionState)
    → ReadsWell rounds buffer s (read_loop rounds buffer s)
unfolding read_loop
read_loop-ReadsWell [] buffer s =
    decoded-ReadsWell [] buffer s (decode_packet buffer) (waiting buffer s) refl
      (λ d. ([], nothing, ap decode_packet (append-nil buffer) ∙ d, sym (append-nil buffer), refl))
read_loop-ReadsWell (r ∷ rounds) buffer s =
    decoded-ReadsWell (r ∷ rounds) buffer s (decode_packet buffer)
      (after_turn (turn r buffer s) (read_loop rounds)) refl
      (λ d.
        turned-ReadsWell r rounds buffer s (turn r buffer s) (read_loop rounds) d
          (turn-TurnsWell r buffer s) (read_loop-ReadsWell rounds))

-- Reading the next packet of a connection with a carrier, whatever the clock and the carrier do: a
-- packet is what the decoder finds in the pending bytes with every chunk that arrived in the rounds
-- before, the bytes behind it are kept for the next call and the phase stays; the reading ends without a
-- packet only with the connection failed, or closed in a round that finds the carrier closed, and then
-- the pending bytes with every chunk of the rounds before are kept, which decode to no packet; when all
-- rounds are over it is waiting with every chunk of them; a round adds no chunk to those only if the
-- keep-alive is due in it or its read times out; an error leaves the phase as it was and nothing
-- pending; and there is no panic.
pub read_next_packet-ReadsWell :
    (rounds : List Round) (s : MqttConnectionState) {carrier : MqttCarrierAttachment}
    → s.carrier ≡ some carrier
    → ReadsWell rounds s.pending_read_buffer
        (record s { pending_read_buffer = [] })
        (read_next_packet rounds s)
unfolding read_next_packet
read_next_packet-ReadsWell rounds s e =
    subst
      (λ c.
        ReadsWell rounds s.pending_read_buffer (record s { pending_read_buffer = [] })
          (elim c [
            | none ↦ refused no_carrier s
            | some carrier ↦
                read_loop rounds s.pending_read_buffer (record s { pending_read_buffer = [] })
          ]))
      (sym e)
      (read_loop-ReadsWell rounds s.pending_read_buffer (record s { pending_read_buffer = [] }))
