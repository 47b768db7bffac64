-- ===== src/Mqtt/Client/Waiting/Answered.antt =====
-- upstream.rs: what a wait does with the packets that come before its end.
use pd_edge.Common.{
  ℕ, List, [], ◌∷◌, ◌++◌, Option, none, some, Bool, true, false, ◌≡◌, refl, sym, ap, ◌∙◌,
}
use pd_edge.Common.Lists.{append_nil, append_assoc}
use pd_edge.Mqtt.Codec.{MqttIncomingPacket}
use pd_edge.Mqtt.Session.{MqttConnectionState}
use pd_edge.Mqtt.Client.{
  ReadError, ReadResult, packet, ended, refused, panicked, waiting, read_next_packet,
}
use pd_edge.Mqtt.Client.Waiting.{
  Call, Client, WaitError, unread, Handled, handled, unhandled, handle_unsolicited_packet, Waited,
  accepted, rejected, connection_over, wait_failed, wait_panicked, still_waiting, after_handled,
  judged, on_read, wait_loop, puback_verdict, suback_verdict, unsuback_verdict, wait_for_puback,
  wait_for_suback, wait_for_unsuback,
}
use pd_edge.Common.{◌↔◌}
use pd_edge.Mqtt.Client.Waiting.Verdicts.{
  IsPuback, IsSuback, IsUnsuback, puback_verdict_iff, suback_verdict_iff, unsuback_verdict_iff,
}
use pd_edge.Mqtt.Client.Waiting.Handling.{
  event_of, ack_of, events_of, acks_of, Adds, handle_unsolicited_packet-Adds,
}
use pd_edge.Mqtt.Client.Waiting.Queue.{Keeps, read_next_packet-Keeps}

unfoldable pub client_of : Waited → Client
client_of (accepted c) = c
client_of (rejected c) = c
client_of (connection_over c) = c
client_of (wait_failed e c) = c
client_of (wait_panicked c) = c
client_of (still_waiting c) = c

module _ (verdict : MqttIncomingPacket → Option Bool) where
  -- The calls that read the packets of the list, none of which is the one waited for, and deal with them,
  -- one after the other, from a client to the one behind them; the last list is the calls that are left.
  pub data Deals : List Call → Client → List MqttIncomingPacket → List Call → Client → Type 0 where
    deals_none : {calls : List Call} → {c : Client} → Deals calls c [] calls c
    deals_one :
        {call : Call}
        → {calls rest : List Call} → {c d e : Client} → {p : MqttIncomingPacket}
        → {ps : List MqttIncomingPacket} → {s : MqttConnectionState}
        → read_next_packet call.rounds c.state ≡ packet p s
        → verdict p ≡ none
        → handle_unsolicited_packet call p (record c { state = s }) ≡ handled d
        → Deals calls d ps rest e
        → Deals (call ∷ calls) c (p ∷ ps) rest e

  -- How a wait ends with the calls that are left, at a client.
  pub data Ends : List Call → Client → Waited → Type 0 where
    out_of_calls : {c : Client} → Ends [] c (still_waiting c)
    answered_yes :
        {call : Call}
        → {rest : List Call} → {c : Client} → {p : MqttIncomingPacket} → {s : MqttConnectionState}
        → read_next_packet call.rounds c.state ≡ packet p s
        → verdict p ≡ some true
        → Ends (call ∷ rest) c (accepted (record c { state = s }))
    answered_no :
        {call : Call}
        → {rest : List Call} → {c : Client} → {p : MqttIncomingPacket} → {s : MqttConnectionState}
        → read_next_packet call.rounds c.state ≡ packet p s
        → verdict p ≡ some false
        → Ends (call ∷ rest) c (rejected (record c { state = s }))
    not_handled :
        {call : Call}
        → {rest : List Call} → {c d : Client} → {p : MqttIncomingPacket} → {s : MqttConnectionState}
        → {e : WaitError} → read_next_packet call.rounds c.state ≡ packet p s
        → verdict p ≡ none
        → handle_unsolicited_packet call p (record c { state = s }) ≡ unhandled e d
        → Ends (call ∷ rest) c (wait_failed e d)
    over :
        {call : Call}
        → {rest : List Call} → {c : Client} → {s : MqttConnectionState}
        → read_next_packet call.rounds c.state ≡ ended s
        → Ends (call ∷ rest) c (connection_over (record c { state = s }))
    not_read :
        {call : Call}
        → {rest : List Call} → {c : Client} → {s : MqttConnectionState} → {e : ReadError}
        → read_next_packet call.rounds c.state ≡ refused e s
        → Ends (call ∷ rest) c (wait_failed (unread e) (record c { state = s }))
    read_panicked :
        {call : Call}
        → {rest : List Call} → {c : Client} → read_next_packet call.rounds c.state ≡ panicked
        → Ends (call ∷ rest) c (wait_panicked c)
    out_of_rounds :
        {call : Call}
        → {rest : List Call} → {c : Client} → {s : MqttConnectionState} → {buffer : List ℕ}
        → read_next_packet call.rounds c.state ≡ waiting buffer s
        → Ends (call ∷ rest) c (still_waiting (record c { state = s }))

  -- A wait from a client: the packets it deals with are the ones that its reads return one after the
  -- other; behind them it ends as it should; and their events have been added to the queue, and the
  -- acknowledgements they ask for written, all in the order of the packets, and nothing else.
  pub Answered : List Call → Client → Waited → Type 0
  Answered calls c w =
      (ps : List MqttIncomingPacket) × (rest : List Call) × (e : Client) × Deals calls c ps rest e
      × Ends rest e w
      × ((client_of w).state.pending_events ≡ c.state.pending_events ++ events_of ps)
      × ((client_of w).sent ≡ c.sent ++ acks_of ps)

  -- The wait ends at its first call.
  here-Answered :
      (calls : List Call) (c : Client) (w : Waited)
      → Ends calls c w
      → (client_of w).state.pending_events ≡ c.state.pending_events
      → (client_of w).sent ≡ c.sent
      → Answered calls c w
  unfolding Answered events_of acks_of
  here-Answered calls c w ends same sent = (
    [],
    calls,
    c,
    deals_none,
    ends,
    same ∙ sym (append_nil c.state.pending_events),
    sent ∙ sym (append_nil c.sent),
  )

  -- One packet more in front.
  one-Answered :
      (call : Call) (calls : List Call) (c d : Client) (w : Waited) (p : MqttIncomingPacket)
      (s : MqttConnectionState)
      → read_next_packet call.rounds c.state ≡ packet p s
      → s.pending_events ≡ c.state.pending_events
      → verdict p ≡ none
      → handle_unsolicited_packet call p (record c { state = s }) ≡ handled d
      → Adds (record c { state = s }) (event_of p) (ack_of p) (handled d)
      → Answered calls d w
      → Answered (call ∷ calls) c w
  unfolding Answered events_of acks_of
  one-Answered call calls c d w p s read keeps other dealt (events, sent)
        (ps, rest, e, deals, ends, more, acks) =
      (
        p ∷ ps,
        rest,
        e,
        deals_one read other dealt deals,
        ends,
        more
            ∙ (ap (λ es. es ++ events_of ps) (events ∙ ap (λ es. es ++ event_of p) keeps)
                ∙ append_assoc c.state.pending_events (event_of p) (events_of ps)),
        acks ∙ (ap (λ a. a ++ acks_of ps) sent ∙ append_assoc c.sent (ack_of p) (acks_of ps)),
      )

  handled-Answered :
      (call : Call) (calls : List Call) (c : Client) (p : MqttIncomingPacket)
      (s : MqttConnectionState) (h : Handled)
      → read_next_packet call.rounds c.state ≡ packet p s
      → s.pending_events ≡ c.state.pending_events
      → verdict p ≡ none
      → handle_unsolicited_packet call p (record c { state = s }) ≡ h
      → Adds (record c { state = s }) (event_of p) (ack_of p) h
      → ((d : Client) → Answered calls d (wait_loop verdict calls d))
      → Answered (call ∷ calls) c (after_handled h (wait_loop verdict calls))
  unfolding after_handled client_of
  handled-Answered call calls c p s (handled d) read keeps other dealt adds later =
      one-Answered call calls c d (wait_loop verdict calls d) p s read keeps other dealt adds
        (later d)
  handled-Answered call calls c p s (unhandled e d) read keeps other dealt (events, sent) later =
      here-Answered (call ∷ calls) c (wait_failed e d) (not_handled read other dealt)
        (events ∙ keeps) sent

  judged-Answered :
      (call : Call) (calls : List Call) (c : Client) (p : MqttIncomingPacket)
      (s : MqttConnectionState) (v : Option Bool)
      → read_next_packet call.rounds c.state ≡ packet p s
      → s.pending_events ≡ c.state.pending_events
      → verdict p ≡ v
      → ((d : Client) → Answered calls d (wait_loop verdict calls d))
      → Answered (call ∷ calls) c (
          judged v
            (record c { state = s })
            (after_handled
              (handle_unsolicited_packet call p (record c { state = s }))
              (wait_loop verdict calls)))
  unfolding judged client_of
  judged-Answered call calls c p s (some true) read keeps says later =
      here-Answered (call ∷ calls) c _ (answered_yes read says) keeps refl
  judged-Answered call calls c p s (some false) read keeps says later =
      here-Answered (call ∷ calls) c _ (answered_no read says) keeps refl
  judged-Answered call calls c p s none read keeps says later =
      handled-Answered call calls c p s _ read keeps says refl
        (handle_unsolicited_packet-Adds call p (record c { state = s })) later

  on_read-Answered :
      (call : Call) (calls : List Call) (r : ReadResult) (c : Client)
      → read_next_packet call.rounds c.state ≡ r
      → Keeps c.state.pending_events r
      → ((d : Client) → Answered calls d (wait_loop verdict calls d))
      → Answered (call ∷ calls) c (on_read verdict call r c (wait_loop verdict calls))
  unfolding on_read client_of
  on_read-Answered call calls (packet p s) c read keeps later =
      judged-Answered call calls c p s (verdict p) read keeps refl later
  on_read-Answered call calls (ended s) c read keeps later =
      here-Answered (call ∷ calls) c _ (over read) keeps refl
  on_read-Answered call calls (refused e s) c read keeps later =
      here-Answered (call ∷ calls) c _ (not_read read) keeps refl
  on_read-Answered call calls panicked c read keeps later =
      here-Answered (call ∷ calls) c _ (read_panicked read) refl refl
  on_read-Answered call calls (waiting buffer s) c read keeps later =
      here-Answered (call ∷ calls) c _ (out_of_rounds read) keeps refl

  wait_loop-Answered :
      (calls : List Call) (c : Client) → Answered calls c (wait_loop verdict calls c)
  unfolding wait_loop client_of
  wait_loop-Answered [] c = here-Answered [] c (still_waiting c) out_of_calls refl refl
  wait_loop-Answered (call ∷ calls) c =
      on_read-Answered call calls (read_next_packet call.rounds c.state) c refl
        (read_next_packet-Keeps call.rounds c.state) (wait_loop-Answered calls)

-- A wait for a PUBACK, a SUBACK or an UNSUBACK deals with the packets that its reads return one after the
-- other, up to the first that is the one waited for, a read without a packet or a packet that it cannot
-- deal with, and ends as that says; it goes on only while calls are left. When it ends, of the packets
-- dealt with each PUBLISH and DISCONNECT has been added to the queue as its event and each PUBLISH of QoS
-- 1 has had its PUBACK written, both in the order in which they were read, and nothing else was queued or
-- written. The packet waited for is the one of that kind with the expected packet id; it accepts exactly
-- if each of its reason codes is below 128.
pub waits_answer :
    (expected : ℕ) (calls : List Call) (c : Client) (p : MqttIncomingPacket) (says : Bool)
    → Answered (puback_verdict expected) calls c (wait_for_puback expected calls c)
      × Answered (suback_verdict expected) calls c (wait_for_suback expected calls c)
      × Answered (unsuback_verdict expected) calls c (wait_for_unsuback expected calls c)
      × (puback_verdict expected p ≡ some says ↔ IsPuback expected p says)
      × (suback_verdict expected p ≡ some says ↔ IsSuback expected p says)
      × (unsuback_verdict expected p ≡ some says ↔ IsUnsuback expected p says)
unfolding wait_for_puback wait_for_suback wait_for_unsuback
waits_answer expected calls c p says = (
  wait_loop-Answered (puback_verdict expected) calls c,
  wait_loop-Answered (suback_verdict expected) calls c,
  wait_loop-Answered (unsuback_verdict expected) calls c,
  puback_verdict_iff expected p says,
  suback_verdict_iff expected p says,
  unsuback_verdict_iff expected p says,
)
