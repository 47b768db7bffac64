-- ===== src/Mqtt/Session/PacketIds.antt =====
-- model.rs: the packet ids that `next_packet_id` hands out.
use pd_edge.Common.{
  ℕ, zero, suc, ◌+◌, ◌-◌, ◌%◌, ◌≤◌, ◌<◌, ◌≡◌, ◌↔◌, List, [], ◌∷◌, arith, get_elem?, some, ap, ◌∙◌,
}
use pd_edge.Mqtt.Session.{
  MqttConnectionState, take_packet_id, current_packet_id, following_packet_id,
}

-- The ids of `n` calls, and the state behind them.
unfoldable pub take_packet_ids : ℕ → MqttConnectionState → List ℕ
take_packet_ids zero s = []
take_packet_ids (suc n) s = let (id, s') = take_packet_id s in id ∷ take_packet_ids n s'

abbrev pub IsPacketId : ℕ → Type 0
IsPacketId id = (1 ≤ id) × (id ≤ 65535)

-- The `i`th id in the order that starts at `first` and returns from 65535 to 1.
abbrev pub id_after : (first i : ℕ) → ℕ
id_after first i = (first - 1 + i) % 65535 + 1

-- The ids of a run of calls go round: the `i`th is the first one plus `i`, and 1 follows 65535.
take_packet_ids-id_after :
    (n i : ℕ) (s : MqttConnectionState)
    → 1 ≤ s.next_packet_id
    → s.next_packet_id ≤ 65535
    → i < n
    → get_elem? (take_packet_ids n s) i ≡ some (id_after s.next_packet_id i)
unfolding take_packet_ids take_packet_id current_packet_id following_packet_id
take_packet_ids-id_after zero i s lo hi h = absurd (omega arith)
take_packet_ids-id_after (suc n) zero s lo hi h = ground arith
take_packet_ids-id_after (suc n) (suc i) s lo hi h =
    let id = s.next_packet_id in
    let id' = following_packet_id (current_packet_id id) in
    take_packet_ids-id_after n i (record s { next_packet_id = id' }) (ground arith) (ground arith)
      (omega arith)
    ∙ ap some (ground arith)

-- In a run of at most 65535 calls on a connection whose next id lies in 1 to 65535, each id that is
-- handed out lies in 1 to 65535, and two of them are the same only if they are from the same call.
pub take_packet_ids_distinct :
    (n i j : ℕ) (s : MqttConnectionState)
    → 1 ≤ s.next_packet_id
    → s.next_packet_id ≤ 65535
    → n ≤ 65535
    → i < n
    → j < n
    → (a : ℕ) × (b : ℕ) × (get_elem? (take_packet_ids n s) i ≡ some a)
      × (get_elem? (take_packet_ids n s) j ≡ some b)
      × IsPacketId a
      × IsPacketId b
      × (a ≡ b ↔ i ≡ j)
take_packet_ids_distinct n i j s lo hi small h k = (
  id_after s.next_packet_id i,
  id_after s.next_packet_id j,
  take_packet_ids-id_after n i s lo hi h,
  take_packet_ids-id_after n j s lo hi k,
  omega arith,
  omega arith,
  (λ e. omega arith, λ e. ap (id_after s.next_packet_id) e),
)
