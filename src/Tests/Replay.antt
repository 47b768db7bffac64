-- ===== src/Tests/Replay.antt =====
-- state.rs: the theorem on a replayed prefix, at a concrete one.
use pd_edge.Common.{◌≡◌, ◌≤◌, ◌++◌, ℕ, List, [], ◌∷◌, length, arith}
use pd_edge.Transport.Replay.{
  Polled, ready, pending, ReplayPrefixedIo, poll_read, into_parts, poll_read_replays,
}

-- Two of three bytes are left, and the inner stream has none to offer.
abbrev two_left : ReplayPrefixedIo ℕ
two_left = record { prefix = 7 ∷ 8 ∷ 9 ∷ []; prefix_offset = 1; inner = 5 }

abbrev idle : ℕ → ℕ → Polled × ℕ
idle room stream = (pending, stream)

poll_read_replays_example :
    (bytes : List ℕ) × ((poll_read idle 1 two_left).0 ≡ ready bytes)
    × (bytes ++ (into_parts (poll_read idle 1 two_left).1).0 ≡ (into_parts two_left).0)
    × ((into_parts (poll_read idle 1 two_left).1).1 ≡ 5)
    × (1 ≤ length bytes)
    × (length bytes ≤ 1)
poll_read_replays_example = poll_read_replays idle 1 two_left (omega arith) (omega arith)
