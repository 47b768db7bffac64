-- ===== src/Transport/Sockets.antt =====
-- state.rs: `SocketAddressState`, the addresses a TCP or UDP socket carries.
use pd_edge.Common.{
  ◌≡◌, Option, none, some, Bool, true, false, List, [], if◌then◌else◌, is_empty, ℕ,
}
use pd_edge.Common.Bytes.{Text}
pub mod Tcp
pub mod Udp

pub record SocketTargetState : Type 0 where
  pub authority : Text
  pub host : Text
  pub port : ℕ

pub record SocketAddressState : Type 0 where
  pub present : Bool
  pub bind_address : Option Text
  pub target : Option SocketTargetState
  pub local_address : Option Text
  pub peer_address : Option Text
  pub failure_message : Option Text

abbrev pub default_addresses : SocketAddressState
default_addresses = record {
  present = false;
  bind_address = none;
  target = none;
  local_address = none;
  peer_address = none;
  failure_message = none;
}

unfoldable pub optional_value : Text → Option Text
optional_value value = if is_empty value then none else some value

unfoldable pub set_bind_address : Text → SocketAddressState → SocketAddressState
set_bind_address address c = record c {
  present = true;
  bind_address = optional_value address;
  local_address = none;
  failure_message = none;
}

unfoldable pub set_target : Text → Text → ℕ → SocketAddressState → SocketAddressState
set_target authority host port c = record c {
  present = true;
  target = some (record { authority = authority; host = host; port = port });
  peer_address = none;
  failure_message = none;
}

unfoldable pub mark_connected : Text → Text → SocketAddressState → SocketAddressState
mark_connected local_address peer_address c = record c {
  present = true;
  local_address = some local_address;
  peer_address = some peer_address;
  failure_message = none;
}

unfoldable pub mark_present : SocketAddressState → SocketAddressState
mark_present c = record c { present = true }

unfoldable pub clear_failure : SocketAddressState → SocketAddressState
clear_failure c = record c { failure_message = none }

unfoldable pub mark_failed : Text → SocketAddressState → SocketAddressState
mark_failed message c = record c { present = true; failure_message = some message }

unfoldable pub target_authority : SocketAddressState → Option Text
target_authority c = authority_of c.target
  where
    authority_of : Option SocketTargetState → Option Text
    authority_of none = none
    authority_of (some t) = some t.authority

-- The text of an optional value, empty where there is none.
unfoldable pub or_default : Option Text → Text
or_default none = []
or_default (some x) = x

unfoldable pub local_address_text : SocketAddressState → Text
local_address_text c = or_default c.local_address

-- The peer's address, else the target's authority, else nothing.
unfoldable pub peer_address_text : SocketAddressState → Text
peer_address_text c = known c.peer_address
  where
    known : Option Text → Text
    known (some peer) = peer
    known none = or_default (target_authority c)
