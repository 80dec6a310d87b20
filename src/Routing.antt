-- ===== src/Routing.antt =====
-- Component.h, Routing.h and Routing.cpp, over any `SnetServiceMessage`. What a packet is handed to
-- is a value that the caller carries out.
pub mod Table
use snet_gateway.Prelude.{
  ℕ, Bool, true, false, ◌&&◌, ◌||◌, Option, none, some, List, Bytes, ltb, leb, ◌==◌, if◌then◌else◌,
}
use snet_gateway.Prelude.Result.{Result, ok, check, ◌>>=◌, ◌>>◌}
use snet_gateway.External.Message.{SnetServiceMessage}

-- `E_COMPONENT`
pub data Component : Type 0 where
  unknown hdlcd gwclients : Component

-- The two collections are shared pointers: set or empty.
pub record Routing : Type 0 where
  pub has_clients : Bool
  pub has_hdlcd : Bool
  pub trace : Bool
  pub reliable : Bool

unfoldable pub construct : Bool → Bool → Bool → Bool → Result Routing
construct has_clients has_hdlcd trace reliable = do
  check has_clients
  check has_hdlcd
  ok (record {
    has_clients = has_clients;
    has_hdlcd = has_hdlcd;
    trace = trace;
    reliable = reliable;
  })

unfoldable pub system_shutdown : Routing → Routing
system_shutdown r = record r { has_clients = false; has_hdlcd = false }

abbrev is_gwclients : Component → Bool
is_gwclients gwclients = true
is_gwclients _ = false

-- `PerformRouting`
unfoldable pub perform_routing : Component → ℕ → ℕ → Component
perform_routing src_component src_ssa dst_ssa =
    if dst_ssa == 0x3FFC || dst_ssa == 0x4000 && leb 0x4000 src_ssa
    then unknown
    else if ltb dst_ssa 0x4000 || dst_ssa == 0xFFFE && is_gwclients src_component
    then hdlcd
    else gwclients

module _ (m : SnetServiceMessage) where
  open m use {Message, src_ssa, dst_ssa, set_on_air_arq, serialize}

  -- Where a packet goes: the arguments of `HdlcdPacketData::CreatePacket` for the HDLC daemons, or
  -- the message for the gateway clients.
  pub data Forward : Type 0 where
    nowhere : Forward
    to_hdlcd : Bytes → Bool → Forward
    to_clients : Message → Forward

  -- The message that is printed on the way, if any.
  pub record Routed : Type 0 where
    pub printed : Option Message
    pub forward : Forward

  forward_hdlcd : Routing → Message → Routed
  forward_hdlcd r x = record {
    printed = if r.trace then some x else none;
    forward = if r.has_hdlcd then to_hdlcd (serialize x) true else nowhere;
  }

  forward_clients : Routing → Message → Routed
  forward_clients r x = record {
    printed = if r.trace then some x else none;
    forward = if r.has_clients then to_clients x else nowhere;
  }

  route_to : Component → Routing → Message → Routed
  unfolding forward_hdlcd forward_clients
  route_to unknown r x = record { printed = none; forward = nowhere }
  route_to hdlcd r x = forward_hdlcd r (if r.reliable then set_on_air_arq true x else x)
  route_to gwclients r x = forward_clients r x

  -- `RouteSnetPacket`
  unfoldable pub route_snet_packet : Routing → Message → Component → Routed
  unfolding route_to
  route_snet_packet r x src_component =
      route_to (perform_routing src_component (src_ssa x) (dst_ssa x)) r x
