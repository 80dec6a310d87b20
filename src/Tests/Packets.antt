-- ===== src/Tests/Packets.antt =====
-- The ways of packets through the gateway, with one client and two HDLC daemons.
use snet_gateway.Prelude.{All₂, false, Bytes, inl, ◌≡◌, refl, true, some, [], ◌∷◌, arith}
use snet_gateway.Prelude.Result.{ok}
use snet_gateway.Protocol.Delivery
use snet_gateway.Gateway as Whole
use snet_gateway.Gateway.{Gateway, Event, accepted, frame_read, client_closed, data_read, completed}
use snet_gateway.AddressPool
use snet_gateway.Protocol.{FramingMode, Sent, length_prefixed}
use snet_gateway.Handler.{GatewayAccessServerHandler}
use snet_gateway.Collection.Identity.{find, replace}
use snet_gateway.External.FrameStream.{plain_stream}
use snet_gateway.Protocol.Factories.{gateway_class, mask_first_byte, frame_factories}
use snet_gateway.Protocol.Stream.{written}
use snet_gateway.Gateway.Wire
use snet_gateway.Collection.Invariant.{IsValid}
use snet_gateway.Collection.Sending.{Serves}
use snet_gateway.Gateway.Invariant.{IsRunning}
use snet_gateway.Gateway.Exchange
use snet_gateway.Gateway.Subscribing
use snet_gateway.Handler.Subscribing.{Confirms, after_request}
use snet_gateway.PublishSubscribe.{PublishSubscribeService}
use snet_gateway.Tests.Instances.{Packet, packets, packets-laws, packets-sizes, serialize, recorder}
use snet_gateway.Tests.Gateway.{daemon, connected, for_client, client, client_found, new_handler}
use snet_gateway.Tests.Program.{connected-IsRunning}

-- The client after it has read a length-based frame.
abbrev pub length_client : GatewayAccessServerHandler recorder
length_client = record client {
  protocol = record client.protocol { framing_mode = length_prefixed };
}

packet_exchanged_example :
    let l = (AddressPool.obtain_address_lease AddressPool.construct).0 in
    let y = record for_client { src_ssa = AddressPool.get_address l } in
    (g' : Gateway recorder packets daemon) × (Whole.on_frame recorder packets daemon 0
        (Delivery.length_frame (serialize for_client))
        connected
      ≡ ok g')
    × All₂
        (Serves recorder packets y)
        (replace recorder length_client connected.clients.handlers)
        g'.clients.handlers
    × IsValid recorder g'.clients
    × (g'.daemons ≡ connected.daemons)
packet_exchanged_example =
    Exchange.packet_exchanged recorder packets daemon packets-laws connected 0 client
      (AddressPool.obtain_address_lease AddressPool.construct).0
      (Delivery.length_frame (serialize for_client)) (serialize for_client) for_client
      length_client.protocol client_found refl
      (Delivery.on_frame_length recorder client.protocol [] (serialize for_client) (λ k. cc) refl)
      refl (omega arith) (omega arith) (omega arith) refl (omega arith) connected-IsRunning.valid

-- The client asks for the service 0x10.
abbrev pub request : Packet
request = record {
  src_service_id = 0xB0;
  dst_service_id = 0xB0;
  token = 0x10;
  src_ssa = 0x4001;
  dst_ssa = 0x4000;
  on_air_arq = false;
  payload = 0x10 ∷ [];
}

subscription_confirmed_example :
    let l = (AddressPool.obtain_address_lease AddressPool.construct).0 in
    (sent : Sent recorder) × (s : PublishSubscribeService) × (g' : Gateway recorder packets daemon)
    × (Whole.on_frame recorder packets daemon 0
          (Delivery.length_frame (serialize request))
          connected
        ≡ ok g')
    × Confirms recorder packets length_client l 0x10 true sent s
    × (g'.clients.handlers
        ≡ replace recorder
            (after_request recorder packets length_client sent s)
            connected.clients.handlers)
    × (g'.daemons ≡ connected.daemons)
subscription_confirmed_example =
    Subscribing.subscription_confirmed recorder packets daemon packets-laws packets-sizes connected
      0 client (AddressPool.obtain_address_lease AddressPool.construct).0
      (Delivery.length_frame (serialize request)) (serialize request) request length_client.protocol
      0x10 true client_found refl
      (Delivery.on_frame_length recorder client.protocol [] (serialize request) (λ k. cc) refl) refl
      (record { dst_ssa = refl; dst_service_id = refl; payload = refl }) refl
      connected-IsRunning.valid

-- The client has chosen a mode.
abbrev pub in_mode : FramingMode → GatewayAccessServerHandler recorder
in_mode n = record client { protocol = record client.protocol { framing_mode = n } }

abbrev pub ready : FramingMode → Gateway recorder packets daemon
ready n = record connected { clients = record connected.clients { handlers = in_mode n ∷ [] } }

pub ready-IsRunning : (n : FramingMode) → IsRunning recorder packets daemon (ready n)
ready-IsRunning n =
    let v = connected-IsRunning.valid in
    record {
      valid = record {
        all_open = (
          record {
            registered = v.all_open.0.registered;
            has_collection = v.all_open.0.has_collection;
            lease = v.all_open.0.lease;
            endpoint = v.all_open.0.endpoint;
            on_data = v.all_open.0.on_data;
            on_closed = v.all_open.0.on_closed;
          },
          tt,
        );
        identities = v.identities;
        pool = v.pool;
      };
      has_routing = connected-IsRunning.has_routing;
      daemons = connected-IsRunning.daemons;
    }

pub ready_found : (n : FramingMode) → find recorder 0 (ready n).clients.handlers ≡ some (in_mode n)
unfolding find
ready_found n = refl

pub client_address :
    0x4001 ≡ AddressPool.get_address (AddressPool.obtain_address_lease AddressPool.construct).0
unfolding AddressPool.obtain_address_lease AddressPool.construct
client_address = refl

packet_on_wire_example :
    let frame = Delivery.length_frame (serialize for_client) in
    let s = plain_stream gateway_class mask_first_byte frame_factories in
    (g' : Gateway recorder packets daemon) × (h' : GatewayAccessServerHandler recorder)
    × (bs : Bytes) × (Whole.on_data recorder packets daemon 1
          (serialize for_client)
          (ready length_prefixed)
        ≡ ok g')
    × (find recorder 0 g'.clients.handlers ≡ some h')
    × (h'.protocol.frame_endpoint ≡ some (frame ∷ []))
    × (written (frame ∷ []) ≡ ok bs)
    × (s.frames bs ≡ frame ∷ [])
packet_on_wire_example =
    Wire.packet_on_wire recorder packets daemon
      (plain_stream gateway_class mask_first_byte frame_factories) (ready length_prefixed) 1
      new_handler (serialize for_client) for_client 0 length_client
      (AddressPool.obtain_address_lease AddressPool.construct).0 []
      (Delivery.length_frame (serialize for_client)) refl refl refl refl (omega arith) (omega arith)
      (ready-IsRunning length_prefixed).valid (ready_found length_prefixed) refl refl refl
      (inl (omega arith, omega arith, client_address))
