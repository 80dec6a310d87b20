-- ===== src/Tests/Peers.antt =====
-- Two gateway clients, one of which sends a packet to the other, and a client that
-- asks for its address or sends to a sensor node.
use snet_gateway.Prelude.{◌≡◌, ◌∙◌, refl, some, [], ◌∷◌, arith, Bytes, inl, inr, map, true}
use snet_gateway.Prelude.Result.{ok, fault, assertion_failed}
use snet_gateway.AddressPool
use snet_gateway.AddressPool.{AddressLease}
use snet_gateway.External.FrameStream.{plain_stream}
use snet_gateway.Protocol.{GatewayAccessFrame, GatewayAccessProtocol, escaping, length_prefixed}
use snet_gateway.Protocol.Delivery
use snet_gateway.Protocol.Factories.{gateway_class, mask_first_byte, frame_factories}
use snet_gateway.Protocol.Stream.{written}
use snet_gateway.Handler.{GatewayAccessServerHandler}
use snet_gateway.Collection.Identity.{find, replace, find-replace_other}
use snet_gateway.Collection.Invariant
use snet_gateway.Collection.Invariant.{IsValid}
use snet_gateway.Gateway as Whole
use snet_gateway.Gateway.{Gateway, frame_read}
use snet_gateway.Gateway.Overload
use snet_gateway.Gateway.Assigning
use snet_gateway.AddressService.Replies.{IsReply}
use snet_gateway.Gateway.Uplink
use snet_gateway.Gateway.Relay
use snet_gateway.HdlcdCollection.Sending.{pointers}
use snet_gateway.Gateway.Peers
use snet_gateway.Tests.Services.{assignment_request, assignment_request-IsRequest}
use snet_gateway.Tests.Program.{connected-IsRunning}
use snet_gateway.Gateway.Invariant.{IsRunning}
use snet_gateway.Handler.Overload.{IsOverloaded}
use snet_gateway.Tests.Faults.{long_packet, length-zeros}
use snet_gateway.Gateway.Wire.{IsOnWire, data_frame}
use snet_gateway.Tests.Instances.{Packet, packets, packets-laws, packets-sizes, serialize, recorder}
use snet_gateway.Tests.Gateway.{
  daemon, for_sensor, with_client, new_handler, connected, client, client_found, for_client,
}
use snet_gateway.Tests.Packets.{in_mode, ready, ready-IsRunning, client_address}

-- A second client has come, without a framing mode yet.
abbrev pair : Gateway recorder packets daemon
pair = record (ready escaping) {
  clients = Invariant.after_accept recorder (ready escaping).clients [];
}

abbrev lease : AddressLease
lease = (AddressPool.obtain_address_lease (ready escaping).clients.address_pool).0

abbrev newcomer : GatewayAccessServerHandler recorder
newcomer = Invariant.accepted recorder 1 lease []

newcomer_found : find recorder 1 pair.clients.handlers ≡ some newcomer
unfolding find
newcomer_found = refl

first_found : find recorder 0 pair.clients.handlers ≡ some (in_mode escaping)
unfolding find
first_found = refl

pair-IsValid : IsValid recorder pair.clients
pair-IsValid =
    Invariant.accepted-IsValid recorder (ready escaping).clients [] (omega arith)
      (ready-IsRunning escaping).valid

abbrev from_newcomer : Packet
from_newcomer = record for_client { src_ssa = AddressPool.get_address lease }

client_to_client_example :
    let s = plain_stream gateway_class mask_first_byte frame_factories in
    let frame = Delivery.length_frame (serialize for_client) in
    (sent : Bytes) × (g' : Gateway recorder packets daemon) × (written (frame ∷ []) ≡ ok sent)
    × (Whole.run recorder packets daemon (map (frame_read 1) (s.frames sent)) pair ≡ ok g')
    × IsOnWire recorder s g'.clients.handlers 0 []
        (Delivery.escaped_frame (0x03 ∷ 0x02 ∷ serialize from_newcomer))
    × IsValid recorder g'.clients
    × (g'.daemons ≡ pair.daemons)
client_to_client_example =
    Peers.client_to_client recorder packets daemon packets-laws
      (plain_stream gateway_class mask_first_byte frame_factories) pair 1 0 newcomer
      (in_mode escaping) lease (AddressPool.obtain_address_lease AddressPool.construct).0
      length_prefixed (serialize for_client) for_client
      (Delivery.length_frame (serialize for_client))
      (Delivery.escaped_frame (0x03 ∷ 0x02 ∷ serialize from_newcomer)) [] pair-IsValid refl
      newcomer_found refl (inr refl) refl (omega arith) refl (omega arith) (omega arith)
      (omega arith) (omega arith) (omega arith) first_found refl refl refl
      (inl (omega arith, omega arith, client_address))

-- The newcomer sends a long packet, which does not fit into the mode of the other client.
abbrev long_from_newcomer : Packet
long_from_newcomer = record long_packet { src_ssa = AddressPool.get_address lease }

long_from_newcomer-IsOverloaded :
    IsOverloaded recorder packets long_from_newcomer (in_mode escaping)
long_from_newcomer-IsOverloaded = record {
  wants = λ l leased. inl (omega arith, omega arith, ground (arith, client_address, leased));
  chosen = λ k. cc;
  too_long = omega (arith, length-zeros 4083);
}

pair-IsRunning : IsRunning recorder packets daemon pair
pair-IsRunning =
    let v = ready-IsRunning escaping in
    record { valid = pair-IsValid; has_routing = v.has_routing; daemons = v.daemons }

abbrev newcomer_reads : GatewayAccessServerHandler recorder
newcomer_reads = record newcomer {
  protocol = record newcomer.protocol { framing_mode = length_prefixed };
}

still_found :
    find recorder 0 (replace recorder newcomer_reads pair.clients.handlers)
    ≡ some (in_mode escaping)
still_found =
    find-replace_other recorder 0 newcomer_reads pair.clients.handlers (λ k. omega arith)
    ∙ first_found

exchange_faults_example :
    Whole.handle recorder packets daemon
      (frame_read 1 (Delivery.length_frame (serialize long_packet)))
      pair
    ≡ fault assertion_failed
exchange_faults_example =
    (Overload.exchange_faults recorder packets daemon packets-laws pair 1 newcomer lease
        (Delivery.length_frame (serialize long_packet)) (serialize long_packet) long_packet
        newcomer_reads.protocol pair-IsRunning newcomer_found refl
        (Delivery.on_frame_length recorder newcomer.protocol [] (serialize long_packet) (λ k. cc)
          refl)
        refl (omega arith) (omega arith) (omega arith) refl).0
      0 (in_mode escaping) still_found long_from_newcomer-IsOverloaded

-- A new client asks for its address in an escaped frame.
address_assigned_example :
    let s = plain_stream gateway_class mask_first_byte frame_factories in
    let frame = Delivery.escaped_frame (0x03 ∷ 0x00 ∷ serialize assignment_request) in
    let acknowledgment = Delivery.escaped_frame (0x03 ∷ 0x01 ∷ 0x00 ∷ 0x00 ∷ []) in
    (sent : Bytes) × (g' : Gateway recorder packets daemon) × (y : Packet)
    × (frame' : GatewayAccessFrame) × (r : IsOnWire recorder s g'.clients.handlers 0
        (acknowledgment ∷ [])
        frame')
    × (written (frame ∷ []) ≡ ok sent)
    × (Whole.run recorder packets daemon (map (frame_read 0) (s.frames sent)) connected ≡ ok g')
    × IsReply packets packets-laws assignment_request 0x4001 y
    × (data_frame escaping (serialize y) ≡ some frame')
    × (g'.clients.handlers ≡ replace recorder r.handler connected.clients.handlers)
    × (g'.daemons ≡ connected.daemons)
unfolding AddressPool.obtain_address_lease AddressPool.construct
address_assigned_example =
    Assigning.address_assigned recorder packets daemon packets-laws packets-sizes
      (plain_stream gateway_class mask_first_byte frame_factories) connected 0 client
      (AddressPool.obtain_address_lease AddressPool.construct).0 [] escaping
      (serialize assignment_request) assignment_request
      (Delivery.escaped_frame (0x03 ∷ 0x00 ∷ serialize assignment_request))
      connected-IsRunning.valid client_found refl refl (inr refl) refl (omega arith) refl
      assignment_request-IsRequest (omega arith)

-- A new client sends to a sensor node in an escaped frame.
client_to_daemons_example :
    let s = plain_stream gateway_class mask_first_byte frame_factories in
    let frame = Delivery.escaped_frame (0x03 ∷ 0x00 ∷ serialize for_sensor) in
    let acknowledgment = Delivery.escaped_frame (0x03 ∷ 0x01 ∷ 0x00 ∷ 0x00 ∷ []) in
    let l = (AddressPool.obtain_address_lease AddressPool.construct).0 in
    (sent : Bytes) × (g' : Gateway recorder packets daemon) × (q : GatewayAccessProtocol recorder)
    × (written (frame ∷ []) ≡ ok sent)
    × (Whole.run recorder packets daemon (map (frame_read 0) (s.frames sent)) connected ≡ ok g')
    × (g'.daemons.handlers
        ≡ pointers daemon (
            Relay.sent_to_each recorder packets daemon packets-laws
              (with_client ∷ new_handler ∷ [])
              (Relay.relayed recorder packets daemon packets-laws true l for_sensor)))
    × (g'.clients.handlers
        ≡ replace recorder (record client { protocol = q }) connected.clients.handlers)
    × (q.framing_mode ≡ escaping)
    × (q.frame_endpoint ≡ some (acknowledgment ∷ []))
client_to_daemons_example =
    Uplink.client_to_daemons recorder packets daemon packets-laws
      (plain_stream gateway_class mask_first_byte frame_factories) connected 0 client
      (AddressPool.obtain_address_lease AddressPool.construct).0 [] escaping
      (with_client ∷ new_handler ∷ []) (serialize for_sensor) for_sensor
      (Delivery.escaped_frame (0x03 ∷ 0x00 ∷ serialize for_sensor)) connected-IsRunning.valid
      client_found refl refl (inr refl) refl (omega arith) refl refl refl (omega arith)
      (omega arith)
