-- ===== src/Tests/Faults.antt =====
-- What crashes the gateway, and a subscription that lasts.
use snet_gateway.Prelude.{
  ℕ, zero, suc, ◌≡◌, refl, ap, true, some, List, [], ◌∷◌, arith, Bytes, inl, length, get_elem?,
}
use snet_gateway.Prelude.Result.{ok, fault, out_of_range, assertion_failed}
use snet_gateway.AddressPool
use snet_gateway.External.FrameStream.{plain_stream}
use snet_gateway.Protocol.{escaping, length_prefixed}
use snet_gateway.Protocol.Delivery
use snet_gateway.Protocol.Factories.{gateway_class, mask_first_byte, frame_factories}
use snet_gateway.Handler.Overload.{IsOverloaded}
use snet_gateway.Collection.Invariant
use snet_gateway.Gateway as Whole
use snet_gateway.Gateway.{Gateway, Event, accepted, frame_read, data_read}
use snet_gateway.Gateway.Crashes
use snet_gateway.Gateway.Overload
use snet_gateway.Gateway.Runs as Running
use snet_gateway.Gateway.Runs.{IsNeverFull}
use snet_gateway.Gateway.Subscribing
use snet_gateway.Gateway.Subscribed
use snet_gateway.Gateway.Refinement
use snet_gateway.Gateway.Acts.{AsksFor, clients_of}
use snet_gateway.Spec.{ActsAs}
use snet_gateway.Gateway.Termination
use snet_gateway.Tests.Instances.{Packet, packets, packets-laws, packets-sizes, serialize, recorder}
use snet_gateway.Tests.Gateway.{daemon, connected, for_client, client, client_found, new_handler}
use snet_gateway.Tests.Program.{connected-IsRunning}
use snet_gateway.Tests.Packets.{
  in_mode, ready, ready-IsRunning, ready_found, client_address, length_client, request,
}

-- An escaped frame of one byte.
frame_faults_example :
    Whole.handle recorder packets daemon
      (frame_read 0 (Delivery.escaped_frame (0x03 ∷ [])))
      connected
    ≡ fault out_of_range
frame_faults_example =
    (Crashes.frame_faults recorder packets daemon packets-laws packets-sizes connected 0 client
        (Delivery.escaped_frame (0x03 ∷ [])) client_found connected-IsRunning
        (0x03 ∷ [], refl, omega arith)).0
      (Crashes.too_short ((λ k. cc), omega arith))

-- A packet with a long payload.
pub zeros : ℕ → Bytes
zeros zero = []
zeros (suc n) = 0 ∷ zeros n

pub length-zeros : (n : ℕ) → length (zeros n) ≡ n
unfolding zeros
length-zeros zero = refl
length-zeros (suc n) = ap suc (length-zeros n)

abbrev pub long_packet : Packet
long_packet = record for_client { payload = zeros 4083 }

long_packet-IsOverloaded : IsOverloaded recorder packets long_packet (in_mode escaping)
long_packet-IsOverloaded = record {
  wants = λ l leased. inl (omega arith, omega arith, ground (arith, client_address, leased));
  chosen = λ k. cc;
  too_long = omega (arith, length-zeros 4083);
}

packet_faults_example :
    Whole.handle recorder packets daemon (data_read 1 (serialize long_packet)) (ready escaping)
    ≡ fault assertion_failed
packet_faults_example =
    (Overload.packet_faults recorder packets daemon (ready escaping) 1 new_handler
        (serialize long_packet) long_packet (ready-IsRunning escaping) refl refl refl
        (omega arith)).0
      0 (in_mode escaping) (ready_found escaping) long_packet-IsOverloaded

-- The client subscribes, and another client comes.
abbrev comes : List (Event recorder packets daemon)
comes = accepted (some []) ∷ []

abbrev subscribes : Event recorder packets daemon
subscribes = frame_read 0 (Delivery.length_frame (serialize request))

subscribes-IsNeverFull : IsNeverFull recorder packets daemon (subscribes ∷ comes) connected
subscribes-IsNeverFull =
    Termination.arrivals-IsNeverFull recorder packets daemon (subscribes ∷ comes) connected
      (omega arith) connected-IsRunning

after_subscribes :
    (g : Gateway recorder packets daemon) × (Whole.handle recorder packets daemon subscribes
        connected
      ≡ ok g)
    × (g.daemons ≡ connected.daemons)
unfolding Whole.handle
after_subscribes =
    let (sent, s, g1, done, confirms, handlers, kept) =
      Subscribing.subscription_confirmed recorder packets daemon packets-laws packets-sizes
        connected 0 client (AddressPool.obtain_address_lease AddressPool.construct).0
        (Delivery.length_frame (serialize request)) (serialize request) request
        length_client.protocol 0x10 true client_found refl
        (Delivery.on_frame_length recorder client.protocol [] (serialize request) (λ k. cc) refl)
        refl (record { dst_ssa = refl; dst_service_id = refl; payload = refl }) refl
        connected-IsRunning.valid in
    (g1, done, kept)

handle_refines_example :
    ActsAs 0
      (AsksFor recorder packets daemon (Delivery.length_frame (serialize request)))
      (clients_of recorder packets daemon connected)
      (clients_of recorder packets daemon after_subscribes.0)
handle_refines_example =
    Refinement.handle_refines recorder packets daemon subscribes connected after_subscribes.0
      connected-IsRunning tt after_subscribes.1

subscribed :
    (g : Gateway recorder packets daemon) × (Whole.run recorder packets daemon
        (subscribes ∷ comes)
        connected
      ≡ ok g)
    × (get_elem? g.daemons.handlers 1 ≡ some (some new_handler))
unfolding Whole.run Whole.handle Whole.on_accept
subscribed =
    let (g1, done, kept) = after_subscribes in
    let v =
      Running.handle-IsRunning recorder packets daemon subscribes connected g1 tt done
        connected-IsRunning in
    (
      record g1 { clients = Invariant.after_accept recorder g1.clients [] },
      rw done (rw (Invariant.on_accept_lem recorder g1.clients [] v.has_routing) refl),
      rw kept refl,
    )

-- A packet of the service for all.
abbrev for_all : Packet
for_all = record for_client { src_service_id = 0x10; dst_ssa = 0xFFFF }

subscription_delivers_example :
    Subscribed.Reaches recorder packets daemon
      (plain_stream gateway_class mask_first_byte frame_factories)
      subscribed.0
      0
      length_prefixed
      1
      (serialize for_all)
      for_all
subscription_delivers_example =
    Subscribed.subscription_delivers recorder packets daemon packets-laws packets-sizes
      (plain_stream gateway_class mask_first_byte frame_factories) connected subscribed.0 0 client
      (AddressPool.obtain_address_lease AddressPool.construct).0
      (Delivery.length_frame (serialize request)) (serialize request) request length_client.protocol
      0x10 comes 1 new_handler (serialize for_all) for_all connected-IsRunning refl client_found
      refl (Delivery.on_frame_length recorder client.protocol [] (serialize request) (λ k. cc) refl)
      refl (record { dst_ssa = refl; dst_service_id = refl; payload = refl }) refl (tt, tt)
      subscribes-IsNeverFull subscribed.1 subscribed.2 refl (omega arith) refl (omega arith)
