-- ===== src/Tests/Clients.antt =====
-- GatewayAccessServerHandler.cpp and GatewayAccessServerHandlerCollection.cpp with two clients.
use snet_gateway.Prelude.{
  ℕ, ◌≡◌, ◌≢◌, ◌⊎◌, refl, true, false, some, [], ◌∷◌, ◌++◌, arith, All₂, inl,
}
use snet_gateway.Prelude.Result.{ok}
use snet_gateway.Frames.LengthBased
use snet_gateway.Protocol
use snet_gateway.Protocol.{length_prefixed}
use snet_gateway.AddressPool
use snet_gateway.AddressPool.{AddressLease, obtain_address_lease, release_address_lease}
use snet_gateway.AddressPool.Leases.{occurrences, handed_out, construct-IsValid}
use snet_gateway.Handler
use snet_gateway.Handler.{GatewayAccessServerHandler}
use snet_gateway.Handler.Keeps.{Keeps}
use snet_gateway.Collection.{GatewayAccessServerHandlerCollection, on_accept, send, system_shutdown}
use snet_gateway.Collection.Identity
use snet_gateway.Collection.Invariant
use snet_gateway.Collection.Invariant.{
  IsValid, after_accept, addresses, address_of, accepted-IsValid,
}
use snet_gateway.Collection.Sending
use snet_gateway.Collection.Sending.{Serves}
use snet_gateway.Collection.Shutdown
use snet_gateway.Tests.Instances.{Packet, packets, packets-laws, serialize, recorder}

abbrev Clients : Type 0
Clients = GatewayAccessServerHandlerCollection recorder

abbrev no_clients : Clients
no_clients = record {
  address_pool = AddressPool.construct;
  handlers = [];
  has_routing = true;
  accepting = true;
  next_id = 0;
}

no_clients-IsValid : IsValid recorder no_clients
no_clients-IsValid = record { all_open = tt; identities = omega arith; pool = construct-IsValid }

abbrev one_client : Clients
one_client = after_accept recorder no_clients []

one_client-IsValid : IsValid recorder one_client
one_client-IsValid = accepted-IsValid recorder no_clients [] (omega arith) no_clients-IsValid

abbrev two_clients : Clients
two_clients = after_accept recorder one_client []

two_clients-IsValid : IsValid recorder two_clients
two_clients-IsValid = accepted-IsValid recorder one_client [] (omega arith) one_client-IsValid

on_accept-IsValid_example :
    (c' : Clients) × (h : GatewayAccessServerHandler recorder) × (on_accept recorder
        (some [])
        one_client
      ≡ ok c')
    × (c'.handlers ≡ one_client.handlers ++ h ∷ [])
    × (occurrences (address_of recorder h) (addresses recorder one_client.handlers) ≡ 0)
    × IsValid recorder c'
on_accept-IsValid_example =
    Invariant.on_accept-IsValid recorder one_client [] refl (omega arith) one_client-IsValid

abbrev first_client : GatewayAccessServerHandler recorder
first_client = Invariant.accepted recorder 0 (obtain_address_lease AddressPool.construct).0 []

found_first : Identity.find recorder 0 two_clients.handlers ≡ some first_client
unfolding Identity.find
found_first = refl

system_shutdown-IsEmpty_example :
    (c' : Clients) × (system_shutdown recorder 2 two_clients ≡ some (ok c'))
    × (c'.handlers ≡ [])
    × (c'.has_routing ≡ false)
    × (c'.accepting ≡ false)
    × ((a : ℕ) → occurrences a c'.address_pool.released_addresses ≡ handed_out c'.address_pool a)
system_shutdown-IsEmpty_example =
    Shutdown.system_shutdown-IsEmpty recorder 2 two_clients (omega arith) two_clients-IsValid

-- The two clients after each has chosen the length-based mode.
abbrev chosen : GatewayAccessServerHandler recorder → GatewayAccessServerHandler recorder
chosen h = record h { protocol = record h.protocol { framing_mode = length_prefixed } }

chosen-Keeps : (h : GatewayAccessServerHandler recorder) → Keeps recorder h (chosen h)
chosen-Keeps h = record {
  id = refl;
  registered = refl;
  has_collection = refl;
  address_lease = refl;
  protocol = record { on_data = refl; on_closed = refl; endpoint = λ k. k };
}

abbrev second_client : GatewayAccessServerHandler recorder
second_client = Invariant.accepted recorder 1 (obtain_address_lease one_client.address_pool).0 []

abbrev served_clients : Clients
served_clients = record two_clients { handlers = chosen first_client ∷ chosen second_client ∷ [] }

served_clients-IsValid : IsValid recorder served_clients
served_clients-IsValid =
    Sending.All₂-IsValid recorder two_clients (chosen first_client ∷ chosen second_client ∷ [])
      (chosen-Keeps first_client, (chosen-Keeps second_client, tt)) two_clients-IsValid

-- A packet of a sensor node for the second client.
abbrev for_second : Packet
for_second = record {
  src_service_id = 0x22;
  dst_service_id = 0x33;
  token = 0x44;
  src_ssa = 0x0011;
  dst_ssa = 0x4002;
  on_air_arq = false;
  payload = 1 ∷ 2 ∷ [];
}

abbrev delivered : GatewayAccessServerHandler recorder
delivered = record (chosen second_client) {
  protocol = record (chosen second_client).protocol {
    frame_endpoint = some (Protocol.Delivery.length_frame (serialize for_second) ∷ []);
  };
}

abbrev after_sending : Clients
after_sending = record served_clients { handlers = chosen first_client ∷ delivered ∷ [] }

sent_to_second : send recorder packets served_clients for_second ≡ ok after_sending
unfolding send Handler.send Handler.deliver Protocol.send LengthBased.create obtain_address_lease
    AddressPool.construct
sent_to_second = refl

send-Serves_all_example :
    All₂ (Serves recorder packets for_second) served_clients.handlers after_sending.handlers
    × IsValid recorder after_sending
send-Serves_all_example =
    Sending.send-Serves_all recorder packets served_clients after_sending for_second (omega arith)
      served_clients-IsValid sent_to_second

abbrev lease_4002 : AddressLease
lease_4002 = record { gateway_client_address = 0x4002 }

abbrev leased_client : GatewayAccessServerHandler recorder
leased_client = record (chosen second_client) { address_lease = some lease_4002 }

send_filter_example :
    Handler.send recorder packets leased_client for_second
    ≡ Handler.deliver recorder packets leased_client for_second
send_filter_example =
    (Handler.Filter.send_filter recorder packets leased_client lease_4002 for_second refl
        (omega arith)).0
      (inl (omega arith))

-- A client that writes a wrong source address.
abbrev spoofed : Packet
spoofed = record for_second { src_ssa = 0x4001; dst_ssa = 0x0011 }

abbrev remapped : Packet
remapped = record spoofed { src_ssa = 0x4002 }

payload_remapped :
    Handler.on_payload recorder packets leased_client (serialize spoofed)
    ≡ ok (some remapped, leased_client)
unfolding Handler.on_payload
payload_remapped = refl

on_payload_masquerade_example :
    (x : Packet) × (packets.deserialize (serialize spoofed) ≡ some x)
    × (leased_client ≡ leased_client)
    × (remapped.dst_ssa ≡ x.dst_ssa)
    × (remapped.dst_ssa ≢ 0x3FFC)
    × (remapped.dst_ssa ≢ 0x4000)
    × ((remapped.src_ssa ≡ 0xFFFE) ⊎ (remapped.src_ssa ≡ 0x4002))
    × (remapped.payload ≡ x.payload)
on_payload_masquerade_example =
    Handler.Payload.on_payload_masquerade recorder packets packets-laws leased_client lease_4002
      (serialize spoofed) remapped leased_client refl payload_remapped
