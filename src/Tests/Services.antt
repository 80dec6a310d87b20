-- ===== src/Tests/Services.antt =====
-- The address pool, the services and the routing on the examples of doc/protocol.md.
use snet_gateway.Prelude.{
  ℕ, ◌+◌, ◌-◌, ◌^◌, ◌<◌, ◌≤◌, ◌≡◌, ◌≢◌, ◌↔◌, ◌⊎◌, refl, true, false, some, List, [], ◌∷◌, arith,
}
use snet_gateway.Prelude.Result.{ok}
use snet_gateway.AddressPool
use snet_gateway.AddressPool.{
  AddressPool, AddressLease, get_address, obtain_address_lease, release_address_lease,
}
use snet_gateway.AddressPool.Leases.{
  Uses, fresh, obtain, release, first_address, end_address, max_clients,
}
use snet_gateway.AddressPool.Exhaustion.{nth_address, nth_address_exhaustion}
use snet_gateway.AddressService
use snet_gateway.AddressService.Replies
use snet_gateway.PublishSubscribe
use snet_gateway.PublishSubscribe.{PublishSubscribeService, is_service_id_for_me}
use snet_gateway.PublishSubscribe.Subscriptions
use snet_gateway.Routing
use snet_gateway.Routing.{hdlcd, gwclients, perform_routing}
use snet_gateway.Routing.Table
use snet_gateway.Tests.Instances.{Packet, packets, packets-laws, serialize}

-- The pool after two leases and the return of the first.
abbrev first : AddressLease × AddressPool
first = obtain_address_lease AddressPool.construct

abbrev second : AddressLease × AddressPool
second = obtain_address_lease first.1

abbrev returned : AddressPool
returned = release_address_lease 0x4001 second.1

one_in_use : Uses returned (0x4002 ∷ [])
unfolding AddressPool.construct obtain_address_lease
one_in_use =
    release [] (0x4002 ∷ []) 0x4001 refl (obtain (omega arith) (obtain (omega arith) fresh))

-- The 65536th client gets the address of the gateway, and the 131072nd one gets it again.
nth_address_exhaustion_example :
    (65535 < max_clients → nth_address 65535 ≡ first_address + 65535)
    × (max_clients ≤ 65535
        → 65535 < max_clients + 16
        → nth_address 65535 ≡ end_address + (65535 - max_clients))
    × (max_clients + 16 ≤ 65535 → 65535 < 2 ^ 16 → nth_address 65535 ≡ 0x4000)
    × (nth_address (65535 + 2 ^ 16) ≡ nth_address 65535)
nth_address_exhaustion_example = nth_address_exhaustion 65535

abbrev lease_4001 : AddressLease
lease_4001 = record { gateway_client_address = 0x4001 }

-- `00 00 3f ff 3f fc 00 af ae 00 10 25 00 00 00 00 00 00`
abbrev pub assignment_request : Packet
assignment_request = record {
  src_service_id = 0xAF;
  dst_service_id = 0xAE;
  token = 0x10;
  src_ssa = 0x3FFF;
  dst_ssa = 0x3FFC;
  on_air_arq = false;
  payload = 0x25 ∷ 0 ∷ 0 ∷ 0 ∷ 0 ∷ 0 ∷ 0 ∷ [];
}

assignment_request-bytes :
    serialize assignment_request
    ≡ 0 ∷ 0 ∷ 0x3F ∷ 0xFF ∷ 0x3F ∷ 0xFC ∷ 0 ∷ 0xAF ∷ 0xAE ∷ 0 ∷ 0x10 ∷ 0x25 ∷ 0 ∷ 0 ∷ 0 ∷ 0 ∷ 0 ∷ 0
      ∷ []
assignment_request-bytes = refl

-- `00 00 40 00 3f f8 00 ae af 00 20 05 00 00 00 00 00 00 00 40 01`
abbrev assignment_reply : Packet
assignment_reply = record {
  src_service_id = 0xAE;
  dst_service_id = 0xAF;
  token = 0x20;
  src_ssa = 0x4000;
  dst_ssa = 0x3FF8;
  on_air_arq = false;
  payload = 0x05 ∷ 0 ∷ 0 ∷ 0 ∷ 0 ∷ 0 ∷ 0 ∷ 0x00 ∷ 0x40 ∷ 0x01 ∷ [];
}

process_assignment :
    AddressService.process_request packets assignment_request (some lease_4001)
    ≡ ok assignment_reply
unfolding AddressService.process_request
process_assignment = refl

pub assignment_request-IsRequest : Replies.IsRequest packets packets-laws assignment_request
assignment_request-IsRequest = record {
  src_ssa = refl;
  dst_ssa = refl;
  src_service_id = refl;
  dst_service_id = refl;
  token = refl;
}

-- `00 00 40 01 40 00 00 b0 b0 00 10 10`
abbrev pub subscription : ℕ → ℕ → Packet
subscription token i = record {
  src_service_id = 0xB0;
  dst_service_id = 0xB0;
  token = token;
  src_ssa = 0x4001;
  dst_ssa = 0x4000;
  on_air_arq = false;
  payload = i ∷ [];
}

subscription-IsRequest : Subscriptions.IsRequest packets (subscription 0x10 0x10) 0x10
subscription-IsRequest = record { dst_ssa = refl; dst_service_id = refl; payload = refl }

-- All services, and then all but one.
abbrev all_but_one : List Packet
all_but_one = subscription 0x10 0xFF ∷ subscription 0x20 0x33 ∷ []

serve-wants_example :
    (s' : PublishSubscribeService) × (Subscriptions.serve packets all_but_one
        (some lease_4001)
        PublishSubscribe.construct
      ≡ ok s')
    × ((j : ℕ)
        → is_service_id_for_me s' j
          ≡ Subscriptions.wants packets all_but_one j
              (is_service_id_for_me PublishSubscribe.construct j))
serve-wants_example =
    Subscriptions.serve-wants packets all_but_one lease_4001 PublishSubscribe.construct

abbrev wired_address : ℕ
wired_address = 0xFFFE

abbrev gateway_address : ℕ
gateway_address = 0x4000

perform_routing-hdlcd_iff_example : (perform_routing gwclients 0x4001 wired_address ≡ hdlcd) ↔ (
    ((wired_address < 0x4000) × (wired_address ≢ 0x3FFC))
    ⊎ ((wired_address ≡ 0xFFFE) × (gwclients ≡ gwclients)))
perform_routing-hdlcd_iff_example = Table.perform_routing-hdlcd_iff gwclients 0x4001 wired_address

perform_routing-gwclients_iff_example :
    (perform_routing hdlcd 0x0011 gateway_address ≡ gwclients) ↔ (
      ((0x4000 < gateway_address) × ((gateway_address ≡ 0xFFFE) → hdlcd ≢ gwclients))
      ⊎ ((gateway_address ≡ 0x4000) × (0x0011 < 0x4000)))
perform_routing-gwclients_iff_example =
    Table.perform_routing-gwclients_iff hdlcd 0x0011 gateway_address

abbrev reliable_routing : Routing.Routing
reliable_routing = record { has_clients = true; has_hdlcd = true; trace = false; reliable = true }

abbrev to_node : Packet
to_node = record (subscription 0x10 1) { dst_ssa = 0x0011 }

to_node-hdlcd : perform_routing gwclients to_node.src_ssa to_node.dst_ssa ≡ hdlcd
unfolding perform_routing
to_node-hdlcd = refl
