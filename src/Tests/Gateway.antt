-- ===== src/Tests/Gateway.antt =====
-- The gateway as a whole, with one destination, its shutdown, and the HDLCd handlers.
use snet_gateway.Hdlcd.Progress.{connecting}
use snet_gateway.Prelude.{
  ℕ, ◌≡◌, ◌≢◌, refl, true, false, some, none, List, [], ◌∷◌, ◌++◌, arith, Bytes, All, All₂, ◌≤◌,
  ◌<◌, ◌+◌,
}
use snet_gateway.Prelude.Result.{ok}
use snet_gateway.External.HdlcdClient.{HdlcdAccess}
use snet_gateway.AddressPool
use snet_gateway.AddressPool.Leases.{construct-IsValid, occurrences, first_address, end_address}
use snet_gateway.Handler.{GatewayAccessServerHandler}
use snet_gateway.Collection.Identity.{find}
use snet_gateway.Collection.Invariant
use snet_gateway.Collection.Invariant.{IsValid, IsOpen, addresses, after_accept}
use snet_gateway.Hdlcd
use snet_gateway.Hdlcd.{HdlcdClientHandler}
use snet_gateway.Hdlcd.Progress
use snet_gateway.Hdlcd.Progress.{Connection, Run, Link, down, up, live, awaited}
use snet_gateway.HdlcdCollection.{HdlcdClientHandlerCollection}
use snet_gateway.Gateway as Whole
use snet_gateway.Gateway.{Gateway}
use snet_gateway.Gateway.Runs as Running
use snet_gateway.Gateway.Invariant.{IsRunning}
use snet_gateway.Gateway.Delivery
use snet_gateway.Collection.Sending.{Serves}
use snet_gateway.Main
use snet_gateway.Main.{VariablesMap, match_destination}
use snet_gateway.Main.Destinations
use snet_gateway.Main.Starting
use snet_gateway.Main.Starting.{IsStarted}
use snet_gateway.Tests.Instances.{Packet, packets, serialize, recorder}

-- A client that remembers what it is to send.
abbrev pub daemon : HdlcdAccess
daemon = record {
  HdlcdClient = List Bytes;
  create = λ port. [];
  send = λ c packet reliable. c ++ packet ∷ [];
  close = λ c. c;
}

-- `u@h:5`
abbrev pub specifier : Bytes
specifier = 0x75 ∷ 0x40 ∷ 0x68 ∷ 0x3A ∷ 0x35 ∷ []

match_destination_iff_example : match_destination specifier ≡ some (0x75 ∷ [], 0x68 ∷ [], 0x35 ∷ [])
match_destination_iff_example =
    (Destinations.match_destination_iff specifier (0x75 ∷ []) (0x68 ∷ []) (0x35 ∷ [])).1
      (refl, (omega arith, tt), (omega arith, tt))

abbrev pub new_handler : HdlcdClientHandler daemon
new_handler = record {
  destination_name = 0x68 ∷ [];
  tcp_port = 0x35 ∷ [];
  serial_port_name = 0x75 ∷ [];
  has_routing = true;
  resolving = 1;
  waiting = false;
  hdlcd_client = none;
}

new_handler-construct :
    Hdlcd.construct daemon (0x68 ∷ []) (0x35 ∷ []) (0x75 ∷ []) true ≡ ok new_handler
unfolding Hdlcd.construct
new_handler-construct = refl

-- The host is not resolved at first, then it is, and a packet is sent while the client connects.
abbrev pub unresolved : Connection daemon
unresolved = record { handler = Hdlcd.on_resolved daemon true new_handler; link = down }

abbrev pub retried : Connection daemon
retried = record { handler = Hdlcd.on_timer daemon false unresolved.handler; link = down }

abbrev pub resolved : Connection daemon
resolved = record { handler = Hdlcd.on_resolved daemon false retried.handler; link = connecting }

abbrev pub given_one : Connection daemon
given_one = record { handler = Hdlcd.send daemon resolved.handler (7 ∷ []) true; link = connecting }

unresolved-Run : Run daemon (record { handler = new_handler; link = down }) unresolved
unresolved-Run = Progress.next Progress.start (Progress.not_resolved _ (omega arith))

given_one-Run : Run daemon (record { handler = new_handler; link = down }) given_one
unfolding Hdlcd.on_resolved Hdlcd.on_timer
given_one-Run =
    Progress.next
      (Progress.next (Progress.next unresolved-Run (Progress.timeout _ refl))
        (Progress.resolved _ (λ k. omega arith)))
      (Progress.sent _ (7 ∷ []) true)

handler_served_example :
    (given_one.handler.resolving + awaited given_one.handler.waiting + live given_one.link ≡ 1)
    × (given_one.link ≢ down → given_one.handler.hdlcd_client ≢ none)
    × (given_one.handler.hdlcd_client
        ≡ Progress.client_given daemon (0x75 ∷ []) (Progress.sent_since daemon given_one-Run))
handler_served_example =
    Progress.handler_served daemon (0x68 ∷ []) (0x35 ∷ []) (0x75 ∷ []) new_handler given_one
      new_handler-construct given_one-Run

-- A handler with a client.
abbrev pub with_client : HdlcdClientHandler daemon
with_client = record new_handler { resolving = 0; hdlcd_client = some [] }

abbrev daemons : HdlcdClientHandlerCollection daemon
daemons = record { handlers = some with_client ∷ some new_handler ∷ []; has_routing = true }

abbrev pub options : VariablesMap
options = record {
  version = false;
  help = false;
  port = some 24001;
  connect = some (specifier ∷ []);
  trace = false;
  reliable = true;
}

pub specifier_good : match_destination specifier ≢ none
unfolding match_destination
specifier_good e = absurd (ground arith)

start-IsStarted_example :
    (g : Gateway recorder packets daemon) × (Main.start daemon recorder packets options
      ≡ ok (some g))
    × IsStarted daemon recorder packets options (specifier ∷ []) g
start-IsStarted_example =
    Starting.start-IsStarted daemon recorder packets options 24001 (specifier ∷ []) refl refl refl
      (specifier_good, tt)

abbrev pub started : Gateway recorder packets daemon
started = record {
  clients = record {
    address_pool = AddressPool.construct;
    handlers = [];
    has_routing = true;
    accepting = true;
    next_id = 0;
  };
  daemons = daemons;
  routing = record { has_clients = true; has_hdlcd = true; trace = false; reliable = true };
}

pub started-IsRunning : IsRunning recorder packets daemon started
started-IsRunning = record {
  valid = record { all_open = tt; identities = omega arith; pool = construct-IsValid };
  has_routing = refl;
  daemons = (with_client ∷ new_handler ∷ [], refl, (refl, (refl, tt)));
}

-- One client has connected.
abbrev pub connected : Gateway recorder packets daemon
connected = record started { clients = after_accept recorder started.clients [] }

pub connected-on_accept :
    Whole.handle recorder packets daemon (Whole.accepted (some [])) started ≡ ok connected
unfolding Whole.handle Whole.on_accept
connected-on_accept = rw (Invariant.on_accept_lem recorder started.clients [] refl) refl

pub connected-Run : Running.Run recorder packets daemon started connected
connected-Run =
    Running.next Running.begin
      (Running.step (Whole.accepted (some [])) (omega arith) connected-on_accept)

Run-unique_example :
    ((address : ℕ)
      → (occurrences address (addresses recorder connected.clients.handlers) ≤ 1)
        × (0 < occurrences address (addresses recorder connected.clients.handlers)
            → (first_address ≤ address) × (address < end_address)))
    × All (IsOpen recorder) connected.clients.handlers
Run-unique_example =
    Running.Run-unique recorder packets daemon started connected started-IsRunning connected-Run

-- A packet of the client with a wrong source address.
abbrev pub for_sensor : Packet
for_sensor = record {
  src_service_id = 0x22;
  dst_service_id = 0x33;
  token = 0x44;
  src_ssa = 0x0007;
  dst_ssa = 0x0011;
  on_air_arq = false;
  payload = 1 ∷ 2 ∷ [];
}

abbrev pub client : GatewayAccessServerHandler recorder
client = Invariant.accepted recorder 0 (AddressPool.obtain_address_lease AddressPool.construct).0 []

pub client_found : find recorder 0 connected.clients.handlers ≡ some client
unfolding find
client_found = refl

-- A packet of a sensor node for the client.
abbrev pub for_client : Packet
for_client = record for_sensor { src_ssa = 0x0011; dst_ssa = 0x4001 }

packet_delivered_example :
    (g' : Gateway recorder packets daemon) × (Whole.on_data recorder packets daemon 1
        (serialize for_client)
        connected
      ≡ ok g')
    × All₂ (Serves recorder packets for_client) connected.clients.handlers g'.clients.handlers
    × IsValid recorder g'.clients
    × (g'.daemons ≡ connected.daemons)
packet_delivered_example =
    Delivery.packet_delivered recorder packets daemon connected 1 new_handler (serialize for_client)
      for_client refl refl refl refl (omega arith) (omega arith)
      (Running.Run-IsRunning recorder packets daemon connected-Run started-IsRunning).valid
