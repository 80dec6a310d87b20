-- ===== src/Tests/Program.antt =====
-- The program from its start to its end, with one client that sends and receives a packet.
use snet_gateway.Prelude.{
  ap, if◌then◌else◌, leb, ◌≡◌, refl, true, some, List, [], ◌∷◌, arith, All, length, ◌+◌,
}
use snet_gateway.Prelude.Result.{ok}
use snet_gateway.Protocol.Delivery
use snet_gateway.Gateway as Whole
use snet_gateway.Gateway.{Gateway, Event, accepted, frame_read, client_closed, data_read, completed}
use snet_gateway.Collection.Invariant.{addresses}
use snet_gateway.AddressPool.Leases.{occurrences}
use snet_gateway.Gateway.Runs as Running
use snet_gateway.Gateway.Isolation
use snet_gateway.Handler.View.{view}
use snet_gateway.Gateway.Acts.{clients_of}
use snet_gateway.Gateway.Termination
use snet_gateway.Gateway.Totality.{IsBenignEvent}
use snet_gateway.Handler.Totality.{IsBenign}
use snet_gateway.Spec.{client_with}
use snet_gateway.Main
use snet_gateway.Main.{VariablesMap}
use snet_gateway.Main.Starting
use snet_gateway.Main.Starting.{IsUsable}
use mathlib.Core.Path.{subst}
use snet_gateway.Gateway.Runs.{IsNeverFull}
use snet_gateway.HdlcdCollection.{Dropped}
use snet_gateway.Main.Ending.{IsShutDown}
use snet_gateway.Main.Exit
use snet_gateway.Gateway.Invariant.{IsRunning}
use snet_gateway.Tests.Instances.{packets, packets-laws, packets-sizes, serialize, recorder}
use snet_gateway.Tests.Gateway.{
  daemon, specifier, specifier_good, options, started, started-IsRunning, connected, connected-Run,
  connected-on_accept, for_sensor, for_client, client,
}

pub connected-IsRunning : IsRunning recorder packets daemon connected
connected-IsRunning =
    Running.handle-IsRunning recorder packets daemon (accepted (some [])) started connected
      (omega arith) connected-on_accept started-IsRunning

-- A client comes, sends a packet to a sensor node, is sent one, and goes.
abbrev events : List (Event recorder packets daemon)
events =
    accepted (some [])
    ∷ completed 0 (Whole.resolved true)
    ∷ frame_read 0 (Delivery.length_frame (serialize for_sensor))
    ∷ data_read 0 (serialize for_client)
    ∷ client_closed 0
    ∷ []

sensor-IsBenign : IsBenign recorder packets packets-laws packets-sizes (serialize for_sensor)
sensor-IsBenign = record { fits = omega arith; has_uuid = λ x e r. ground (arith, r) }

events_benign : All (IsBenignEvent recorder packets daemon packets-laws packets-sizes) events
events_benign = (tt, (tt, ((serialize for_sensor, refl, sensor-IsBenign), (omega arith, (tt, tt)))))

events-IsNeverFull :
    (g : Gateway recorder packets daemon)
    → g.clients.handlers ≡ []
    → IsRunning recorder packets daemon g
    → IsNeverFull recorder packets daemon events g
events-IsNeverFull g nobody v =
    let few : length g.clients.handlers ≡ 0 = ap length nobody in
    Termination.arrivals-IsNeverFull recorder packets daemon events g (omega arith) v

run-IsOk_example :
    (g : Gateway recorder packets daemon) × (Whole.run recorder packets daemon events started
      ≡ ok g)
    × IsRunning recorder packets daemon g
run-IsOk_example =
    Termination.run-IsOk recorder packets daemon packets-laws packets-sizes events started
      events_benign (events-IsNeverFull started refl started-IsRunning) started-IsRunning

options-IsUsable : IsUsable daemon recorder packets options
options-IsUsable = record {
  no_help = refl;
  port = λ e. cc;
  connect = (specifier ∷ [], refl, (specifier_good, tt));
}

started-IsNeverFull :
    (g : Gateway recorder packets daemon)
    → Main.start daemon recorder packets options ≡ ok (some g)
    → IsNeverFull recorder packets daemon events g
started-IsNeverFull g e =
    let (g0, is_started, fresh) =
      Starting.start-IsStarted daemon recorder packets options 24001 (specifier ∷ []) refl refl refl
        (specifier_good, tt) in
    let same : g0 ≡ g = cc (is_started, e) in
    subst (IsNeverFull recorder packets daemon events) same
      (events-IsNeverFull g0 fresh.no_clients fresh.running)

main_returns_example :
    (g g' end : Gateway recorder packets daemon) × (dropped : List (Dropped daemon)) × (Main.start
        daemon recorder packets options
      ≡ ok (some g))
    × (Whole.run recorder packets daemon events g ≡ ok g')
    × (Main.main daemon recorder packets 49135 options events ≡ some (ok (0, some (dropped, end))))
    × IsShutDown recorder packets daemon g' dropped end
main_returns_example =
    (Exit.main_returns recorder packets daemon packets-laws packets-sizes 49135 options events
        events_benign started-IsNeverFull (omega arith)).1
      options-IsUsable

-- The client has one session without a frame of its own, and another client comes meanwhile.
abbrev quiet : List (Event recorder packets daemon)
quiet = accepted (some []) ∷ client_closed 1 ∷ data_read 0 (serialize for_client) ∷ []

quiet-IsNeverFull : IsNeverFull recorder packets daemon quiet connected
quiet-IsNeverFull =
    Termination.arrivals-IsNeverFull recorder packets daemon quiet connected (omega arith)
      connected-IsRunning

quiet-run :
    (g : Gateway recorder packets daemon) × (Whole.run recorder packets daemon quiet connected
      ≡ ok g)
    × IsRunning recorder packets daemon g
quiet-run =
    Termination.run-IsOk recorder packets daemon packets-laws packets-sizes quiet connected
      (tt, (tt, (omega arith, tt))) quiet-IsNeverFull connected-IsRunning

client_isolated_example :
    client_with 0 (clients_of recorder packets daemon quiet-run.0) ≡ some (view recorder client)
client_isolated_example =
    Isolation.client_isolated recorder packets daemon quiet connected quiet-run.0 0
      (view recorder client) connected-IsRunning quiet-IsNeverFull
      (tt, ((λ e. omega arith), (tt, tt))) quiet-run.1 refl

Run-conserved_example :
    let p = connected.clients.address_pool in
    occurrences 0x4001 (addresses recorder connected.clients.handlers)
      + occurrences 0x4001 p.released_addresses
      + (if leb p.next_free_address 0x4001 then 1 else 0)
    ≡ 1
Run-conserved_example =
    Running.Run-conserved recorder packets daemon started connected 0x4001 started-IsRunning
      connected-Run (omega arith) (omega arith)
