-- ===== src/Main.antt =====
-- main-snet-gateway.cpp: the options, the destinations and the start of the gateway. A character of
-- an option is its code.
pub mod Destinations
pub mod Starting
pub mod Ending
pub mod Exit
pub mod Daemons
use snet_gateway.Prelude.{
  ℕ, Bool, true, false, Option, none, some, List, [], ◌∷◌, Bytes, ◌==◌, if◌then◌else◌,
}
use snet_gateway.Prelude.Result.{Result, ok, fault, ◌>>=◌}
use snet_gateway.External.FrameEndpoint.{FrameEndpoint}
use snet_gateway.External.Message.{SnetServiceMessage}
use snet_gateway.External.HdlcdClient.{HdlcdAccess}
use snet_gateway.Protocol.{GatewayAccessFrame}
use snet_gateway.Collection
use snet_gateway.Routing
use snet_gateway.HdlcdCollection
use snet_gateway.HdlcdCollection.{
  HdlcdClientHandlerCollection, Dropped, create_hdlcd_client_handler,
}
use snet_gateway.Gateway.{Gateway, Event, run}

-- `l_VariablesMap`; of `version` a line is printed only, and `main` goes on.
pub record VariablesMap : Type 0 where
  pub version : Bool
  pub help : Bool
  pub port : Option ℕ
  pub connect : Option (List Bytes)
  pub trace : Bool
  pub reliable : Bool

-- `^(.*?)@(.*?):(.*?)$`: each group that another character follows ends in front of the first one.
pub group_before : ℕ → Bytes → Option (Bytes × Bytes)
group_before c [] = none
group_before c (x ∷ s) = elim (x == c) [
  | true ↦ some ([], s)
  | false ↦ elim (group_before c s) [ none ↦ none | some p ↦ some (x ∷ p.0, p.1) ]
]

pub second_group : Bytes → Bytes → Option (Bytes × Bytes × Bytes)
second_group serial_port_name rest = elim (group_before 0x3A rest) [
  | none ↦ none
  | some p ↦ some (serial_port_name, p.0, p.1)
]

-- The serial port, the host and the TCP port of a destination.
unfoldable pub match_destination : Bytes → Option (Bytes × Bytes × Bytes)
unfolding group_before second_group
match_destination s = elim (group_before 0x40 s) [ none ↦ none | some p ↦ second_group p.0 p.1 ]

module _ (a : HdlcdAccess) where
  -- The loop over the destinations; `none` is the exception for one that does not match.
  pub create_handlers :
      List Bytes → HdlcdClientHandlerCollection a → Result (Option (HdlcdClientHandlerCollection a))
  create_handlers [] c = ok (some c)
  create_handlers (s ∷ ss) c = elim (match_destination s) [
    | none ↦ ok none
    | some (serial_port_name, host, tcp_port) ↦ (do
      c' ← create_hdlcd_client_handler a host tcp_port serial_port_name c
      create_handlers ss c')
  ]

  module _ (w : FrameEndpoint GatewayAccessFrame) (m : SnetServiceMessage) where
    -- The main components, and the handler of each destination.
    create_components : List Bytes → Bool → Bool → Result (Option (Gateway w m a))
    unfolding create_handlers
    create_components destinations trace reliable = do
      routing ← Routing.construct true true trace reliable
      clients ← Collection.initialize w true (Collection.construct w)
      daemons ← HdlcdCollection.initialize a true (HdlcdCollection.construct a)
      created ← create_handlers destinations daemons
      elim created [
        | none ↦ ok none
        | some c ↦ ok (some (record { clients = clients; daemons = c; routing = routing }))
      ]

    -- `main` up to the event loop; `none` if it returns 1 before.
    unfoldable pub start : VariablesMap → Result (Option (Gateway w m a))
    unfolding create_components
    start v = if v.help then ok none else elim v.port [
      | none ↦ ok none
      | some port ↦ elim v.connect [
        | none ↦ ok none
        | some destinations ↦ create_components destinations v.trace v.reliable
      ]
    ]

    -- The shutdown behind the event loop, with at most `fuel` rounds of the loop over the clients.
    shut_clients : ℕ → Gateway w m a → Option (Result (Gateway w m a))
    shut_clients fuel g = elim (Collection.system_shutdown w fuel g.clients) [
      | none ↦ none
      | some r ↦
          some
            (do c ← r; ok (record g { clients = c; routing = Routing.system_shutdown g.routing }))
    ]

    -- What the shutdown of the HDLCd side has dropped, with the gateway that is left.
    with_dropped :
        List (Dropped a)
        → Option (Result (Gateway w m a))
        → Option (Result (List (Dropped a) × Gateway w m a))
    with_dropped dropped none = none
    with_dropped dropped (some (fault e)) = some (fault e)
    with_dropped dropped (some (ok g)) = some (ok (dropped, g))

    unfoldable pub shutdown : ℕ → Gateway w m a → Option (Result (List (Dropped a) × Gateway w m a))
    unfolding shut_clients with_dropped
    shutdown fuel g = elim (HdlcdCollection.system_shutdown a g.daemons) [
      | fault e ↦ some (fault e)
      | ok (dropped, d) ↦ with_dropped dropped (shut_clients fuel (record g { daemons = d }))
    ]

    -- `main` behind the start: the events that the event loop delivers until it is stopped, and the
    -- shutdown.
    end_loop :
        Option (Result (List (Dropped a) × Gateway w m a))
        → Option (Result (ℕ × Option (List (Dropped a) × Gateway w m a)))
    end_loop none = none
    end_loop (some (fault e)) = some (fault e)
    end_loop (some (ok end)) = some (ok (0, some end))

    process :
        ℕ
        → List (Event w m a)
        → Gateway w m a
        → Option (Result (ℕ × Option (List (Dropped a) × Gateway w m a)))
    unfolding end_loop
    process fuel events g = elim (run w m a events g) [
      | fault e ↦ some (fault e)
      | ok g' ↦ end_loop (shutdown fuel g')
    ]

    -- What `main` returns, with the components that it has shut down and the HDLCd handlers that it
    -- has dropped.
    unfoldable pub main :
        ℕ
        → VariablesMap
        → List (Event w m a)
        → Option (Result (ℕ × Option (List (Dropped a) × Gateway w m a)))
    unfolding process
    main fuel v events = elim (start v) [
      | fault e ↦ some (fault e)
      | ok none ↦ some (ok (1, none))
      | ok (some g) ↦ process fuel events g
    ]
