-- ===== src/Main/Starting.antt =====
-- main-snet-gateway.cpp: the gateway that `main` starts.
use mathlib.Core.List.{map-append}
use snet_gateway.Prelude.{
  ℕ, ◌≡◌, ◌≢◌, refl, ap, true, false, none, some, List, [], ◌∷◌, ◌++◌, Bytes, arith, All, All₂,
  Option-cases, inl, inr, append_assoc, append-nil, sym, Bool-cases,
}
use snet_gateway.Prelude.Result.{ok}
use snet_gateway.External.FrameEndpoint.{FrameEndpoint}
use snet_gateway.External.Message.{SnetServiceMessage}
use snet_gateway.External.HdlcdClient.{HdlcdAccess}
use snet_gateway.Protocol.{GatewayAccessFrame}
use snet_gateway.AddressPool
use snet_gateway.AddressPool.Leases
use snet_gateway.Collection
use snet_gateway.Routing
use snet_gateway.Hdlcd
use snet_gateway.Hdlcd.{HdlcdClientHandler}
use snet_gateway.HdlcdCollection
use snet_gateway.HdlcdCollection.{HdlcdClientHandlerCollection, create_hdlcd_client_handler}
use snet_gateway.HdlcdCollection.Sending.{pointers}
use snet_gateway.Gateway.{Gateway}
use snet_gateway.Gateway.Invariant.{IsRunning}
use snet_gateway.Main.{VariablesMap, match_destination, create_handlers, create_components, start}

module _ (a : HdlcdAccess) where
  -- The handler of a destination, which has the routing entity and has begun to resolve its host.
  pub record IsFor (s : Bytes) (h : HdlcdClientHandler a) : Type 0 where
    pub named : match_destination s ≡ some (h.serial_port_name, h.destination_name, h.tcp_port)
    pub resolves : h.resolving ≡ 1
    pub waits : h.waiting ≡ false
    pub no_client : h.hdlcd_client ≡ none
    pub routed : h.has_routing ≡ true

  -- A collection in which all pointers are set.
  abbrev collection : List (HdlcdClientHandler a) → HdlcdClientHandlerCollection a
  collection hs = record { handlers = pointers a hs; has_routing = true }

  -- The new handler.
  abbrev made : Bytes → Bytes → Bytes → HdlcdClientHandler a
  made serial_port_name host tcp_port = record {
    destination_name = host;
    tcp_port = tcp_port;
    serial_port_name = serial_port_name;
    has_routing = true;
    resolving = 1;
    waiting = false;
    hdlcd_client = none;
  }

  create_one :
      (hs : List (HdlcdClientHandler a)) (serial_port_name host tcp_port : Bytes)
      → create_hdlcd_client_handler a host tcp_port serial_port_name (collection hs)
        ≡ ok (collection (hs ++ made serial_port_name host tcp_port ∷ []))
  unfolding create_hdlcd_client_handler Hdlcd.construct
  create_one hs serial_port_name host tcp_port =
      rw (map-append some hs (made serial_port_name host tcp_port ∷ [])) refl

  create_handlers-IsFor :
      (ss : List Bytes) (hs : List (HdlcdClientHandler a))
      → All (λ s. match_destination s ≢ none) ss
      → (made_for : List (HdlcdClientHandler a)) × (create_handlers a ss (collection hs)
          ≡ ok (some (collection (hs ++ made_for))))
        × All₂ IsFor ss made_for
  unfolding create_handlers
  create_handlers-IsFor [] hs good = (
    [],
    ap (λ (gs : List (HdlcdClientHandler a)). ok (some (collection gs))) (sym (append-nil hs)),
    tt,
  )
  create_handlers-IsFor (s ∷ ss) hs good = elim (Option-cases (match_destination s)) [
    | inl bad ↦ absurd (good.0 bad)
    | inr ((serial_port_name, host, tcp_port), match) ↦
        let h = made serial_port_name host tcp_port in
        let (rest, created, all_for) = create_handlers-IsFor ss (hs ++ h ∷ []) good.1 in
        (
          h ∷ rest,
          rw (match, create_handlers, create_one hs serial_port_name host tcp_port, created)
              (ap (λ (gs : List (HdlcdClientHandler a)). ok (some (collection gs)))
                (append_assoc hs (h ∷ []) rest)),
          (
            record {
              named = match;
              resolves = refl;
              waits = refl;
              no_client = refl;
              routed = refl;
            },
            all_for,
          ),
        )
  ]

  pub create_handlers_refused :
      (ss : List Bytes) (hs : List (HdlcdClientHandler a))
      → ¬ All (λ s. match_destination s ≢ none) ss
      → create_handlers a ss (collection hs) ≡ ok none
  unfolding create_handlers
  create_handlers_refused [] hs bad = absurd (bad tt)
  create_handlers_refused (s ∷ ss) hs bad = elim (Option-cases (match_destination s)) [
    | inl refused ↦ rw (refused, create_handlers) refl
    | inr ((serial_port_name, host, tcp_port), match) ↦
        let h = made serial_port_name host tcp_port in
        rw (match, create_handlers, create_one hs serial_port_name host tcp_port)
          (create_handlers_refused ss (hs ++ h ∷ []) (λ good. bad ((λ e. cc), good)))
  ]

  all_routed :
      (ss : List Bytes) (hs : List (HdlcdClientHandler a))
      → All₂ IsFor ss hs
      → All (λ (h : HdlcdClientHandler a). h.has_routing ≡ true) hs
  all_routed [] [] f = tt
  all_routed (s ∷ ss) (h ∷ hs) f = (f.0.routed, all_routed ss hs f.1)
  all_routed [] (h ∷ hs) f = elim f [ ]
  all_routed (s ∷ ss) [] f = elim f [ ]

  module _ (w : FrameEndpoint GatewayAccessFrame) (m : SnetServiceMessage) where
    -- What `main` has made when it enters the event loop.
    pub record IsStarted (v : VariablesMap) (destinations : List Bytes) (g : Gateway w m a)
        : Type 0 where
      pub running : IsRunning w m a g
      pub no_clients : g.clients.handlers ≡ []
      pub accepting : g.clients.accepting ≡ true
      pub daemons : List (HdlcdClientHandler a)
      pub all_set : g.daemons.handlers ≡ pointers a daemons
      pub all_for : All₂ IsFor destinations daemons
      pub reliable : g.routing.reliable ≡ v.reliable

    -- With a port and destinations that all match, `main` enters the event loop without a fault:
    -- the listener accepts, no client is connected, the gateway's invariant holds, and each
    -- destination has a handler of its own, in order, which has begun to resolve its host.
    pub start-IsStarted :
        (v : VariablesMap) (port : ℕ) (destinations : List Bytes)
        → v.help ≡ false
        → v.port ≡ some port
        → v.connect ≡ some destinations
        → All (λ s. match_destination s ≢ none) destinations
        → (g : Gateway w m a) × (start a w m v ≡ ok (some g)) × IsStarted v destinations g
    unfolding start create_components Routing.construct Collection.initialize Collection.construct
        HdlcdCollection.initialize HdlcdCollection.construct
    start-IsStarted v port destinations no_help has_port has_connect good =
        let (made_for, created, all_for) = create_handlers-IsFor destinations [] good in
        (
          record {
            clients = record {
              address_pool = AddressPool.construct;
              handlers = [];
              has_routing = true;
              accepting = true;
              next_id = 0;
            };
            daemons = collection made_for;
            routing = record {
              has_clients = true;
              has_hdlcd = true;
              trace = v.trace;
              reliable = v.reliable;
            };
          },
          rw (no_help, has_port, has_connect, created) refl,
          record {
            running = record {
              valid = record {
                all_open = tt;
                identities = omega arith;
                pool = Leases.construct-IsValid;
              };
              has_routing = refl;
              daemons = (made_for, refl, all_routed destinations made_for all_for);
            };
            no_clients = refl;
            accepting = refl;
            daemons = made_for;
            all_set = refl;
            all_for = all_for;
            reliable = refl;
          },
        )

    -- What `main` needs to enter the event loop.
    pub record IsUsable (v : VariablesMap) : Type 0 where
      pub no_help : v.help ≡ false
      pub port : v.port ≢ none
      pub connect :
          (ss : List Bytes) × (v.connect ≡ some ss) × All (λ s. match_destination s ≢ none) ss

    pub start_refused : (v : VariablesMap) → ¬ IsUsable v → start a w m v ≡ ok none
    unfolding start create_components Routing.construct Collection.initialize Collection.construct
        HdlcdCollection.initialize HdlcdCollection.construct
    start_refused v unusable = elim (Bool-cases v.help) [
      | inl help ↦ rw (help, start) refl
      | inr no_help ↦ elim (Option-cases v.port) [
        | inl no_port ↦ rw (no_help, start, no_port) refl
        | inr (port, has_port) ↦ elim (Option-cases v.connect) [
          | inl no_connect ↦ rw (no_help, start, has_port, no_connect) refl
          | inr (ss, has_connect) ↦
              let refused = create_handlers_refused ss [] (λ good. unusable (record {
                no_help = no_help;
                port = λ e. cc;
                connect = (ss, has_connect, good);
              })) in
              rw (no_help, start, has_port, has_connect, refused) refl
        ]
      ]
    ]
