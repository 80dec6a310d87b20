-- ===== src/Main/Exit.antt =====
-- main-snet-gateway.cpp: `main` from its start to what it returns.
use snet_gateway.Main.{start}
use snet_gateway.Prelude.{ℕ, ◌≤◌, ◌≡◌, refl, some, none, List, arith, All, Option-cases, inl, inr}
use snet_gateway.Prelude.Result.{ok}
use snet_gateway.External.FrameEndpoint.{FrameEndpoint}
use snet_gateway.External.Message.{SnetServiceMessage, MessageLaws, MessageSizes}
use snet_gateway.External.HdlcdClient.{HdlcdAccess}
use snet_gateway.AddressPool.Leases.{max_clients}
use snet_gateway.Protocol.{GatewayAccessFrame}
use snet_gateway.HdlcdCollection.{Dropped}
use snet_gateway.Gateway.{Gateway, Event, run}
use snet_gateway.Gateway.Totality.{IsBenignEvent}
use snet_gateway.Gateway.Termination.{run-IsOk}
use snet_gateway.Gateway.Runs.{IsNeverFull}
use snet_gateway.Collection.Invariant.{IsValid-length}
use snet_gateway.Main.{VariablesMap, main, process, end_loop}
use snet_gateway.Main.Starting.{IsUsable, start-IsStarted, start_refused}
use snet_gateway.Main.Ending.{IsShutDown, shutdown-IsShutDown}

module _ (w : FrameEndpoint GatewayAccessFrame) (m : SnetServiceMessage) (a : HdlcdAccess)
    (laws : MessageLaws m) (sizes : MessageSizes m) where
  -- `main` returns, whatever benign events the event loop delivers, in any order, with a free address
  -- whenever a connection comes. Benign means that frames are complete and an escaped one has its
  -- request identifier, that no client's payload and no data of a daemon is longer than 4093 bytes, and
  -- that a request for an address has its UUID. Without a port or destinations, with one that does not
  -- match, or asked for help, it returns 1 and the event loop is not entered. Otherwise the gateway that
  -- it starts gets through all events, and it returns 0 with each HDLCd handler closed that the gateway
  -- then has, and the client of each that has one, with the pointers to them emptied, with the listener
  -- closed, with no gateway client registered, and with every address that was ever leased released. As
  -- many rounds of the loop over the clients as there are addresses are enough.
  pub main_returns :
      (fuel : ℕ) (v : VariablesMap) (events : List (Event w m a))
      → All (IsBenignEvent w m a laws sizes) events
      → ((g : Gateway w m a) → start a w m v ≡ ok (some g) → IsNeverFull w m a events g)
      → max_clients ≤ fuel
      → (¬ IsUsable a w m v → main a w m fuel v events ≡ some (ok (1, none)))
        × (IsUsable a w m v
            → (g g' end : Gateway w m a) × (dropped : List (Dropped a)) × (start a w m v
                ≡ ok (some g))
              × (run w m a events g ≡ ok g')
              × (main a w m fuel v events ≡ some (ok (0, some (dropped, end))))
              × IsShutDown w m a g' dropped end)
  unfolding main process end_loop
  main_returns fuel v events benign few enough = (
    (λ unusable. rw (start_refused a w m v unusable, main) refl),
    (λ usable. elim (Option-cases v.port) [
      | inl no_port ↦ absurd (usable.port no_port)
      | inr (port, has_port) ↦
          let (ss, has_connect, good) = usable.connect in
          let (g, started, fresh) =
            start-IsStarted a w m v port ss usable.no_help has_port has_connect good in
          let (g', ran, running) =
            run-IsOk w m a laws sizes events g benign (few g started) fresh.running in
          let bound = IsValid-length w g'.clients running.valid in
          let (end, dropped, shut, done) =
            shutdown-IsShutDown w m a fuel g' running (omega arith) in
          (g, g', end, dropped, started, ran, rw (started, main, ran, process, shut) refl, done)
    ]),
  )
