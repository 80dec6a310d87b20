-- ===== src/Gateway/Runs.antt =====
-- The gateway as a whole: its clients have addresses of their own after any events.
use snet_gateway.Prelude.{
  ℕ, ◌≤◌, ◌<◌, ◌≡◌, arith, length, All, List, [], ◌∷◌, ◌+◌, if◌then◌else◌, leb,
}
use mathlib.Core.Path.{subst}
use snet_gateway.Prelude.Result.{ok, fault, >>=-eq-ok}
use snet_gateway.External.FrameEndpoint.{FrameEndpoint}
use snet_gateway.External.Message.{SnetServiceMessage}
use snet_gateway.External.HdlcdClient.{HdlcdAccess}
use snet_gateway.AddressPool.Leases
use snet_gateway.AddressPool.Leases.{occurrences, max_clients, first_address, end_address}
use snet_gateway.Protocol.{GatewayAccessFrame}
use snet_gateway.Collection.Invariant.{IsOpen, addresses}
use snet_gateway.Gateway.{
  Gateway, Event, accepted, frame_read, client_closed, data_read, completed, handle, run,
}
use snet_gateway.Gateway.Invariant.{
  IsRunning, on_accept-IsRunning, on_frame-IsRunning, on_closed-IsRunning, on_data-IsRunning,
  on_completion-IsRunning,
}

module _ (w : FrameEndpoint GatewayAccessFrame) (m : SnetServiceMessage) (a : HdlcdAccess) where
  -- A connection comes while there is an address for it.
  abbrev pub HasRoom : Event w m a → Gateway w m a → Type 0
  HasRoom (accepted o) g = length g.clients.handlers < max_clients
  HasRoom (frame_read id frame) g = Unit
  HasRoom (client_closed id) g = Unit
  HasRoom (data_read index bytes) g = Unit
  HasRoom (completed index event) g = Unit

  -- So it is with all of these events, as long as none faults.
  abbrev pub IsNeverFull : List (Event w m a) → Gateway w m a → Type 0
  IsNeverFull [] g = Unit
  IsNeverFull (e ∷ es) g =
      HasRoom e g × elim (handle w m a e g) [ fault x ↦ Unit | ok t ↦ IsNeverFull es t ]

  -- An event that does not fault.
  pub data Step (g g' : Gateway w m a) : Type 0 where
    step : (e : Event w m a) → HasRoom e g → handle w m a e g ≡ ok g' → Step g g'

  pub data Run (g : Gateway w m a) : Gateway w m a → Type 0 where
    begin : Run g g
    next : {t u : Gateway w m a} → Run g t → Step t u → Run g u

  pub handle-IsRunning :
      (e : Event w m a) (g g' : Gateway w m a)
      → HasRoom e g
      → handle w m a e g ≡ ok g'
      → IsRunning w m a g
      → IsRunning w m a g'
  unfolding handle
  handle-IsRunning (accepted o) g g' few e v = on_accept-IsRunning w m a o g g' few e v
  handle-IsRunning (frame_read id frame) g g' few e v = on_frame-IsRunning w m a id frame g g' e v
  handle-IsRunning (client_closed id) g g' few e v = on_closed-IsRunning w m a id g g' e v
  handle-IsRunning (data_read index bytes) g g' few e v =
      on_data-IsRunning w m a index bytes g g' e v
  handle-IsRunning (completed index event) g g' few e v =
      subst (IsRunning w m a) (ground arith) (on_completion-IsRunning w m a index event g v)

  pub run-IsRunning :
      (es : List (Event w m a)) (g g' : Gateway w m a)
      → IsNeverFull es g
      → run w m a es g ≡ ok g'
      → IsRunning w m a g
      → IsRunning w m a g'
  unfolding run
  run-IsRunning [] g g' few e v = subst (IsRunning w m a) (ground arith) v
  run-IsRunning (x ∷ es) g g' few e v =
      let (t, done, rest) = >>=-eq-ok (handle w m a x g) _ e in
      run-IsRunning es t g' (rw done at few.1) rest (handle-IsRunning x g t few.0 done v)

  pub Run-IsRunning : {g g' : Gateway w m a} → Run g g' → IsRunning w m a g → IsRunning w m a g'
  Run-IsRunning begin v = v
  Run-IsRunning (next r (step e few h)) v = handle-IsRunning e _ _ few h (Run-IsRunning r v)

  -- After any events of a running gateway that do not fault, in any order, and with never more
  -- clients at once than there are addresses, no two connected clients have the same address, and every
  -- client's address lies in the range of the clients. The handler of every client is registered,
  -- holds the collection, a lease and a frame endpoint, and its protocol has both of its callbacks.
  pub Run-unique :
      (g g' : Gateway w m a)
      → IsRunning w m a g
      → Run g g'
      → ((address : ℕ)
          → (occurrences address (addresses w g'.clients.handlers) ≤ 1)
            × (0 < occurrences address (addresses w g'.clients.handlers)
                → (first_address ≤ address) × (address < end_address)))
        × All (IsOpen w) g'.clients.handlers
  Run-unique g g' v r =
      let u = Run-IsRunning r v in
      ((λ address. Leases.IsValid-unique _ _ address u.valid.pool), u.valid.all_open)

  -- No address is lost and none is doubled: after any events of a running gateway that do not fault,
  -- with never more clients at once than there are addresses, each address of the clients' range is
  -- either that of exactly one client, or released exactly once, or was never handed out.
  pub Run-conserved :
      (g g' : Gateway w m a) (address : ℕ)
      → IsRunning w m a g
      → Run g g'
      → first_address ≤ address
      → address < end_address
      → let p = g'.clients.address_pool in
        occurrences address (addresses w g'.clients.handlers)
          + occurrences address p.released_addresses
          + (if leb p.next_free_address address then 1 else 0)
        ≡ 1
  Run-conserved g g' address v r low high =
      let u = (Run-IsRunning r v).valid.pool in ground (arith, u.exact address, u.bound)
