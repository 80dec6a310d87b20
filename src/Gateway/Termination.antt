-- ===== src/Gateway/Termination.antt =====
-- The gateway as a whole: the event loop gets through all of its events.
use snet_gateway.Prelude.{
  Bool, ℕ, ◌≤◌, ◌+◌, ◌≡◌, refl, ap, inl, inr, some, none, List, [], ◌∷◌, arith, length,
  length-append, All,
}
use snet_gateway.Prelude.Result.{ok, Result-cases}
use snet_gateway.External.FrameEndpoint.{FrameEndpoint}
use snet_gateway.External.Message.{SnetServiceMessage, MessageLaws, MessageSizes}
use snet_gateway.External.HdlcdClient.{HdlcdAccess}
use snet_gateway.AddressPool.Leases.{max_clients}
use snet_gateway.Protocol.{GatewayAccessFrame}
use snet_gateway.Spec.{Client, ActsAs, rests, turns, leaves}
use snet_gateway.Collection.Clients.{length-clients}
use snet_gateway.Gateway.{
  Gateway, Event, accepted, frame_read, client_closed, data_read, completed, handle, run,
}
use snet_gateway.Gateway.Invariant.{IsRunning}
use snet_gateway.Gateway.Runs.{HasRoom, IsNeverFull, handle-IsRunning}
use snet_gateway.Gateway.Acts.{clients_of}
use snet_gateway.Gateway.Refinement.{IsAllowed, handle_refines}
use snet_gateway.Gateway.Totality.{IsBenignEvent, handle-IsOk}

ActsAs-length :
    {id : ℕ} {R : ℕ → Bool → Type 0} {cs cs' : List Client}
    → ActsAs id R cs cs'
    → length cs' ≤ length cs
ActsAs-length (rests e) = omega (arith, ap length e)
ActsAs-length (turns xs ys c c' k e e' t) =
    omega (arith, ap length e, ap length e', length-append xs (c ∷ ys), length-append xs (c' ∷ ys))
ActsAs-length (leaves xs ys c k e e') =
    omega (arith, ap length e, ap length e', length-append xs (c ∷ ys), length-append xs ys)

module _ (w : FrameEndpoint GatewayAccessFrame) (m : SnetServiceMessage) (a : HdlcdAccess) where
  -- How often a connection comes.
  abbrev arrival : Event w m a → ℕ
  arrival (accepted o) = 1
  arrival (frame_read id frame) = 0
  arrival (client_closed id) = 0
  arrival (data_read index bytes) = 0
  arrival (completed index event) = 0

  abbrev pub arrivals : List (Event w m a) → ℕ
  arrivals [] = 0
  arrivals (e ∷ es) = arrival e + arrivals es

  IsAllowed-length :
      (e : Event w m a) (cs cs' : List Client)
      → IsAllowed w m a e cs cs'
      → length cs' ≤ length cs + arrival e
  IsAllowed-length (accepted none) cs cs' k = omega (arith, ap length k)
  IsAllowed-length (accepted (some x)) cs cs' k =
      omega (arith, ap length k.joined, length-append cs (k.newcomer ∷ []))
  IsAllowed-length (frame_read id frame) cs cs' k = omega (arith, ActsAs-length k)
  IsAllowed-length (client_closed id) cs cs' k = omega (arith, ActsAs-length k.0)
  IsAllowed-length (data_read index bytes) cs cs' k = omega (arith, ap length k)
  IsAllowed-length (completed index event) cs cs' k = omega (arith, ap length k)

  arrival-HasRoom :
      (e : Event w m a) (g : Gateway w m a)
      → length g.clients.handlers + arrival e ≤ max_clients
      → HasRoom w m a e g
  arrival-HasRoom (accepted o) g few = omega arith
  arrival-HasRoom (frame_read id frame) g few = tt
  arrival-HasRoom (client_closed id) g few = tt
  arrival-HasRoom (data_read index bytes) g few = tt
  arrival-HasRoom (completed index event) g few = tt

  -- An event that does not fault, while there is an address for it and for `n` connections more.
  pub step-IsAllowed :
      (e : Event w m a) (n : ℕ) (g g' : Gateway w m a)
      → length g.clients.handlers + (arrival e + n) ≤ max_clients
      → IsRunning w m a g
      → handle w m a e g ≡ ok g'
      → IsAllowed w m a e (clients_of w m a g) (clients_of w m a g')
        × (length g'.clients.handlers + n ≤ length g.clients.handlers + (arrival e + n))
        × IsRunning w m a g'
  step-IsAllowed e n g g' few v done =
      let room = arrival-HasRoom e g (omega arith) in
      let allowed = handle_refines w m a e g g' v room done in
      (
        allowed,
        omega (
          arith,
          IsAllowed-length e (clients_of w m a g) (clients_of w m a g') allowed,
          length-clients w g.clients.handlers,
          length-clients w g'.clients.handlers,
        ),
        handle-IsRunning w m a e g g' room done v,
      )

  -- It is enough that not more connections come in all than there are addresses left.
  pub arrivals-IsNeverFull :
      (es : List (Event w m a)) (g : Gateway w m a)
      → length g.clients.handlers + arrivals es ≤ max_clients
      → IsRunning w m a g
      → IsNeverFull w m a es g
  arrivals-IsNeverFull [] g few v = tt
  arrivals-IsNeverFull (e ∷ es) g few v = elim (Result-cases (handle w m a e g)) [
    | inl (x, faults) ↦ (arrival-HasRoom e g (omega arith), rw faults tt)
    | inr (t, done) ↦
        let (allowed, bound, u) = step-IsAllowed e (arrivals es) g t few v done in
        (arrival-HasRoom e g (omega arith), rw done (arrivals-IsNeverFull es t (omega arith) u))
  ]

  module _ (laws : MessageLaws m) (sizes : MessageSizes m) where
    -- The event loop of a running gateway gets through any list of events without a fault, in any
    -- order, and the gateway is running after them. It takes that there is a free address whenever a
    -- connection comes, that the frames are complete and an escaped one has its request identifier,
    -- that no client's payload and no data of a daemon is longer than 4093 bytes, and that each
    -- request of a client for an address has its UUID.
    pub run-IsOk :
        (es : List (Event w m a)) (g : Gateway w m a)
        → All (IsBenignEvent w m a laws sizes) es
        → IsNeverFull w m a es g
        → IsRunning w m a g
        → (g' : Gateway w m a) × (run w m a es g ≡ ok g') × IsRunning w m a g'
    unfolding run
    run-IsOk [] g benign few v = (g, refl, v)
    run-IsOk (e ∷ es) g benign few v =
        let (t, done) = handle-IsOk w m a laws sizes e g few.0 benign.0 v in
        let later : IsNeverFull w m a es t = rw done at few.1 in
        let (g', ran, running) =
          run-IsOk es t benign.1 later (handle-IsRunning w m a e g t few.0 done v) in
        (g', rw done ran, running)
