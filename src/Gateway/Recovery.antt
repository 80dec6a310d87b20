-- ===== src/Gateway/Recovery.antt =====
-- The gateway as a whole: the completions that bring the connection to an HDLC daemon up again.
use snet_gateway.Prelude.{
  ℕ, zero, suc, ◌≡◌, refl, ap, ◌∙◌, Bool, true, false, Option, none, some, List, [], ◌∷◌, arith,
  get_elem?, change_at, get_elem?-change_at,
}
use snet_gateway.External.FrameEndpoint.{FrameEndpoint}
use snet_gateway.External.Message.{SnetServiceMessage}
use snet_gateway.External.HdlcdClient.{HdlcdAccess}
use snet_gateway.Protocol.{GatewayAccessFrame}
use snet_gateway.Hdlcd
use snet_gateway.Hdlcd.{HdlcdClientHandler}
use snet_gateway.Hdlcd.Progress.{Link, down, connecting, up}
use snet_gateway.Gateway.{
  Completion, timer, resolved, connected, complete, complete_at, on_completion, completed, handle,
}
use snet_gateway.Gateway.Links.{
  link_after, CanComplete, World, happens, WorldRun, begin, next, Serves,
}

module _ (w : FrameEndpoint GatewayAccessFrame) (m : SnetServiceMessage) (a : HdlcdAccess) where
  -- What is to complete until the connection is up.
  abbrev pub recovery : Bool → Link → List Completion
  recovery waiting up = []
  recovery waiting connecting = connected true ∷ []
  recovery true down = timer false ∷ resolved false ∷ connected true ∷ []
  recovery false down = resolved false ∷ connected true ∷ []

  abbrev CompleteInTurn : List Completion → HdlcdClientHandler a → Link → Type 0
  CompleteInTurn [] h l = l ≡ up
  CompleteInTurn (event ∷ events) h l =
      CanComplete w m a event h l
      × CompleteInTurn events (complete w m a event h) (link_after event l)

  recovery-CompleteInTurn :
      (waiting : Bool) (h : HdlcdClientHandler a) (l : Link)
      → h.waiting ≡ waiting
      → Serves w m a h l
      → CompleteInTurn (recovery waiting l) h l
  unfolding complete Hdlcd.on_timer Hdlcd.resolve_destination
  recovery-CompleteInTurn waiting h up e v = refl
  recovery-CompleteInTurn waiting h connecting e v = (refl, refl)
  recovery-CompleteInTurn true h down e v = (e, ((λ k. omega arith), (refl, refl)))
  recovery-CompleteInTurn false h down e v = ((λ k. ground (arith, v.one)), (refl, refl))

  pub WorldRun-append :
      {t u v : World w m a} → WorldRun w m a t u → WorldRun w m a u v → WorldRun w m a t v
  WorldRun-append r begin = r
  WorldRun-append r (next q n) = next (WorldRun-append r q) n

  get_elem?-complete_at :
      (index : ℕ) (event : Completion) (hs : List (Option (HdlcdClientHandler a)))
      (h : HdlcdClientHandler a)
      → get_elem? hs index ≡ some (some h)
      → get_elem? (complete_at w m a index event hs) index ≡ some (some (complete w m a event h))
  unfolding complete_at
  get_elem?-complete_at index event [] h e = absurd (ground arith)
  get_elem?-complete_at zero event (none ∷ hs) h e = absurd (ground arith)
  get_elem?-complete_at zero event (some g ∷ hs) h e = ground arith
  get_elem?-complete_at (suc index) event (o ∷ hs) h e = get_elem?-complete_at index event hs h e

  abbrev after_completion : World w m a → ℕ → Completion → World w m a
  after_completion u index event = record {
    gateway = on_completion w m a index event u.gateway;
    links = change_at index (link_after event) u.links;
  }

  -- The connection at an index is up, and the gateway clients and the routing have not changed.
  pub record IsUp (u u' : World w m a) (index : ℕ) : Type 0 where
    pub link : get_elem? u'.links index ≡ some up
    pub clients : u'.gateway.clients ≡ u.gateway.clients
    pub routing : u'.gateway.routing ≡ u.gateway.routing

  completes :
      (events : List Completion) (u : World w m a) (index : ℕ) (h : HdlcdClientHandler a) (l : Link)
      → get_elem? u.gateway.daemons.handlers index ≡ some (some h)
      → get_elem? u.links index ≡ some l
      → CompleteInTurn events h l
      → (u' : World w m a) × WorldRun w m a u u' × IsUp u u' index
  unfolding on_completion handle
  completes [] u index h l there link can =
      (u, begin, record { link = link ∙ ap some can; clients = refl; routing = refl })
  completes (event ∷ events) u index h l there link (first, rest) =
      let t = after_completion u index event in
      let (u', r, is_up) =
        completes events t index (complete w m a event h) (link_after event l)
          (get_elem?-complete_at index event u.gateway.daemons.handlers h there)
          (get_elem?-change_at index (link_after event) u.links l link) rest in
      (
        u',
        WorldRun-append
            (next begin (happens (completed index event) (h, l, there, link, first) refl refl)) r,
        record { link = is_up.link; clients = is_up.clients; routing = is_up.routing },
      )

  pub world_recovers :
      (u : World w m a) (index : ℕ) (h : HdlcdClientHandler a) (l : Link)
      → get_elem? u.gateway.daemons.handlers index ≡ some (some h)
      → get_elem? u.links index ≡ some l
      → Serves w m a h l
      → (u' : World w m a) × WorldRun w m a u u' × IsUp u u' index
  world_recovers u index h l there link v =
      completes (recovery h.waiting l) u index h l there link
        (recovery-CompleteInTurn h.waiting h l refl v)
