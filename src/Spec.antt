-- ===== src/Spec.antt =====
-- What the gateway promises about its clients, without frames, packets, pools and endpoints
-- (GatewayAccessServer and main-snet-gateway.cpp).
use snet_gateway.Prelude.{
  ℕ, ◌≤◌, ◌<◌, ◌≡◌, ◌≢◌, ◌⊎◌, Bool, false, List, [], ◌∷◌, ◌++◌, map, if◌then◌else◌, Option, none,
  ◌==◌, some,
}
use snet_gateway.AddressPool.Leases.{occurrences, first_address, end_address}
use snet_gateway.Protocol.{FramingMode, unknown}
use snet_gateway.PublishSubscribe.Subscriptions.{covers}

-- A connected client, as it sees itself: its address, the framing mode that it has chosen, and
-- whether it wants the packets of a service.
pub record Client : Type 0 where
  pub id : ℕ
  pub address : ℕ
  pub mode : FramingMode
  pub wants : ℕ → Bool

abbrev pub addresses : List Client → List ℕ
addresses = map (λ (c : Client). c.address)

-- A set of services after a request to add one of them, or all, or to remove it. `R i b` says that it
-- may be the request for the service `i`, to add it if `b` holds.
abbrev pub IsAsked : (ℕ → Bool → Type 0) → (ℕ → Bool) → (ℕ → Bool) → Type 0
IsAsked R s s' = (i : ℕ) × (b : Bool) × R i b × ((j : ℕ) → s' j ≡ (if covers i j then b else s j))

-- The client with an identity.
abbrev pub client_with : ℕ → List Client → Option Client
client_with id [] = none
client_with id (c ∷ cs) = if c.id == id then some c else client_with id cs

-- What a client can do to itself by one frame that asks for these requests: it chooses a mode if it
-- has none, and at most one of the requests changes its subscriptions. Its address stays.
pub record IsTurn (R : ℕ → Bool → Type 0) (c c' : Client) : Type 0 where
  pub id : c'.id ≡ c.id
  pub address : c'.address ≡ c.address
  pub mode : c.mode ≢ unknown → c'.mode ≡ c.mode
  pub wants : ((j : ℕ) → c'.wants j ≡ c.wants j) ⊎ IsAsked R c.wants c'.wants

-- What the client with an identity can do to the clients: nothing, a turn of its own, or leave.
pub data ActsAs (id : ℕ) (R : ℕ → Bool → Type 0) (cs cs' : List Client) : Type 0 where
  rests : cs' ≡ cs → ActsAs id R cs cs'
  turns :
      (xs ys : List Client) (c c' : Client)
      → c.id ≡ id
      → cs ≡ xs ++ c ∷ ys
      → cs' ≡ xs ++ c' ∷ ys
      → IsTurn R c c'
      → ActsAs id R cs cs'
  leaves :
      (xs ys : List Client) (c : Client)
      → c.id ≡ id
      → cs ≡ xs ++ c ∷ ys
      → cs' ≡ xs ++ ys
      → ActsAs id R cs cs'

-- A client that joins: it comes last, with an address of the clients' range that nobody has, no
-- mode, and no subscription.
pub record Joins (cs cs' : List Client) : Type 0 where
  pub newcomer : Client
  pub joined : cs' ≡ cs ++ newcomer ∷ []
  pub fresh : occurrences newcomer.address (addresses cs) ≡ 0
  pub in_range : (first_address ≤ newcomer.address) × (newcomer.address < end_address)
  pub mode : newcomer.mode ≡ unknown
  pub wants : (j : ℕ) → newcomer.wants j ≡ false
