-- ===== src/Collection/Invariant.antt =====
-- GatewayAccessServerHandlerCollection.cpp: every connected client has an address of its own.
use snet_gateway.Prelude.{
  ℕ, suc, ◌<◌, ◌≡◌, refl, ap, true, Option, none, some, List, [], ◌∷◌, ◌++◌, arith, map, All,
  All-append, length, ◌≢◌, ◌≤◌,
}
use snet_gateway.Prelude.Result.{ok}
use snet_gateway.External.FrameEndpoint.{FrameEndpoint}
use snet_gateway.Protocol
use snet_gateway.Protocol.{GatewayAccessFrame}
use snet_gateway.AddressPool.{
  AddressLease, get_address, obtain_address_lease, destroy_lease, release_address_lease,
}
use snet_gateway.AddressPool.Leases
use snet_gateway.AddressPool.Leases.{occurrences, max_clients, first_address, end_address}
use snet_gateway.PublishSubscribe
use snet_gateway.Handler
use mathlib.Core.List.{map-append}
use snet_gateway.Handler.{GatewayAccessServerHandler}
use snet_gateway.Collection.{
  GatewayAccessServerHandlerCollection, construct, on_accept, close_handler, remove,
}
use snet_gateway.Collection.Identity.{
  Increasing, Increasing-snoc, Increasing-append, Placed, find, find-Placed,
}

module _ (w : FrameEndpoint GatewayAccessFrame) where
  -- A handler between `Start` and `Close`.
  pub record IsOpen (h : GatewayAccessServerHandler w) : Type 0 where
    pub registered : h.registered ≡ true
    pub has_collection : h.has_collection ≡ true
    pub lease : (l : AddressLease) × (h.address_lease ≡ some l)
    pub endpoint : h.protocol.frame_endpoint ≢ none
    pub on_data : h.protocol.has_on_data ≡ true
    pub on_closed : h.protocol.has_on_closed ≡ true

  abbrev pub leased : Option AddressLease → ℕ
  leased none = 0
  leased (some l) = get_address l

  -- The address of a handler, and those of all.
  abbrev pub address_of : GatewayAccessServerHandler w → ℕ
  address_of h = leased h.address_lease

  abbrev pub addresses : List (GatewayAccessServerHandler w) → List ℕ
  addresses = map address_of

  pub record IsValid (c : GatewayAccessServerHandlerCollection w) : Type 0 where
    pub all_open : All IsOpen c.handlers
    pub identities : Increasing w 0 c.handlers c.next_id
    pub pool : Leases.IsValid c.address_pool (addresses c.handlers)

  pub construct-IsValid : IsValid (construct w)
  unfolding construct
  construct-IsValid = record {
    all_open = tt;
    identities = omega arith;
    pool = Leases.construct-IsValid;
  }

  length-addresses : (hs : List (GatewayAccessServerHandler w)) → length (addresses hs) ≡ length hs
  length-addresses [] = refl
  length-addresses (h ∷ hs) = ap suc (length-addresses hs)

  -- There are never more clients than addresses.
  pub IsValid-length :
      (c : GatewayAccessServerHandlerCollection w) → IsValid c → length c.handlers ≤ max_clients
  IsValid-length c v = omega (arith, length-addresses c.handlers, v.pool.size, v.pool.bound)

  -- The handler that `DoAccept` makes.
  abbrev pub accepted : ℕ → AddressLease → w.Endpoint → GatewayAccessServerHandler w
  accepted id l e = record {
    id = id;
    has_collection = true;
    address_lease = some l;
    publish_subscribe_service = PublishSubscribe.construct;
    protocol = record {
      framing_mode = Protocol.unknown;
      frame_endpoint = some (w.start e);
      has_on_data = true;
      has_on_closed = true;
    };
    registered = true;
  }

  abbrev pub after_accept :
      GatewayAccessServerHandlerCollection w → w.Endpoint → GatewayAccessServerHandlerCollection w
  after_accept c e =
      let (l, pool) = obtain_address_lease c.address_pool in
      record c {
        address_pool = pool;
        handlers = c.handlers ++ accepted c.next_id l e ∷ [];
        next_id = suc c.next_id;
      }

  -- A new connection is taken: its handler stands at
  -- the end of the list, registered, with the next identity and a fresh lease of the pool.
  pub on_accept_lem :
      (c : GatewayAccessServerHandlerCollection w) (e : w.Endpoint)
      → c.has_routing ≡ true
      → on_accept w (some e) c ≡ ok (after_accept c e)
  unfolding on_accept Handler.construct Handler.start Protocol.construct Protocol.start
      Protocol.set_on_data_callback Protocol.set_on_closed_callback
  on_accept_lem c e h = ground arith

  pub accepted-IsValid :
      (c : GatewayAccessServerHandlerCollection w) (e : w.Endpoint)
      → length c.handlers < max_clients
      → IsValid c
      → IsValid (after_accept c e)
  accepted-IsValid c e few v =
      let l = (obtain_address_lease c.address_pool).0 in
      let h = accepted c.next_id l e in
      record {
        all_open = All-append IsOpen c.handlers (h ∷ []) v.all_open (
          (record {
            registered = refl;
            has_collection = refl;
            lease = (l, refl);
            endpoint = λ k. cc;
            on_data = refl;
            on_closed = refl;
          }),
          tt,
        );
        identities = Increasing-snoc w 0 c.next_id c.handlers h refl v.identities;
        pool = rw (map-append address_of c.handlers (h ∷ [])) (
            Leases.obtain-IsValid c.address_pool (addresses c.handlers)
              (omega (arith, length-addresses c.handlers)) v.pool);
      }

  -- The address of a new client is that of no other.
  pub accepted-fresh :
      (c : GatewayAccessServerHandlerCollection w) (e : w.Endpoint)
      → length c.handlers < max_clients
      → IsValid c
      → (address : ℕ) → address ≡ get_address (obtain_address_lease c.address_pool).0
      → (occurrences address (addresses c.handlers) ≡ 0)
        × (first_address ≤ address)
        × (address < end_address)
  accepted-fresh c e few v address same = ground (
    arith,
    Leases.IsValid-unique _ _ address (accepted-IsValid c e few v).pool,
    map-append address_of c.handlers
        (accepted c.next_id (obtain_address_lease c.address_pool).0 e ∷ []),
    Leases.occurrences-append address (addresses c.handlers) (address ∷ []),
  )

  -- While at most 49134 clients are connected, a new connection is always taken, and the collection
  -- stays valid: the new client is connected at the end of the list, and its address is that of no
  -- other client.
  pub on_accept-IsValid :
      (c : GatewayAccessServerHandlerCollection w) (e : w.Endpoint)
      → c.has_routing ≡ true
      → length c.handlers < max_clients
      → IsValid c
      → (c' : GatewayAccessServerHandlerCollection w) × (h : GatewayAccessServerHandler w)
        × (on_accept w (some e) c ≡ ok c')
        × (c'.handlers ≡ c.handlers ++ h ∷ [])
        × (occurrences (address_of h) (addresses c.handlers) ≡ 0)
        × IsValid c'
  on_accept-IsValid c e r few v =
      let h = accepted c.next_id (obtain_address_lease c.address_pool).0 e in
      let valid = accepted-IsValid c e few v in
      (
        after_accept c e,
        h,
        on_accept_lem c e r,
        refl,
        (accepted-fresh c e few v (address_of h) refl).0,
        valid,
      )

  pub All-Placed :
      (xs ys : List (GatewayAccessServerHandler w)) (h : GatewayAccessServerHandler w)
      → All IsOpen (xs ++ h ∷ ys)
      → IsOpen h × All IsOpen (xs ++ ys)
  All-Placed [] ys h a = (a.0, a.1)
  All-Placed (x ∷ xs) ys h a = let (o, rest) = All-Placed xs ys h a.1 in (o, (a.0, rest))

  pub close_handler_lem :
      (c : GatewayAccessServerHandlerCollection w) (h : GatewayAccessServerHandler w)
      → IsOpen h
      → close_handler w h c
        ≡ ok (record c {
          address_pool = release_address_lease (address_of h) c.address_pool;
          handlers = remove w h.id c.handlers;
        })
  unfolding close_handler Handler.close destroy_lease
  close_handler_lem c h o =
      let (l, e) = o.lease in ground (arith, o.registered, o.has_collection, e)

  pub closed-IsValid :
      (c : GatewayAccessServerHandlerCollection w) (id : ℕ) (h : GatewayAccessServerHandler w)
      → (p : Placed w id c.handlers h) → IsValid c
      → IsValid (record c {
        address_pool = release_address_lease (address_of h) c.address_pool;
        handlers = p.before ++ p.after;
      })
  closed-IsValid c id h p v =
      let placed : All IsOpen (p.before ++ h ∷ p.after) = rw p.place at v.all_open in
      let grown : Increasing w 0 (p.before ++ h ∷ p.after) c.next_id = rw p.place at v.identities in
      let used : Leases.IsValid c.address_pool (addresses (p.before ++ h ∷ p.after)) =
        rw p.place at v.pool in
      record {
        all_open = (All-Placed p.before p.after h placed).1;
        identities = (Increasing-append w 0 c.next_id p.before p.after h grown).0;
        pool = rw (map-append address_of p.before p.after) (
            Leases.release-IsValid c.address_pool (addresses p.before) (addresses p.after)
              (address_of h) (rw (map-append address_of p.before (h ∷ p.after)) at used));
      }

  -- Closing a connected client always succeeds: the client is off the list, all others are where
  -- they were, its address is back in the pool, and the collection stays valid.
  pub close_handler-IsValid :
      (c : GatewayAccessServerHandlerCollection w) (id : ℕ) (h : GatewayAccessServerHandler w)
      → find w id c.handlers ≡ some h
      → IsValid c
      → (c' : GatewayAccessServerHandlerCollection w) × (close_handler w h c ≡ ok c')
        × ((xs ys : List (GatewayAccessServerHandler w)) × (c.handlers ≡ xs ++ h ∷ ys)
            × (c'.handlers ≡ xs ++ ys))
        × (c'.address_pool ≡ release_address_lease (address_of h) c.address_pool)
        × IsValid c'
  close_handler-IsValid c id h found v =
      let p = find-Placed w id 0 c.next_id h c.handlers found v.identities in
      let placed : All IsOpen (p.before ++ h ∷ p.after) = rw p.place at v.all_open in
      let is_open = (All-Placed p.before p.after h placed).0 in
      (
        record c {
          address_pool = release_address_lease (address_of h) c.address_pool;
          handlers = p.before ++ p.after;
        },
        cc (close_handler_lem c h is_open, p.removed, p.identity),
        (p.before, p.after, p.place, refl),
        refl,
        closed-IsValid c id h p v,
      )
