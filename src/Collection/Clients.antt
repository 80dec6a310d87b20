-- ===== src/Collection/Clients.antt =====
-- GatewayAccessServerHandlerCollection.cpp: the handlers of a collection as the clients they serve.
use snet_gateway.Collection.{Bool}
use mathlib.Core.List.{map-append}
use mathlib.Core.Path.{subst}
use snet_gateway.Prelude.{
  ℕ, suc, ◌<◌, ◌≡◌, ◌≢◌, refl, ap, ◌∙◌, true, some, List, [], ◌∷◌, map, length, arith, All,
  Bool-cases, ◌==◌, inl, inr, Bool,
}
use snet_gateway.Prelude.Result.{ok, >>=-eq-ok}
use snet_gateway.External.FrameEndpoint.{FrameEndpoint}
use snet_gateway.External.Message.{SnetServiceMessage}
use snet_gateway.Protocol.{GatewayAccessFrame}
use snet_gateway.AddressPool.{obtain_address_lease}
use snet_gateway.AddressPool.Leases.{max_clients}
use snet_gateway.PublishSubscribe
use snet_gateway.Spec
use snet_gateway.Spec.{Client, IsTurn, ActsAs, turns, leaves, Joins, client_with}
use snet_gateway.Handler
use snet_gateway.Handler.{GatewayAccessServerHandler}
use snet_gateway.Handler.View.{view, send-IsSame, IsSame-view}
use snet_gateway.Collection.{
  GatewayAccessServerHandlerCollection, send, send_all, remove, on_accept,
}
use snet_gateway.Collection.Identity.{find, find-Placed, replace, Lacks}
use snet_gateway.Collection.Invariant.{
  IsValid, addresses, accepted, accepted-fresh, address_of, after_accept, on_accept_lem,
}

module _ (w : FrameEndpoint GatewayAccessFrame) where
  abbrev pub clients : List (GatewayAccessServerHandler w) → List Client
  clients = map (view w)

  clients-addresses :
      (hs : List (GatewayAccessServerHandler w)) → Spec.addresses (clients hs) ≡ addresses w hs
  clients-addresses [] = refl
  clients-addresses (h ∷ hs) = rw (clients-addresses hs) refl

  -- The client with an identity is the one of the handler that is found.
  pub find-client_with :
      (id : ℕ) (h : GatewayAccessServerHandler w) (hs : List (GatewayAccessServerHandler w))
      → find w id hs ≡ some h
      → client_with id (clients hs) ≡ some (view w h)
  unfolding find
  find-client_with id h [] e = cc
  find-client_with id h (g ∷ hs) e = ground (arith, find-client_with id h hs)

  pub client_with-find :
      (id : ℕ) (c : Client) (hs : List (GatewayAccessServerHandler w))
      → client_with id (clients hs) ≡ some c
      → (h : GatewayAccessServerHandler w) × (find w id hs ≡ some h) × (view w h ≡ c)
  unfolding find
  client_with-find id c [] e = cc
  client_with-find id c (g ∷ hs) e = elim (Bool-cases (g.id == id)) [
    | inl here ↦ (g, rw here refl, ground (arith, here))
    | inr later ↦
        let (h, found, same) = client_with-find id c hs (rw later at e) in (h, rw later found, same)
  ]

  pub length-clients : (hs : List (GatewayAccessServerHandler w)) → length (clients hs) ≡ length hs
  length-clients [] = refl
  length-clients (h ∷ hs) = ap suc (length-clients hs)

  pub clients-Lacks :
      (id : ℕ) (hs : List (GatewayAccessServerHandler w))
      → Lacks w id hs
      → All (λ (c : Client). c.id ≢ id) (clients hs)
  clients-Lacks id [] n = tt
  clients-Lacks id (h ∷ hs) n = (n.0, clients-Lacks id hs n.1)

  -- A turn of the client that is found, and its leave.
  pub replace-ActsAs :
      (R : ℕ → Bool → Type 0) (c : GatewayAccessServerHandlerCollection w) (id : ℕ)
      (h h' : GatewayAccessServerHandler w)
      → find w id c.handlers ≡ some h
      → IsValid w c
      → IsTurn R (view w h) (view w h')
      → ActsAs id R (clients c.handlers) (clients (replace w h' c.handlers))
  replace-ActsAs R c id h h' found v turn =
      let p = find-Placed w id 0 c.next_id h c.handlers found v.identities in
      turns (clients p.before) (clients p.after) (view w h) (view w h') p.identity
        (ap clients p.place ∙ map-append (view w) p.before (h ∷ p.after))
        (ap clients (p.replaced h' (turn.id ∙ p.identity))
          ∙ map-append (view w) p.before (h' ∷ p.after))
        turn

  pub remove-ActsAs :
      (R : ℕ → Bool → Type 0) (c : GatewayAccessServerHandlerCollection w) (id : ℕ)
      (h : GatewayAccessServerHandler w)
      → find w id c.handlers ≡ some h
      → IsValid w c
      → ActsAs id R (clients c.handlers) (clients (remove w id c.handlers))
  remove-ActsAs R c id h found v =
      let p = find-Placed w id 0 c.next_id h c.handlers found v.identities in
      leaves (clients p.before) (clients p.after) (view w h) p.identity
        (ap clients p.place ∙ map-append (view w) p.before (h ∷ p.after))
        (ap clients p.removed ∙ map-append (view w) p.before p.after)

  -- An accepted connection joins.
  pub on_accept-Joins :
      (c c' : GatewayAccessServerHandlerCollection w) (e : w.Endpoint)
      → c.has_routing ≡ true
      → length c.handlers < max_clients
      → IsValid w c
      → on_accept w (some e) c ≡ ok c'
      → Joins (clients c.handlers) (clients c'.handlers)
  unfolding PublishSubscribe.construct PublishSubscribe.is_service_id_for_me
  on_accept-Joins c c' e routed few v k =
      let same : after_accept w c e ≡ c' = cc (on_accept_lem w c e routed, k) in
      subst
        (λ (d : GatewayAccessServerHandlerCollection w).
          Joins (clients c.handlers) (clients d.handlers))
        same
        (let l = (obtain_address_lease c.address_pool).0 in
          let h = accepted w c.next_id l e in
          let (fresh, low, high) = accepted-fresh w c e few v (address_of w h) refl in
          record {
            newcomer = view w h;
            joined = map-append (view w) c.handlers (h ∷ []);
            fresh = rw (clients-addresses c.handlers) fresh;
            in_range = (low, high);
            mode = refl;
            wants = λ j. refl;
          })

  module _ (m : SnetServiceMessage) where
    send_all-clients :
        (x : m.Message) (hs hs' : List (GatewayAccessServerHandler w))
        → send_all w m hs x ≡ ok hs'
        → clients hs' ≡ clients hs
    unfolding send_all
    send_all-clients x [] [] e = refl
    send_all-clients x [] (h' ∷ hs') e = absurd (ground arith)
    send_all-clients x (h ∷ hs) hs' e =
        let ((taken, h1), sent, rest) = >>=-eq-ok (Handler.send w m h x) _ e in
        let (hs1, all_sent, last) = >>=-eq-ok (send_all w m hs x) _ rest in
        let same : h1 ∷ hs1 ≡ hs' = ground arith in
        let first = IsSame-view w h h1 (send-IsSame w m h h1 x taken sent) in
        let others = send_all-clients x hs hs1 all_sent in
        subst (λ (gs : List (GatewayAccessServerHandler w)). clients gs ≡ clients (h ∷ hs)) same
          (rw (first, others) refl)

    -- A packet that is sent to the clients changes nothing about them.
    pub send-clients :
        (c c' : GatewayAccessServerHandlerCollection w) (x : m.Message)
        → send w m c x ≡ ok c'
        → clients c'.handlers ≡ clients c.handlers
    unfolding send
    send-clients c c' x e =
        let (hs, sent, last) = >>=-eq-ok (send_all w m c.handlers x) _ e in
        let same : record c { handlers = hs } ≡ c' = ground arith in
        subst
          (λ (d : GatewayAccessServerHandlerCollection w). clients d.handlers ≡ clients c.handlers)
          same (send_all-clients x c.handlers hs sent)
