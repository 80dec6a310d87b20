-- ===== src/Collection/Validity.antt =====
-- GatewayAccessServerHandlerCollection.cpp, `Send`: no packet, whatever its destination, disturbs
-- the clients.
use snet_gateway.Prelude.{true, length, ◌<◌, Option, none, some, ◌≡◌, List, [], ◌∷◌, arith, All₂, ℕ}
use mathlib.Core.Path.{subst}
use snet_gateway.Prelude.Result.{ok, >>=-eq-ok}
use snet_gateway.External.FrameEndpoint.{FrameEndpoint}
use snet_gateway.External.Message.{SnetServiceMessage}
use snet_gateway.Protocol.{GatewayAccessFrame}
use snet_gateway.Handler
use snet_gateway.Handler.{GatewayAccessServerHandler}
use snet_gateway.Handler.Keeps.{Keeps, send-Keeps}
use snet_gateway.Collection.{
  GatewayAccessServerHandlerCollection, send, send_all, close_handler, drop_lease, deregister,
  on_accept, register,
}
use snet_gateway.Collection.Invariant.{
  IsOpen, All-Placed, IsValid, on_accept_lem, after_accept, accepted-IsValid,
}
use snet_gateway.AddressPool.Leases.{max_clients}
use snet_gateway.Collection.Identity.{find, find-Placed}
use snet_gateway.Collection.Sending.{All₂-IsValid}

module _ (w : FrameEndpoint GatewayAccessFrame) where
  -- A client that is found is open.
  pub found-IsOpen :
      (c : GatewayAccessServerHandlerCollection w) (id : ℕ) (h : GatewayAccessServerHandler w)
      → find w id c.handlers ≡ some h
      → IsValid w c
      → IsOpen w h × (h.id ≡ id)
  found-IsOpen c id h found v =
      let p = find-Placed w id 0 c.next_id h c.handlers found v.identities in
      ((All-Placed w p.before p.after h (rw p.place at v.all_open)).0, p.identity)

  -- What an accept and the close of a client leave of the collection.
  pub close_handler-has_routing :
      (c c' : GatewayAccessServerHandlerCollection w) (h : GatewayAccessServerHandler w)
      → close_handler w h c ≡ ok c'
      → c'.has_routing ≡ c.has_routing
  unfolding close_handler drop_lease deregister Handler.close
  close_handler-has_routing c c' h e = ground arith

  pub on_accept-has_routing :
      (c c' : GatewayAccessServerHandlerCollection w) (o : Option w.Endpoint)
      → on_accept w o c ≡ ok c'
      → c'.has_routing ≡ c.has_routing
  unfolding on_accept register Handler.construct Handler.start
  on_accept-has_routing c c' none e = ground arith
  on_accept-has_routing c c' (some e') e = ground arith

  pub accept-IsValid :
      (c c' : GatewayAccessServerHandlerCollection w) (o : Option w.Endpoint)
      → c.has_routing ≡ true
      → length c.handlers < max_clients
      → on_accept w o c ≡ ok c'
      → IsValid w c
      → IsValid w c'
  unfolding on_accept
  accept-IsValid c c' none r few e v = subst (IsValid w) (ground arith) v
  accept-IsValid c c' (some x) r few e v =
      let same : after_accept w c x ≡ c' = cc (on_accept_lem w c x r, e) in
      subst (IsValid w) same (accepted-IsValid w c x few v)

  module _ (m : SnetServiceMessage) where
    send_all-Keeps :
        (x : m.Message) (hs hs' : List (GatewayAccessServerHandler w))
        → send_all w m hs x ≡ ok hs'
        → All₂ (Keeps w) hs hs'
    unfolding send_all
    send_all-Keeps x [] [] e = tt
    send_all-Keeps x [] (h' ∷ hs') e = absurd (ground arith)
    send_all-Keeps x (h ∷ hs) hs' e =
        let ((taken, h1), sent, rest) = >>=-eq-ok (Handler.send w m h x) _ e in
        let (hs1, all_sent, last) = >>=-eq-ok (send_all w m hs x) _ rest in
        let same : h1 ∷ hs1 ≡ hs' = ground arith in
        subst (All₂ (Keeps w) (h ∷ hs)) same
          (send-Keeps w m h h1 x taken sent, send_all-Keeps x hs hs1 all_sent)

    -- Whatever is sent to the clients, the collection stays valid.
    pub send-IsValid :
        (c c' : GatewayAccessServerHandlerCollection w) (x : m.Message)
        → send w m c x ≡ ok c'
        → IsValid w c
        → IsValid w c' × (c'.has_routing ≡ c.has_routing)
    unfolding send
    send-IsValid c c' x e v =
        let (hs, sent, last) = >>=-eq-ok (send_all w m c.handlers x) _ e in
        let valid = All₂-IsValid w c hs (send_all-Keeps x c.handlers hs sent) v in
        let same : record c { handlers = hs } ≡ c' = ground arith in
        (subst (IsValid w) same valid, cc)
