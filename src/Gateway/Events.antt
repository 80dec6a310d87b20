-- ===== src/Gateway/Events.antt =====
-- What the events of the gateway keep: the handlers of the clients, one change at a time.
use snet_gateway.Prelude.{ℕ, ◌≡◌, refl, ◌∙◌, some, List, [], ◌∷◌, ◌++◌, arith, All₂}
use snet_gateway.Prelude.Result.{ok}
use snet_gateway.External.FrameEndpoint.{FrameEndpoint}
use snet_gateway.Protocol
use snet_gateway.Protocol.{GatewayAccessFrame, GatewayAccessProtocol, Callback}
use snet_gateway.Handler.{GatewayAccessServerHandler}
use snet_gateway.Handler.Keeps.{Keeps, Keeps-refl, KeepsProtocol}
use snet_gateway.Collection.{GatewayAccessServerHandlerCollection}
use snet_gateway.Collection.Identity.{find, find-Placed, replace}
use snet_gateway.Collection.Invariant.{IsValid}
use snet_gateway.Collection.Sending.{All₂-IsValid}

module _ (w : FrameEndpoint GatewayAccessFrame) where
  pub on_closed-Keeps :
      (p q : GatewayAccessProtocol w) (calls : List Callback)
      → Protocol.on_closed w p ≡ ok (calls, q)
      → KeepsProtocol w p q
  unfolding Protocol.on_closed Protocol.close
  on_closed-Keeps p q calls e = ground arith

  -- A frame leaves the callbacks and the endpoint in place.
  pub on_frame-Keeps :
      (p q : GatewayAccessProtocol w) (frame : GatewayAccessFrame) (calls : List Callback)
      → Protocol.on_frame w p frame ≡ ok (calls, q)
      → KeepsProtocol w p q
  unfolding Protocol.on_frame Protocol.close
  on_frame-Keeps p q (Protocol.escaped f) calls e = ground arith
  on_frame-Keeps p q (Protocol.length_based f) calls e = ground arith

  pub Keeps-protocol :
      (h : GatewayAccessServerHandler w) (q : GatewayAccessProtocol w)
      → KeepsProtocol w h.protocol q
      → Keeps w h (record h { protocol = q })
  Keeps-protocol h q k = record {
    id = refl;
    registered = refl;
    has_collection = refl;
    address_lease = refl;
    protocol = k;
  }

  All₂-Keeps-refl : (hs : List (GatewayAccessServerHandler w)) → All₂ (Keeps w) hs hs
  All₂-Keeps-refl [] = tt
  All₂-Keeps-refl (h ∷ hs) = (Keeps-refl w h, All₂-Keeps-refl hs)

  All₂-Keeps-one :
      (xs ys : List (GatewayAccessServerHandler w)) (h h' : GatewayAccessServerHandler w)
      → Keeps w h h'
      → All₂ (Keeps w) (xs ++ h ∷ ys) (xs ++ h' ∷ ys)
  All₂-Keeps-one [] ys h h' k = (k, All₂-Keeps-refl ys)
  All₂-Keeps-one (x ∷ xs) ys h h' k = (Keeps-refl w x, All₂-Keeps-one xs ys h h' k)

  -- A handler that is found and changed in place keeps the collection valid.
  pub replace-IsValid :
      (c : GatewayAccessServerHandlerCollection w) (id : ℕ) (h h' : GatewayAccessServerHandler w)
      → find w id c.handlers ≡ some h
      → Keeps w h h'
      → IsValid w c
      → IsValid w (record c { handlers = replace w h' c.handlers })
  replace-IsValid c id h h' found k v =
      let p = find-Placed w id 0 c.next_id h c.handlers found v.identities in
      let kept : All₂ (Keeps w) c.handlers (replace w h' c.handlers) =
        rw (p.replaced h' (k.id ∙ p.identity))
          (rw p.place (All₂-Keeps-one p.before p.after h h' k)) in
      All₂-IsValid w c (replace w h' c.handlers) kept v
