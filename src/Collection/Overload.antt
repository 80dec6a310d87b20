-- ===== src/Collection/Overload.antt =====
-- GatewayAccessServerHandlerCollection.cpp, `Send`: the packets that are too long for a client.
use snet_gateway.Prelude.{ℕ, ◌≤◌, ◌≡◌, ◌++◌, ◌∷◌, [], List, refl, inl, inr, All, some}
use snet_gateway.Prelude.Result.{ok, fault, assertion_failed, Result-cases}
use snet_gateway.External.FrameEndpoint.{FrameEndpoint}
use snet_gateway.External.Message.{SnetServiceMessage}
use snet_gateway.Protocol.{GatewayAccessFrame}
use snet_gateway.Handler
use snet_gateway.Handler.{GatewayAccessServerHandler}
use snet_gateway.Handler.Overload.{IsOverloaded, overloaded-fault, fault-IsOverloaded}
use snet_gateway.Collection.{GatewayAccessServerHandlerCollection, send, send_all}
use snet_gateway.Collection.Identity.{find, find-Placed}
use snet_gateway.Collection.Invariant.{IsOpen, IsValid}

module _ (w : FrameEndpoint GatewayAccessFrame) (m : SnetServiceMessage) where
  send_all-fault :
      (xs ys : List (GatewayAccessServerHandler w)) (h : GatewayAccessServerHandler w)
      (x : m.Message)
      → 0x4000 ≤ m.dst_ssa x
      → All (IsOpen w) (xs ++ h ∷ ys)
      → IsOverloaded w m x h
      → send_all w m (xs ++ h ∷ ys) x ≡ fault assertion_failed
  unfolding send_all
  send_all-fault [] ys h x high o over =
      let (l, leased) = o.0.lease in
      rw (overloaded-fault w m h l x leased o.0.endpoint high over) refl
  send_all-fault (g ∷ xs) ys h x high o over = elim (Result-cases (Handler.send w m g x)) [
    | inl (e, faults) ↦
        let (l, leased) = o.0.lease in
        let (first, same) = fault-IsOverloaded w m g l x e leased high faults in
        rw (faults, same) refl
    | inr ((taken, g'), sent) ↦ rw sent (rw (send_all-fault xs ys h x high o.1 over) refl)
  ]

  send_all-fits :
      (hs : List (GatewayAccessServerHandler w)) (x : m.Message)
      → 0x4000 ≤ m.dst_ssa x
      → All (IsOpen w) hs
      → All (λ (h : GatewayAccessServerHandler w). ¬ IsOverloaded w m x h) hs
      → (hs' : List (GatewayAccessServerHandler w)) × (send_all w m hs x ≡ ok hs')
  unfolding send_all
  send_all-fits [] x high o fits = ([], refl)
  send_all-fits (h ∷ hs) x high o fits = elim (Result-cases (Handler.send w m h x)) [
    | inl (e, faults) ↦
        let (l, leased) = o.0.lease in
        absurd (fits.0 (fault-IsOverloaded w m h l x e leased high faults).0)
    | inr ((taken, h'), sent) ↦
        let (hs', rest) = send_all-fits hs x high o.1 fits.1 in (h' ∷ hs', rw sent (rw rest refl))
  ]

  pub send-overloaded :
      (c : GatewayAccessServerHandlerCollection w) (id : ℕ) (h : GatewayAccessServerHandler w)
      (x : m.Message)
      → 0x4000 ≤ m.dst_ssa x
      → IsValid w c
      → find w id c.handlers ≡ some h
      → IsOverloaded w m x h
      → send w m c x ≡ fault assertion_failed
  unfolding send
  send-overloaded c id h x high v found over =
      let p = find-Placed w id 0 c.next_id h c.handlers found v.identities in
      rw (p.place, send_all-fault p.before p.after h x high (rw p.place at v.all_open) over) refl

  pub send-fits :
      (c : GatewayAccessServerHandlerCollection w) (x : m.Message)
      → 0x4000 ≤ m.dst_ssa x
      → IsValid w c
      → All (λ (h : GatewayAccessServerHandler w). ¬ IsOverloaded w m x h) c.handlers
      → (c' : GatewayAccessServerHandlerCollection w) × (send w m c x ≡ ok c')
  unfolding send
  send-fits c x high v fits =
      let (hs, sent) = send_all-fits c.handlers x high v.all_open fits in
      (record c { handlers = hs }, rw sent refl)
