-- ===== src/Gateway/Totality.antt =====
-- The gateway as a whole: what it takes for its events not to fault.
pub mod Calls
use snet_gateway.Prelude.{
  ℕ, get_elem?, true, map, sym, ◌≤◌, ◌≡◌, refl, Option, some, none, List, [], ◌∷◌, arith, Bytes,
  length, Option-cases, inl, inr,
}
use mathlib.Core.Path.{subst}
use snet_gateway.Prelude.Result.{ok}
use snet_gateway.External.FrameEndpoint.{FrameEndpoint}
use snet_gateway.External.Message.{SnetServiceMessage, MessageLaws, MessageSizes}
use snet_gateway.External.HdlcdClient.{HdlcdAccess}
use snet_gateway.Protocol
use snet_gateway.Protocol.{
  GatewayAccessFrame, GatewayAccessProtocol, Callback, data_callback, closed_callback,
}
use snet_gateway.Protocol.Calls.{
  Carries, IsCalled, IsAtMostOne, on_frame-IsAtMostOne, on_frame-IsCalled, on_closed_lem,
}
use snet_gateway.Handler.{GatewayAccessServerHandler}
use snet_gateway.Handler.Totality.{IsBenign, on_payload-IsOk}
use snet_gateway.Handler.Keeps.{on_payload-Keeps}
use snet_gateway.Collection
use snet_gateway.Collection.Invariant
use snet_gateway.Collection.Identity.{find, find-replace}
use snet_gateway.Collection.Validity.{found-IsOpen}
use snet_gateway.Collection.Sending.{send-total}
use snet_gateway.Routing.{Component, Forward, nowhere, to_hdlcd, to_clients, gwclients, hdlcd}
use snet_gateway.Routing.Table.{IsOnItsWay, route_snet_packet-IsOnItsWay}
use snet_gateway.Hdlcd
use snet_gateway.Hdlcd.{HdlcdClientHandler}
use snet_gateway.HdlcdCollection.Sending.{get_elem?-pointers, pointers, hdlcd_send_all}
use snet_gateway.Gateway.{
  Gateway, carry_out, route, put, run_callback, run_callbacks, on_frame, on_closed, on_data,
  on_accept, on_completion, Event, accepted, frame_read, client_closed, data_read, completed,
  handle,
}
use snet_gateway.Gateway.Invariant.{IsRunning, IsRouted, put-IsRunning}
use snet_gateway.Gateway.Totality.Calls.{route-IsOk, calls-IsOk, close_callback-IsOk}
use snet_gateway.Gateway.Runs.{HasRoom}
use snet_gateway.Gateway.Events.{Keeps-protocol, on_frame-Keeps, on_closed-Keeps}

module _ (w : FrameEndpoint GatewayAccessFrame) (m : SnetServiceMessage) (a : HdlcdAccess)
    (laws : MessageLaws m) (sizes : MessageSizes m) where
  on_data-IsOk :
      (h : HdlcdClientHandler a) (bytes : Bytes)
      → h.has_routing ≡ true
      → length bytes ≤ 4093
      → (o : Option m.Message) × (Hdlcd.on_data a m h bytes ≡ ok o)
        × ((y : m.Message) → o ≡ some y → length (m.serialize y) ≤ 4093)
  unfolding Hdlcd.on_data
  on_data-IsOk h bytes has_routing fits = elim (Option-cases (m.deserialize bytes)) [
    | inl bad ↦ (none, rw (bad, Hdlcd.on_data) refl, (λ y e. cc))
    | inr (x, good) ↦ (
      some x,
      rw (good, Hdlcd.on_data) (rw has_routing refl),
      (λ y e.
          let same : x ≡ y = ground arith in
          subst (λ (z : m.Message). length (m.serialize z) ≤ 4093) same
            (omega (arith, fits, sizes.length-serialize x, sizes.length-deserialize bytes x good))),
    )
  ]

  -- A frame of a client that its protocol gets through.
  pub read-IsOk :
      (id : ℕ) (frame : GatewayAccessFrame) (g : Gateway w m a) (h : GatewayAccessServerHandler w)
      (calls : List Callback) (q : GatewayAccessProtocol w)
      → find w id g.clients.handlers ≡ some h
      → Protocol.on_frame w h.protocol frame ≡ ok (calls, q)
      → ((b : Bytes) → calls ≡ data_callback b ∷ [] → IsBenign w m laws sizes b)
      → IsRunning w m a g
      → (g' : Gateway w m a) × (on_frame w m a id frame g ≡ ok g')
  unfolding on_frame
  read-IsOk id frame g h calls q found read benign v =
      let h' : GatewayAccessServerHandler w = record h { protocol = q } in
      let same = (found-IsOpen w g.clients id h found v.valid).1 in
      let kept = Keeps-protocol w h q (on_frame-Keeps w h.protocol q frame calls read) in
      let (g', ran) =
        calls-IsOk w m a laws sizes id calls (put w m a h' g) h'
          (on_frame-IsAtMostOne w h.protocol q frame calls read) benign
          (find-replace w id h h' g.clients.handlers found same)
          (put-IsRunning w m a g id h h' found kept v) in
      (g', rw (found, on_frame) (rw read ran))

  called-IsBenign :
      (bytes : Bytes) (calls : List Callback)
      → IsCalled bytes calls
      → IsBenign w m laws sizes bytes
      → (b : Bytes) → calls ≡ data_callback b ∷ []
      → IsBenign w m laws sizes b
  called-IsBenign bytes calls called benign b k =
      let delivered : IsCalled bytes (data_callback b ∷ []) = rw k at called in
      subst (IsBenign w m laws sizes) (sym delivered) benign

  frame-IsOk :
      (id : ℕ) (frame : GatewayAccessFrame) (bytes : Bytes) (g : Gateway w m a)
      → Carries frame bytes
      → IsBenign w m laws sizes bytes
      → IsRunning w m a g
      → (g' : Gateway w m a) × (on_frame w m a id frame g ≡ ok g')
  unfolding on_frame
  frame-IsOk id frame bytes g carried benign v =
      elim (Option-cases (find w id g.clients.handlers)) [
        | inl gone ↦ (g, rw (gone, on_frame) refl)
        | inr (h, found) ↦
            let is_open = (found-IsOpen w g.clients id h found v.valid).0 in
            let (calls, q, read, called) =
              on_frame-IsCalled w h.protocol frame bytes is_open.endpoint carried in
            read-IsOk id frame g h calls q found read (called-IsBenign bytes calls called benign) v
      ]

  closed-IsOk :
      (id : ℕ) (g : Gateway w m a)
      → IsRunning w m a g
      → (g' : Gateway w m a) × (on_closed w m a id g ≡ ok g')
  unfolding on_closed run_callbacks
  closed-IsOk id g v = elim (Option-cases (find w id g.clients.handlers)) [
    | inl gone ↦ (g, rw (gone, on_closed) refl)
    | inr (h, found) ↦
        let (is_open, same) = found-IsOpen w g.clients id h found v.valid in
        let (q, read) = on_closed_lem w h.protocol is_open.endpoint is_open.on_closed in
        let h' : GatewayAccessServerHandler w = record h { protocol = q } in
        let kept = Keeps-protocol w h q (on_closed-Keeps w h.protocol q _ read) in
        let (g', ran) =
          close_callback-IsOk w m a laws sizes id (put w m a h' g) h'
            (find-replace w id h h' g.clients.handlers found same)
            (put-IsRunning w m a g id h h' found kept v) in
        (g', rw (found, on_closed) (rw read (rw ran refl)))
  ]

  data-IsOk :
      (index : ℕ) (bytes : Bytes) (g : Gateway w m a)
      → length bytes ≤ 4093
      → IsRunning w m a g
      → (g' : Gateway w m a) × (on_data w m a index bytes g ≡ ok g')
  unfolding on_data
  data-IsOk index bytes g fits v = elim (Option-cases (get_elem? g.daemons.handlers index)) [
    | inl gone ↦ (g, rw (gone, on_data) refl)
    | inr (o, found) ↦
        let (hs, all_set, routed) = v.daemons in
        let (h, set, has_routing) =
          get_elem?-pointers a (IsRouted w m a) hs index o (rw all_set at found) routed in
        let (x, read, bound) = on_data-IsOk h bytes has_routing fits in
        let (g', ran) = route-IsOk w m a x hdlcd g bound v in
        (g', rw (found, on_data) (rw (set, read, ran) refl))
  ]

  -- What an event brings that no code has checked before: a frame carries a benign payload, and
  -- the data of a daemon is not longer than what every client can be sent.
  abbrev pub IsBenignEvent : Event w m a → Type 0
  IsBenignEvent (accepted o) = Unit
  IsBenignEvent (frame_read id frame) =
      (bytes : Bytes) × Carries frame bytes × IsBenign w m laws sizes bytes
  IsBenignEvent (client_closed id) = Unit
  IsBenignEvent (data_read index bytes) = length bytes ≤ 4093
  IsBenignEvent (completed index event) = Unit

  pub handle-IsOk :
      (e : Event w m a) (g : Gateway w m a)
      → HasRoom w m a e g
      → IsBenignEvent e
      → IsRunning w m a g
      → (g' : Gateway w m a) × (handle w m a e g ≡ ok g')
  unfolding handle on_accept Collection.on_accept
  handle-IsOk (accepted none) g few benign v = (g, refl)
  handle-IsOk (accepted (some e)) g few benign v =
      let (c, h, taken, _, _, _) =
        Invariant.on_accept-IsValid w g.clients e v.has_routing few v.valid in
      (record g { clients = c }, rw taken refl)
  handle-IsOk (frame_read id frame) g few (bytes, carried, benign) v =
      frame-IsOk id frame bytes g carried benign v
  handle-IsOk (client_closed id) g few benign v = closed-IsOk id g v
  handle-IsOk (data_read index bytes) g few benign v = data-IsOk index bytes g benign v
  handle-IsOk (completed index event) g few benign v = (on_completion w m a index event g, refl)
