-- ===== src/Gateway/Exchange.antt =====
-- The gateway as a whole: the way of a packet from one gateway client to the others.
use snet_gateway.Prelude.{
  ℕ, ◌<◌, ◌≤◌, ◌≡◌, ◌≢◌, refl, true, some, [], ◌∷◌, arith, Bytes, All₂, length, sym, ◌∙◌,
}
use snet_gateway.Prelude.Result.{ok, ◌>>=◌}
use snet_gateway.External.FrameEndpoint.{FrameEndpoint}
use snet_gateway.External.Message.{SnetServiceMessage, MessageLaws}
use snet_gateway.External.HdlcdClient.{HdlcdAccess}
use snet_gateway.AddressPool.{AddressLease, get_address}
use snet_gateway.Protocol
use snet_gateway.Protocol.{GatewayAccessFrame, GatewayAccessProtocol, data_callback}
use snet_gateway.Handler
use snet_gateway.Handler.{GatewayAccessServerHandler}
use snet_gateway.Collection
use snet_gateway.Collection.Identity.{find, replace, find-replace, replace-replace}
use snet_gateway.Collection.Invariant.{IsValid}
use snet_gateway.Collection.Validity.{found-IsOpen}
use snet_gateway.Collection.Sending.{Serves, send-Serves_all, send-total}
use snet_gateway.Routing.{gwclients}
use snet_gateway.Gateway.{Gateway, on_frame, put}
use snet_gateway.Gateway.Events.{replace-IsValid, Keeps-protocol, on_frame-Keeps}
use snet_gateway.Gateway.Delivery.{route-to_clients}
use snet_gateway.Gateway.Relay.{callback_runs}

module _ (w : FrameEndpoint GatewayAccessFrame) (m : SnetServiceMessage) (a : HdlcdAccess)
    (laws : MessageLaws m) where
  -- The sender that has read a frame, and the gateway in which its packet is handed on.
  abbrev pub reads :
      GatewayAccessServerHandler w → GatewayAccessProtocol w → GatewayAccessServerHandler w
  reads h q = record h { protocol = q }

  abbrev pub after_reading : Gateway w m a → GatewayAccessServerHandler w → Gateway w m a
  after_reading g h = put w m a h (put w m a h g)

  -- A frame with a packet for the clients ends in a send to all of them.
  pub on_frame-send :
      (g : Gateway w m a) (id : ℕ) (h : GatewayAccessServerHandler w) (l : AddressLease)
      (frame : GatewayAccessFrame) (bytes : Bytes) (x : m.Message) (q : GatewayAccessProtocol w)
      → find w id g.clients.handlers ≡ some h
      → h.address_lease ≡ some l
      → Protocol.on_frame w h.protocol frame ≡ ok (data_callback bytes ∷ [], q)
      → m.deserialize bytes ≡ some x
      → m.src_ssa x ≢ 0xFFFE
      → 0x4000 < m.dst_ssa x
      → m.dst_ssa x ≢ 0xFFFE
      → g.routing.has_clients ≡ true
      → h.id ≡ id
      → let g1 = after_reading g (reads h q) in
        on_frame w m a id frame g ≡ (
          Collection.send w m g1.clients (m.set_src_ssa (get_address l) x) >>= λ c.
          ok (record g1 { clients = c }))
  unfolding on_frame
  on_frame-send g id h l frame bytes x q found leased read good honest high upwards has_clients
        same =
      let h' = reads h q in
      let y = m.set_src_ssa (get_address l) x in
      let to : m.dst_ssa y ≡ m.dst_ssa x = laws.dst_ssa-set_src_ssa (get_address l) x in
      let found' = find-replace w id h h' g.clients.handlers found same in
      let served =
        Handler.Payload.on_payload_remapped w m laws h' l bytes x leased good (λ k. omega arith)
          (λ k. omega arith) honest in
      let routed =
        route-to_clients w m a (after_reading g h') y gwclients has_clients (omega arith)
          (λ k. absurd (upwards (sym to ∙ k))) in
      rw (found, on_frame, read)
        (callback_runs w m a laws id (put w m a h' g) _ h' bytes y found' served routed)

  pub after_reading-IsValid :
      (g : Gateway w m a) (id : ℕ) (h : GatewayAccessServerHandler w) (frame : GatewayAccessFrame)
      (bytes : Bytes) (q : GatewayAccessProtocol w)
      → find w id g.clients.handlers ≡ some h
      → Protocol.on_frame w h.protocol frame ≡ ok (data_callback bytes ∷ [], q)
      → IsValid w g.clients
      → IsValid w (after_reading g (reads h q)).clients
  after_reading-IsValid g id h frame bytes q found read v =
      let h' = reads h q in
      let kept = Keeps-protocol w h q (on_frame-Keeps w h.protocol q frame _ read) in
      rw (replace-replace w h' h' g.clients.handlers refl)
        (replace-IsValid w g.clients id h h' found kept v)

  -- A frame in which the protocol of a connected client finds a packet for an address above the
  -- gateway's own, source and destination 0xFFFE aside, is handed with the sender's own address as its source to exactly
  -- the clients that want it, if it is not longer than 4093 bytes: the client whose address it
  -- carries, and for the other wildcard addresses each client that has subscribed to its service,
  -- the sender itself included. All other clients are as they were but for the sender's protocol,
  -- which has read the frame, nothing is sent to an HDLC daemon, and the event does not fault.
  pub packet_exchanged :
      (g : Gateway w m a) (id : ℕ) (h : GatewayAccessServerHandler w) (l : AddressLease)
      (frame : GatewayAccessFrame) (bytes : Bytes) (x : m.Message) (q : GatewayAccessProtocol w)
      → find w id g.clients.handlers ≡ some h
      → h.address_lease ≡ some l
      → Protocol.on_frame w h.protocol frame ≡ ok (data_callback bytes ∷ [], q)
      → m.deserialize bytes ≡ some x
      → m.src_ssa x ≢ 0xFFFE
      → 0x4000 < m.dst_ssa x
      → m.dst_ssa x ≢ 0xFFFE
      → g.routing.has_clients ≡ true
      → length (m.serialize (m.set_src_ssa (get_address l) x)) ≤ 4093
      → IsValid w g.clients
      → let y = m.set_src_ssa (get_address l) x in
        let h' = record h { protocol = q } in
        (g' : Gateway w m a) × (on_frame w m a id frame g ≡ ok g')
        × All₂ (Serves w m y) (replace w h' g.clients.handlers) g'.clients.handlers
        × IsValid w g'.clients
        × (g'.daemons ≡ g.daemons)
  packet_exchanged g id h l frame bytes x q found leased read good honest high upwards has_clients
        fits v =
      let same = (found-IsOpen w g.clients id h found v).1 in
      let y = m.set_src_ssa (get_address l) x in
      let to : m.dst_ssa y ≡ m.dst_ssa x = laws.dst_ssa-set_src_ssa (get_address l) x in
      let sends =
        on_frame-send g id h l frame bytes x q found leased read good honest high upwards
          has_clients same in
      let g1 = after_reading g (reads h q) in
      let valid = after_reading-IsValid g id h frame bytes q found read v in
      let (c, sent) = send-total w m g1.clients y (omega arith) fits valid in
      let (reached, still_valid) = send-Serves_all w m g1.clients c y (omega arith) valid sent in
      (
        record g1 { clients = c },
        rw (sends, sent) refl,
        rw (replace-replace w (reads h q) (reads h q) g.clients.handlers refl) at reached,
        still_valid,
        refl,
      )
