-- ===== src/Gateway/Overload.antt =====
-- The gateway as a whole: the packets that crash it, of an HDLC daemon and of a gateway client.
use snet_gateway.Prelude.{ℕ, ◌<◌, ◌≡◌, ◌≢◌, refl, [], ◌∷◌, true, some, arith, Bytes, All, get_elem?}
use snet_gateway.Prelude.Result.{ok, fault, assertion_failed, ◌>>=◌}
use snet_gateway.External.FrameEndpoint.{FrameEndpoint}
use snet_gateway.External.Message.{SnetServiceMessage, MessageLaws}
use snet_gateway.External.HdlcdClient.{HdlcdAccess}
use snet_gateway.AddressPool.{AddressLease, get_address}
use snet_gateway.Protocol
use snet_gateway.Protocol.{GatewayAccessFrame, GatewayAccessProtocol, data_callback}
use snet_gateway.Handler.{GatewayAccessServerHandler}
use snet_gateway.Handler.Overload.{IsOverloaded}
use snet_gateway.Collection
use snet_gateway.Collection.Identity.{find, replace, replace-replace}
use snet_gateway.Collection.Validity.{found-IsOpen}
use snet_gateway.Collection.Overload.{send-overloaded, send-fits}
use snet_gateway.Routing.{hdlcd}
use snet_gateway.Hdlcd.{HdlcdClientHandler}
use snet_gateway.HdlcdCollection.Sending.{get_elem?-pointers}
use snet_gateway.Gateway.{Gateway, on_data, on_frame, data_read, frame_read, handle}
use snet_gateway.Gateway.Delivery
use snet_gateway.Gateway.Delivery.{route-to_clients}
use snet_gateway.Gateway.Invariant.{IsRunning, IsRouted}
use snet_gateway.Gateway.Exchange.{reads, after_reading, after_reading-IsValid, on_frame-send}
use snet_gateway.Gateway.Runs.{handle-IsRunning}

module _ (w : FrameEndpoint GatewayAccessFrame) (m : SnetServiceMessage) (a : HdlcdAccess) where
  on_data-send :
      (g : Gateway w m a) (index : ℕ) (d : HdlcdClientHandler a) (bytes : Bytes) (x : m.Message)
      → IsRunning w m a g
      → get_elem? g.daemons.handlers index ≡ some (some d)
      → m.deserialize bytes ≡ some x
      → g.routing.has_clients ≡ true
      → 0x4000 < m.dst_ssa x
      → on_data w m a index bytes g
        ≡ (Collection.send w m g.clients x >>= λ c. ok (record g { clients = c }))
  unfolding on_data
  on_data-send g index d bytes x v there good has_clients high =
      let (hs, all_set, routed) = v.daemons in
      let (d', set, has_routing) =
        get_elem?-pointers a (IsRouted w m a) hs index (some d) (rw all_set at there) routed in
      let read = Delivery.data_read w m a d bytes x (ground (arith, set, has_routing)) good in
      rw (there, on_data)
        (rw read (rw (route-to_clients w m a g x hdlcd has_clients high (λ e k. cc)) refl))

  -- Data of an HDLC daemon that is a packet for an address above the gateway's own crashes the
  -- running gateway exactly if there is a client that wants it and that has chosen a mode in which it
  -- does not fit: an assertion fails if one such client is connected, whatever the other clients are,
  -- and if there is none the event is handled and the gateway is running after it. A packet fits
  -- with at most 4093 bytes in the escaping-based mode and with at most 4095 in the length-based one.
  pub packet_faults :
      (g : Gateway w m a) (index : ℕ) (d : HdlcdClientHandler a) (bytes : Bytes) (x : m.Message)
      → IsRunning w m a g
      → get_elem? g.daemons.handlers index ≡ some (some d)
      → m.deserialize bytes ≡ some x
      → g.routing.has_clients ≡ true
      → 0x4000 < m.dst_ssa x
      → ((id : ℕ) (h : GatewayAccessServerHandler w)
          → find w id g.clients.handlers ≡ some h
          → IsOverloaded w m x h
          → handle w m a (data_read index bytes) g ≡ fault assertion_failed)
        × (All (λ (h : GatewayAccessServerHandler w). ¬ IsOverloaded w m x h) g.clients.handlers
            → (g' : Gateway w m a) × (handle w m a (data_read index bytes) g ≡ ok g')
              × IsRunning w m a g')
  unfolding handle
  packet_faults g index d bytes x v there good has_clients high =
      let sends = on_data-send g index d bytes x v there good has_clients high in
      (
        (λ id h found over.
            rw (sends, send-overloaded w m g.clients id h x (omega arith) v.valid found over) refl),
        (λ fits.
            let (c, sent) = send-fits w m g.clients x (omega arith) v.valid fits in
            let done : on_data w m a index bytes g ≡ ok (record g { clients = c }) =
              rw (sends, sent) refl in
            (
              record g { clients = c },
              done,
              handle-IsRunning w m a (data_read index bytes) g _ tt done v,
            )),
      )

  module _ (laws : MessageLaws m) where
    -- A client's packet for an address above the gateway's own, source and destination 0xFFFE aside,
    -- crashes the running gateway exactly if there is a client, the sender itself included, that wants
    -- it with the sender's own address as its source, and that has chosen a mode in which it does not
    -- fit: an assertion fails if there is one such client, and if there is none the frame is handled
    -- and the gateway is running after it. Since a packet fits with 4095 bytes in the length-based mode
    -- and with 4093 in the escaping-based one, a client can crash the gateway for all others.
    pub exchange_faults :
        (g : Gateway w m a) (id : ℕ) (h : GatewayAccessServerHandler w) (l : AddressLease)
        (frame : GatewayAccessFrame) (bytes : Bytes) (x : m.Message) (q : GatewayAccessProtocol w)
        → IsRunning w m a g
        → find w id g.clients.handlers ≡ some h
        → h.address_lease ≡ some l
        → Protocol.on_frame w h.protocol frame ≡ ok (data_callback bytes ∷ [], q)
        → m.deserialize bytes ≡ some x
        → m.src_ssa x ≢ 0xFFFE
        → 0x4000 < m.dst_ssa x
        → m.dst_ssa x ≢ 0xFFFE
        → g.routing.has_clients ≡ true
        → let y = m.set_src_ssa (get_address l) x in
          let hs = replace w (reads w m a laws h q) g.clients.handlers in
          ((to : ℕ) (k : GatewayAccessServerHandler w)
            → find w to hs ≡ some k
            → IsOverloaded w m y k
            → handle w m a (frame_read id frame) g ≡ fault assertion_failed)
          × (All (λ (k : GatewayAccessServerHandler w). ¬ IsOverloaded w m y k) hs
              → (g' : Gateway w m a) × (handle w m a (frame_read id frame) g ≡ ok g')
                × IsRunning w m a g')
    unfolding handle
    exchange_faults g id h l frame bytes x q v found leased read good honest high upwards
          has_clients =
        let same = (found-IsOpen w g.clients id h found v.valid).1 in
        let h' = reads w m a laws h q in
        let y = m.set_src_ssa (get_address l) x in
        let dst : m.dst_ssa y ≡ m.dst_ssa x = laws.dst_ssa-set_src_ssa (get_address l) x in
        let sends =
          on_frame-send w m a laws g id h l frame bytes x q found leased read good honest high
            upwards has_clients same in
        let g1 = after_reading w m a laws g h' in
        let valid = after_reading-IsValid w m a laws g id h frame bytes q found read v.valid in
        let twice = replace-replace w h' h' g.clients.handlers refl in
        (
          (λ to k found' over.
              rw
                (
                  sends,
                  send-overloaded w m g1.clients to k y (omega arith) valid (rw twice found') over,
                )
                refl),
          (λ fits.
              let (c, sent) = send-fits w m g1.clients y (omega arith) valid (rw twice fits) in
              let done : on_frame w m a id frame g ≡ ok (record g1 { clients = c }) =
                rw (sends, sent) refl in
              (
                record g1 { clients = c },
                done,
                handle-IsRunning w m a (frame_read id frame) g _ tt done v,
              )),
        )
