-- ===== src/Gateway/Subscribed.antt =====
-- The gateway as a whole: the way of a packet from an HDLC daemon to a client that has subscribed to
-- its service.
use mathlib.Core.Path.{subst}
use snet_gateway.Prelude.{
  ℕ, ◌≤◌, ◌≡◌, refl, ap, ◌∙◌, true, some, List, [], ◌∷◌, arith, Bytes, All, length, get_elem?, inl,
  inr, Option-cases, false,
}
use snet_gateway.Prelude.Result.{ok, >>=-eq-ok}
use snet_gateway.External.FrameEndpoint.{FrameEndpoint}
use snet_gateway.External.FrameStream.{FrameStream}
use snet_gateway.External.Message.{SnetServiceMessage, MessageLaws, MessageSizes}
use snet_gateway.External.HdlcdClient.{HdlcdAccess}
use snet_gateway.AddressPool.{AddressLease}
use snet_gateway.PublishSubscribe.{is_service_id_for_me}
use snet_gateway.PublishSubscribe.Subscriptions.{IsRequest, request_token, covers}
use snet_gateway.Protocol
use snet_gateway.Protocol.{
  GatewayAccessFrame, GatewayAccessProtocol, data_callback, escaped, length_based, FramingMode,
}
use snet_gateway.Protocol.Calls.{delivered-mode}
use snet_gateway.Protocol.Faults.{send_keeps}
use snet_gateway.Protocol.Factories.{gateway_class, mask_first_byte, frame_factories}
use snet_gateway.Protocol.Modes.{mode_of}
use snet_gateway.Protocol.Stream.{written}
use snet_gateway.Handler.{GatewayAccessServerHandler}
use snet_gateway.Handler.Subscribing.{after_request}
use snet_gateway.Handler.View.{view}
use snet_gateway.Collection.Identity.{find, find-replace}
use snet_gateway.Collection.Clients.{find-client_with, client_with-find}
use snet_gateway.Collection.Validity.{found-IsOpen}
use snet_gateway.HdlcdCollection.Sending.{get_elem?-pointers}
use snet_gateway.Hdlcd.{HdlcdClientHandler}
use snet_gateway.Spec.{Client, client_with}
use snet_gateway.Gateway.{Gateway, Event, frame_read, on_frame, on_data, handle, run}
use snet_gateway.Gateway.Acts.{clients_of}
use snet_gateway.Gateway.Invariant.{IsRunning, IsRouted}
use snet_gateway.Gateway.Isolation.{Spares, client_isolated}
use snet_gateway.Gateway.Runs.{IsNeverFull, run-IsRunning, handle-IsRunning}
use snet_gateway.Gateway.Steady.{run-routing}
use snet_gateway.Gateway.Subscribing.{subscription_confirmed}
use snet_gateway.Gateway.Wire.{data_frame, packet_on_wire}

data_frame-mode_of :
    (f : GatewayAccessFrame) (packet : Bytes)
    → (frame : GatewayAccessFrame) × (data_frame (mode_of f) packet ≡ some frame)
data_frame-mode_of (escaped f) packet = (_, refl)
data_frame-mode_of (length_based f) packet = (_, refl)

module _ (w : FrameEndpoint GatewayAccessFrame) (m : SnetServiceMessage) (a : HdlcdAccess) where
  -- What a client has after it has subscribed: the mode of its frame, and the service.
  pub record IsSubscriber (id : ℕ) (f : GatewayAccessFrame) (i : ℕ) (g : Gateway w m a)
      : Type 0 where
    pub client : Client
    pub found : client_with id (clients_of w m a g) ≡ some client
    pub mode : client.mode ≡ mode_of f
    pub wants : (j : ℕ) → covers i j ≡ true → client.wants j ≡ true

  -- The next data of a daemon carries a packet to the wire of a client: the client's endpoint is
  -- handed one frame more, the one in which its mode has the packet, and a peer that reads the bytes
  -- of that frame gets exactly this frame.
  abbrev pub Reaches :
      FrameStream gateway_class mask_first_byte frame_factories
      → Gateway w m a
      → ℕ
      → FramingMode
      → ℕ
      → Bytes
      → m.Message
      → Type 0
  Reaches s g id mode index received y =
      (frame : GatewayAccessFrame) × (bs : Bytes) × (h : GatewayAccessServerHandler w)
      × (e : w.Endpoint) × (h' : GatewayAccessServerHandler w) × (g' : Gateway w m a) × (data_frame
            mode (m.serialize y)
          ≡ some frame)
      × (find w id g.clients.handlers ≡ some h)
      × (h.protocol.frame_endpoint ≡ some e)
      × (on_data w m a index received g ≡ ok g')
      × (find w id g'.clients.handlers ≡ some h')
      × (h'.protocol.frame_endpoint ≡ some (w.send_frame e frame false).1)
      × (written (frame ∷ []) ≡ ok bs)
      × (s.frames bs ≡ frame ∷ [])

module _ (w : FrameEndpoint GatewayAccessFrame) (m : SnetServiceMessage) (a : HdlcdAccess)
    (laws : MessageLaws m) (sizes : MessageSizes m) where
  subscription-IsSubscriber :
      (g g' : Gateway w m a) (id : ℕ) (h : GatewayAccessServerHandler w) (l : AddressLease)
      (frame : GatewayAccessFrame) (bytes : Bytes) (x : m.Message) (q : GatewayAccessProtocol w)
      (i : ℕ)
      → find w id g.clients.handlers ≡ some h
      → h.address_lease ≡ some l
      → Protocol.on_frame w h.protocol frame ≡ ok (data_callback bytes ∷ [], q)
      → m.deserialize bytes ≡ some x
      → IsRequest m x i
      → m.token x ≡ request_token true
      → IsRunning w m a g
      → on_frame w m a id frame g ≡ ok g'
      → IsSubscriber w m a id frame i g'
  subscription-IsSubscriber g g' id h l frame bytes x q i found leased read good request t v e =
      let (sent, s, g1, done, ((y, sends, confirms), changed), handlers, kept) =
        subscription_confirmed w m a laws sizes g id h l frame bytes x q i true found leased read
          good request t v.valid in
      let same_id = (found-IsOpen w g.clients id h found v.valid).1 in
      let h'' = after_request w m (record h { protocol = q }) sent s in
      let same : g1 ≡ g' = cc (done, e) in
      let again : find w id g1.clients.handlers ≡ some h'' =
        rw handlers (find-replace w id h h'' g.clients.handlers found same_id) in
      subst (IsSubscriber w m a id frame i) same (record {
        client = view w h'';
        found = find-client_with w id h'' g1.clients.handlers again;
        mode =
            (send_keeps w q (m.serialize y) false sent sends).0
            ∙ delivered-mode w h.protocol q frame bytes read;
        wants = λ j covered. ground (arith, changed j, covered);
      })

  -- The frame in which a subscriber gets a packet for a wildcard address, and the bytes of it.
  subscriber-on_data :
      (s : FrameStream gateway_class mask_first_byte frame_factories) (g : Gateway w m a) (id : ℕ)
      (f : GatewayAccessFrame) (i index : ℕ) (d : HdlcdClientHandler a) (received : Bytes)
      (y : m.Message)
      → IsSubscriber w m a id f i g
      → IsRunning w m a g
      → g.routing.has_clients ≡ true
      → get_elem? g.daemons.handlers index ≡ some (some d)
      → m.deserialize received ≡ some y
      → 0xFFF0 ≤ m.dst_ssa y
      → covers i (m.src_service_id y) ≡ true
      → length (m.serialize y) ≤ 4093
      → Reaches w m a s g id (mode_of f) index received y
  subscriber-on_data s g id f i index d received y sub v has_clients there good wildcard covered
        fits =
      let (h, found, same) = client_with-find w id sub.client g.clients.handlers sub.found in
      let (is_open, same_id) = found-IsOpen w g.clients id h found v.valid in
      let (l, leased) = is_open.lease in
      let (hs, all_set, routed) = v.daemons in
      let (d', set, has_routing) =
        get_elem?-pointers a (IsRouted w m a) hs index (some d) (rw all_set at there) routed in
      let mode : h.protocol.framing_mode ≡ mode_of f =
        ap (λ (c : Client). c.mode) same ∙ sub.mode in
      let wants : is_service_id_for_me h.publish_subscribe_service (m.src_service_id y) ≡ true =
        ap (λ (c : Client). c.wants (m.src_service_id y)) same ∙ sub.wants _ covered in
      let (frame, chosen) = data_frame-mode_of f (m.serialize y) in
      elim (Option-cases h.protocol.frame_endpoint) [
        | inl closed ↦ absurd (is_open.endpoint closed)
        | inr (e, endpoint) ↦
            let (g', h', bs, done, again, sent, wrote, read) =
              packet_on_wire w m a s g index d received y id h l e frame there
                (ground (arith, set, has_routing)) good has_clients (omega arith) fits v.valid found
                leased endpoint (rw mode chosen) (inr (inr wildcard, wants)) in
            (frame, bs, h, e, h', g', chosen, found, endpoint, done, again, sent, wrote, read)
      ]

  -- A subscription takes effect and lasts. After a client has subscribed to a service by a frame, and
  -- whatever events come then without a fault, in any order, as long as they are not its own and
  -- there is a free address whenever a connection comes: a packet of this service of at most 4093
  -- bytes, for a wildcard address, that comes from any HDLC daemon does not fault and reaches the wire
  -- of this client, as one frame of the kind that the client has used, from which a peer reads exactly
  -- the packet. With 0xFF it is so for every service.
  pub subscription_delivers :
      (s : FrameStream gateway_class mask_first_byte frame_factories) (g g' : Gateway w m a)
      (id : ℕ) (h : GatewayAccessServerHandler w) (l : AddressLease) (frame : GatewayAccessFrame)
      (bytes : Bytes) (x : m.Message) (q : GatewayAccessProtocol w) (i : ℕ)
      (events : List (Event w m a)) (index : ℕ) (d : HdlcdClientHandler a) (received : Bytes)
      (y : m.Message)
      → IsRunning w m a g
      → g.routing.has_clients ≡ true
      → find w id g.clients.handlers ≡ some h
      → h.address_lease ≡ some l
      → Protocol.on_frame w h.protocol frame ≡ ok (data_callback bytes ∷ [], q)
      → m.deserialize bytes ≡ some x
      → IsRequest m x i
      → m.token x ≡ request_token true
      → All (Spares w m a id) events
      → IsNeverFull w m a (frame_read id frame ∷ events) g
      → run w m a (frame_read id frame ∷ events) g ≡ ok g'
      → get_elem? g'.daemons.handlers index ≡ some (some d)
      → m.deserialize received ≡ some y
      → 0xFFF0 ≤ m.dst_ssa y
      → covers i (m.src_service_id y) ≡ true
      → length (m.serialize y) ≤ 4093
      → Reaches w m a s g' id (mode_of frame) index received y
  unfolding run handle
  subscription_delivers s g g' id h l frame bytes x q i events index d received y v has_clients
        found leased read good request t others few ran there named wildcard covered fits =
      let (g1, done, rest) = >>=-eq-ok (on_frame w m a id frame g) _ ran in
      let later : IsNeverFull w m a events g1 = rw done at few.1 in
      let sub =
        subscription-IsSubscriber g g1 id h l frame bytes x q i found leased read good request t v
          done in
      let u = handle-IsRunning w m a (frame_read id frame) g g1 tt done v in
      let same : g'.routing ≡ g.routing =
        run-routing w m a (frame_read id frame ∷ events) g g' ran in
      let kept : IsSubscriber w m a id frame i g' = record {
        client = sub.client;
        found = client_isolated w m a events g1 g' id sub.client u later others rest sub.found;
        mode = sub.mode;
        wants = sub.wants;
      } in
      subscriber-on_data s g' id frame i index d received y kept
        (run-IsRunning w m a events g1 g' later rest u) (cc (same, has_clients)) there named
        wildcard covered fits
