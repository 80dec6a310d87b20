-- ===== src/Collection/Sending.antt =====
-- GatewayAccessServerHandlerCollection.cpp, `Send`: who gets a packet.
use snet_gateway.Prelude.{
  ℕ, suc, ◌≤◌, ◌≡◌, refl, ◌∙◌, ◌⊎◌, Bool, some, List, [], ◌∷◌, arith, All, All₂, length,
}
use mathlib.Core.Path.{subst}
use snet_gateway.Prelude.Result.{ok, >>=-eq-ok, IsOk-value}
use snet_gateway.External.FrameEndpoint.{FrameEndpoint}
use snet_gateway.External.Message.{SnetServiceMessage}
use snet_gateway.Protocol.{GatewayAccessFrame}
use snet_gateway.AddressPool.{AddressLease}
use snet_gateway.Handler
use snet_gateway.Handler.{GatewayAccessServerHandler, deliver}
use snet_gateway.Handler.Keeps.{Keeps, send-Keeps}
use snet_gateway.Handler.Filter.{IsUnicast, IsSubscribed, send_filter}
use snet_gateway.Collection.{GatewayAccessServerHandlerCollection, send, send_all}
use snet_gateway.Collection.Identity.{Increasing}
use snet_gateway.Collection.Invariant.{IsOpen, IsValid, addresses}

module _ (w : FrameEndpoint GatewayAccessFrame) where
  pub IsOpen-Keeps : (h h' : GatewayAccessServerHandler w) → Keeps w h h' → IsOpen w h → IsOpen w h'
  IsOpen-Keeps h h' k o = record {
    registered = k.registered ∙ o.registered;
    has_collection = k.has_collection ∙ o.has_collection;
    lease = (o.lease.0, k.address_lease ∙ o.lease.1);
    endpoint = k.protocol.endpoint o.endpoint;
    on_data = k.protocol.on_data ∙ o.on_data;
    on_closed = k.protocol.on_closed ∙ o.on_closed;
  }

  All₂-IsOpen :
      (hs hs' : List (GatewayAccessServerHandler w))
      → All₂ (Keeps w) hs hs'
      → All (IsOpen w) hs
      → All (IsOpen w) hs'
  All₂-IsOpen [] [] k o = tt
  All₂-IsOpen (h ∷ hs) (h' ∷ hs') k o = (IsOpen-Keeps h h' k.0 o.0, All₂-IsOpen hs hs' k.1 o.1)
  All₂-IsOpen [] (h' ∷ hs') k o = elim k [ ]
  All₂-IsOpen (h ∷ hs) [] k o = elim k [ ]

  All₂-Increasing :
      (lo hi : ℕ) (hs hs' : List (GatewayAccessServerHandler w))
      → All₂ (Keeps w) hs hs'
      → Increasing w lo hs hi
      → Increasing w lo hs' hi
  All₂-Increasing lo hi [] [] k v = v
  All₂-Increasing lo hi (h ∷ hs) (h' ∷ hs') k v =
      rw k.0.id (v.0, All₂-Increasing (suc h.id) hi hs hs' k.1 v.1)
  All₂-Increasing lo hi [] (h' ∷ hs') k v = elim k [ ]
  All₂-Increasing lo hi (h ∷ hs) [] k v = elim k [ ]

  All₂-addresses :
      (hs hs' : List (GatewayAccessServerHandler w))
      → All₂ (Keeps w) hs hs'
      → addresses w hs' ≡ addresses w hs
  All₂-addresses [] [] k = refl
  All₂-addresses (h ∷ hs) (h' ∷ hs') k = rw (k.0.address_lease, All₂-addresses hs hs' k.1)
  All₂-addresses [] (h' ∷ hs') k = elim k [ ]
  All₂-addresses (h ∷ hs) [] k = elim k [ ]

  -- A change of the handlers that keeps each of them keeps the collection valid.
  pub All₂-IsValid :
      (c : GatewayAccessServerHandlerCollection w) (hs' : List (GatewayAccessServerHandler w))
      → All₂ (Keeps w) c.handlers hs'
      → IsValid w c
      → IsValid w (record c { handlers = hs' })
  All₂-IsValid c hs' k v = record {
    all_open = All₂-IsOpen c.handlers hs' k v.all_open;
    identities = All₂-Increasing 0 c.next_id c.handlers hs' k v.identities;
    pool = rw (All₂-addresses c.handlers hs' k) v.pool;
  }

  module _ (m : SnetServiceMessage) where
    -- What a packet does to one client: a client that wants it is handed it, and any other client
    -- is left as it was.
    pub record Serves (x : m.Message) (h h' : GatewayAccessServerHandler w) : Type 0 where
      pub wanted :
          (l : AddressLease)
          → h.address_lease ≡ some l
          → IsUnicast w m l x ⊎ IsSubscribed w m h x
          → (taken : Bool) × (deliver w m h x ≡ ok (taken, h'))
      pub unwanted :
          (l : AddressLease)
          → h.address_lease ≡ some l
          → ¬ (IsUnicast w m l x ⊎ IsSubscribed w m h x)
          → h' ≡ h
      pub keeps : Keeps w h h'

    send-Serves :
        (x : m.Message) (h h' : GatewayAccessServerHandler w) (taken : Bool)
        → 0x4000 ≤ m.dst_ssa x
        → Handler.send w m h x ≡ ok (taken, h')
        → Serves x h h'
    send-Serves x h h' taken high e = record {
      wanted = λ l k want. (taken, cc ((send_filter w m h l x k high).0 want));
      unwanted = λ l k ne. cc ((send_filter w m h l x k high).1 ne);
      keeps = send-Keeps w m h h' x taken e;
    }

    send_all-Serves :
        (x : m.Message) (hs hs' : List (GatewayAccessServerHandler w))
        → 0x4000 ≤ m.dst_ssa x
        → send_all w m hs x ≡ ok hs'
        → All₂ (Serves x) hs hs'
    unfolding send_all
    send_all-Serves x [] [] high e = tt
    send_all-Serves x [] (h' ∷ hs') high e = absurd (ground arith)
    send_all-Serves x (h ∷ hs) hs' high e =
        let ((taken, h1), sent, rest) = >>=-eq-ok (Handler.send w m h x) _ e in
        let (hs1, all_sent, last) = >>=-eq-ok (send_all w m hs x) _ rest in
        let same : h1 ∷ hs1 ≡ hs' = ground arith in
        subst (All₂ (Serves x) (h ∷ hs)) same
          (send-Serves x h h1 taken high sent, send_all-Serves x hs hs1 high all_sent)

    send-IsOk :
        (x : m.Message) (h : GatewayAccessServerHandler w)
        → 0x4000 ≤ m.dst_ssa x
        → length (m.serialize x) ≤ 4093
        → IsOpen w h
        → (r : Bool × GatewayAccessServerHandler w) × (Handler.send w m h x ≡ ok r)
    send-IsOk x h high fits o =
        let (l, leased) = o.lease in IsOk-value _ (Handler.Filter.send-IsOk w m h l x leased fits)

    send_all-IsOk :
        (x : m.Message) (hs : List (GatewayAccessServerHandler w))
        → 0x4000 ≤ m.dst_ssa x
        → length (m.serialize x) ≤ 4093
        → All (IsOpen w) hs
        → (hs' : List (GatewayAccessServerHandler w)) × (send_all w m hs x ≡ ok hs')
    unfolding send_all
    send_all-IsOk x [] high fits o = ([], refl)
    send_all-IsOk x (h ∷ hs) high fits o =
        let ((taken, h'), sent) = send-IsOk x h high fits o.0 in
        let (hs', rest) = send_all-IsOk x hs high fits o.1 in (h' ∷ hs', rw sent (rw rest))

    All₂-Serves-Keeps :
        (x : m.Message) (hs hs' : List (GatewayAccessServerHandler w))
        → All₂ (Serves x) hs hs'
        → All₂ (Keeps w) hs hs'
    All₂-Serves-Keeps x [] [] s = tt
    All₂-Serves-Keeps x (h ∷ hs) (h' ∷ hs') s = (s.0.keeps, All₂-Serves-Keeps x hs hs' s.1)
    All₂-Serves-Keeps x [] (h' ∷ hs') s = elim s [ ]
    All₂-Serves-Keeps x (h ∷ hs) [] s = elim s [ ]

    -- Whenever a packet of the gateway clients is sent out, exactly the clients that want it are
    -- handed it: the client whose address it carries, and for the gateway's address and the
    -- wildcard addresses each client that has subscribed to its service. All other clients are left
    -- as they were, no client is skipped, and the collection stays valid.
    pub send-Serves_all :
        (c c' : GatewayAccessServerHandlerCollection w) (x : m.Message)
        → 0x4000 ≤ m.dst_ssa x
        → IsValid w c
        → send w m c x ≡ ok c'
        → All₂ (Serves x) c.handlers c'.handlers × IsValid w c'
    unfolding send
    send-Serves_all c c' x high v e =
        let (hs, sent, last) = >>=-eq-ok (send_all w m c.handlers x) _ e in
        let served = send_all-Serves x c.handlers hs high sent in
        let valid = All₂-IsValid c hs (All₂-Serves-Keeps x c.handlers hs served) v in
        let same : record c { handlers = hs } ≡ c' = ground arith in
        (
          subst
              (λ (d : GatewayAccessServerHandlerCollection w).
                All₂ (Serves x) c.handlers d.handlers)
              same served,
          subst (IsValid w) same valid,
        )

    -- A packet of at most 4093 bytes can be sent out, whatever modes the clients have chosen.
    pub send-total :
        (c : GatewayAccessServerHandlerCollection w) (x : m.Message)
        → 0x4000 ≤ m.dst_ssa x
        → length (m.serialize x) ≤ 4093
        → IsValid w c
        → (c' : GatewayAccessServerHandlerCollection w) × (send w m c x ≡ ok c')
    unfolding send
    send-total c x high fits v =
        let (hs, sent) = send_all-IsOk x c.handlers high fits v.all_open in
        (record c { handlers = hs }, rw sent)
