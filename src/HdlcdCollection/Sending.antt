-- ===== src/HdlcdCollection/Sending.antt =====
-- HdlcdClientHandlerCollection.cpp: every HDLC daemon gets a packet, until the shutdown.
use mathlib.Core.Option
use mathlib.Core.Path.{fun_ext}
use snet_gateway.Prelude.{
  ap, ◌∙◌, inl, inr, Option-cases, ℕ, zero, suc, get_elem?, arith, ◌≡◌, refl, Bool, false, Option,
  none, some, List, [], ◌∷◌, Bytes, map, All,
}
use snet_gateway.Prelude.Result.{ok, fault, null_pointer}
use snet_gateway.External.HdlcdClient.{HdlcdAccess}
use snet_gateway.Hdlcd
use snet_gateway.Hdlcd.{HdlcdClientHandler}
use snet_gateway.HdlcdCollection.{
  HdlcdClientHandlerCollection, Dropped, send, send_all, close_all, system_shutdown,
}

module _ (a : HdlcdAccess) where
  -- A vector of pointers that are all set.
  abbrev pub pointers : List (HdlcdClientHandler a) → List (Option (HdlcdClientHandler a))
  pointers = map some

  -- A pointer of the vector is set, and its handler has what all have.
  pub get_elem?-pointers :
      (P : HdlcdClientHandler a → Type 0) (hs : List (HdlcdClientHandler a)) (index : ℕ)
      (o : Option (HdlcdClientHandler a))
      → get_elem? (pointers hs) index ≡ some o
      → All P hs
      → (h : HdlcdClientHandler a) × (o ≡ some h) × P h
  get_elem?-pointers P [] index o e k = absurd (ground arith)
  get_elem?-pointers P (h ∷ hs) zero o e k = (h, ground arith, k.0)
  get_elem?-pointers P (h ∷ hs) (suc index) o e k = get_elem?-pointers P hs index o e k.1

  send_all-pointers :
      (hs : List (HdlcdClientHandler a)) (packet : Bytes) (reliable : Bool)
      → send_all a (pointers hs) packet reliable
        ≡ ok (pointers (map (λ h. Hdlcd.send a h packet reliable) hs))
  unfolding send_all
  send_all-pointers [] packet reliable = refl
  send_all-pointers (h ∷ hs) packet reliable = rw (send_all-pointers hs packet reliable)

  -- Before the shutdown, a packet for the HDLC daemons never faults and goes to the handler of each
  -- of them, in order; nothing else of the collection changes.
  pub hdlcd_send_all :
      (c : HdlcdClientHandlerCollection a) (hs : List (HdlcdClientHandler a)) (packet : Bytes)
      (reliable : Bool)
      → c.handlers ≡ pointers hs
      → send a c packet reliable
        ≡ ok (record c { handlers = pointers (map (λ h. Hdlcd.send a h packet reliable) hs) })
  unfolding send
  hdlcd_send_all c hs packet reliable e = rw (e, send_all-pointers hs packet reliable)

  -- A handler whose client, if it has one, has been given a packet.
  abbrev pub handed : Bytes → Bool → HdlcdClientHandler a → HdlcdClientHandler a
  handed packet reliable h = record h {
    hdlcd_client = Option.map (λ c. a.send c packet reliable) h.hdlcd_client;
  }

  send-handed :
      (h : HdlcdClientHandler a) (packet : Bytes) (reliable : Bool)
      → Hdlcd.send a h packet reliable ≡ handed packet reliable h
  unfolding Hdlcd.send
  send-handed h packet reliable = elim (Option-cases h.hdlcd_client) [
    | inl no_client ↦ ground (arith, no_client)
    | inr (c, has_client) ↦ ground (arith, has_client)
  ]

  -- So it is for all of them.
  pub hdlcd_handed_all :
      (c : HdlcdClientHandlerCollection a) (hs : List (HdlcdClientHandler a)) (packet : Bytes)
      (reliable : Bool)
      → c.handlers ≡ pointers hs
      → send a c packet reliable
        ≡ ok (record c { handlers = pointers (map (handed packet reliable) hs) })
  hdlcd_handed_all c hs packet reliable e =
      hdlcd_send_all c hs packet reliable e
      ∙ ap (λ f. ok (record c { handlers = pointers (map f hs) }))
          (fun_ext (λ h. send-handed h packet reliable))

  -- The client of a handler, if it has one, closed, and the handler without client and routing entity.
  abbrev pub closed : HdlcdClientHandler a → Dropped a
  closed h =
      (Option.map a.close h.hdlcd_client, record h { has_routing = false; hdlcd_client = none })

  close-closed : (h : HdlcdClientHandler a) → Hdlcd.close a h ≡ closed h
  unfolding Hdlcd.close
  close-closed h = elim (Option-cases h.hdlcd_client) [
    | inl no_client ↦ ground (arith, no_client)
    | inr (c, has_client) ↦ ground (arith, has_client)
  ]

  close_all-pointers :
      (hs : List (HdlcdClientHandler a))
      → close_all a (pointers hs) ≡ ok (map closed hs, map (λ h. none) hs)
  unfolding close_all
  close_all-pointers [] = refl
  close_all-pointers (h ∷ hs) = rw (close_all-pointers hs) (rw (close-closed h) refl)

  pointers_dropped :
      (hs : List (HdlcdClientHandler a))
      → All (λ (o : Option (HdlcdClientHandler a)). o ≡ none) (map (λ h. none) hs)
  pointers_dropped [] = tt
  pointers_dropped (h ∷ hs) = (refl, pointers_dropped hs)

  -- The shutdown before which all pointers are set: each handler is closed, with its client.
  pub system_shutdown-pointers :
      (c : HdlcdClientHandlerCollection a) (hs : List (HdlcdClientHandler a))
      → c.handlers ≡ pointers hs
      → (c' : HdlcdClientHandlerCollection a) × (system_shutdown a c ≡ ok (map closed hs, c'))
        × All (λ o. o ≡ none) c'.handlers
  unfolding system_shutdown
  system_shutdown-pointers c hs e = (
    record { handlers = map (λ h. none) hs; has_routing = false },
    rw (e, close_all-pointers hs) refl,
    pointers_dropped hs,
  )

  -- The shutdown of the collection never faults, closes each handler and empties every pointer, but
  -- it leaves the pointers in the vector: whenever there was a daemon, a packet that is sent
  -- afterwards, and a second shutdown, call through an empty pointer.
  pub hdlcd_shutdown :
      (c : HdlcdClientHandlerCollection a) (h : HdlcdClientHandler a)
      (hs : List (HdlcdClientHandler a)) (packet : Bytes) (reliable : Bool)
      → c.handlers ≡ pointers (h ∷ hs)
      → (c' : HdlcdClientHandlerCollection a) × (system_shutdown a c ≡ ok (map closed (h ∷ hs), c'))
        × All (λ o. o ≡ none) c'.handlers
        × (send a c' packet reliable ≡ fault null_pointer)
        × (system_shutdown a c' ≡ fault null_pointer)
  unfolding system_shutdown send close_all send_all
  hdlcd_shutdown c h hs packet reliable e = (
    record { handlers = none ∷ map (λ g. none) hs; has_routing = false },
    rw (e, close_all-pointers (h ∷ hs)) refl,
    (refl, pointers_dropped hs),
    refl,
    refl,
  )
