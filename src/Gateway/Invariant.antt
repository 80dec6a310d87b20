-- ===== src/Gateway/Invariant.antt =====
-- The gateway as a whole: its clients have addresses of their own after any events.
use snet_gateway.Prelude.{
  map, zero, suc, ℕ, ◌<◌, ◌≡◌, refl, ◌∙◌, true, Option, none, some, List, [], ◌∷◌, arith, Bytes,
  Option-cases, inl, inr, length, ap, get_elem?, All, Bool, change_at, All-change_at,
}
use mathlib.Core.Path.{subst}
use snet_gateway.Prelude.Result.{ok, null_pointer, >>=-eq-ok, ◌>>=◌, or_fault}
use snet_gateway.External.FrameEndpoint.{FrameEndpoint}
use snet_gateway.External.Message.{SnetServiceMessage}
use snet_gateway.External.HdlcdClient.{HdlcdAccess}
use snet_gateway.AddressPool.Leases.{max_clients}
use snet_gateway.Protocol
use snet_gateway.Protocol.{GatewayAccessFrame, Callback, data_callback, closed_callback}
use snet_gateway.Handler
use snet_gateway.Handler.{GatewayAccessServerHandler}
use snet_gateway.Handler.Keeps.{Keeps, on_payload-Keeps}
use snet_gateway.Collection
use snet_gateway.Collection.{GatewayAccessServerHandlerCollection, close_handler}
use snet_gateway.Collection.Identity.{find}
use snet_gateway.Collection.Invariant
use snet_gateway.Collection.Invariant.{IsValid, IsOpen, addresses}
use snet_gateway.Collection.Validity.{
  send-IsValid, close_handler-has_routing, on_accept-has_routing, accept-IsValid,
}
use snet_gateway.Routing.{Component, Forward, nowhere, to_hdlcd, to_clients, hdlcd, gwclients}
use snet_gateway.Hdlcd
use snet_gateway.Hdlcd.{HdlcdClientHandler}
use snet_gateway.HdlcdCollection
use snet_gateway.HdlcdCollection.Sending.{pointers, hdlcd_send_all}
use snet_gateway.Gateway.{
  Gateway, carry_out, route, put, run_callback, run_callbacks, on_accept, on_frame, on_closed,
  on_data, Completion, complete, complete_at, on_completion,
}
use snet_gateway.Gateway.Events.{replace-IsValid, Keeps-protocol, on_frame-Keeps, on_closed-Keeps}

module _ (w : FrameEndpoint GatewayAccessFrame) (m : SnetServiceMessage) (a : HdlcdAccess) where
  -- A handler that has the routing entity.
  abbrev pub IsRouted : HdlcdClientHandler a → Type 0
  IsRouted h = h.has_routing ≡ true

  sent-IsRouted :
      (bytes : Bytes) (reliable : Bool) (hs : List (HdlcdClientHandler a))
      → All IsRouted hs
      → All IsRouted (map (λ h. Hdlcd.send a h bytes reliable) hs)
  unfolding Hdlcd.send
  sent-IsRouted bytes reliable [] r = tt
  sent-IsRouted bytes reliable (h ∷ hs) r = (r.0, sent-IsRouted bytes reliable hs r.1)

  complete-IsRouted :
      (event : Completion) (h : HdlcdClientHandler a)
      → IsRouted h
      → IsRouted (complete w m a event h)
  unfolding complete Hdlcd.on_timer Hdlcd.on_resolved Hdlcd.on_connected Hdlcd.on_closed
  complete-IsRouted event h r = ground arith

  -- The gateway runs: its clients are valid, its listener has the routing entity, and no pointer to an
  -- HDLCd handler is empty, nor is that of one of them to the routing entity.
  pub record IsRunning (g : Gateway w m a) : Type 0 where
    pub valid : IsValid w g.clients
    pub has_routing : g.clients.has_routing ≡ true
    pub daemons :
        (hs : List (HdlcdClientHandler a)) × (g.daemons.handlers ≡ pointers a hs) × All IsRouted hs

  carry_out-IsRunning :
      (f : Forward m) (g g' : Gateway w m a)
      → carry_out w m a f g ≡ ok g'
      → IsRunning g
      → IsRunning g'
  unfolding carry_out
  carry_out-IsRunning nowhere g g' e v = subst IsRunning (ground arith) v
  carry_out-IsRunning (to_hdlcd bytes reliable) g g' e v =
      let (d, sent, last) = >>=-eq-ok (HdlcdCollection.send a g.daemons bytes reliable) _ e in
      let same : record g { daemons = d } ≡ g' = ground arith in
      let (hs, all_set, routed) = v.daemons in
      let sent_to_all = hdlcd_send_all a g.daemons hs bytes reliable all_set in
      let after = map (λ h. Hdlcd.send a h bytes reliable) hs in
      let still_set : d.handlers ≡ pointers a after = ground (arith, sent_to_all) in
      subst IsRunning same (record {
        valid = v.valid;
        has_routing = v.has_routing;
        daemons = (after, still_set, sent-IsRouted bytes reliable hs routed);
      })
  carry_out-IsRunning (to_clients x) g g' e v =
      let (c, sent, last) = >>=-eq-ok (Collection.send w m g.clients x) _ e in
      let (valid, routed) = send-IsValid w m g.clients c x sent v.valid in
      let same : record g { clients = c } ≡ g' = ground arith in
      subst IsRunning same
        (record { valid = valid; has_routing = routed ∙ v.has_routing; daemons = v.daemons })

  route-IsRunning :
      (o : Option m.Message) (src_component : Component) (g g' : Gateway w m a)
      → route w m a o src_component g ≡ ok g'
      → IsRunning g
      → IsRunning g'
  unfolding route
  route-IsRunning none src_component g g' e v = subst IsRunning (ground arith) v
  route-IsRunning (some x) src_component g g' e v = carry_out-IsRunning _ g g' e v

  pub put-IsRunning :
      (g : Gateway w m a) (id : ℕ) (h h' : GatewayAccessServerHandler w)
      → find w id g.clients.handlers ≡ some h
      → Keeps w h h'
      → IsRunning g
      → IsRunning (put w m a h' g)
  put-IsRunning g id h h' found k v = record {
    valid = replace-IsValid w g.clients id h h' found k v.valid;
    has_routing = v.has_routing;
    daemons = v.daemons;
  }

  close-IsRunning :
      (g g' : Gateway w m a) (id : ℕ) (h : GatewayAccessServerHandler w)
      → find w id g.clients.handlers ≡ some h
      → (do c ← close_handler w h g.clients; ok (record g { clients = c })) ≡ ok g'
      → IsRunning g
      → IsRunning g'
  close-IsRunning g g' id h found e v =
      let (c, closes, where_it_was, pool, valid) =
        Invariant.close_handler-IsValid w g.clients id h found v.valid in
      let kept = close_handler-has_routing w g.clients c h closes in
      let same : record g { clients = c } ≡ g' = ground (arith, closes) in
      subst IsRunning same
        (record { valid = valid; has_routing = kept ∙ v.has_routing; daemons = v.daemons })

  run_callback-IsRunning :
      (id : ℕ) (call : Callback) (g g' : Gateway w m a)
      → run_callback w m a id call g ≡ ok g'
      → IsRunning g
      → IsRunning g'
  unfolding run_callback
  run_callback-IsRunning id (data_callback bytes) g g' e v =
      elim (Option-cases (find w id g.clients.handlers)) [
        | inl gone ↦ subst IsRunning (ground (arith, gone)) v
        | inr (h, found) ↦
            let ((o, h'), served, rest) =
              >>=-eq-ok (Handler.on_payload w m h bytes) _ (rw (found, run_callback) at e) in
            route-IsRunning o gwclients (put w m a h' g) g' rest
              (put-IsRunning g id h h' found (on_payload-Keeps w m h h' bytes o served) v)
      ]
  run_callback-IsRunning id closed_callback g g' e v =
      elim (Option-cases (find w id g.clients.handlers)) [
        | inl gone ↦ subst IsRunning (ground (arith, gone)) v
        | inr (h, found) ↦ close-IsRunning g g' id h found (rw (found, run_callback) at e) v
      ]

  run_callbacks-IsRunning :
      (id : ℕ) (calls : List Callback) (g g' : Gateway w m a)
      → run_callbacks w m a id calls g ≡ ok g'
      → IsRunning g
      → IsRunning g'
  unfolding run_callbacks
  run_callbacks-IsRunning id [] g g' e v = subst IsRunning (ground arith) v
  run_callbacks-IsRunning id (call ∷ calls) g g' e v =
      let (g1, called, rest) = >>=-eq-ok (run_callback w m a id call g) _ e in
      run_callbacks-IsRunning id calls g1 g' rest (run_callback-IsRunning id call g g1 called v)

  pub on_frame-IsRunning :
      (id : ℕ) (frame : GatewayAccessFrame) (g g' : Gateway w m a)
      → on_frame w m a id frame g ≡ ok g'
      → IsRunning g
      → IsRunning g'
  unfolding on_frame
  on_frame-IsRunning id frame g g' e v = elim (Option-cases (find w id g.clients.handlers)) [
    | inl gone ↦ subst IsRunning (ground (arith, gone)) v
    | inr (h, found) ↦
        let ((calls, p), read, rest) =
          >>=-eq-ok (Protocol.on_frame w h.protocol frame) _ (rw (found, on_frame) at e) in
        let kept = Keeps-protocol w h p (on_frame-Keeps w h.protocol p frame calls read) in
        run_callbacks-IsRunning id calls _ g' rest (put-IsRunning g id h _ found kept v)
  ]

  pub on_closed-IsRunning :
      (id : ℕ) (g g' : Gateway w m a) → on_closed w m a id g ≡ ok g' → IsRunning g → IsRunning g'
  unfolding on_closed
  on_closed-IsRunning id g g' e v = elim (Option-cases (find w id g.clients.handlers)) [
    | inl gone ↦ subst IsRunning (ground (arith, gone)) v
    | inr (h, found) ↦
        let ((calls, p), read, rest) =
          >>=-eq-ok (Protocol.on_closed w h.protocol) _ (rw (found, on_closed) at e) in
        let kept = Keeps-protocol w h p (on_closed-Keeps w h.protocol p calls read) in
        run_callbacks-IsRunning id calls _ g' rest (put-IsRunning g id h _ found kept v)
  ]

  pub on_data-IsRunning :
      (index : ℕ) (bytes : Bytes) (g g' : Gateway w m a)
      → on_data w m a index bytes g ≡ ok g'
      → IsRunning g
      → IsRunning g'
  unfolding on_data
  on_data-IsRunning index bytes g g' e v =
      elim (Option-cases (get_elem? g.daemons.handlers index)) [
        | inl gone ↦ subst IsRunning (ground (arith, gone)) v
        | inr (o, found) ↦
            let (h, present, rest) =
              >>=-eq-ok (or_fault null_pointer o) _ (rw (found, on_data) at e) in
            let (x, read, routed) = >>=-eq-ok (Hdlcd.on_data a m h bytes) _ rest in
            route-IsRunning x hdlcd g g' routed v
      ]

  pub on_accept-IsRunning :
      (o : Option w.Endpoint) (g g' : Gateway w m a)
      → length g.clients.handlers < max_clients
      → on_accept w m a o g ≡ ok g'
      → IsRunning g
      → IsRunning g'
  unfolding on_accept
  on_accept-IsRunning o g g' few e v =
      let (c, taken, last) = >>=-eq-ok (Collection.on_accept w o g.clients) _ e in
      let kept = on_accept-has_routing w g.clients c o taken in
      let same : record g { clients = c } ≡ g' = ground arith in
      subst IsRunning same (record {
        valid = accept-IsValid w g.clients c o v.has_routing few taken v.valid;
        has_routing = kept ∙ v.has_routing;
        daemons = v.daemons;
      })

  pub complete_at-pointers :
      (index : ℕ) (event : Completion) (hs : List (HdlcdClientHandler a))
      → complete_at w m a index event (pointers a hs)
        ≡ pointers a (change_at index (complete w m a event) hs)
  unfolding complete_at
  complete_at-pointers index event [] = refl
  complete_at-pointers zero event (h ∷ hs) = refl
  complete_at-pointers (suc index) event (h ∷ hs) =
      ap (◌∷◌ (some h)) (complete_at-pointers index event hs)

  pub on_completion-IsRunning :
      (index : ℕ) (event : Completion) (g : Gateway w m a)
      → IsRunning g
      → IsRunning (on_completion w m a index event g)
  unfolding on_completion
  on_completion-IsRunning index event g v =
      let (hs, all_set, routed) = v.daemons in
      record {
        valid = v.valid;
        has_routing = v.has_routing;
        daemons = (
          change_at index (complete w m a event) hs,
          ap (complete_at w m a index event) all_set ∙ complete_at-pointers index event hs,
          All-change_at index IsRouted (complete w m a event) hs (complete-IsRouted event) routed,
        );
      }
