-- ===== src/Gateway/Daemons.antt =====
-- The gateway as a whole: what an event that is no completion does to the HDLCd handlers.
use snet_gateway.Prelude.{
  ℕ, ◌≡◌, Bool, Option, none, some, List, [], ◌∷◌, arith, Bytes, Option-cases, inl, inr, map,
  get_elem?, All₂,
}
use snet_gateway.Prelude.Result.{ok, null_pointer, >>=-eq-ok, or_fault}
use snet_gateway.External.FrameEndpoint.{FrameEndpoint}
use snet_gateway.External.Message.{SnetServiceMessage}
use snet_gateway.External.HdlcdClient.{HdlcdAccess}
use snet_gateway.Protocol
use snet_gateway.Protocol.{GatewayAccessFrame, Callback, data_callback, closed_callback}
use snet_gateway.Handler
use snet_gateway.Collection.Identity.{find}
use snet_gateway.Routing.{Component, Forward, nowhere, to_hdlcd, to_clients, gwclients, hdlcd}
use snet_gateway.Hdlcd
use snet_gateway.Hdlcd.{HdlcdClientHandler}
use snet_gateway.Hdlcd.Progress
use snet_gateway.Hdlcd.Progress.{Link, Run-append}
use snet_gateway.HdlcdCollection.Sending.{pointers, hdlcd_send_all}
use snet_gateway.Gateway.{
  Gateway, carry_out, route, put, run_callback, run_callbacks, on_accept, on_frame, on_closed,
  on_data, Event, accepted, frame_read, client_closed, data_read, completed, handle,
}

module _ (w : FrameEndpoint GatewayAccessFrame) (m : SnetServiceMessage) (a : HdlcdAccess) where
  -- Each handler has gone on, and its link is as it was.
  unfoldable pub GoesOn : HdlcdClientHandler a → HdlcdClientHandler a → Type 0
  GoesOn h h' =
      (l : Link)
      → Progress.Run a (record { handler = h; link = l }) (record { handler = h'; link = l })

  GoesOn-refl : (hs : List (HdlcdClientHandler a)) → All₂ GoesOn hs hs
  unfolding GoesOn
  GoesOn-refl [] = tt
  GoesOn-refl (h ∷ hs) = ((λ l. Progress.start), GoesOn-refl hs)

  GoesOn-send :
      (bytes : Bytes) (reliable : Bool) (hs : List (HdlcdClientHandler a))
      → All₂ GoesOn hs (map (λ h. Hdlcd.send a h bytes reliable) hs)
  unfolding GoesOn
  GoesOn-send bytes reliable [] = tt
  GoesOn-send bytes reliable (h ∷ hs) = (
    (λ l. Progress.next Progress.start (Progress.sent _ bytes reliable)),
    GoesOn-send bytes reliable hs,
  )

  GoesOn-trans :
      (xs ys zs : List (HdlcdClientHandler a))
      → All₂ GoesOn xs ys
      → All₂ GoesOn ys zs
      → All₂ GoesOn xs zs
  unfolding GoesOn
  GoesOn-trans [] [] [] p q = tt
  GoesOn-trans (x ∷ xs) (y ∷ ys) (z ∷ zs) p q =
      ((λ l. Run-append a (p.0 l) (q.0 l)), GoesOn-trans xs ys zs p.1 q.1)
  GoesOn-trans [] [] (z ∷ zs) p q = elim q [ ]
  GoesOn-trans [] (y ∷ ys) zs p q = elim p [ ]
  GoesOn-trans (x ∷ xs) [] zs p q = elim p [ ]
  GoesOn-trans (x ∷ xs) (y ∷ ys) [] p q = elim q [ ]

  -- The handlers of a gateway have gone on.
  abbrev pub AllGoOn : Gateway w m a → Gateway w m a → Type 0
  AllGoOn g g' =
      (hs : List (HdlcdClientHandler a))
      → g.daemons.handlers ≡ pointers a hs
      → (hs' : List (HdlcdClientHandler a)) × (g'.daemons.handlers ≡ pointers a hs')
        × All₂ GoesOn hs hs'

  same-AllGoOn : (g g' : Gateway w m a) → g'.daemons ≡ g.daemons → AllGoOn g g'
  same-AllGoOn g g' e hs all_set = (hs, cc (e, all_set), GoesOn-refl hs)

  carry_out-AllGoOn :
      (f : Forward m) (g g' : Gateway w m a) → carry_out w m a f g ≡ ok g' → AllGoOn g g'
  unfolding carry_out
  carry_out-AllGoOn nowhere g g' e hs all_set = same-AllGoOn g g' (ground arith) hs all_set
  carry_out-AllGoOn (to_hdlcd bytes reliable) g g' e hs all_set =
      let sent = hdlcd_send_all a g.daemons hs bytes reliable all_set in
      (
        map (λ h. Hdlcd.send a h bytes reliable) hs,
        ground (arith, sent),
        GoesOn-send bytes reliable hs,
      )
  carry_out-AllGoOn (to_clients x) g g' e hs all_set = same-AllGoOn g g' (ground arith) hs all_set

  route-AllGoOn :
      (o : Option m.Message) (src_component : Component) (g g' : Gateway w m a)
      → route w m a o src_component g ≡ ok g'
      → AllGoOn g g'
  unfolding route
  route-AllGoOn none src_component g g' e = same-AllGoOn g g' (ground arith)
  route-AllGoOn (some x) src_component g g' e = carry_out-AllGoOn _ g g' e

  run_callback-AllGoOn :
      (id : ℕ) (call : Callback) (g g' : Gateway w m a)
      → run_callback w m a id call g ≡ ok g'
      → AllGoOn g g'
  unfolding run_callback
  run_callback-AllGoOn id (data_callback bytes) g g' e =
      elim (Option-cases (find w id g.clients.handlers)) [
        | inl gone ↦ same-AllGoOn g g' (ground (arith, gone))
        | inr (h, found) ↦
            let ((o, h'), served, rest) =
              >>=-eq-ok (Handler.on_payload w m h bytes) _ (rw (found, run_callback) at e) in
            route-AllGoOn o gwclients (put w m a h' g) g' rest
      ]
  run_callback-AllGoOn id closed_callback g g' e = same-AllGoOn g g' (ground arith)

  run_callbacks-AllGoOn :
      (id : ℕ) (calls : List Callback) (g g' : Gateway w m a)
      → run_callbacks w m a id calls g ≡ ok g'
      → AllGoOn g g'
  unfolding run_callbacks
  run_callbacks-AllGoOn id [] g g' e hs all_set = same-AllGoOn g g' (ground arith) hs all_set
  run_callbacks-AllGoOn id (call ∷ calls) g g' e hs all_set =
      let (g1, called, rest) = >>=-eq-ok (run_callback w m a id call g) _ e in
      let (hs1, set1, on1) = run_callback-AllGoOn id call g g1 called hs all_set in
      let (hs2, set2, on2) = run_callbacks-AllGoOn id calls g1 g' rest hs1 set1 in
      (hs2, set2, GoesOn-trans hs hs1 hs2 on1 on2)

  frame-AllGoOn :
      (id : ℕ) (frame : GatewayAccessFrame) (g g' : Gateway w m a)
      → on_frame w m a id frame g ≡ ok g'
      → AllGoOn g g'
  unfolding on_frame
  frame-AllGoOn id frame g g' e = elim (Option-cases (find w id g.clients.handlers)) [
    | inl gone ↦ same-AllGoOn g g' (ground (arith, gone))
    | inr (h, found) ↦
        let ((calls, p), read, rest) =
          >>=-eq-ok (Protocol.on_frame w h.protocol frame) _ (rw (found, on_frame) at e) in
        run_callbacks-AllGoOn id calls _ g' rest
  ]

  closed-AllGoOn : (id : ℕ) (g g' : Gateway w m a) → on_closed w m a id g ≡ ok g' → AllGoOn g g'
  unfolding on_closed
  closed-AllGoOn id g g' e = elim (Option-cases (find w id g.clients.handlers)) [
    | inl gone ↦ same-AllGoOn g g' (ground (arith, gone))
    | inr (h, found) ↦
        let ((calls, p), read, rest) =
          >>=-eq-ok (Protocol.on_closed w h.protocol) _ (rw (found, on_closed) at e) in
        run_callbacks-AllGoOn id calls _ g' rest
  ]

  data-AllGoOn :
      (index : ℕ) (bytes : Bytes) (g g' : Gateway w m a)
      → on_data w m a index bytes g ≡ ok g'
      → AllGoOn g g'
  unfolding on_data
  data-AllGoOn index bytes g g' e = elim (Option-cases (get_elem? g.daemons.handlers index)) [
    | inl gone ↦ same-AllGoOn g g' (ground (arith, gone))
    | inr (o, found) ↦
        let (h, present, rest) = >>=-eq-ok (or_fault null_pointer o) _ (rw (found, on_data) at e) in
        let (x, read, routed) = >>=-eq-ok (Hdlcd.on_data a m h bytes) _ rest in
        route-AllGoOn x hdlcd g g' routed
  ]

  abbrev pub IsCompletion : Event w m a → Type 0
  IsCompletion (completed index event) = Unit
  IsCompletion _ = ⊥

  pub handle-AllGoOn :
      (e : Event w m a) (g g' : Gateway w m a)
      → ¬ IsCompletion e
      → handle w m a e g ≡ ok g'
      → AllGoOn g g'
  unfolding handle on_accept
  handle-AllGoOn (accepted o) g g' n e = same-AllGoOn g g' (ground arith)
  handle-AllGoOn (frame_read id frame) g g' n e = frame-AllGoOn id frame g g' e
  handle-AllGoOn (client_closed id) g g' n e = closed-AllGoOn id g g' e
  handle-AllGoOn (data_read index bytes) g g' n e = data-AllGoOn index bytes g g' e
  handle-AllGoOn (completed index event) g g' n e = absurd (n tt)
