-- ===== src/Hdlcd/Progress.antt =====
-- HdlcdClientHandler.cpp: the gateway never stops trying to reach an HDLC daemon.
use mathlib.Core.Option
use snet_gateway.Prelude.{
  ℕ, ◌+◌, ◌≡◌, ◌≢◌, refl, Bool, true, false, none, some, Option, List, [], ◌∷◌, ◌++◌, ap, sym, ◌∙◌,
  Bytes, arith, inl, inr, ◌⊎◌,
}
use snet_gateway.External.HdlcdClient.{HdlcdAccess}
use snet_gateway.Hdlcd.{
  HdlcdClientHandler, construct, on_timer, on_resolved, on_connected, on_closed, send,
  send_by_client,
}
use snet_gateway.Prelude.Result.{ok}

-- What the client of a handler has reported: nothing to come, a connect that is pending, or a
-- connection that is up.
pub data Link : Type 0 where
  down connecting up : Link

abbrev pub live : Link → ℕ
live down = 0
live connecting = 1
live up = 1

abbrev pub awaited : Bool → ℕ
awaited true = 1
awaited false = 0

pub Link-cases : (l : Link) → (l ≡ up) ⊎ (l ≡ connecting) ⊎ (l ≡ down)
Link-cases down = inr (inr refl)
Link-cases connecting = inr (inl refl)
Link-cases up = inl refl

module _ (a : HdlcdAccess) where
  pub record Connection : Type 0 where
    pub handler : HdlcdClientHandler a
    pub link : Link

  -- What can happen to a handler before its `Close`. A client reports the outcome of its connect
  -- once, and the end of a connection that was up once.
  pub data Step : Connection → Connection → Type 0 where
    not_resolved :
        (s : Connection)
        → s.handler.resolving ≢ 0
        → Step s (record s { handler = on_resolved a true s.handler })
    resolved :
        (s : Connection)
        → s.handler.resolving ≢ 0
        → Step s (record { handler = on_resolved a false s.handler; link = connecting })
    timeout :
        (s : Connection)
        → s.handler.waiting ≡ true
        → Step s (record s { handler = on_timer a false s.handler })
    cancelled : (s : Connection) → Step s (record s { handler = on_timer a true s.handler })
    connected :
        (s : Connection)
        → s.link ≡ connecting
        → Step s (record { handler = on_connected a true s.handler; link = up })
    refused :
        (s : Connection)
        → s.link ≡ connecting
        → Step s (record { handler = on_connected a false s.handler; link = down })
    lost :
        (s : Connection)
        → s.link ≡ up
        → Step s (record { handler = on_closed a s.handler; link = down })
    sent :
        (s : Connection) (packet : Bytes) (reliable : Bool)
        → Step s (record s { handler = send a s.handler packet reliable })

  pub data Run (s : Connection) : Connection → Type 0 where
    start : Run s s
    next : {t u : Connection} → Run s t → Step t u → Run s u

  pub Run-append : {s t u : Connection} → Run s t → Run t u → Run s u
  Run-append r start = r
  Run-append r (next q n) = next (Run-append r q) n

  -- Exactly one thing is under way, and a link that is not down has its client.
  pub record IsServed (s : Connection) : Type 0 where
    pub one : s.handler.resolving + awaited s.handler.waiting + live s.link ≡ 1
    pub client : s.link ≢ down → s.handler.hdlcd_client ≢ none

  pub Step-IsServed : {s t : Connection} → Step s t → IsServed s → IsServed t
  unfolding on_timer on_resolved on_connected on_closed send send_by_client
  Step-IsServed (not_resolved s n) v = record {
    one = ground (arith, v.one);
    client = λ k. v.client k;
  }
  Step-IsServed (resolved s n) v = record { one = ground (arith, v.one); client = λ k e. cc }
  Step-IsServed (timeout s n) v = record { one = ground (arith, v.one); client = λ k. v.client k }
  Step-IsServed (cancelled s) v = v
  Step-IsServed (connected s n) v = record {
    one = ground (arith, v.one);
    client = λ k. v.client (λ e. cc);
  }
  Step-IsServed (refused s n) v = record {
    one = ground (arith, v.one);
    client = λ k. absurd (k refl);
  }
  Step-IsServed (lost s n) v = record { one = ground (arith, v.one); client = λ k. absurd (k refl) }
  Step-IsServed (sent s packet reliable) v = record {
    one = v.one;
    client = λ k e. ground (arith, v.client k);
  }

  pub fresh-IsServed :
      (destination port serial : Bytes) (h : HdlcdClientHandler a)
      → construct a destination port serial true ≡ ok h
      → IsServed (record { handler = h; link = down })
  unfolding construct
  fresh-IsServed destination port serial h e = record {
    one = ground arith;
    client = λ k. absurd (k refl);
  }

  pub Run-IsServed : {s t : Connection} → Run s t → IsServed s → IsServed t
  Run-IsServed start v = v
  Run-IsServed (next r n) v = Step-IsServed n (Run-IsServed r v)

  -- The packets that are sent from the latest successful resolution on, if there is one.
  pub sent_since : {s t : Connection} → Run s t → Option (List (Bytes × Bool))
  sent_since start = none
  sent_since (next r (resolved u n)) = some []
  sent_since (next r (sent u packet reliable)) =
      Option.map (λ packets. packets ++ (packet, reliable) ∷ []) (sent_since r)
  sent_since (next r (not_resolved u n)) = sent_since r
  sent_since (next r (timeout u n)) = sent_since r
  sent_since (next r (cancelled u)) = sent_since r
  sent_since (next r (connected u n)) = sent_since r
  sent_since (next r (refused u n)) = sent_since r
  sent_since (next r (lost u n)) = sent_since r

  -- A client that is given packets, one after the other.
  abbrev pub given : a.HdlcdClient → List (Bytes × Bool) → a.HdlcdClient
  given c [] = c
  given c ((packet, reliable) ∷ packets) = given (a.send c packet reliable) packets

  given-snoc :
      (c : a.HdlcdClient) (packets : List (Bytes × Bool)) (packet : Bytes) (reliable : Bool)
      → given c (packets ++ (packet, reliable) ∷ []) ≡ a.send (given c packets) packet reliable
  given-snoc c [] packet reliable = refl
  given-snoc c ((p, r) ∷ packets) packet reliable =
      given-snoc (a.send c p r) packets packet reliable

  -- A new client for the serial port that has been given these packets, if there is one.
  abbrev pub client_given : Bytes → Option (List (Bytes × Bool)) → Option a.HdlcdClient
  client_given serial = Option.map (given (a.create serial))

  send-client_given :
      (h : HdlcdClientHandler a) (serial packet : Bytes) (reliable : Bool)
      (o : Option (List (Bytes × Bool)))
      → h.hdlcd_client ≡ client_given serial o
      → (send a h packet reliable).hdlcd_client
        ≡ client_given serial (Option.map (λ packets. packets ++ (packet, reliable) ∷ []) o)
  unfolding send send_by_client
  send-client_given h serial packet reliable none e = ground (arith, e)
  send-client_given h serial packet reliable (some packets) e =
      rw e (ap some (sym (given-snoc (a.create serial) packets packet reliable)))

  -- The client of a handler is always the newest one, with the packets that it has been given.
  Run-client_given :
      {s t : Connection} (r : Run s t)
      → s.handler.hdlcd_client ≡ none
      → (t.handler.serial_port_name ≡ s.handler.serial_port_name)
        × (t.handler.hdlcd_client ≡ client_given s.handler.serial_port_name (sent_since r))
  unfolding sent_since on_timer on_resolved on_connected on_closed send
  Run-client_given start e = (refl, e)
  Run-client_given (next r (resolved u n)) e =
      let (serial, _) = Run-client_given r e in (serial, ap (λ x. some (a.create x)) serial)
  Run-client_given {s = s} (next r (sent u packet reliable)) e =
      let (serial, client) = Run-client_given r e in
      (
        serial,
        send-client_given u.handler s.handler.serial_port_name packet reliable (sent_since r)
            client,
      )
  Run-client_given (next r (not_resolved u n)) e = Run-client_given r e
  Run-client_given (next r (timeout u n)) e = Run-client_given r e
  Run-client_given (next r (cancelled u)) e = Run-client_given r e
  Run-client_given (next r (connected u n)) e = Run-client_given r e
  Run-client_given (next r (refused u n)) e = Run-client_given r e
  Run-client_given (next r (lost u n)) e = Run-client_given r e

  fresh-client :
      (destination port serial : Bytes) (h : HdlcdClientHandler a)
      → construct a destination port serial true ≡ ok h
      → (h.serial_port_name ≡ serial) × (h.hdlcd_client ≡ none)
  unfolding construct
  fresh-client destination port serial h e = (ground arith, ground arith)

  -- Until it is closed, the handler of an HDLC daemon always has exactly one thing under way: a
  -- pending resolve, a wait for the next attempt, or a client that connects or is connected, which
  -- the handler then has. It never runs two at once, and it is never left without one. Its client, if
  -- the host has been resolved, is the new one of the latest resolution, for the serial port of the
  -- destination, and it has been given exactly the packets that were sent since then, in order. This
  -- is so for completions that come as they can: a resolve that is pending ends, a timer that is
  -- awaited expires or an earlier wait is cancelled, and a client reports the outcome of its connect
  -- once, and the end of a connection that was up once.
  pub handler_served :
      (destination port serial : Bytes) (h : HdlcdClientHandler a) (t : Connection)
      → construct a destination port serial true ≡ ok h
      → (r : Run (record { handler = h; link = down }) t)
      → (t.handler.resolving + awaited t.handler.waiting + live t.link ≡ 1)
        × (t.link ≢ down → t.handler.hdlcd_client ≢ none)
        × (t.handler.hdlcd_client ≡ client_given serial (sent_since r))
  handler_served destination port serial h t e r =
      let v = Run-IsServed r (fresh-IsServed destination port serial h e) in
      let (same, no_client) = fresh-client destination port serial h e in
      (
        v.one,
        v.client,
        (Run-client_given r no_client).1 ∙ ap (λ x. client_given x (sent_since r)) same,
      )
