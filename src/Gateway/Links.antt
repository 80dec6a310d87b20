-- ===== src/Gateway/Links.antt =====
-- The gateway as a whole with the connections to its HDLC daemons: completions come for what is under
-- way only.
use mathlib.Core.Path.{subst}
use snet_gateway.Prelude.{
  ℕ, zero, suc, ◌≡◌, ◌≢◌, refl, ap, ◌∙◌, true, false, some, List, [], ◌∷◌, arith, get_elem?, All₂,
  length, sym, change_at, length-change_at,
}
use snet_gateway.Prelude.Result.{ok}
use snet_gateway.External.FrameEndpoint.{FrameEndpoint}
use snet_gateway.External.Message.{SnetServiceMessage}
use snet_gateway.External.HdlcdClient.{HdlcdAccess}
use snet_gateway.Protocol.{GatewayAccessFrame}
use snet_gateway.Hdlcd.{HdlcdClientHandler}
use snet_gateway.Hdlcd.Progress
use snet_gateway.Hdlcd.Progress.{
  Link, down, connecting, up, Connection, IsServed, Step-IsServed, Run-IsServed,
}
use snet_gateway.HdlcdCollection.Sending.{pointers}
use snet_gateway.Gateway.{
  Gateway, Completion, timer, resolved, connected, disconnected, complete, complete_at,
  on_completion, Event, accepted, frame_read, client_closed, data_read, completed, handle,
}
use snet_gateway.Gateway.Daemons.{GoesOn, IsCompletion, handle-AllGoOn}
use snet_gateway.Gateway.Invariant.{IsRunning, complete_at-pointers}
use snet_gateway.Gateway.Runs.{HasRoom, handle-IsRunning}

-- The link of a handler after a completion.
abbrev pub link_after : Completion → Link → Link
link_after (timer error) l = l
link_after (resolved true) l = l
link_after (resolved false) l = connecting
link_after (connected true) l = up
link_after (connected false) l = down
link_after disconnected l = down

module _ (w : FrameEndpoint GatewayAccessFrame) (m : SnetServiceMessage) (a : HdlcdAccess) where
  -- What completes was under way.
  abbrev pub CanComplete : Completion → HdlcdClientHandler a → Link → Type 0
  CanComplete (timer true) h l = Unit
  CanComplete (timer false) h l = h.waiting ≡ true
  CanComplete (resolved error) h l = h.resolving ≢ 0
  CanComplete (connected success) h l = l ≡ connecting
  CanComplete disconnected h l = l ≡ up

  complete-Step :
      (event : Completion) (h : HdlcdClientHandler a) (l : Link)
      → CanComplete event h l
      → Progress.Step a
          (record { handler = h; link = l })
          (record { handler = complete w m a event h; link = link_after event l })
  unfolding complete
  complete-Step (timer true) h l c = Progress.cancelled _
  complete-Step (timer false) h l c = Progress.timeout _ c
  complete-Step (resolved true) h l c = Progress.not_resolved _ c
  complete-Step (resolved false) h l c = Progress.resolved _ c
  complete-Step (connected true) h l c = Progress.connected _ c
  complete-Step (connected false) h l c = Progress.refused _ c
  complete-Step disconnected h l c = Progress.lost _ c

  -- The gateway, and a link for each of its HDLCd handlers.
  pub record World : Type 0 where
    pub gateway : Gateway w m a
    pub links : List Link

  abbrev pub links_after : Event w m a → List Link → List Link
  links_after (completed index event) ls = change_at index (link_after event) ls
  links_after _ ls = ls

  -- An event that can come: a connection while there is an address for it, and a completion of
  -- something that is under way.
  abbrev pub CanHappen : Event w m a → World → Type 0
  CanHappen (completed index event) u =
      (h : HdlcdClientHandler a) × (l : Link) × (get_elem? u.gateway.daemons.handlers index
        ≡ some (some h))
      × (get_elem? u.links index ≡ some l)
      × CanComplete event h l
  CanHappen e u = HasRoom w m a e u.gateway

  pub data WorldStep (u u' : World) : Type 0 where
    happens :
        (e : Event w m a)
        → CanHappen e u
        → handle w m a e u.gateway ≡ ok u'.gateway
        → u'.links ≡ links_after e u.links
        → WorldStep u u'

  pub data WorldRun (u : World) : World → Type 0 where
    begin : WorldRun u u
    next : {v v' : World} → WorldRun u v → WorldStep v v' → WorldRun u v'

  -- Exactly one thing is under way at this handler.
  abbrev pub Serves : HdlcdClientHandler a → Link → Type 0
  Serves h l = IsServed a (record { handler = h; link = l })

  -- The gateway runs, and this is so at each handler.
  pub record IsServing (u : World) : Type 0 where
    pub running : IsRunning w m a u.gateway
    pub daemons : List (HdlcdClientHandler a)
    pub all_set : u.gateway.daemons.handlers ≡ pointers a daemons
    pub served : All₂ Serves daemons u.links

  change_at-Serves :
      (index : ℕ) (event : Completion) (hs : List (HdlcdClientHandler a)) (ls : List Link)
      (h : HdlcdClientHandler a) (l : Link)
      → get_elem? (pointers a hs) index ≡ some (some h)
      → get_elem? ls index ≡ some l
      → CanComplete event h l
      → All₂ Serves hs ls
      → All₂ Serves
          (change_at index (complete w m a event) hs)
          (change_at index (link_after event) ls)
  change_at-Serves index event [] ls h l there link can v = absurd (ground arith)
  change_at-Serves index event (g ∷ hs) [] h l there link can v = elim v [ ]
  change_at-Serves zero event (g ∷ hs) (k ∷ ls) h l there link can v =
      let same_h : h ≡ g = ground arith in
      let same_l : l ≡ k = ground arith in
      (
        Step-IsServed a
            (complete-Step event g k (
              subst (λ x. CanComplete event x k) same_h
                (subst (λ x. CanComplete event h x) same_l can)))
            v.0,
        v.1,
      )
  change_at-Serves (suc index) event (g ∷ hs) (k ∷ ls) h l there link can v =
      (v.0, change_at-Serves index event hs ls h l there link can v.1)

  GoesOn-Serves :
      (hs hs' : List (HdlcdClientHandler a)) (ls : List Link)
      → All₂ (GoesOn w m a) hs hs'
      → All₂ Serves hs ls
      → All₂ Serves hs' ls
  unfolding GoesOn
  GoesOn-Serves [] [] ls p v = v
  GoesOn-Serves (h ∷ hs) (h' ∷ hs') (l ∷ ls) p v =
      (Run-IsServed a (p.0 l) v.0, GoesOn-Serves hs hs' ls p.1 v.1)
  GoesOn-Serves (h ∷ hs) (h' ∷ hs') [] p v = elim v [ ]
  GoesOn-Serves [] (h' ∷ hs') ls p v = elim p [ ]
  GoesOn-Serves (h ∷ hs) [] ls p v = elim p [ ]

  other-IsServing :
      (e : Event w m a) (u u' : World)
      → ¬ IsCompletion w m a e
      → HasRoom w m a e u.gateway
      → handle w m a e u.gateway ≡ ok u'.gateway
      → u'.links ≡ u.links
      → IsServing u
      → IsServing u'
  other-IsServing e u u' n room done same v =
      let (hs', set', on) =
        handle-AllGoOn w m a e u.gateway u'.gateway n done v.daemons v.all_set in
      record {
        running = handle-IsRunning w m a e u.gateway u'.gateway room done v.running;
        daemons = hs';
        all_set = set';
        served = rw same (GoesOn-Serves v.daemons hs' u.links on v.served);
      }

  WorldStep-IsServing : (u u' : World) → WorldStep u u' → IsServing u → IsServing u'
  unfolding handle on_completion
  WorldStep-IsServing u u' (happens (completed index event) (h, l, there, link, can) done same) v =
      let done' : on_completion w m a index event u.gateway ≡ u'.gateway = ground arith in
      record {
        running =
            handle-IsRunning w m a (completed index event) u.gateway u'.gateway tt done v.running;
        daemons = change_at index (complete w m a event) v.daemons;
        all_set =
            ap (λ (g : Gateway w m a). g.daemons.handlers) (sym done')
            ∙ ap (complete_at w m a index event) v.all_set
            ∙ complete_at-pointers w m a index event v.daemons;
        served = rw same (
            change_at-Serves index event v.daemons u.links h l (rw v.all_set at there) link can
              v.served);
      }
  WorldStep-IsServing u u' (happens (accepted o) can done same) v =
      other-IsServing (accepted o) u u' (λ x. x) can done same v
  WorldStep-IsServing u u' (happens (frame_read id frame) can done same) v =
      other-IsServing (frame_read id frame) u u' (λ x. x) can done same v
  WorldStep-IsServing u u' (happens (client_closed id) can done same) v =
      other-IsServing (client_closed id) u u' (λ x. x) can done same v
  WorldStep-IsServing u u' (happens (data_read index bytes) can done same) v =
      other-IsServing (data_read index bytes) u u' (λ x. x) can done same v

  length-links_after : (e : Event w m a) (ls : List Link) → length (links_after e ls) ≡ length ls
  length-links_after (completed index event) ls = length-change_at index (link_after event) ls
  length-links_after (accepted o) ls = refl
  length-links_after (frame_read id frame) ls = refl
  length-links_after (client_closed id) ls = refl
  length-links_after (data_read index bytes) ls = refl

  pub WorldRun-length : {u u' : World} → WorldRun u u' → length u'.links ≡ length u.links
  WorldRun-length begin = refl
  WorldRun-length (next {v = v} r (happens e can done same)) =
      ap length same ∙ length-links_after e v.links ∙ WorldRun-length r

  pub WorldRun-IsServing : {u u' : World} → WorldRun u u' → IsServing u → IsServing u'
  WorldRun-IsServing begin v = v
  WorldRun-IsServing (next r n) v = WorldStep-IsServing _ _ n (WorldRun-IsServing r v)
