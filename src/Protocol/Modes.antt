-- ===== src/Protocol/Modes.antt =====
-- GatewayAccessProtocol.cpp, `OnFrame`: the first frame of a connection fixes its framing mode.
use snet_gateway.Prelude.{
  ◌≡◌, List, arith, Bool, [], refl, ◌∷◌, ◌≢◌, ap, if◌then◌else◌, ◌∙◌, sym, some, none, Option-cases,
  inl, inr,
}
use snet_gateway.Prelude.Result.{ok}
use snet_gateway.External.FrameEndpoint.{FrameEndpoint}
use snet_gateway.Protocol.{
  GatewayAccessFrame, escaped, length_based, FramingMode, unknown, escaping, length_prefixed,
  Callback, closed_callback, GatewayAccessProtocol, on_frame, close,
}

-- The mode that a frame asks for, and the mode after it.
abbrev pub mode_of : GatewayAccessFrame → FramingMode
mode_of (escaped f) = escaping
mode_of (length_based f) = length_prefixed

abbrev pub next_mode : FramingMode → GatewayAccessFrame → FramingMode
next_mode unknown f = mode_of f
next_mode escaping f = escaping
next_mode length_prefixed f = length_prefixed

pub next_mode-known : (n : FramingMode) (f : GatewayAccessFrame) → n ≢ unknown → next_mode n f ≡ n
next_mode-known unknown f known = absurd (known refl)
next_mode-known escaping f known = refl
next_mode-known length_prefixed f known = refl

module _ (w : FrameEndpoint GatewayAccessFrame) where
  pub on_frame-mode :
      (p : GatewayAccessProtocol w) (f : GatewayAccessFrame) (calls : List Callback)
      (q : GatewayAccessProtocol w)
      → on_frame w p f ≡ ok (calls, q)
      → (q.framing_mode ≡ next_mode p.framing_mode f) × (q.has_on_closed ≡ p.has_on_closed)
  unfolding on_frame
  on_frame-mode p (escaped f) calls q h = ground arith
  on_frame-mode p (length_based f) calls q h = ground arith

  -- The calls of a protocol that closes.
  abbrev pub closing : Bool → List Callback
  closing has_on_closed = if has_on_closed then closed_callback ∷ [] else []

  -- The endpoint of a protocol is closed, and who is to be told is told; nothing else is called.
  pub record IsClosing (p : GatewayAccessProtocol w) (calls : List Callback)
      (q : GatewayAccessProtocol w) : Type 0 where
    pub told : calls ≡ closing p.has_on_closed
    pub endpoint : w.Endpoint
    pub was_there : p.frame_endpoint ≡ some endpoint
    pub closed : q ≡ record p { frame_endpoint = some (w.close endpoint) }

  violation_gone :
      (p : GatewayAccessProtocol w) (f : GatewayAccessFrame) (calls : List Callback)
      (q : GatewayAccessProtocol w)
      → next_mode p.framing_mode f ≢ mode_of f
      → p.frame_endpoint ≡ none
      → on_frame w p f ≢ ok (calls, q)
  unfolding on_frame close
  violation_gone p (escaped f) calls q ne gone h = ground arith
  violation_gone p (length_based f) calls q ne gone h = ground arith

  violation_there :
      (p : GatewayAccessProtocol w) (f : GatewayAccessFrame) (calls : List Callback)
      (q : GatewayAccessProtocol w) (e : w.Endpoint)
      → next_mode p.framing_mode f ≢ mode_of f
      → p.frame_endpoint ≡ some e
      → on_frame w p f ≡ ok (calls, q)
      → (calls ≡ closing p.has_on_closed) × (q ≡ record p { frame_endpoint = some (w.close e) })
  unfolding on_frame close
  violation_there p (escaped f) calls q e ne there h = ground arith
  violation_there p (length_based f) calls q e ne there h = ground arith

  on_frame_violation :
      (p : GatewayAccessProtocol w) (f : GatewayAccessFrame) (calls : List Callback)
      (q : GatewayAccessProtocol w)
      → next_mode p.framing_mode f ≢ mode_of f
      → on_frame w p f ≡ ok (calls, q)
      → IsClosing p calls q
  on_frame_violation p f calls q ne h = elim (Option-cases p.frame_endpoint) [
    | inl gone ↦ absurd (violation_gone p f calls q ne gone h)
    | inr (e, there) ↦ record {
      told = (violation_there p f calls q e ne there h).0;
      endpoint = e;
      was_there = there;
      closed = (violation_there p f calls q e ne there h).1;
    }
  ]

  -- The calls of a frame, and the protocol after it.
  pub record Outcome : Type 0 where
    pub calls : List Callback
    pub after : GatewayAccessProtocol w

  -- The endpoint hands over these frames one after the other, with these outcomes.
  pub data Received
      : GatewayAccessProtocol w
        → List GatewayAccessFrame
        → List Outcome
        → GatewayAccessProtocol w
        → Type 0 where
    nothing : {p : GatewayAccessProtocol w} → Received p [] [] p
    frame :
        {p q : GatewayAccessProtocol w} {f : GatewayAccessFrame} {fs : List GatewayAccessFrame}
        {o : Outcome} {rest : List Outcome}
        → on_frame w p f ≡ ok (o.calls, o.after)
        → Received o.after fs rest q
        → Received p (f ∷ fs) (o ∷ rest) q

  -- Each frame of another mode than `m` closes the connection.
  abbrev pub OnlyMode :
      FramingMode → GatewayAccessProtocol w → List GatewayAccessFrame → List Outcome → Type 0
  OnlyMode m p [] [] = Unit
  OnlyMode m p (f ∷ fs) (o ∷ rest) =
      (mode_of f ≢ m → IsClosing p o.calls o.after) × OnlyMode m o.after fs rest
  OnlyMode m p _ _ = ⊥

  abbrev IsKnown : FramingMode → Type 0
  IsKnown m = (f : GatewayAccessFrame) → next_mode m f ≡ m

  mode_of-IsKnown : (f : GatewayAccessFrame) → IsKnown (mode_of f)
  mode_of-IsKnown (escaped f) g = refl
  mode_of-IsKnown (length_based f) g = refl

  known_mode :
      (m : FramingMode) {p q : GatewayAccessProtocol w} {fs : List GatewayAccessFrame}
      {outcomes : List Outcome}
      → IsKnown m
      → p.framing_mode ≡ m
      → Received p fs outcomes q
      → (q.framing_mode ≡ m) × OnlyMode m p fs outcomes
  known_mode m known e nothing = (e, tt)
  known_mode m {p = p} known e (frame {f = f} {o = o} h later) =
      let (mode, _) = on_frame-mode p f o.calls o.after h in
      let kept : next_mode p.framing_mode f ≡ m = ap (λ n. next_mode n f) e ∙ known f in
      let (last, rest) = known_mode m known (mode ∙ kept) later in
      (
        last,
        (
          (λ ne. on_frame_violation p f o.calls o.after (λ same. ne (sym (sym kept ∙ same))) h),
          rest,
        ),
      )

  -- The first frame of a connection fixes the framing mode for good. Whatever frames follow, the
  -- mode is that of the first frame, and each frame of the other mode is answered by closing the
  -- connection: the endpoint is closed, the closed callback is called if it is set, and no other, so
  -- that the frame is never delivered.
  pub first_frame_mode :
      {p q : GatewayAccessProtocol w} {f : GatewayAccessFrame} {fs : List GatewayAccessFrame}
      {outcomes : List Outcome}
      → p.framing_mode ≡ unknown
      → Received p (f ∷ fs) outcomes q
      → (q.framing_mode ≡ mode_of f) × OnlyMode (mode_of f) p (f ∷ fs) outcomes
  first_frame_mode {p} {f = f} e (frame {o = o} h later) =
      let (mode, _) = on_frame-mode p f o.calls o.after h in
      let first : o.after.framing_mode ≡ mode_of f = mode ∙ ap (λ n. next_mode n f) e in
      let (last, rest) = known_mode (mode_of f) (mode_of-IsKnown f) first later in
      (last, ((λ ne. absurd (ne refl)), rest))
