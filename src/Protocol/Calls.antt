-- ===== src/Protocol/Calls.antt =====
-- GatewayAccessProtocol.cpp: the callbacks that `OnFrame` and `OnClosed` make.
use native.Mathlib.Decide.{dec_lt}
use snet_gateway.Prelude.{
  Option-cases, inl, inr, ◌≤◌, ◌≡◌, length-drop, ◌<◌, ◌⊎◌, ap, refl, ℕ, ◌+◌, ◌*◌, ◌^◌, ◌%◌, ◌≢◌,
  none, List, [], ◌∷◌, Bytes, length, drop, arith, true, some,
}
use snet_gateway.Prelude.Result.{ok, fault, out_of_range, IsOk, IsOk-value}
use snet_gateway.External.FrameEndpoint.{FrameEndpoint}
use snet_gateway.Frames.Escaped
use snet_gateway.Frames.LengthBased
use snet_gateway.Protocol.Modes.{mode_of}
use snet_gateway.CommandResponse.{frame_0300}
use snet_gateway.Protocol.Faults
use snet_gateway.Protocol
use snet_gateway.Protocol.{
  FramingMode, unknown, escaping, length_prefixed, GatewayAccessFrame, escaped, length_based,
  GatewayAccessProtocol, Callback, data_callback, closed_callback, on_frame, on_closed, close,
}

-- A frame that carries `bytes` leads to no call, or its bytes are delivered, or the connection is
-- closed.
abbrev pub IsCalled : Bytes → List Callback → Type 0
IsCalled bytes [] = Unit
IsCalled bytes (data_callback b ∷ []) = b ≡ bytes
IsCalled bytes (closed_callback ∷ []) = Unit
IsCalled bytes (call ∷ other ∷ calls) = ⊥

-- What a complete frame carries; an escaped frame has its request identifier.
abbrev pub Carries : GatewayAccessFrame → Bytes → Type 0
Carries (escaped f) bytes =
    (payload : Bytes) × (f ≡ Escaped.Steps.finished payload)
    × (2 ≤ length payload)
    × (bytes ≡ drop 2 payload)
Carries (length_based f) bytes = f ≡ LengthBased.Steps.finished bytes

-- A frame that is complete and that carries no more than what every client can be sent.
abbrev pub IsSized : GatewayAccessFrame → Type 0
IsSized (escaped f) = (p : Bytes) × (f ≡ Escaped.Steps.finished p) × (length p < 4096)
IsSized (length_based f) = (p : Bytes) × (f ≡ LengthBased.Steps.finished p) × (length p ≤ 4093)

-- The packet in a frame: behind the request identifier 0x0300 of a data request in an escaped frame,
-- and the payload of a length-based one.
abbrev pub HasPacket : GatewayAccessFrame → Bytes → Type 0
HasPacket (escaped f) bytes =
    (b0 b1 : ℕ) × (f.buffer ≡ b0 ∷ b1 ∷ bytes) × ((b0 * 2 ^ 8 + b1) % 2 ^ 16 ≡ 0x0300)
HasPacket (length_based f) bytes = f.buffer ≡ bytes

FramingMode-cases : (n : FramingMode) → (n ≡ length_prefixed) ⊎ (n ≢ length_prefixed)
FramingMode-cases unknown = inr (λ e. cc)
FramingMode-cases escaping = inr (λ e. cc)
FramingMode-cases length_prefixed = inl refl

abbrev pub IsAtMostOne : List Callback → Type 0
IsAtMostOne [] = Unit
IsAtMostOne (call ∷ []) = Unit
IsAtMostOne (call ∷ other ∷ calls) = ⊥

module _ (w : FrameEndpoint GatewayAccessFrame) where
  -- No frame leads to two calls.
  pub on_frame-IsAtMostOne :
      (p q : GatewayAccessProtocol w) (frame : GatewayAccessFrame) (calls : List Callback)
      → on_frame w p frame ≡ ok (calls, q)
      → IsAtMostOne calls
  unfolding on_frame close
  on_frame-IsAtMostOne p q frame [] e = tt
  on_frame-IsAtMostOne p q frame (call ∷ []) e = tt
  on_frame-IsAtMostOne p q (escaped f) (call ∷ other ∷ calls) e = ground arith
  on_frame-IsAtMostOne p q (length_based f) (call ∷ other ∷ calls) e = ground arith

  -- The end of a connection is told once.
  pub on_closed_lem :
      (p : GatewayAccessProtocol w)
      → p.frame_endpoint ≢ none
      → p.has_on_closed ≡ true
      → (q : GatewayAccessProtocol w) × (on_closed w p ≡ ok (closed_callback ∷ [], q))
  unfolding on_closed close
  on_closed_lem p h told = elim (Option-cases p.frame_endpoint) [
    | inl gone ↦ absurd (h gone)
    | inr (e, there) ↦ (record p { frame_endpoint = some (w.close e) }, ground arith)
  ]

  -- A frame whose payload is delivered is one of the mode.
  pub delivered-mode :
      (p q : GatewayAccessProtocol w) (frame : GatewayAccessFrame) (bytes : Bytes)
      → on_frame w p frame ≡ ok (data_callback bytes ∷ [], q)
      → q.framing_mode ≡ mode_of frame
  unfolding on_frame close
  delivered-mode p q (escaped f) bytes e = ground arith
  delivered-mode p q (length_based f) bytes e = ground arith

  escaped-HasPacket :
      (p q : GatewayAccessProtocol w) (f : Escaped.GatewayAccessFrameEscaped) (buffer bytes : Bytes)
      → f.buffer ≡ buffer
      → on_frame w p (escaped f) ≡ ok (data_callback bytes ∷ [], q)
      → HasPacket (escaped f) bytes
  unfolding on_frame close Escaped.get_payload Escaped.create frame_0300
  escaped-HasPacket p q f [] bytes e k = absurd (ground arith)
  escaped-HasPacket p q f (b ∷ []) bytes e k = absurd (ground arith)
  escaped-HasPacket p q f (b0 ∷ b1 ∷ payload) bytes e k = (b0, b1, ground arith, ground arith)

  -- What is delivered is the packet in the frame.
  pub delivered-HasPacket :
      (p q : GatewayAccessProtocol w) (frame : GatewayAccessFrame) (bytes : Bytes)
      → on_frame w p frame ≡ ok (data_callback bytes ∷ [], q)
      → HasPacket frame bytes
  unfolding on_frame close LengthBased.get_payload
  delivered-HasPacket p q (escaped f) bytes k = escaped-HasPacket p q f f.buffer bytes refl k
  delivered-HasPacket p q (length_based f) bytes k = ground arith

  escaped-IsCalled :
      (p q : GatewayAccessProtocol w) (payload : Bytes) (calls : List Callback)
      → on_frame w p (escaped (Escaped.Steps.finished payload)) ≡ ok (calls, q)
      → IsCalled (drop 2 payload) calls
  unfolding on_frame close Escaped.get_payload Escaped.create frame_0300
  escaped-IsCalled p q [] calls k = ground arith
  escaped-IsCalled p q (b ∷ []) calls k = ground arith
  escaped-IsCalled p q (b0 ∷ b1 ∷ payload) calls k = ground arith

  length_based-IsCalled :
      (p q : GatewayAccessProtocol w) (payload : Bytes) (calls : List Callback)
      → on_frame w p (length_based (LengthBased.Steps.finished payload)) ≡ ok (calls, q)
      → IsCalled payload calls
  unfolding on_frame close LengthBased.get_payload
  length_based-IsCalled p q payload calls k = ground arith

  escaped-IsOk :
      (p : GatewayAccessProtocol w) (payload : Bytes)
      → p.frame_endpoint ≢ none
      → 2 ≤ length payload
      → IsOk (on_frame w p (escaped (Escaped.Steps.finished payload)))
  unfolding on_frame close Escaped.get_payload Escaped.create frame_0300
  escaped-IsOk p [] h long = absurd (omega arith)
  escaped-IsOk p (b ∷ []) h long = absurd (omega arith)
  escaped-IsOk p (b0 ∷ b1 ∷ payload) h long = ground arith

  length_based-IsOk :
      (p : GatewayAccessProtocol w) (payload : Bytes)
      → p.frame_endpoint ≢ none
      → IsOk (on_frame w p (length_based (LengthBased.Steps.finished payload)))
  unfolding on_frame close LengthBased.get_payload
  length_based-IsOk p payload h = ground arith

  -- An escaped frame in the length-based mode is not looked at.
  refused-IsOk :
      (p : GatewayAccessProtocol w) (payload : Bytes)
      → p.frame_endpoint ≢ none
      → p.framing_mode ≡ length_prefixed
      → IsOk (on_frame w p (escaped (Escaped.Steps.finished payload)))
  unfolding on_frame close
  refused-IsOk p payload h mode = ground arith

  -- An escaped frame that is accepted, but is too short for a request identifier.
  abbrev pub IsShort : GatewayAccessProtocol w → GatewayAccessFrame → Type 0
  IsShort p (escaped f) = (p.framing_mode ≢ length_prefixed) × (length f.buffer < 2)
  IsShort p (length_based f) = ⊥

  pub whole-IsOk :
      (p : GatewayAccessProtocol w) (frame : GatewayAccessFrame)
      → p.frame_endpoint ≢ none
      → IsSized frame
      → ¬ IsShort p frame
      → IsOk (on_frame w p frame)
  whole-IsOk p (escaped f) h (payload, whole, fits) long = elim (dec_lt (length payload) 2) [
    | yes short ↦ elim (FramingMode-cases p.framing_mode) [
      | inl refused ↦ rw whole (refused-IsOk p payload h refused)
      | inr accepted ↦ absurd (long (accepted, ground (arith, whole)))
    ]
    | no enough ↦ rw whole (escaped-IsOk p payload h (omega arith))
  ]
  whole-IsOk p (length_based f) h (payload, whole, fits) long =
      rw whole (length_based-IsOk p payload h)

  pub short-fault :
      (p : GatewayAccessProtocol w) (e : w.Endpoint) (frame : GatewayAccessFrame)
      → p.frame_endpoint ≡ some e
      → IsSized frame
      → IsShort p frame
      → on_frame w p frame ≡ fault out_of_range
  short-fault p e (escaped f) there (payload, whole, fits) (accepted, short) =
      rw whole
        ((Protocol.Faults.on_frame_short w p e payload accepted there).0 (ground (arith, whole)))
  short-fault p e (length_based f) there sized short = elim short [ ]

  -- What is delivered of such a frame has at most 4093 bytes.
  pub delivered-length :
      (p q : GatewayAccessProtocol w) (frame : GatewayAccessFrame) (bytes : Bytes)
      → IsSized frame
      → on_frame w p frame ≡ ok (data_callback bytes ∷ [], q)
      → length bytes ≤ 4093
  delivered-length p q (escaped f) bytes (payload, whole, fits) e = omega (
    arith,
    fits,
    length-drop 2 payload,
    ap length (escaped-IsCalled p q payload (data_callback bytes ∷ []) (rw whole at e)),
  )
  delivered-length p q (length_based f) bytes (payload, whole, fits) e = omega (
    arith,
    fits,
    ap length (length_based-IsCalled p q payload (data_callback bytes ∷ []) (rw whole at e)),
  )

  -- A frame that carries bytes never faults at a protocol with an endpoint, and leads to no other
  -- call than their delivery or the close of the connection.
  pub on_frame-IsCalled :
      (p : GatewayAccessProtocol w) (frame : GatewayAccessFrame) (bytes : Bytes)
      → p.frame_endpoint ≢ none
      → Carries frame bytes
      → (calls : List Callback) × (q : GatewayAccessProtocol w) × (on_frame w p frame
          ≡ ok (calls, q))
        × IsCalled bytes calls
  on_frame-IsCalled p (escaped f) bytes h (payload, whole, long, carried) =
      let ((calls, q), e) = IsOk-value _ (escaped-IsOk p payload h long) in
      (calls, q, rw whole e, rw carried (escaped-IsCalled p q payload calls e))
  on_frame-IsCalled p (length_based f) bytes h whole =
      let ((calls, q), e) = IsOk-value _ (length_based-IsOk p bytes h) in
      (calls, q, rw whole e, length_based-IsCalled p q bytes calls e)
