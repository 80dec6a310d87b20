-- ===== src/Gateway/Crashes.antt =====
-- The gateway as a whole: the frames that crash it.
use native.Mathlib.Decide.{dec_lt}
use snet_gateway.Prelude.{
  ℕ, ◌<◌, ◌≡◌, refl, some, List, [], ◌∷◌, arith, Bytes, length, Option-cases, inl, inr,
}
use snet_gateway.Prelude.Result.{ok, fault, out_of_range, IsOk-value}
use snet_gateway.External.FrameEndpoint.{FrameEndpoint}
use snet_gateway.External.Message.{SnetServiceMessage, MessageLaws, MessageSizes}
use snet_gateway.External.HdlcdClient.{HdlcdAccess}
use snet_gateway.AddressService.Replies.{IsRequest}
use snet_gateway.Protocol
use snet_gateway.Protocol.{GatewayAccessFrame, GatewayAccessProtocol, Callback, data_callback}
use snet_gateway.Protocol.Calls.{IsShort, IsSized, whole-IsOk, short-fault, delivered-length}
use snet_gateway.Handler.{GatewayAccessServerHandler}
use snet_gateway.Handler.Totality.{IsBenign}
use snet_gateway.Handler.Payload.{on_payload_short}
use snet_gateway.Collection.Identity.{find, find-replace}
use snet_gateway.Collection.Validity.{found-IsOpen}
use snet_gateway.Gateway.{Gateway, run_callbacks, run_callback, on_frame, frame_read, handle}
use snet_gateway.Gateway.Invariant.{IsRunning}
use snet_gateway.Gateway.Runs.{handle-IsRunning}
use snet_gateway.Gateway.Totality.{read-IsOk}

module _ (w : FrameEndpoint GatewayAccessFrame) (m : SnetServiceMessage) (a : HdlcdAccess)
    (laws : MessageLaws m) (sizes : MessageSizes m) where
  -- The two causes of a crash by a frame: an escaped frame without a request identifier, and a
  -- request for an address without the six bytes of a UUID.
  pub data Crashes (h : GatewayAccessServerHandler w) (frame : GatewayAccessFrame) : Type 0 where
    too_short : IsShort w h.protocol frame → Crashes h frame
    no_uuid :
        (bytes : Bytes) (x : m.Message) (q : GatewayAccessProtocol w)
        → Protocol.on_frame w h.protocol frame ≡ ok (data_callback bytes ∷ [], q)
        → m.deserialize bytes ≡ some x
        → IsRequest m laws x
        → length (m.payload x) < 6
        → Crashes h frame

  crash-fault :
      (g : Gateway w m a) (id : ℕ) (h : GatewayAccessServerHandler w) (frame : GatewayAccessFrame)
      → find w id g.clients.handlers ≡ some h
      → IsRunning w m a g
      → IsSized frame
      → Crashes h frame
      → on_frame w m a id frame g ≡ fault out_of_range
  unfolding on_frame run_callbacks run_callback
  crash-fault g id h frame found v sized (too_short short) =
      let is_open = (found-IsOpen w g.clients id h found v.valid).0 in
      elim (Option-cases h.protocol.frame_endpoint) [
        | inl closed ↦ absurd (is_open.endpoint closed)
        | inr (e, there) ↦
            rw (found, on_frame) (rw (short-fault w h.protocol e frame there sized short) refl)
      ]
  crash-fault g id h frame found v sized (no_uuid bytes x q read good request short) =
      let same = (found-IsOpen w g.clients id h found v.valid).1 in
      let h' : GatewayAccessServerHandler w = record h { protocol = q } in
      rw (found, on_frame, read)
        (rw (find-replace w id h h' g.clients.handlers found same, run_callback)
          (rw (on_payload_short w m laws h' bytes x good request short) refl))

  delivered-IsBenign :
      (h : GatewayAccessServerHandler w) (frame : GatewayAccessFrame) (calls : List Callback)
      (q : GatewayAccessProtocol w)
      → IsSized frame
      → ¬ Crashes h frame
      → Protocol.on_frame w h.protocol frame ≡ ok (calls, q)
      → (b : Bytes) → calls ≡ data_callback b ∷ []
      → IsBenign w m laws sizes b
  delivered-IsBenign h frame calls q sized safe read b k =
      let delivered : Protocol.on_frame w h.protocol frame ≡ ok (data_callback b ∷ [], q) =
        rw k at read in
      record {
        fits = delivered-length w h.protocol q frame b sized delivered;
        has_uuid = λ x good request. elim (dec_lt (length (m.payload x)) 6) [
          | yes short ↦ absurd (safe (no_uuid b x q delivered good request short))
          | no long ↦ omega arith
        ];
      }

  -- A complete frame of a connected client, escaped or length-based with at most 4093 bytes, crashes
  -- the running gateway for two reasons only, and then it always does: it is an escaped frame that
  -- the mode accepts with fewer than two bytes, or it delivers a request for an address with fewer
  -- than six bytes of payload. In both cases memory outside of a vector is read. Any other such frame
  -- is handled, whatever its bytes are, and the gateway is running after it.
  pub frame_faults :
      (g : Gateway w m a) (id : ℕ) (h : GatewayAccessServerHandler w) (frame : GatewayAccessFrame)
      → find w id g.clients.handlers ≡ some h
      → IsRunning w m a g
      → IsSized frame
      → (Crashes h frame → handle w m a (frame_read id frame) g ≡ fault out_of_range)
        × (¬ Crashes h frame
            → (g' : Gateway w m a) × (handle w m a (frame_read id frame) g ≡ ok g')
              × IsRunning w m a g')
  unfolding handle
  frame_faults g id h frame found v sized = (
    crash-fault g id h frame found v sized,
    (λ safe.
        let is_open = (found-IsOpen w g.clients id h found v.valid).0 in
        let ((calls, q), read) = IsOk-value _ (
          whole-IsOk w h.protocol frame is_open.endpoint sized (λ short. safe (too_short short))) in
        let (g', done) =
          read-IsOk w m a laws sizes id frame g h calls q found read
            (delivered-IsBenign h frame calls q sized safe read) v in
        (g', done, handle-IsRunning w m a (frame_read id frame) g g' tt done v)),
  )
