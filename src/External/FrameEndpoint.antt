-- ===== src/External/FrameEndpoint.antt =====
-- The sending half of `FrameEndpoint` (libs/framing, a git submodule): its state, and what the
-- access protocol calls on it. `F` is the type of the frames that are handed over.
use snet_gateway.Prelude.{Bool}

pub record FrameEndpoint (F : Type 0) : Type 1 where
  pub Endpoint : Type 0
  pub start : Endpoint → Endpoint
  pub close : Endpoint → Endpoint
  -- `SendFrame`, with or without a callback; whether the endpoint took the frame, and its new state.
  pub send_frame : Endpoint → F → Bool → Bool × Endpoint
