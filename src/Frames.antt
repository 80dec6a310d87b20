-- ===== src/Frames.antt =====
-- GatewayAccessProtocol/GatewayAccessFrames: the two kinds of frames of the access protocol.
pub mod Escaped
pub mod LengthBased
