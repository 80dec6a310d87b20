-- ===== src/External.antt =====
-- What the gateway takes from other repositories (its git submodules): parameters of the model.
pub mod FrameReader
pub mod FrameEndpoint
pub mod Message
pub mod HdlcdClient
pub mod FrameStream
pub mod FrameEmbedding
