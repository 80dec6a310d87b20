-- ===== src/External/HdlcdClient.antt =====
-- `HdlcdClient` (libs/hdlcd-devel, a git submodule): one session with an HDLC daemon, as far as the
-- gateway calls it.
use snet_gateway.Prelude.{Bool, Bytes}

pub record HdlcdAccess : Type 1 where
  pub HdlcdClient : Type 0
  -- The constructor, at the name of the serial port, with the session of the gateway.
  pub create : Bytes → HdlcdClient
  -- `Send` of `HdlcdPacketData::CreatePacket`, at its arguments.
  pub send : HdlcdClient → Bytes → Bool → HdlcdClient
  pub close : HdlcdClient → HdlcdClient
