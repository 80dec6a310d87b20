-- ===== src/Main/Daemons.antt =====
-- main-snet-gateway.cpp: the HDLC daemons of the destinations, from the start of the gateway on.
use snet_gateway.Prelude.{List, map, Bytes}
use snet_gateway.External.FrameEndpoint.{FrameEndpoint}
use snet_gateway.External.Message.{SnetServiceMessage}
use snet_gateway.External.HdlcdClient.{HdlcdAccess}
use snet_gateway.Protocol.{GatewayAccessFrame}
use snet_gateway.Hdlcd.Progress.{down}
use snet_gateway.Gateway.{Gateway}
use snet_gateway.Gateway.Links.{World}

module _ (w : FrameEndpoint GatewayAccessFrame) (m : SnetServiceMessage) (a : HdlcdAccess) where
  -- The gateway that `main` has started, with no connection to a daemon.
  abbrev pub at_start : List Bytes → Gateway w m a → World w m a
  at_start destinations g = record { gateway = g; links = map (λ s. down) destinations }
