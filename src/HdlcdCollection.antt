-- ===== src/HdlcdCollection.antt =====
-- HdlcdClientHandlerCollection.cpp: the connections to all HDLC daemons. An element of the vector
-- is a shared pointer, which `SystemShutdown` empties.
pub mod Sending
use snet_gateway.Prelude.{ℕ, Bool, true, false, Option, none, some, List, [], ◌∷◌, ◌++◌, Bytes}
use snet_gateway.Prelude.Result.{Result, ok, null_pointer, ◌>>=◌, ◌>>◌, check, or_fault}
use snet_gateway.External.HdlcdClient.{HdlcdAccess}
use snet_gateway.Hdlcd
use snet_gateway.Hdlcd.{HdlcdClientHandler}

module _ (a : HdlcdAccess) where
  pub record HdlcdClientHandlerCollection : Type 0 where
    pub handlers : List (Option (HdlcdClientHandler a))
    pub has_routing : Bool

  unfoldable pub construct : HdlcdClientHandlerCollection
  construct = record { handlers = []; has_routing = false }

  unfoldable pub initialize :
      Bool → HdlcdClientHandlerCollection → Result HdlcdClientHandlerCollection
  initialize has_routing c = do check has_routing; ok (record c { has_routing = has_routing })

  -- `CreateHdlcdClientHandler`
  unfoldable pub create_hdlcd_client_handler :
      Bytes → Bytes → Bytes → HdlcdClientHandlerCollection → Result HdlcdClientHandlerCollection
  create_hdlcd_client_handler destination_name tcp_port serial_port_name c = do
    check c.has_routing
    h ← Hdlcd.construct a destination_name tcp_port serial_port_name c.has_routing
    ok (record c { handlers = c.handlers ++ some h ∷ [] })

  -- What `Close` of a handler leaves: the client that it closes and drops, and the handler itself.
  abbrev pub Dropped : Type 0
  Dropped = Option a.HdlcdClient × HdlcdClientHandler a

  -- The loop of `SystemShutdown`, with what it drops.
  pub close_all :
      List (Option (HdlcdClientHandler a))
      → Result (List Dropped × List (Option (HdlcdClientHandler a)))
  close_all [] = ok ([], [])
  close_all (o ∷ hs) = do
    h ← or_fault null_pointer o
    let dropped = Hdlcd.close a h
    (others, rest) ← close_all hs
    ok (dropped ∷ others, none ∷ rest)

  unfoldable pub system_shutdown :
      HdlcdClientHandlerCollection → Result (List Dropped × HdlcdClientHandlerCollection)
  unfolding close_all
  system_shutdown c = do
    (dropped, hs) ← close_all c.handlers
    ok (dropped, record { handlers = hs; has_routing = false })

  -- The loop of `Send`.
  pub send_all :
      List (Option (HdlcdClientHandler a))
      → Bytes
      → Bool
      → Result (List (Option (HdlcdClientHandler a)))
  send_all [] packet reliable = ok []
  send_all (o ∷ hs) packet reliable = do
    h ← or_fault null_pointer o
    rest ← send_all hs packet reliable
    ok (some (Hdlcd.send a h packet reliable) ∷ rest)

  unfoldable pub send :
      HdlcdClientHandlerCollection → Bytes → Bool → Result HdlcdClientHandlerCollection
  unfolding send_all
  send c packet reliable = do
    hs ← send_all c.handlers packet reliable
    ok (record c { handlers = hs })
