-- ===== src/Hdlcd.antt =====
-- HdlcdClientHandler.cpp: the connection to one HDLC daemon. The completions of its asynchronous
-- calls, and the callbacks of its client, are operations.
pub mod Progress
pub mod Recovery
use snet_gateway.Prelude.{ℕ, suc, ◌-◌, Bool, true, false, Option, none, some, Bytes, if◌then◌else◌}
use snet_gateway.Prelude.Result.{Result, ok, null_pointer, ◌>>=◌, ◌>>◌, check, or_fault}
use snet_gateway.External.HdlcdClient.{HdlcdAccess}
use snet_gateway.External.Message.{SnetServiceMessage}

module _ (a : HdlcdAccess) where
  -- `resolving` is the number of pending `async_resolve`, `waiting` whether the timer is awaited.
  pub record HdlcdClientHandler : Type 0 where
    pub destination_name : Bytes
    pub tcp_port : Bytes
    pub serial_port_name : Bytes
    pub has_routing : Bool
    pub resolving : ℕ
    pub waiting : Bool
    pub hdlcd_client : Option a.HdlcdClient

  unfoldable pub resolve_destination : HdlcdClientHandler → HdlcdClientHandler
  resolve_destination h = record h { resolving = suc h.resolving }

  unfoldable pub construct : Bytes → Bytes → Bytes → Bool → Result HdlcdClientHandler
  unfolding resolve_destination
  construct destination_name tcp_port serial_port_name has_routing = do
    check has_routing
    ok (
        resolve_destination (record {
          destination_name = destination_name;
          tcp_port = tcp_port;
          serial_port_name = serial_port_name;
          has_routing = has_routing;
          resolving = 0;
          waiting = false;
          hdlcd_client = none;
        }))

  -- The timer is set, which cancels an earlier wait.
  unfoldable pub retry : HdlcdClientHandler → HdlcdClientHandler
  retry h = record h { waiting = true }

  -- The completion of `async_wait`; a cancelled wait has an error.
  unfoldable pub on_timer : Bool → HdlcdClientHandler → HdlcdClientHandler
  unfolding resolve_destination
  on_timer true h = h
  on_timer false h = resolve_destination (record h { waiting = false })

  -- The completion of `async_resolve`, with an error or without. A client that is made has its
  -- callbacks set and connects.
  unfoldable pub on_resolved : Bool → HdlcdClientHandler → HdlcdClientHandler
  unfolding retry
  on_resolved true h = retry (record h { resolving = h.resolving - 1 })
  on_resolved false h = record h {
    resolving = h.resolving - 1;
    hdlcd_client = some (a.create h.serial_port_name);
  }

  -- The completion of `AsyncConnect`.
  unfoldable pub on_connected : Bool → HdlcdClientHandler → HdlcdClientHandler
  unfolding retry
  on_connected success h = if success then h else retry h

  -- The callback of a closed connection.
  unfoldable pub on_closed : HdlcdClientHandler → HdlcdClientHandler
  unfolding retry
  on_closed h = retry h

  send_by_client : Option a.HdlcdClient → Bytes → Bool → Option a.HdlcdClient
  send_by_client none packet reliable = none
  send_by_client (some c) packet reliable = some (a.send c packet reliable)

  -- `Send`
  unfoldable pub send : HdlcdClientHandler → Bytes → Bool → HdlcdClientHandler
  unfolding send_by_client
  send h packet reliable = record h { hdlcd_client = send_by_client h.hdlcd_client packet reliable }

  closed_client : Option a.HdlcdClient → Option a.HdlcdClient
  closed_client none = none
  closed_client (some c) = some (a.close c)

  -- `Close`, with the client that it closes and drops.
  unfoldable pub close : HdlcdClientHandler → Option a.HdlcdClient × HdlcdClientHandler
  unfolding closed_client
  close h = (closed_client h.hdlcd_client, record h { has_routing = false; hdlcd_client = none })

  -- The callback of received data, with the packet that it hands to the routing entity, as one of
  -- `COMPONENT_HDLCD`.
  unfoldable pub on_data :
      (m : SnetServiceMessage) → HdlcdClientHandler → Bytes → Result (Option m.Message)
  on_data m h bytes = elim (m.deserialize bytes) [
    | none ↦ ok none
    | some x ↦ (do or_fault null_pointer (if h.has_routing then some tt else none); ok (some x))
  ]
