-- ===== src/Hdlcd/Recovery.antt =====
-- HdlcdClientHandler.cpp: the connection to an HDLC daemon can come up again.
use snet_gateway.Prelude.{◌≡◌, ◌≢◌, refl, true, Bytes, arith, Bool-cases, inl, inr}
use snet_gateway.Prelude.Result.{ok}
use snet_gateway.External.HdlcdClient.{HdlcdAccess}
use snet_gateway.Hdlcd.{HdlcdClientHandler, construct, on_timer, resolve_destination}
use snet_gateway.Hdlcd.Progress.{
  Link-cases, down, connecting, up, Connection, connected, resolved, timeout, Run, start, next,
  IsServed, fresh-IsServed, Run-IsServed,
}

module _ (a : HdlcdAccess) where
  up_from_connecting :
      (s : Connection a) → s.link ≡ connecting → (t : Connection a) × Run a s t × (t.link ≡ up)
  up_from_connecting s e = (_, next start (connected s e), refl)

  up_from_resolving :
      (s : Connection a) → s.handler.resolving ≢ 0 → (t : Connection a) × Run a s t × (t.link ≡ up)
  up_from_resolving s n = (_, next (next start (resolved s n)) (connected _ refl), refl)

  up_from_waiting :
      (s : Connection a) → s.handler.waiting ≡ true → (t : Connection a) × Run a s t × (t.link ≡ up)
  unfolding on_timer resolve_destination
  up_from_waiting s e = (
    _,
    next (next (next start (timeout s e)) (resolved _ (λ k. omega arith))) (connected _ refl),
    refl,
  )

  recovers : (s : Connection a) → IsServed a s → (t : Connection a) × Run a s t × (t.link ≡ up)
  recovers s v = elim (Link-cases s.link) [
    | inl is_up ↦ (s, start, is_up)
    | inr (inl is_connecting) ↦ up_from_connecting s is_connecting
    | inr (inr is_down) ↦ elim (Bool-cases s.handler.waiting) [
      | inl waits ↦ up_from_waiting s waits
      | inr idle ↦ up_from_resolving s (λ k. ground (arith, v.one))
    ]
  ]

  -- Whatever happens to an HDLC daemon, the handler can get its connection up again: from each
  -- state that it can reach, a few steps of it lead to a connection.
  pub handler_recovers :
      (destination port serial : Bytes) (h : HdlcdClientHandler a) (t : Connection a)
      → construct a destination port serial true ≡ ok h
      → Run a (record { handler = h; link = down }) t
      → (u : Connection a) × Run a t u × (u.link ≡ up)
  handler_recovers destination port serial h t e r =
      recovers t (Run-IsServed a r (fresh-IsServed a destination port serial h e))
