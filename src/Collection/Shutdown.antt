-- ===== src/Collection/Shutdown.antt =====
-- GatewayAccessServerHandlerCollection.cpp, `SystemShutdown`: the loop ends with all clients closed.
use snet_gateway.Prelude.{
  All, ℕ, suc, zero, ◌≤◌, ◌≡◌, refl, ap, ◌∙◌, false, some, List, [], ◌∷◌, arith, length,
}
use snet_gateway.Prelude.Result.{ok}
use snet_gateway.External.FrameEndpoint.{FrameEndpoint}
use snet_gateway.Protocol.{GatewayAccessFrame}
use snet_gateway.AddressPool.{release_address_lease}
use snet_gateway.AddressPool.Leases.{occurrences, handed_out}
use snet_gateway.Handler.{GatewayAccessServerHandler}
use snet_gateway.Collection.{
  GatewayAccessServerHandlerCollection, close_handler, close_all, remove, system_shutdown,
}
use snet_gateway.Collection.Identity.{Placed, Increasing, remove_here, replace_here, replace}
use snet_gateway.Collection.Invariant.{
  IsOpen, IsValid, address_of, close_handler_lem, closed-IsValid,
}

module _ (w : FrameEndpoint GatewayAccessFrame) where
  -- The collection without its first handler.
  abbrev without_first :
      GatewayAccessServerHandlerCollection w
      → GatewayAccessServerHandler w
      → List (GatewayAccessServerHandler w)
      → GatewayAccessServerHandlerCollection w
  without_first c h hs = record c {
    address_pool = release_address_lease (address_of w h) c.address_pool;
    handlers = hs;
  }

  close_first :
      (c : GatewayAccessServerHandlerCollection w) (h : GatewayAccessServerHandler w)
      (hs : List (GatewayAccessServerHandler w))
      → c.handlers ≡ h ∷ hs
      → IsValid w c
      → (close_handler w h c ≡ ok (without_first c h hs)) × IsValid w (without_first c h hs)
  close_first c h hs e v =
      let first : Increasing w 0 (h ∷ hs) c.next_id = rw e at v.identities in
      let all_open : IsOpen w h × All (IsOpen w) hs = rw e at v.all_open in
      let placed : Placed w h.id c.handlers h = record {
        before = [];
        after = hs;
        identity = refl;
        place = e;
        removed = ap (remove w h.id) e ∙ remove_here w 0 c.next_id h hs first;
        replaced = λ h' k. ap (replace w h') e ∙ replace_here w 0 c.next_id h h' hs k first;
      } in
      (
        close_handler_lem w c h all_open.0
            ∙ ap (λ (gs : List (GatewayAccessServerHandler w)). ok (without_first c h gs))
                placed.removed,
        closed-IsValid w c h.id h placed v,
      )

  -- The state in which the shutdown ends.
  pub record IsEmpty (c c' : GatewayAccessServerHandlerCollection w) : Type 0 where
    pub handlers : c'.handlers ≡ []
    pub has_routing : c'.has_routing ≡ c.has_routing
    pub accepting : c'.accepting ≡ c.accepting
    pub valid : IsValid w c'

  close_all-IsEmpty :
      (fuel : ℕ) (c : GatewayAccessServerHandlerCollection w)
      (hs : List (GatewayAccessServerHandler w))
      → c.handlers ≡ hs
      → length hs ≤ fuel
      → IsValid w c
      → (c' : GatewayAccessServerHandlerCollection w) × (close_all w fuel c hs ≡ some (ok c'))
        × IsEmpty c c'
  unfolding close_all
  close_all-IsEmpty fuel c [] e enough v =
      (c, refl, record { handlers = e; has_routing = refl; accepting = refl; valid = v })
  close_all-IsEmpty zero c (h ∷ hs) e enough v = absurd (omega arith)
  close_all-IsEmpty (suc fuel) c (h ∷ hs) e enough v =
      let (closes, valid) = close_first c h hs e v in
      let (c', ends, empty) =
        close_all-IsEmpty fuel (without_first c h hs) hs refl (omega arith) valid in
      (
        c',
        rw (closes, close_all) ends,
        record {
          handlers = empty.handlers;
          has_routing = empty.has_routing;
          accepting = empty.accepting;
          valid = empty.valid;
        },
      )

  -- The loop of the shutdown takes one round for each client and never faults. It ends with no
  -- client, no routing entity and no listener, and every address that was ever leased is released.
  pub system_shutdown-IsEmpty :
      (fuel : ℕ) (c : GatewayAccessServerHandlerCollection w)
      → length c.handlers ≤ fuel
      → IsValid w c
      → (c' : GatewayAccessServerHandlerCollection w) × (system_shutdown w fuel c ≡ some (ok c'))
        × (c'.handlers ≡ [])
        × (c'.has_routing ≡ false)
        × (c'.accepting ≡ false)
        × ((a : ℕ)
            → occurrences a c'.address_pool.released_addresses ≡ handed_out c'.address_pool a)
  unfolding system_shutdown
  system_shutdown-IsEmpty fuel c enough v =
      let d = record c { accepting = false; has_routing = false } in
      let valid : IsValid w d = record {
        all_open = v.all_open;
        identities = v.identities;
        pool = v.pool;
      } in
      let (c', ends, empty) = close_all-IsEmpty fuel d c.handlers refl enough valid in
      let pool = rw empty.handlers at empty.valid.pool in
      (
        c',
        ends,
        empty.handlers,
        empty.has_routing,
        empty.accepting,
        (λ a. omega (arith, pool.exact a)),
      )
