-- ===== src/Tests/Daemons.antt =====
-- The HDLC daemon of a destination, after the gateway has started and an accept has failed.
use snet_gateway.Prelude.{◌≡◌, refl, some, [], ◌∷◌}
use snet_gateway.Prelude.Result.{ok}
use snet_gateway.Collection
use snet_gateway.Gateway as Whole
use snet_gateway.Gateway.{Gateway}
use snet_gateway.Gateway.Links
use snet_gateway.Gateway.Links.{World}
use snet_gateway.Main
use snet_gateway.Main.Daemons
use snet_gateway.Main.Daemons.{at_start}
use snet_gateway.Main.Starting
use snet_gateway.Main.Starting.{IsStarted}
use snet_gateway.Tests.Instances.{packets, recorder}
use snet_gateway.Tests.Gateway.{daemon, specifier, specifier_good, options}

program :
    (g : Gateway recorder packets daemon) × (Main.start daemon recorder packets options
      ≡ ok (some g))
    × IsStarted daemon recorder packets options (specifier ∷ []) g
program =
    Starting.start-IsStarted daemon recorder packets options 24001 (specifier ∷ []) refl refl refl
      (specifier_good, tt)

abbrev world : World recorder packets daemon
world = at_start recorder packets daemon (specifier ∷ []) program.0
