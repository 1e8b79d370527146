-- ===== src/Tests/Imports.antt =====
-- Two outbounds are imported: one that the manager has, and a new one.
use oneagent.Prelude.{◌≡◌, String, [], ◌∷◌, Option, none, false}
use oneagent.Config.Types.{OutboundConfig}
use oneagent.Manager.Import.{ImportOutboundsOptions, import_outbounds}
use oneagent.Manager.Import.Counts.{WhenOk, Sums, import_outbounds_lem}
use oneagent.Tests.Fixtures.{running, socks_out}
use oneagent.Tests.Subscriptions.{hourly}

abbrev no_links : String → Option OutboundConfig
no_links link = none

abbrev by_hand : ImportOutboundsOptions
by_hand = record { provider = hourly; from_subscription = false }

abbrev another : OutboundConfig
another = record socks_out { name = "out"; address = "192.0.2.9" }

import_outbounds_lem_example :
    WhenOk
      (λ last. Sums 2 last × (last.parsed ≡ 2))
      (import_outbounds no_links by_hand (socks_out ∷ another ∷ []) running)
import_outbounds_lem_example =
    import_outbounds_lem no_links by_hand (socks_out ∷ another ∷ []) running
