-- ===== src/Manager/Updates.antt =====
-- core/manager.go: `UpdateSubscriptions`, which reads the lists of the providers and imports what they
-- hold. The parser of links is that of Links.
pub mod Answered
use oneagent.Prelude.{
  ℕ, String, Bool, true, false, List, [], ◌∷◌, ◌++◌, Option, none, some, length, map, ◌==◌,
  if◌then◌else◌,
}
use oneagent.Config.Types.{OutboundConfig, ProxyProviderConfig}
use oneagent.Config.Errors.{Error, Result, ok, err, no_providers}
use oneagent.Exec.{◌>>=◌, ◌>>◌, pure, raise, get}
use oneagent.Manager.State.{State, Method}
use oneagent.Manager.Nodes.{Node}
use oneagent.Manager.Import.{Warning, ImportOutboundDetail, ImportOutboundsReport, import_outbounds}
use oneagent.Manager.Subscriptions.{mark_subscription_updated}
use oneagent.Links.Library.{Library, LinkResult, failed, parsed}
use oneagent.Links.Parse.{parse_outbound_link}
use oneagent.Links.Text.{Problem, ImportParseError, parse_outbound_links_detailed}

-- What an update reports of a provider that did not go well.
pub data UpdateError : Type 0 where
  not_fetched : UpdateError
  not_parsed : Problem → UpdateError
  not_imported : Error → UpdateError

pub record SubscriptionUpdateResult : Type 0 where
  pub provider : String
  pub url : String
  pub parsed : ℕ
  pub imported : ℕ
  pub added : ℕ
  pub updated : ℕ
  pub unchanged : ℕ
  pub imported_nodes : List String
  pub errors : List UpdateError
  pub warnings : List Warning

unfoldable pub started : ProxyProviderConfig → SubscriptionUpdateResult
started provider = record {
  provider = provider.name;
  url = provider.url;
  parsed = 0;
  imported = 0;
  added = 0;
  updated = 0;
  unchanged = 0;
  imported_nodes = [];
  errors = [];
  warnings = [];
}

all_warnings : List ImportOutboundDetail → List Warning
all_warnings [] = []
all_warnings (detail ∷ details) = detail.warnings ++ all_warnings details

-- Behind an import
imported_result : SubscriptionUpdateResult → Result ImportOutboundsReport → SubscriptionUpdateResult
imported_result result (err e) = record result { errors = result.errors ++ not_imported e ∷ [] }
imported_result result (ok report) = record result {
  imported = length report.imported;
  added = report.added;
  updated = report.updated;
  unchanged = report.unchanged;
  warnings = result.warnings ++ all_warnings report.details;
  imported_nodes = result.imported_nodes ++ map (λ (node : Node). node.name) report.imported;
}

-- `result, err := m()`: the caller goes on with the error as a value.
attempt : {A : Type 0} → Method A → Method (Result A)
attempt m s = let (r, t) = m s in (ok r, t)

-- The packages that the parser calls, and the download of an address: `fetchSubscription`, none where
-- it gives an error.
module _ (lib : Library) (fetch : String → Option String) where
  as_option : LinkResult → Option OutboundConfig
  as_option (failed e) = none
  as_option (parsed o) = some o

  -- The parser of links that an import calls
  unfoldable pub parse_link : String → Option OutboundConfig
  unfolding as_option parse_outbound_link
  parse_link raw = as_option (parse_outbound_link lib raw)

  import_parsed :
      ProxyProviderConfig
      → SubscriptionUpdateResult
      → List OutboundConfig
      → Method SubscriptionUpdateResult
  import_parsed provider result [] = pure result
  import_parsed provider result (o ∷ outbounds) = do
    r ← attempt (
        import_outbounds parse_link (record { provider = provider; from_subscription = true })
          (o ∷ outbounds))
    pure (imported_result result r)

  -- A round of the loop behind the download
  update_fetched :
      ProxyProviderConfig
      → List OutboundConfig × List ImportParseError
      → Method SubscriptionUpdateResult
  update_fetched provider (outbounds, details) = do
    result ←
        import_parsed provider
          (record (started provider) {
            parsed = length outbounds;
            errors = map (λ (detail : ImportParseError). not_parsed detail.error) details;
          })
          outbounds
    mark_subscription_updated provider.name
    pure result

  update_downloaded : ProxyProviderConfig → Option String → Method SubscriptionUpdateResult
  update_downloaded provider none = pure (record (started provider) { errors = not_fetched ∷ [] })
  update_downloaded provider (some body) =
      update_fetched provider (parse_outbound_links_detailed lib body)

  -- The loop over the providers.
  update_loop : List ProxyProviderConfig → Method (List SubscriptionUpdateResult)
  update_loop [] = pure []
  update_loop (provider ∷ providers) =
      let rest = update_loop providers in
      if provider.url == "" then rest else do
        result ← update_downloaded provider (fetch provider.url)
        results ← rest
        pure (result ∷ results)

  -- `updateSubscriptionsForProviders`
  unfoldable pub update_subscriptions_for_providers :
      List ProxyProviderConfig → Method (List SubscriptionUpdateResult)
  unfolding started all_warnings imported_result attempt parse_link import_parsed update_fetched
      update_downloaded update_loop import_outbounds mark_subscription_updated
      parse_outbound_links_detailed
  update_subscriptions_for_providers [] = raise no_providers
  update_subscriptions_for_providers (provider ∷ providers) = update_loop (provider ∷ providers)

  -- `UpdateSubscriptions`
  unfoldable pub update_subscriptions : Method (List SubscriptionUpdateResult)
  unfolding update_subscriptions_for_providers
  update_subscriptions = do s ← get; update_subscriptions_for_providers s.self.cfg.mihomo.providers
