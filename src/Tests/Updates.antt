-- ===== src/Tests/Updates.antt =====
-- Two subscriptions are updated, of which one cannot be downloaded.
use oneagent.Prelude.{String, [], ◌∷◌, Option, none, some, select, ◌==◌, if◌then◌else◌}
use oneagent.Config.Types.{ProxyProviderConfig}
use oneagent.Manager.Updates.{update_subscriptions_for_providers}
use oneagent.Manager.Updates.Answered.{
  Succeeds, AllReported, has_url, update_subscriptions_for_providers_lem,
}
use oneagent.Tests.Fixtures.{running}
use oneagent.Tests.Subscriptions.{hourly}
use oneagent.Tests.Links.{sample}

abbrev fetch : String → Option String
fetch url = if url == "https://example.org/list" then some "trojan://a vless://b" else none

abbrev broken : ProxyProviderConfig
broken = record hourly { name = "gone"; url = "https://example.org/gone" }

update_subscriptions_for_providers_lem_example :
    Succeeds
      (AllReported sample fetch (select has_url (hourly ∷ broken ∷ [])))
      (update_subscriptions_for_providers sample fetch (hourly ∷ broken ∷ []) running)
update_subscriptions_for_providers_lem_example =
    update_subscriptions_for_providers_lem sample fetch hourly (broken ∷ []) running
