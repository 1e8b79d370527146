-- ===== src/Tests/Subscriptions.antt =====
-- A subscription that is fetched every hour.
use oneagent.Prelude.{
  ◌≤◌, ◌-◌, ◌≡◌, ◌≢◌, refl, List, [], ◌∷◌, pos, All, arith, false, lookup, insert,
}
use oneagent.Config.Types.{ProxyProviderConfig}
use oneagent.Config.Errors.{ok}
use oneagent.Exec.{◌>>=◌}
use oneagent.Platform.{World}
use oneagent.Manager.State.{State}
use oneagent.Manager.Subscriptions.{interval_of, due_subscription_providers}
use oneagent.Manager.Subscriptions.Due.{
  IsBounded, Given, Passed, HasName, due_subscription_lem, due_again,
}
use oneagent.Tests.Fixtures.{world, config, running}

abbrev pub hourly : ProxyProviderConfig
hourly = record {
  name = "list";
  kind = "http";
  url = "https://example.org/list";
  path = "";
  interval = pos 3600;
  group = "";
  rename_prefix = "";
  rename_suffix = "";
  dedup_strategy = "";
  preserve_user_fields = false;
  preserve_fields = [];
  health_check_url = "";
  health_check_lazy = false;
  health_check_interval = pos 0;
  filter = "";
  exclude_filter = "";
}

abbrev subscribed : State
subscribed = record running {
  self = record (running.self) {
    cfg = record config { mihomo = record (config.mihomo) { providers = hourly ∷ [] } };
  };
}

abbrev marked : State
marked = record subscribed {
  self = record (subscribed.self) { subscriptions = ("list", 1000) ∷ [] };
}

hourly-IsBounded : All IsBounded (hourly ∷ [])
unfolding due_subscription_providers
hourly-IsBounded = (ground arith, tt)

first_call : due_subscription_providers subscribed ≡ (ok (hourly ∷ []), marked)
unfolding due_subscription_providers ◌>>=◌ lookup insert
first_call = refl

-- Two hours later.
abbrev later : World
later = record world { clock = 8200 }

abbrev marked_again : State
marked_again = record marked {
  self = record (marked.self) { subscriptions = ("list", 8200) ∷ [] };
  world = later;
}

second_call :
    due_subscription_providers (record marked { world = later }) ≡ (ok (hourly ∷ []), marked_again)
unfolding due_subscription_providers ◌>>=◌ lookup insert
second_call = refl

due_subscription_lem_example :
    (due : List ProxyProviderConfig) × (t : State) × (due_subscription_providers subscribed
      ≡ (ok due, t))
    × All (Given 1000 [] t.self.subscriptions) due
    × All (λ p. p.url ≢ "" → Passed 1000 [] p → HasName p.name due) (hourly ∷ [])
due_subscription_lem_example = due_subscription_lem subscribed hourly-IsBounded

due_again_example :
    All
      (λ (p : ProxyProviderConfig).
        All
          (λ (q : ProxyProviderConfig). p.name ≡ q.name → interval_of q ≤ 8200 - 1000)
          (hourly ∷ []))
      (hourly ∷ [])
due_again_example =
    due_again subscribed marked marked_again later (hourly ∷ []) (hourly ∷ []) hourly-IsBounded
      first_call second_call
