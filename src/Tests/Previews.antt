-- ===== src/Tests/Previews.antt =====
-- The preview of a subscription with two nodes.
use oneagent.Prelude.{String, Option, none, some, trim_space, ◌==◌, if◌then◌else◌}
use oneagent.Links.Values.{Fields}
use oneagent.Subscription.Preview.{preview_subscription}
use oneagent.Subscription.Preview.Counted.{WhenShown, IsCounted, preview_subscription_lem}

abbrev no_yaml : String → Option Fields
no_yaml s = none

abbrev no_base64 : String → Option String
no_base64 s = none

abbrev download : String → Option String
download url = if url == "https://example.org" then some "ss://a#home\ntrojan://b" else none

preview_subscription_lem_example :
    WhenShown
      (IsCounted (trim_space " https://example.org"))
      (preview_subscription no_yaml no_base64 download " https://example.org")
preview_subscription_lem_example =
    preview_subscription_lem no_yaml no_base64 download " https://example.org"
