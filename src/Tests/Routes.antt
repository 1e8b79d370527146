-- ===== src/Tests/Routes.antt =====
-- Where connections go: a rule for a domain, and what a kernel is given.
use oneagent.Prelude.{
  ℕ, String, Bool, false, ◌≡◌, refl, ◌⊎◌, Elem, [], ◌∷◌, Option, none, some, pos, eqb, All, ◌==◌,
  if◌then◌else◌,
}
use oneagent.Config.Types.{InboundConfig, OutboundConfig, RoutingRule, Config}
use oneagent.Config.Names.{inbound_names, outbound_names}
use oneagent.Config.Routing.{routing_mode}
use oneagent.Config.Validate.{validate}
use oneagent.Manager.Runtime.{enabled_runtime}
use oneagent.Manager.Runtime.Closed.{Runs, enabled_runtime_lem}
use oneagent.Manager.Preview.{RoutingPreviewRequest, preview_routing}
use oneagent.Manager.Preview.First.{Answers, preview_routing_lem, preview_routing-valid}
use oneagent.Tests.Fixtures.{config}

abbrev to_out : RoutingRule
to_out = record {
  name = "sites";
  match_type = "domain_suffix";
  value = "example.org, example.net";
  inbound = "";
  outbound = "out";
  priority = pos 10;
  disabled = false;
}

abbrev ruled : Config
ruled = record config { routing = record (config.routing) { rules = to_out ∷ [] } }

abbrev request : RoutingPreviewRequest
request = record { inbound = "in"; target = "www.Example.net"; protocol = "tcp"; port = pos 443 }

-- An address is a number here, and the only text with one is "10.0.0.1".
abbrev host : String → Option String
host target = none

abbrev address : String → Option ℕ
address target = if target == "10.0.0.1" then some 10 else none

abbrev within : String → ℕ → Bool
within network ip = eqb ip 10

abbrev own : ℕ → Bool
own ip = eqb ip 10

abbrev loopback : ℕ → Bool
loopback ip = false

preview_routing_lem_example :
    Answers ℕ host address within own loopback ruled request
      (preview_routing ℕ host address within own loopback ruled request)
unfolding routing_mode
preview_routing_lem_example =
    preview_routing_lem ℕ host address within own loopback ruled request refl

preview_routing-valid_example :
    let result = preview_routing ℕ host address within own loopback ruled request in
    (result.outbound ≡ "direct") ⊎ Elem result.outbound (outbound_names ruled.outbounds)
unfolding validate
preview_routing-valid_example =
    preview_routing-valid ℕ host address within own loopback ruled request refl

enabled_runtime_lem_example :
    let (ins, outs, next) = enabled_runtime ruled.inbounds ruled.outbounds ruled.routing in
    All (λ (i : InboundConfig). i.disabled ≡ false) ins
    × All (λ (o : OutboundConfig). o.disabled ≡ false) outs
    × ((next.default_outbound ≡ "direct") ⊎ Elem next.default_outbound (outbound_names outs))
    × All (Runs (inbound_names ins) (outbound_names outs)) next.rules
enabled_runtime_lem_example = enabled_runtime_lem ruled.inbounds ruled.outbounds ruled.routing

previews_out : (preview_routing ℕ host address within own loopback ruled request).outbound ≡ "out"
unfolding preview_routing
previews_out = refl
