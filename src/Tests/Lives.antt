-- ===== src/Tests/Lives.antt =====
-- The life of a manager: it applies a configuration, adds a forward, and deletes a node.
use oneagent.Prelude.{String, Option, none, refl}
use oneagent.Config.Types.{OutboundConfig}
use oneagent.Config.Validate.{validate}
use oneagent.Config.Validate.Sound.{IsValid, validate_lem}
use oneagent.Manager.State.{State, new_manager}
use oneagent.Manager.Steps.{Request, handle, Step, Reach}
use oneagent.Manager.Synced.{IsSynced}
use oneagent.Manager.Synced.Reach.{Reach-IsSynced}
use oneagent.Tests.Fixtures.{world, config}

validate_lem_example : IsValid config
unfolding validate
validate_lem_example = validate_lem config refl

abbrev no_links : String → Option OutboundConfig
no_links link = none

abbrev new : State
new = new_manager "config.yaml" world

abbrev applied : State
applied = (handle no_links (Request.apply config) new).1

abbrev deleted : State
deleted = (handle no_links (Request.delete "inbound" "in") applied).1

Reach-IsSynced_example : IsSynced deleted.self
Reach-IsSynced_example = Reach-IsSynced no_links "config.yaml" world deleted (
    Reach.after (Reach.after Reach.start (Step.request (Request.apply config)))
      (Step.request (Request.delete "inbound" "in")))
