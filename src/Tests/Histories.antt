-- ===== src/Tests/Histories.antt =====
-- A configuration is persisted and restored.
use oneagent.Prelude.{◌≤◌, ◌≡◌, refl, none, some, length, arith, eq_iff}
use oneagent.Config.Types.{Config}
use oneagent.Config.Routing.{normalize_routing_config}
use oneagent.Manager.State.{State}
use oneagent.Platform.{HistoryRow, World}
use oneagent.Manager.Persist.{persist_config_locked}
use oneagent.Manager.Apply.{apply_config}
use oneagent.Manager.Apply.Outcomes.{IsLoaded, apply_config_lem}
use oneagent.Manager.Requests.Atomic.{Settled}
use oneagent.Manager.History.{find_row, restored, restore_config_history}
use oneagent.Manager.History.Kept.{IsComplete, history_roundtrip, restore-password}
use oneagent.Tests.Fixtures.{world, config, running}

abbrev complete : Config
complete = record config {
  kernel = record {
    kind = "sing-box";
    executable = "/usr/local/bin/sing-box";
    config_path = "sing-box.json";
  };
  routing = record (config.routing) { mode = "rule" };
}

complete-IsComplete : IsComplete complete complete
unfolding normalize_routing_config
complete-IsComplete = record {
  password = refl;
  user = λ e. ground (arith, eq_iff "admin" "");
  web_port = λ e. ground arith;
  kind = λ e. ground (arith, eq_iff "sing-box" "");
  config_path = λ e. ground (arith, eq_iff "sing-box.json" "");
  routing = refl;
}

abbrev persisted : World
persisted = (persist_config_locked complete world).1

history_roundtrip_example :
    (length persisted.db.config_history ≤ 100)
    × ((row : HistoryRow) × (find_row 1 persisted.db.config_history ≡ some row)
        × (restored complete row.content ≡ complete))
unfolding persist_config_locked
history_roundtrip_example =
    history_roundtrip complete complete world persisted refl complete-IsComplete

-- A manager whose history holds a row of another configuration under the id 1.
abbrev kept : State
kept = record running { world = persisted }

restore-password_example :
    Settled
      (λ m. m.cfg.server.admin_pass ≡ running.self.cfg.server.admin_pass)
      running.self
      (restore_config_history (λ link. none) 1 kept)
restore-password_example = restore-password (λ link. none) 1 kept

apply_config_lem_example :
    Settled
      (IsLoaded (λ link. none) config running.self)
      running.self
      (apply_config (λ link. none) config running)
apply_config_lem_example = apply_config_lem (λ link. none) config running
