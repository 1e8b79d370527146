-- ===== src/Manager/History.antt =====
-- core/manager.go: the history of configurations.
pub mod Kept
use oneagent.Prelude.{
  ℕ, String, List, [], ◌∷◌, Option, none, some, if◌then◌else◌, take, length, ltb, ◌-◌, eqb, pos,
  eqℤ,
}
use oneagent.Config.Types.{OutboundConfig, Config}
use oneagent.Config.Errors.{Error, platform, Result, ok, err}
use oneagent.Config.Routing.{normalize_routing_config}
use oneagent.Exec.{continue, ◌>>=◌, ◌>>◌, pure, lift, get, refuse_if}
use oneagent.Platform.{HistoryRow, Action, call}
use oneagent.Manager.State.{Method, in_world}
use oneagent.Manager.Persist.{default_config_history_keep, cleanup_config_history}
use oneagent.Manager.Apply.{first_non_empty, apply_config}

abbrev clamp_limit : ℕ → ℕ
clamp_limit limit =
    if ltb limit 1
    then 20
    else if ltb default_config_history_keep limit
    then default_config_history_keep
    else limit

-- `ListConfigHistory`, for a limit that is not negative; a summary is read off its row.
unfoldable pub list_config_history : ℕ → Action (List HistoryRow)
unfolding call
list_config_history limit w =
    continue (call "query history" w) (λ _. pure (take (clamp_limit limit) w.db.config_history))

pub find_row : ℕ → List HistoryRow → Option HistoryRow
find_row id [] = none
find_row id (r ∷ rows) = if eqb r.id id then some r else find_row id rows

-- The configuration of a row, with what the row does not hold: the password is not written to it.
pub restored : Config → Config → Config
restored current cfg = record cfg {
  server = record (cfg.server) {
    admin_user = first_non_empty cfg.server.admin_user current.server.admin_user;
    admin_pass = current.server.admin_pass;
    web_port =
        if eqℤ cfg.server.web_port (pos 0) then current.server.web_port else cfg.server.web_port;
  };
  kernel = record (cfg.kernel) {
    kind = first_non_empty cfg.kernel.kind "placeholder";
    config_path = first_non_empty cfg.kernel.config_path "kernel.generated.json";
  };
  routing = normalize_routing_config cfg.routing;
}

abbrev bad_id : Error
bad_id = platform "valid config history id is required"

abbrev no_such_row : Error
no_such_row = platform "config history does not exist"

abbrev content_of : Option HistoryRow → Result Config
content_of none = err no_such_row
content_of (some r) = ok r.content

-- `RestoreConfigHistory`
unfoldable pub restore_config_history : (String → Option OutboundConfig) → ℕ → Method (Unit {0})
unfolding find_row restored normalize_routing_config apply_config
restore_config_history parse_link id = do
  refuse_if (ltb id 1) bad_id
  in_world (call "query row")
  s ← get
  content ← lift (content_of (find_row id s.world.db.config_history))
  in_world (call "decode")
  apply_config parse_link (restored s.self.cfg content)

abbrev bad_keep : Error
bad_keep = platform "keep must be greater than 0"

-- `CleanupConfigHistory`; the answer is the number of rows that went.
unfoldable pub clean_config_history : ℕ → Action ℕ
unfolding cleanup_config_history
clean_config_history keep w =
    if ltb keep 1
    then (err bad_keep, w)
    else continue (cleanup_config_history (if ltb 1000 keep then 1000 else keep) w)
        (λ _ v. (ok (length w.db.config_history - length v.db.config_history), v))
