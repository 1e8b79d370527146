-- ===== src/Manager/Persist.antt =====
-- core/manager.go: the generated file, the saved configuration and the database.
pub mod Rows
use oneagent.Prelude.{
  ℕ, suc, String, ◌&&◌, List, [], ◌∷◌, Option, none, some, ◌==◌, if◌then◌else◌, Dict, lookup,
  remove, take,
}
use oneagent.Config.Types.{InboundConfig, OutboundConfig, RoutingRule, Config}
use oneagent.Config.Errors.{ok}
use oneagent.Exec.{continue, ◌>>=◌, ◌>>◌, pure, get, modify}
use oneagent.Platform.{File, saved, NodeRow, World, Action, call}
use oneagent.Certs.{write_file}
use oneagent.Manager.State.{Traffic, Health, Manager}

-- `readGeneratedFile`: the value, where the file exists.
unfoldable pub read_generated_file : String → Action (Option File)
unfolding call
read_generated_file path w = if path == "" then (ok none, w) else elim (lookup path w.files) [
  | none ↦ (ok none, w)
  | some f ↦ continue (call "read" w) (λ _. pure (some f))
]

unfoldable pub save_generated_file : String → File → Action (Unit {0})
unfolding write_file
save_generated_file path f w = if path == "" then (ok tt, w) else write_file path f w

remove_file : String → World → World
remove_file path w = record w { files = remove path w.files }

-- `restoreGeneratedFile`
unfoldable pub restore_generated_file : String → Option File → Action (Unit {0})
unfolding call save_generated_file remove_file
restore_generated_file path (some f) w = save_generated_file path f w
restore_generated_file path none w =
    if path == "" then (ok tt, w) else continue (call "remove" w) (λ _. modify (remove_file path))

-- `saveConfigLocked` and core/config.go: `SaveConfig`
unfoldable pub save_config_locked : Manager → Action (Unit {0})
unfolding call write_file
save_config_locked m w =
    if m.config_path == ""
    then (ok tt, w)
    else continue (call "encode" w) (λ _. write_file m.config_path (saved m.cfg))

abbrev pub default_config_history_keep : ℕ
default_config_history_keep = 100

-- `cleanupConfigHistory`: all rows go but the newest.
keep_newest : ℕ → World → World
keep_newest keep w = record w {
  db = record (w.db) { config_history = take keep w.db.config_history };
}

unfoldable pub cleanup_config_history : ℕ → Action (Unit {0})
unfolding call keep_newest ◌>>=◌
cleanup_config_history keep = do call "delete history"; modify (keep_newest keep)

-- What `json.Marshal` writes of a configuration: all but the password, whose tag is `json:"-"`.
unfoldable pub without_password : Config → Config
without_password cfg = record cfg { server = record (cfg.server) { admin_pass = "" } }

insert_history : Config → World → World
insert_history cfg w = record w {
  db = record (w.db) {
    config_history =
        record { id = w.db.next_id; content = without_password cfg; created_at = w.clock }
        ∷ w.db.config_history;
    next_id = suc w.db.next_id;
  };
}

-- `persistConfigLocked`
unfoldable pub persist_config_locked : Config → Action (Unit {0})
unfolding cleanup_config_history insert_history without_password ◌>>=◌
persist_config_locked cfg = do
  call "encode"
  call "insert history"
  modify (insert_history cfg)
  cleanup_config_history default_config_history_keep

abbrev status_of : Option Health → String
status_of none = "unknown"
status_of (some h) = if h.status == "" then "unknown" else h.status

-- `INSERT INTO nodes … ON CONFLICT(name) DO UPDATE`, for a row of an inbound: the type and the
-- address of the row that is there stay.
upsert_inbound_row : NodeRow → List NodeRow → List NodeRow
upsert_inbound_row row [] = row ∷ []
upsert_inbound_row row (r ∷ rows) =
    if r.name == row.name
    then record r { protocol = row.protocol; port = row.port; status = row.status } ∷ rows
    else r ∷ upsert_inbound_row row rows

-- The same for an outbound: only the type stays.
upsert_outbound_row : NodeRow → List NodeRow → List NodeRow
upsert_outbound_row row [] = row ∷ []
upsert_outbound_row row (r ∷ rows) =
    if r.name == row.name
    then record r {
      protocol = row.protocol;
      address = row.address;
      port = row.port;
      status = row.status;
    }
      ∷ rows
    else r ∷ upsert_outbound_row row rows

inbound_row : Manager → InboundConfig → NodeRow
inbound_row m i = record {
  name = i.name;
  kind = "inbound";
  protocol = i.protocol;
  address = "";
  port = i.port;
  status = status_of (lookup i.name m.health);
}

outbound_row : Manager → OutboundConfig → NodeRow
outbound_row m o = record {
  name = o.name;
  kind = "outbound";
  protocol = o.protocol;
  address = o.address;
  port = o.port;
  status = status_of (lookup o.name m.health);
}

-- `INSERT OR IGNORE`, under UNIQUE(inbound, outbound) and under the key `node_name`.
add_rule_row : String → String → List (String × String) → List (String × String)
add_rule_row i o [] = (i, o) ∷ []
add_rule_row i o ((j, p) ∷ rows) =
    if j == i && p == o then (j, p) ∷ rows else (j, p) ∷ add_rule_row i o rows

add_traffic_row : String → Traffic → List (String × ℕ × ℕ) → List (String × ℕ × ℕ)
add_traffic_row n t [] = (n, t.upload_bytes, t.download_bytes) ∷ []
add_traffic_row n t ((j, u, d) ∷ rows) =
    if j == n then (j, u, d) ∷ rows else (j, u, d) ∷ add_traffic_row n t rows

-- The loops of `persistRuntimeLocked`. Each statement may fail; the rows of the transaction are
-- handed on, and reach the database by the commit.
module _ (m : Manager) where
  insert_inbounds : Dict InboundConfig → List NodeRow → Action (List NodeRow)
  unfolding ◌>>=◌
  insert_inbounds [] rows = pure rows
  insert_inbounds ((_, i) ∷ rest) rows = do
    call "insert node"
    insert_inbounds rest (upsert_inbound_row (inbound_row m i) rows)

  insert_outbounds : Dict OutboundConfig → List NodeRow → Action (List NodeRow)
  unfolding ◌>>=◌
  insert_outbounds [] rows = pure rows
  insert_outbounds ((_, o) ∷ rest) rows = do
    call "insert node"
    insert_outbounds rest (upsert_outbound_row (outbound_row m o) rows)

insert_rules : List RoutingRule → List (String × String) → Action (List (String × String))
unfolding ◌>>=◌
insert_rules [] rows = pure rows
insert_rules (r ∷ rest) rows = do
  call "insert rule"
  insert_rules rest (add_rule_row r.inbound r.outbound rows)

insert_traffic : Dict Traffic → List (String × ℕ × ℕ) → Action (List (String × ℕ × ℕ))
unfolding ◌>>=◌
insert_traffic [] rows = pure rows
insert_traffic ((name, t) ∷ rest) rows = do
  call "insert traffic"
  insert_traffic rest (add_traffic_row name t rows)

commit_rows : List NodeRow → List (String × String) → List (String × ℕ × ℕ) → World → World
commit_rows nodes rules traffic w = record w {
  db = record (w.db) { nodes = nodes; routing_rules = rules; traffic_stats = traffic };
}

-- `persistRuntimeLocked`
unfoldable pub persist_runtime_locked : Manager → Action (Unit {0})
unfolding call upsert_inbound_row upsert_outbound_row inbound_row outbound_row add_rule_row
    add_traffic_row insert_inbounds insert_outbounds insert_rules insert_traffic commit_rows ◌>>=◌
persist_runtime_locked m = do
  call "begin"
  call "delete nodes"
  call "delete rules"
  ins ← insert_inbounds m m.inbounds []
  nodes ← insert_outbounds m m.outbounds ins
  rules ← insert_rules m.rules []
  before ← get
  traffic ← insert_traffic m.traffic before.db.traffic_stats
  call "commit"
  modify (commit_rows nodes rules traffic)
