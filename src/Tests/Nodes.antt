-- ===== src/Tests/Nodes.antt =====
-- Requests to a manager that is running.
use oneagent.Prelude.{pos, false, List, [], ◌∷◌, refl, lookup}
use oneagent.Config.Types.{OutboundConfig}
use oneagent.Manager.State.{snapshot_locked}
use oneagent.Manager.Commit.{commit_with_rollback_locked}
use oneagent.Manager.Commit.Atomic.{Committed, commit_with_rollback_lem}
use oneagent.Manager.Requests.{
  ProxyCreateRequest, create_proxy, ForwardCreateRequest, create_forward, upsert_inbound,
  upsert_outbound,
}
use oneagent.Manager.Requests.Atomic.{Settled}
use oneagent.Manager.Requests.Effects.{AddsForward}
use oneagent.Manager.Requests.Outcomes.{
  AddsInbound, create_proxy_lem, PutsInbound, PutsOutbound, upsert_inbound_lem, create_forward_lem,
  upsert_outbound_lem,
}
use oneagent.Manager.Switch.{BatchNodeItem, delete_node, set_node_enabled}
use oneagent.Manager.Switch.Outcomes.{Deletes, delete_node_lem, Switches, set_node_enabled_lem}
use oneagent.Tests.Fixtures.{running, socks_in, socks_out, traffic}

commit_with_rollback_lem_example :
    Committed
      (snapshot_locked running.self)
      running.self
      (commit_with_rollback_locked (snapshot_locked running.self) running)
commit_with_rollback_lem_example = commit_with_rollback_lem (snapshot_locked running.self) running

upsert_inbound_lem_example :
    Settled (PutsInbound socks_in running) running.self (upsert_inbound socks_in running)
upsert_inbound_lem_example = upsert_inbound_lem socks_in running

abbrev forward : ForwardCreateRequest
forward = record {
  name = "ssh";
  protocol = "";
  listen_port = pos 2222;
  target_host = "192.0.2.7";
  target_port = pos 22;
}

create_forward_lem_example :
    Settled (AddsForward forward running) running.self (create_forward forward running)
create_forward_lem_example = create_forward_lem forward running

abbrev renamed : OutboundConfig
renamed = record socks_out { original_name = "out"; name = "exit" }

upsert_outbound_lem_example :
    Settled (PutsOutbound renamed running) running.self (upsert_outbound renamed running)
upsert_outbound_lem_example = upsert_outbound_lem renamed running

delete_node_lem_example :
    Settled (Deletes "inbound" "in" running) running.self (delete_node "inbound" "in" running)
delete_node_lem_example = delete_node_lem "inbound" "in" running

abbrev proxy : ProxyCreateRequest
proxy = record {
  name = "second";
  protocol = "socks";
  listen = "127.0.0.1";
  port = pos 1090;
  outbound = "";
  username = "";
  uuid = "";
  password = "";
  method = "";
  flow = "";
  security = "";
  alter_id = pos 0;
  tls = false;
  server_name = "";
  certificate_path = "";
  key_path = "";
  certificate_content = "";
  key_content = "";
  transport = "";
  path = "";
  host = "";
  private_key = "";
  short_id = "";
  reality_handshake_server = "";
  reality_handshake_port = pos 0;
  idle_session_check = "";
  idle_session_timeout = "";
  min_idle_session = pos 0;
}

create_proxy_lem_example :
    Settled (AddsInbound proxy running) running.self (create_proxy proxy running)
create_proxy_lem_example = create_proxy_lem proxy running

abbrev both : List BatchNodeItem
both = record { kind = "inbound"; name = "in" } ∷ record { kind = "outbound"; name = "out" } ∷ []

set_node_enabled_lem_example :
    Settled
      (Switches "inbound" "in" false running)
      running.self
      (set_node_enabled "inbound" "in" false running)
unfolding lookup
set_node_enabled_lem_example = set_node_enabled_lem "inbound" "in" false running traffic refl
