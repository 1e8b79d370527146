-- ===== src/Tests/Fixtures.antt =====
-- A manager that has applied a configuration with the inbound "in" and the outbound "out".
use oneagent.Prelude.{true, [], ◌∷◌, none, pos}
use oneagent.Config.Types.{
  InboundConfig, OutboundConfig, Config, zero_inbound, zero_outbound, zero_config,
}
use oneagent.Platform.{World}
use oneagent.Manager.State.{Traffic, State}

abbrev pub world : World
world = record {
  clock = 1000;
  next_pid = 7;
  files = [];
  db = record {
    nodes = [];
    routing_rules = [];
    traffic_stats = [];
    config_history = [];
    next_id = 1;
  };
  outcomes = [];
}

abbrev pub socks_in : InboundConfig
socks_in = record zero_inbound { name = "in"; protocol = "socks"; port = pos 1080 }

abbrev pub socks_out : OutboundConfig
socks_out = record zero_outbound {
  name = "out";
  protocol = "socks";
  address = "192.0.2.1";
  port = pos 1081;
}

abbrev pub config : Config
config = record zero_config {
  server = record { web_port = pos 8080; public_host = ""; admin_user = "admin"; admin_pass = "" };
  inbounds = socks_in ∷ [];
  outbounds = socks_out ∷ [];
}

abbrev pub traffic : Traffic
traffic = record { upload_bytes = 0; download_bytes = 0; updated_at = 1000 }

abbrev pub running : State
running = record {
  self = record {
    kernel = 0;
    config_path = "config.yaml";
    cfg = config;
    inbounds = ("in", socks_in) ∷ [];
    outbounds = ("out", socks_out) ∷ [];
    rules = [];
    traffic = ("in", traffic) ∷ ("out", traffic) ∷ [];
    health = [];
    subscriptions = [];
  };
  kernels =
      record {
        name = "placeholder";
        mode = "dry-run";
        cfg = record { kind = "placeholder"; executable = ""; config_path = "kernel.json" };
        cmd = none;
        running = true;
        pid = 0;
        last_time = 1000;
        last_err = none;
      }
      ∷ [];
  world = world;
}
