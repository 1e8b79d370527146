-- ===== src/Config/Types.antt =====
-- core/config.go: the records of the configuration. A pointer or a slice that only Go's sharing
-- would tell apart is a value here.
use oneagent.Prelude.{String, Bool, false, List, [], ℤ, pos}

pub record ServerConfig : Type 0 where
  pub web_port : ℤ
  pub public_host : String
  pub admin_user : String
  pub admin_pass : String

pub record KernelConfig : Type 0 where
  pub kind : String
  pub executable : String
  pub config_path : String

pub record InboundConfig : Type 0 where
  pub name : String
  pub protocol : String
  pub listen : String
  pub port : ℤ
  pub outbound : String
  pub disabled : Bool
  pub username : String
  pub uuid : String
  pub password : String
  pub method : String
  pub flow : String
  pub security : String
  pub alter_id : ℤ
  pub tls : Bool
  pub server_name : String
  pub certificate_path : String
  pub key_path : String
  pub certificate_content : String
  pub key_content : String
  pub transport : String
  pub path : String
  pub host : String
  pub private_key : String
  pub short_id : String
  pub reality_handshake_server : String
  pub reality_handshake_port : ℤ
  pub idle_session_check : String
  pub idle_session_timeout : String
  pub min_idle_session : ℤ
  pub target_host : String
  pub target_port : ℤ

pub record OutboundConfig : Type 0 where
  pub original_name : String
  pub name : String
  pub protocol : String
  pub address : String
  pub port : ℤ
  pub disabled : Bool
  pub username : String
  pub uuid : String
  pub password : String
  pub method : String
  pub flow : String
  pub security : String
  pub alter_id : ℤ
  pub network : String
  pub tls : Bool
  pub server_name : String
  pub skip_cert_verify : Bool
  pub transport : String
  pub path : String
  pub host : String
  pub public_key : String
  pub short_id : String
  pub fingerprint : String
  pub alpn : String
  pub obfs : String
  pub obfs_password : String
  pub mport : String
  pub up_mbps : ℤ
  pub down_mbps : ℤ
  pub congestion : String
  pub udp_relay_mode : String
  pub subscription : String
  pub group : String
  pub idle_session_check : String
  pub idle_session_timeout : String
  pub min_idle_session : ℤ
  pub raw : String

pub record RoutingRule : Type 0 where
  pub name : String
  pub match_type : String
  pub value : String
  pub inbound : String
  pub outbound : String
  pub priority : ℤ
  pub disabled : Bool

pub record RoutingConfig : Type 0 where
  pub mode : String
  pub preset : String
  pub default_outbound : String
  pub rules : List RoutingRule

pub record ProxyGroupConfig : Type 0 where
  pub name : String
  pub kind : String
  pub proxies : List String
  pub uses : List String
  pub url : String
  pub interval : ℤ
  pub tolerance : ℤ
  pub lazy : Bool
  pub filter : String
  pub exclude_filter : String

pub record ProxyProviderConfig : Type 0 where
  pub name : String
  pub kind : String
  pub url : String
  pub path : String
  pub interval : ℤ
  pub group : String
  pub rename_prefix : String
  pub rename_suffix : String
  pub dedup_strategy : String
  pub preserve_user_fields : Bool
  pub preserve_fields : List String
  pub health_check_url : String
  pub health_check_lazy : Bool
  pub health_check_interval : ℤ
  pub filter : String
  pub exclude_filter : String

pub record MihomoConfig : Type 0 where
  pub proxy_groups : List ProxyGroupConfig
  pub rules : List String
  pub providers : List ProxyProviderConfig

pub record Config : Type 0 where
  pub server : ServerConfig
  pub kernel : KernelConfig
  pub inbounds : List InboundConfig
  pub outbounds : List OutboundConfig
  pub routing : RoutingConfig
  pub mihomo : MihomoConfig

-- Go's zero value of the record.
abbrev pub zero_inbound : InboundConfig
zero_inbound = record {
  name = "";
  protocol = "";
  listen = "";
  port = pos 0;
  outbound = "";
  disabled = false;
  username = "";
  uuid = "";
  password = "";
  method = "";
  flow = "";
  security = "";
  alter_id = pos 0;
  tls = false;
  server_name = "";
  certificate_path = "";
  key_path = "";
  certificate_content = "";
  key_content = "";
  transport = "";
  path = "";
  host = "";
  private_key = "";
  short_id = "";
  reality_handshake_server = "";
  reality_handshake_port = pos 0;
  idle_session_check = "";
  idle_session_timeout = "";
  min_idle_session = pos 0;
  target_host = "";
  target_port = pos 0;
}

-- Go's zero value of the record.
abbrev pub zero_outbound : OutboundConfig
zero_outbound = record {
  original_name = "";
  name = "";
  protocol = "";
  address = "";
  port = pos 0;
  disabled = false;
  username = "";
  uuid = "";
  password = "";
  method = "";
  flow = "";
  security = "";
  alter_id = pos 0;
  network = "";
  tls = false;
  server_name = "";
  skip_cert_verify = false;
  transport = "";
  path = "";
  host = "";
  public_key = "";
  short_id = "";
  fingerprint = "";
  alpn = "";
  obfs = "";
  obfs_password = "";
  mport = "";
  up_mbps = pos 0;
  down_mbps = pos 0;
  congestion = "";
  udp_relay_mode = "";
  subscription = "";
  group = "";
  idle_session_check = "";
  idle_session_timeout = "";
  min_idle_session = pos 0;
  raw = "";
}

-- Go's zero value of the record.
abbrev pub zero_config : Config
zero_config = record {
  server = record { web_port = pos 0; public_host = ""; admin_user = ""; admin_pass = "" };
  kernel = record { kind = ""; executable = ""; config_path = "" };
  inbounds = [];
  outbounds = [];
  routing = record { mode = ""; preset = ""; default_outbound = ""; rules = [] };
  mihomo = record { proxy_groups = []; rules = []; providers = [] };
}
