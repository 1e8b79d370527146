-- ===== src/Links/Proxies.antt =====
-- core/link_parser.go: lists of proxies in the format of mihomo, and of outbounds in that of sing-box.
use oneagent.Prelude.{
  String, Bool, true, false, not, ◌&&◌, List, [], ◌∷◌, none, some, pos, ltℤ, ◌==◌, if◌then◌else◌,
}
use oneagent.Config.Types.{OutboundConfig, zero_outbound}
use oneagent.Links.Values.{
  nil, cons, Anys, Fields, at, as_object, first_text, string_value, string_list_value, int_value,
  bool_value, first_any, normalize_yaml_protocol,
}

module _ (proxy : Fields) where
  abbrev text_of : String → String
  text_of key = string_value (at key proxy)

  proxy_outbound : OutboundConfig
  proxy_outbound = record zero_outbound {
    name = text_of "name";
    protocol = normalize_yaml_protocol (text_of "type");
    address = text_of "server";
    port = int_value (at "port" proxy);
    username = text_of "username";
    uuid = text_of "uuid";
    password = first_text (text_of "password" ∷ text_of "passwd" ∷ []);
    method = first_text (text_of "cipher" ∷ text_of "method" ∷ []);
    flow = text_of "flow";
    security = first_text (text_of "security" ∷ text_of "cipher" ∷ []);
    alter_id =
        int_value (first_any (at "alterId" proxy ∷ at "alter_id" proxy ∷ at "aid" proxy ∷ []));
    network = text_of "network";
    tls = bool_value (at "tls" proxy);
    server_name = first_text (text_of "servername" ∷ text_of "sni" ∷ text_of "peer" ∷ []);
    skip_cert_verify =
        bool_value (first_any (at "skip-cert-verify" proxy ∷ at "skip_cert_verify" proxy ∷ []));
    public_key = first_text (text_of "public-key" ∷ text_of "public_key" ∷ text_of "pbk" ∷ []);
    short_id = first_text (text_of "short-id" ∷ text_of "short_id" ∷ text_of "sid" ∷ []);
    fingerprint =
        first_text (text_of "client-fingerprint" ∷ text_of "fingerprint" ∷ text_of "fp" ∷ []);
    alpn = string_list_value (at "alpn" proxy);
    obfs = text_of "obfs";
    mport = first_text (text_of "mport" ∷ text_of "ports" ∷ []);
    up_mbps = int_value (first_any (at "up" proxy ∷ at "upmbps" proxy ∷ []));
    down_mbps = int_value (first_any (at "down" proxy ∷ at "downmbps" proxy ∷ []));
    congestion = first_text (text_of "congestion-controller" ∷ text_of "congestion_control" ∷ []);
    udp_relay_mode = first_text (text_of "udp-relay-mode" ∷ text_of "udp_relay_mode" ∷ []);
    group = first_text (text_of "group" ∷ text_of "sub-name" ∷ []);
    idle_session_check = string_value (
        first_any (
          at "idle-session-check" proxy
          ∷ at "idle_session_check" proxy
          ∷ at "idle_session_check_interval" proxy
          ∷ []));
    idle_session_timeout =
        string_value
          (first_any (at "idle-session-timeout" proxy ∷ at "idle_session_timeout" proxy ∷ []));
    min_idle_session =
        int_value (first_any (at "min-idle-session" proxy ∷ at "min_idle_session" proxy ∷ []));
  }

  with_cipher : OutboundConfig → OutboundConfig
  with_cipher o =
      if o.protocol == "shadowsocks" && o.method == ""
      then record o { method = text_of "cipher" }
      else o

  ws_host : Fields → OutboundConfig → OutboundConfig
  ws_host opts o = elim (as_object (at "headers" opts)) [
    | none ↦ o
    | some headers ↦ record o { host = string_value (at "Host" headers) }
  ]

  ws_options : OutboundConfig → OutboundConfig
  ws_options o = elim (as_object (at "ws-opts" proxy)) [
    | none ↦ o
    | some opts ↦ ws_host opts (record o { path = string_value (at "path" opts) })
  ]

  with_websocket : OutboundConfig → OutboundConfig
  with_websocket o = if o.network == "ws" then ws_options (record o { transport = "ws" }) else o

  with_reality : OutboundConfig → OutboundConfig
  with_reality o = elim (as_object (at "reality-opts" proxy)) [
    | none ↦ o
    | some opts ↦ record o {
      security = "reality";
      tls = true;
      public_key = first_text (
          o.public_key
          ∷ string_value (at "public-key" opts)
          ∷ string_value (at "public_key" opts)
          ∷ []);
      short_id =
          first_text (
            o.short_id
            ∷ string_value (at "short-id" opts)
            ∷ string_value (at "short_id" opts)
            ∷ []);
    }
  ]

  plugin_options : OutboundConfig → OutboundConfig
  plugin_options o = elim (as_object (at "plugin-opts" proxy)) [
    | none ↦ o
    | some opts ↦ record o {
      obfs_password = string_value (at "password" opts);
      server_name = first_text (o.server_name ∷ string_value (at "host" opts) ∷ []);
    }
  ]

  with_plugin : OutboundConfig → OutboundConfig
  with_plugin o =
      if text_of "plugin" == "shadow-tls"
      then plugin_options (record o { transport = "shadowtls" })
      else o

  -- The body of the loop of `parseYAMLProxyList`.
  unfoldable pub read_proxy : OutboundConfig
  unfolding proxy_outbound with_cipher ws_host ws_options with_websocket with_reality plugin_options
      with_plugin at first_text string_list_value int_value bool_value first_any
      normalize_yaml_protocol
  read_proxy = with_plugin (with_reality (with_websocket (with_cipher proxy_outbound)))

-- The test at the end of both loops.
abbrev pub is_usable : OutboundConfig → Bool
is_usable o = not (o.name == "") && not (o.address == "") && ltℤ (pos 0) o.port

unfoldable pub append_if : Bool → OutboundConfig → List OutboundConfig → List OutboundConfig
append_if true o rest = o ∷ rest
append_if false o rest = rest

-- `parseYAMLProxyList`
unfoldable pub parse_yaml_proxy_list : Anys → List OutboundConfig
unfolding read_proxy append_if
parse_yaml_proxy_list nil = []
parse_yaml_proxy_list (cons item items) =
    let rest = parse_yaml_proxy_list items in
    elim (as_object item) [
      | none ↦ rest
      | some proxy ↦ append_if (is_usable (read_proxy proxy)) (read_proxy proxy) rest
    ]
