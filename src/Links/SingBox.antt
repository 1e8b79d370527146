-- ===== src/Links/SingBox.antt =====
-- core/link_parser.go: lists of outbounds in the format of sing-box.
use oneagent.Prelude.{String, true, not, ◌&&◌, List, [], ◌∷◌, none, some, ◌==◌}
use oneagent.Config.Types.{OutboundConfig, zero_outbound}
use oneagent.Links.Values.{
  nil, cons, Anys, Fields, at, as_object, first_text, string_value, string_list_value, int_value,
  bool_value, normalize_link_protocol,
}
use oneagent.Links.Proxies.{is_usable, append_if}

module _ (item : Fields) where
  abbrev text_of : String → String
  text_of key = string_value (at key item)

  item_outbound : OutboundConfig
  item_outbound = record zero_outbound {
    name = first_text (text_of "tag" ∷ text_of "name" ∷ []);
    protocol = normalize_link_protocol (text_of "type");
    address = text_of "server";
    port = int_value (at "server_port" item);
    username = text_of "username";
    uuid = text_of "uuid";
    password = text_of "password";
    method = text_of "method";
    flow = text_of "flow";
    security = text_of "security";
    alter_id = int_value (at "alter_id" item);
    network = text_of "network";
    transport = text_of "network";
    up_mbps = int_value (at "up_mbps" item);
    down_mbps = int_value (at "down_mbps" item);
    congestion = text_of "congestion_control";
    udp_relay_mode = text_of "udp_relay_mode";
    group = text_of "group";
    idle_session_check = text_of "idle_session_check_interval";
    idle_session_timeout = text_of "idle_session_timeout";
    min_idle_session = int_value (at "min_idle_session" item);
  }

  transport_host : Fields → OutboundConfig → OutboundConfig
  transport_host transport o = elim (as_object (at "headers" transport)) [
    | none ↦ o
    | some headers ↦ record o {
      host =
          first_text
            (string_value (at "Host" headers) ∷ string_list_value (at "Host" headers) ∷ []);
    }
  ]

  with_transport : OutboundConfig → OutboundConfig
  with_transport o = elim (as_object (at "transport" item)) [
    | none ↦ o
    | some transport ↦ transport_host transport (record o {
      transport = string_value (at "type" transport);
      path = string_value (at "path" transport);
    })
  ]

  with_utls : Fields → OutboundConfig → OutboundConfig
  with_utls tls o = elim (as_object (at "utls" tls)) [
    | none ↦ o
    | some utls ↦ record o { fingerprint = string_value (at "fingerprint" utls) }
  ]

  with_reality : Fields → OutboundConfig → OutboundConfig
  with_reality tls o = elim (as_object (at "reality" tls)) [
    | none ↦ o
    | some reality ↦ record o {
      security = "reality";
      tls = true;
      public_key = string_value (at "public_key" reality);
      short_id = string_value (at "short_id" reality);
    }
  ]

  with_tls : OutboundConfig → OutboundConfig
  with_tls o = elim (as_object (at "tls" item)) [
    | none ↦ o
    | some tls ↦ with_reality tls (
        with_utls tls (record o {
          tls = bool_value (at "enabled" tls);
          server_name = string_value (at "server_name" tls);
        }))
  ]

  -- The body of the loop of `parseSingBoxOutboundList`.
  unfoldable pub read_outbound : OutboundConfig
  unfolding item_outbound transport_host with_transport with_utls with_reality with_tls at
      first_text string_list_value int_value bool_value normalize_link_protocol
  read_outbound = with_tls (with_transport item_outbound)

-- `parseSingBoxOutboundList`
unfoldable pub parse_sing_box_outbound_list : Anys → List OutboundConfig
unfolding read_outbound append_if
parse_sing_box_outbound_list nil = []
parse_sing_box_outbound_list (cons item items) =
    let rest = parse_sing_box_outbound_list items in
    elim (as_object item) [
      | none ↦ rest
      | some fields ↦
          append_if
            (is_usable (read_outbound fields) && not ((read_outbound fields).protocol == "direct"))
            (read_outbound fields) rest
    ]
