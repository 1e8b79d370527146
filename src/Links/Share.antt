-- ===== src/Links/Share.antt =====
-- core/link_parser.go: `parseJSONShare`, which reads the object that a link carries.
use oneagent.Prelude.{
  String, true, ◌||◌, [], ◌∷◌, Option, none, some, pos, eqℤ, not, ◌==◌, if◌then◌else◌, ◌+s◌,
}
use oneagent.Config.Types.{OutboundConfig, zero_outbound}
use oneagent.Links.Values.{
  Fields, at, as_object, first_text, string_value, int_value, bool_value, first_any,
  normalize_link_protocol,
}
use oneagent.Links.Library.{Library, LinkResult, failed, parsed, not_json, incomplete_share}

module _ (info : Fields) where
  abbrev text_of : String → String
  text_of key = string_value (at key info)

  share_outbound : String → String → OutboundConfig
  share_outbound protocol raw = record zero_outbound {
    name = first_text (
        text_of "Remarks"
        ∷ text_of "remarks"
        ∷ text_of "ps"
        ∷ (protocol +s "-" +s text_of "Address")
        ∷ (protocol +s "-" +s text_of "add")
        ∷ []);
    protocol = protocol;
    address = first_text (text_of "Address" ∷ text_of "add" ∷ text_of "server" ∷ []);
    port = int_value (first_any (at "Port" info ∷ at "port" info ∷ []));
    username = text_of "Username";
    uuid = first_text (text_of "id" ∷ text_of "uuid" ∷ []);
    password = first_text (text_of "Password" ∷ text_of "password" ∷ []);
    flow = first_text (text_of "Flow" ∷ text_of "flow" ∷ []);
    security = first_text (text_of "StreamSecurity" ∷ text_of "security" ∷ text_of "scy" ∷ []);
    server_name = first_text (text_of "Sni" ∷ text_of "sni" ∷ text_of "servername" ∷ []);
    fingerprint = first_text (text_of "Fingerprint" ∷ text_of "fp" ∷ []);
    public_key = first_text (text_of "PublicKey" ∷ text_of "pbk" ∷ []);
    short_id = first_text (text_of "ShortId" ∷ text_of "sid" ∷ []);
    network = first_text (text_of "Network" ∷ text_of "net" ∷ []);
    transport = first_text (text_of "Network" ∷ text_of "net" ∷ []);
    path = text_of "path";
    host = text_of "host";
    alter_id = int_value (first_any (at "alterId" info ∷ at "aid" info ∷ []));
    raw = raw;
  }

  share_uuid : OutboundConfig → OutboundConfig
  share_uuid o =
      if o.protocol == "vless" || o.protocol == "vmess"
      then record o { uuid = first_text (o.uuid ∷ o.username ∷ o.password ∷ []) }
      else if o.protocol == "tuic"
      then record o { uuid = first_text (o.uuid ∷ o.username ∷ []) }
      else o

  share_tls : OutboundConfig → OutboundConfig
  share_tls o =
      if o.security == "tls" || o.security == "reality" || not (o.server_name == "")
      then record o { tls = true }
      else o

  share_extra : OutboundConfig → OutboundConfig
  share_extra o = elim (as_object (at "ProtoExtraObj" info)) [
    | none ↦ o
    | some extra ↦ record o {
      up_mbps = int_value (at "UpMbps" extra);
      down_mbps = int_value (at "DownMbps" extra);
      mport = string_value (at "Ports" extra);
      congestion = string_value (at "CongestionControl" extra);
      transport = if bool_value (at "NaiveQuic" extra) then "naive+quic" else o.transport;
    }
  ]

  -- `parseJSONShare` between the decoding and the last check
  unfoldable pub read_share : String → String → OutboundConfig
  unfolding share_outbound share_uuid share_tls share_extra at first_text int_value bool_value
      first_any
  read_share protocol raw = share_extra (share_tls (share_uuid (share_outbound protocol raw)))

abbrev pub complete : String → OutboundConfig → LinkResult
complete raw o =
    if o.address == "" || eqℤ o.port (pos 0) then failed (incomplete_share raw) else parsed o

module _ (protocol raw : String) where
  -- `none` is a payload that is no JSON object.
  abbrev pub decoded_share : Option Fields → LinkResult
  decoded_share none = failed not_json
  decoded_share (some info) = complete raw (read_share info (normalize_link_protocol protocol) raw)

-- `parseJSONShare`
unfoldable pub parse_json_share : Library → String → String → String → LinkResult
unfolding read_share normalize_link_protocol
parse_json_share lib protocol payload raw = decoded_share protocol raw (lib.json_object payload)
