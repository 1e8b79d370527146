-- ===== src/Links/Parse.antt =====
-- core/link_parser.go: `parseOutboundLink`, which reads one link.
pub mod Sound
pub mod Ends
pub mod Plain
pub mod Trojan
use oneagent.Prelude.{
  ℕ, zero, suc, String, Bool, true, false, not, ◌&&◌, ◌||◌, List, [], ◌∷◌, Option, none, some, ℤ,
  pos, eqℤ, ◌==◌, if◌then◌else◌, ◌+s◌, to_lower, trim_space, equal_fold, has_prefix, contains,
  trim_first, cut_at, one_of,
}
use oneagent.Config.Types.{OutboundConfig, zero_outbound}
use oneagent.Links.Texts.{decode_base64_string, size}
use oneagent.Links.Values.{
  Fields, at, first_text, string_value, atoi_default, parse_port, xtls_flow,
  normalize_link_protocol,
}
use oneagent.Links.Library.{
  Url, Library, LinkResult, failed, parsed, not_a_url, missing_scheme, invalid_payload,
  missing_port, missing_server, unfinished, get,
}
use oneagent.Links.Share.{parse_json_share}

abbrev split_user : String → String → String × String
split_user user password = elim (cut_at b':' user) [ none ↦ (user, password) | some parts ↦ parts ]

-- The userinfo of `parseSSUserinfo` where it is encoded
abbrev decoded_user : Option String → String → String
decoded_user none user = user
decoded_user (some decoded) user = if contains decoded ":" then decoded else user

module _ (lib : Library) where
  abbrev pub decode : String → Option String
  decode value = decode_base64_string lib.decodings value

  -- `parseSSUserinfo`
  unfoldable pub parse_ss_userinfo : String → String → String × String
  unfolding decode_base64_string contains cut_at
  parse_ss_userinfo given password =
      let user = decoded_user (decode given) given in
      if password == "" then split_user user password else (user, password)

  fragment_name : Url → String → String
  fragment_name u fallback =
      let fragment = trim_space u.fragment in
      if fragment == ""
      then fallback +s "-" +s (if u.hostname == "" then fallback else u.hostname)
      else elim (lib.query_unescape fragment) [ none ↦ fragment | some decoded ↦ decoded ]

  -- `linkName`
  unfoldable pub link_name : Url → String → String
  unfolding first_text trim_space fragment_name
  link_name u fallback =
      let given = first_text (trim_space (get "remarks" u) ∷ trim_space (get "name" u) ∷ []) in
      if given == "" then fragment_name u fallback else given

  user_name : Url → String
  user_name u = elim u.user [ none ↦ "" | some p ↦ p.0 ]

  user_password : Url → String
  user_password u = elim u.user [
    | none ↦ ""
    | some p ↦ elim p.1 [ none ↦ "" | some password ↦ password ]
  ]

  link_outbound : Url → String → String → OutboundConfig
  link_outbound u scheme raw = record zero_outbound {
    name = link_name u scheme;
    protocol = normalize_link_protocol scheme;
    address = u.hostname;
    port = parse_port u.port;
    raw = raw;
    flow = first_text (get "flow" u ∷ xtls_flow (get "xtls" u) ∷ []);
    server_name = first_text (get "peer" u ∷ get "sni" u ∷ get "servername" u ∷ get "host" u ∷ []);
    public_key = first_text (get "pbk" u ∷ get "public-key" u ∷ get "public_key" u ∷ []);
    short_id = first_text (get "sid" u ∷ get "short-id" u ∷ get "short_id" u ∷ []);
    fingerprint = first_text (get "fp" u ∷ get "fingerprint" u ∷ []);
    alpn = get "alpn" u;
    path = first_text (get "path" u ∷ get "serviceName" u ∷ get "service_name" u ∷ []);
    host = first_text (get "obfsParam" u ∷ get "host" u ∷ []);
    obfs = get "obfs" u;
    obfs_password = first_text (get "obfs-password" u ∷ get "obfs_password" u ∷ []);
    mport = get "mport" u;
    up_mbps = atoi_default (first_text (get "upmbps" u ∷ get "up" u ∷ [])) (pos 0);
    down_mbps = atoi_default (first_text (get "downmbps" u ∷ get "down" u ∷ [])) (pos 0);
    congestion = get "congestion_control" u;
    udp_relay_mode = get "udp_relay_mode" u;
    group = get "group" u;
    idle_session_check =
        first_text (get "idle_session_check" u ∷ get "idle_session_check_interval" u ∷ []);
    idle_session_timeout = get "idle_session_timeout" u;
    min_idle_session = atoi_default (get "min_idle_session" u) (pos 0);
  }

  link_tls : Url → OutboundConfig → OutboundConfig
  link_tls u o =
      if get "tls" u == "1"
        || equal_fold (get "security" u) "tls"
        || equal_fold (get "security" u) "reality"
        || not (o.server_name == "")
      then record o { tls = true }
      else o

  link_insecure : Url → OutboundConfig → OutboundConfig
  link_insecure u o =
      if get "allowInsecure" u == "1" || get "allow_insecure" u == "1" || get "insecure" u == "1"
      then record o { skip_cert_verify = true }
      else o

  link_reality : Url → OutboundConfig → OutboundConfig
  link_reality u o =
      if equal_fold (get "security" u) "reality" || not (o.public_key == "")
      then record o { security = "reality"; tls = true }
      else o

  link_transport : Url → OutboundConfig → OutboundConfig
  link_transport u o = record o {
    transport =
        if o.obfs == "websocket"
        then "ws"
        else if o.obfs == "h2"
        then "http"
        else if o.obfs == "grpc"
        then "grpc"
        else get "type" u;
  }

  -- The object of the parameter shadow-tls; `none` where it is not JSON.
  shadow_tls_object : String → Option Fields → OutboundConfig → OutboundConfig
  shadow_tls_object decoded none o = record o { obfs_password = decoded }
  shadow_tls_object decoded (some shadow) o = record o {
    obfs_password = string_value (at "password" shadow);
    server_name = first_text (o.server_name ∷ string_value (at "host" shadow) ∷ []);
    tls = true;
  }

  link_shadow_tls : String → OutboundConfig → OutboundConfig
  link_shadow_tls shadow o = elim (decode shadow) [
    | none ↦ o
    | some decoded ↦ shadow_tls_object decoded (lib.json_object decoded) o
  ]

  link_shadowsocks : Url → OutboundConfig → OutboundConfig
  link_shadowsocks u given =
      let (method, password) = parse_ss_userinfo (user_name u) (user_password u) in
      let o = record given { method = method; password = password } in
      if get "shadow-tls" u == ""
      then o
      else link_shadow_tls (get "shadow-tls" u) (record o { transport = "shadowtls" })

  -- The `switch` on the scheme.
  link_user : Url → String → OutboundConfig → OutboundConfig
  link_user u scheme o =
      if one_of scheme ("vless" ∷ "vmess" ∷ [])
      then record o {
        uuid = first_text (user_password u ∷ user_name u ∷ []);
        security =
            first_text
              (o.security ∷ get "security" u ∷ get "encryption" u ∷ get "cipher" u ∷ "auto" ∷ []);
        alter_id =
            atoi_default (first_text (get "alterId" u ∷ get "alterid" u ∷ get "aid" u ∷ []))
              (pos 0);
      }
      else if one_of scheme ("trojan" ∷ "hysteria2" ∷ "hy2" ∷ "anytls" ∷ "shadowtls" ∷ [])
      then record o { password = if user_password u == "" then user_name u else user_password u }
      else if scheme == "tuic"
      then record o { uuid = user_name u; password = user_password u }
      else if scheme == "ss"
      then link_shadowsocks u o
      else if one_of scheme
          ("http2" ∷ "http3" ∷ "naive" ∷ "https" ∷ "naive+https" ∷ "naive+quic" ∷ [])
      then record o {
        protocol = "naive";
        username = user_name u;
        password = user_password u;
        transport = scheme;
      }
      else o

  -- `parseOutboundLink` between the unwrapping and the last checks
  unfoldable pub read_link : Url → String → String → OutboundConfig
  unfolding link_outbound link_tls link_insecure link_reality link_transport shadow_tls_object
      link_shadow_tls link_shadowsocks link_user user_name user_password link_name parse_ss_userinfo
      at first_text atoi_default parse_port xtls_flow normalize_link_protocol equal_fold one_of
      decode_base64_string
  read_link u scheme raw = link_user u scheme (
      link_transport u (link_reality u (link_insecure u (link_tls u (link_outbound u scheme raw)))))

  abbrev pub checked : String → OutboundConfig → LinkResult
  checked raw o =
      if eqℤ o.port (pos 0)
      then failed (missing_port raw)
      else if o.address == ""
      then failed (missing_server raw)
      else parsed o

  abbrev pub is_object : String → Bool
  is_object decoded = has_prefix (trim_space decoded) "{"

  -- The link that is read in place of one whose payload was decoded.
  abbrev pub unwrapped : Url → String → String → String
  unwrapped u scheme decoded =
      scheme +s "://" +s decoded +s "?" +s u.raw_query +s "#" +s u.raw_fragment

  v2rayn_link : Url → String → Option String → LinkResult
  v2rayn_link u raw none = failed (invalid_payload raw)
  v2rayn_link u raw (some decoded) = parse_json_share lib u.host decoded raw

  -- `next` reads a link in place of this one.
  host_link : (String → LinkResult) → Url → String → String → Option String → LinkResult
  host_link next u scheme raw none = checked raw (read_link u scheme raw)
  host_link next u scheme raw (some decoded) =
      if contains decoded "@"
      then next (unwrapped u scheme decoded)
      else if is_object decoded
      then parse_json_share lib scheme decoded raw
      else checked raw (read_link u scheme raw)

  -- Behind the case of an opaque link
  plain_link : (String → LinkResult) → Url → String → String → LinkResult
  plain_link next u scheme raw =
      if scheme == "v2rayn"
      then v2rayn_link u raw (decode (trim_first b'/' u.path))
      else host_link next u scheme raw (decode u.host)

  opaque_link : (String → LinkResult) → Url → String → String → Option String → LinkResult
  opaque_link next u scheme raw none = plain_link next u scheme raw
  opaque_link next u scheme raw (some decoded) =
      if is_object decoded
      then parse_json_share lib scheme decoded raw
      else next (unwrapped u scheme decoded)

  scheme_link : (String → LinkResult) → Url → String → String → LinkResult
  scheme_link next u scheme raw =
      if scheme == ""
      then failed (missing_scheme raw)
      else if u.host == "" && not (u.opaque == "")
      then opaque_link next u scheme raw (decode u.opaque)
      else plain_link next u scheme raw

  url_link : (String → LinkResult) → String → Option Url → LinkResult
  url_link next raw none = failed not_a_url
  url_link next raw (some u) = scheme_link next u (to_lower u.scheme) raw

  -- One call of `parseOutboundLink`, whose calls of itself are `next`.
  unfoldable pub link_step : (String → LinkResult) → String → LinkResult
  unfolding url_link scheme_link plain_link host_link opaque_link v2rayn_link read_link
      parse_json_share to_lower trim_space has_prefix contains trim_first decode_base64_string
  link_step next raw = url_link next raw (lib.parse_url raw)

  -- `parseOutboundLink`, with fuel for its calls of itself
  unfoldable pub link_fueled : ℕ → String → LinkResult
  unfolding link_step
  link_fueled zero raw = failed unfinished
  link_fueled (suc fuel) raw = link_step (link_fueled fuel) raw

  -- `parseOutboundLink`
  unfoldable pub parse_outbound_link : String → LinkResult
  unfolding link_fueled size
  parse_outbound_link raw = link_fueled (suc (suc (size raw))) raw
