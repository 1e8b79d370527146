-- ===== src/Share/Outbound.antt =====
-- core/share.go: `outboundShareLink`.
pub mod Outcomes
pub mod RoundTrip
use oneagent.Prelude.{
  ℕ, String, Bool, true, false, not, ◌&&◌, ◌||◌, List, [], ◌∷◌, Option, none, some, ℤ, pos, ltℤ,
  ◌==◌, if◌then◌else◌, ◌+s◌, Dict, insert, print_int, trim_space, contains, one_of,
}
use oneagent.Config.Types.{OutboundConfig}
use oneagent.Share.Library.{
  Library, ShareResult, refused, link, bad_json, no_address, not_supported, add_query_value,
}

-- `addTransportQuery`
unfoldable pub add_transport_query : String → String → String → Dict String → Dict String
add_transport_query transport path host values = add_query_value "host" host (
    add_query_value "path" path (
      if not (transport == "") && not (transport == "tcp")
      then insert "type" transport values
      else values))

module _ (lib : Library) (o : OutboundConfig) where
  abbrev pub host_port : String
  host_port = lib.join_host_port o.address (print_int o.port)

  abbrev pub fragment : String
  fragment = lib.query_escape o.name

  -- Behind the user of a link
  abbrev pub written : String → String → Dict String → ShareResult
  written scheme user values =
      link
        (scheme +s "://" +s user +s "@" +s host_port +s "?" +s lib.encode values +s "#" +s fragment)

  has_tls : Bool
  has_tls = o.tls || not (o.server_name == "")

  vless_values : Dict String
  vless_values =
      let values = insert "encryption" "none" [] in
      let secured =
        if o.security == "reality"
        then add_query_value "fp" o.fingerprint (
            add_query_value "sid" o.short_id (
              add_query_value "pbk" o.public_key
                (add_query_value "sni" o.server_name (insert "security" "reality" values))))
        else if has_tls
        then add_query_value "sni" o.server_name (insert "security" "tls" values)
        else insert "security" "none" values in
      add_transport_query o.transport o.path o.host (add_query_value "flow" o.flow secured)

  -- The payload of a vmess link, with the defaults that are set behind it
  vmess_payload : Dict String
  vmess_payload = insert "sni" o.server_name (
      insert "tls" (if has_tls then "tls" else "") (
        insert "path" o.path (
          insert "host" o.host (
            insert "type" "none" (
              insert "net" (if o.transport == "" then "tcp" else o.transport) (
                insert "scy" (if o.security == "" then "auto" else o.security) (
                  insert "aid" (print_int o.alter_id) (
                    insert "id" o.uuid (
                      insert "port" (print_int o.port)
                        (insert "add" o.address (insert "ps" o.name (insert "v" "2" []))))))))))))

  vmess_link : ShareResult
  vmess_link = elim (lib.json_text vmess_payload) [
    | none ↦ refused bad_json
    | some text ↦ link ("vmess://" +s lib.std_base64 text)
  ]

  unfoldable pub trojan_values : Dict String
  unfolding has_tls add_transport_query insert
  trojan_values =
      add_transport_query o.transport o.path o.host
        (if has_tls then add_query_value "sni" o.server_name (insert "security" "tls" []) else [])

  hysteria2_values : Dict String
  hysteria2_values =
      let values = add_query_value "mport" o.mport (
        add_query_value "obfs-password" o.obfs_password
          (add_query_value "obfs" o.obfs (add_query_value "peer" o.server_name []))) in
      let up =
        if ltℤ (pos 0) o.up_mbps then insert "upmbps" (print_int o.up_mbps) values else values in
      if ltℤ (pos 0) o.down_mbps then insert "downmbps" (print_int o.down_mbps) up else up

  tuic_values : Dict String
  tuic_values = add_query_value "alpn" o.alpn (
      add_query_value "udp_relay_mode" o.udp_relay_mode (
        add_query_value "congestion_control" o.congestion
          (add_query_value "peer" o.server_name [])))

  shadow_tls_values : Dict String
  shadow_tls_values =
      add_query_value "sni" o.server_name (insert "security" "tls" (insert "version" "3" []))

  url_user : Option (String × String)
  url_user =
      if not (o.username == "") || not (o.password == "")
      then some (o.username, o.password)
      else none

  proxy_link : ShareResult
  proxy_link = link (
      lib.url_text (if o.protocol == "socks" then "socks5" else o.protocol) url_user host_port
        o.name)

  -- The `switch` on the protocol.
  protocol_link : ShareResult
  protocol_link =
      if o.protocol == "vless"
      then written "vless" (lib.query_escape o.uuid) vless_values
      else if o.protocol == "vmess"
      then vmess_link
      else if o.protocol == "trojan"
      then written "trojan" (lib.query_escape o.password) trojan_values
      else if one_of o.protocol ("shadowsocks" ∷ "ss" ∷ [])
      then link (
          "ss://"
          +s lib.raw_base64 (o.method +s ":" +s o.password)
          +s "@"
          +s host_port
          +s "#"
          +s fragment)
      else if o.protocol == "shadowtls"
      then written "shadowtls" (":" +s lib.query_escape o.password) shadow_tls_values
      else if o.protocol == "anytls"
      then written "anytls" (lib.query_escape o.password) (add_query_value "peer" o.server_name [])
      else if one_of o.protocol ("hysteria2" ∷ "hy2" ∷ [])
      then written "hysteria2" (lib.query_escape o.password) hysteria2_values
      else if o.protocol == "tuic"
      then written "tuic" (lib.query_escape o.uuid +s ":" +s lib.query_escape o.password)
          tuic_values
      else if one_of o.protocol ("http" ∷ "socks" ∷ "socks5" ∷ [])
      then proxy_link
      else refused (not_supported o.protocol)

  -- Whether the link that the outbound came from is given back
  abbrev pub keeps_raw : Bool
  keeps_raw = not (trim_space o.raw == "") && contains o.raw "://"

  abbrev pub lacks_address : Bool
  lacks_address = o.address == "" || not (ltℤ (pos 0) o.port)

  -- `outboundShareLink`
  unfoldable pub outbound_share_link : ShareResult
  unfolding has_tls vless_values vmess_payload vmess_link trojan_values hysteria2_values tuic_values
      shadow_tls_values url_user proxy_link protocol_link print_int one_of trim_space contains
      insert
  outbound_share_link =
      if keeps_raw
      then link (trim_space o.raw)
      else if lacks_address
      then refused (no_address o.name)
      else protocol_link
