-- ===== src/Share/Inbound.antt =====
-- core/share.go: `inboundShareLink`.
use oneagent.Prelude.{
  String, Bool, not, ◌&&◌, ◌||◌, [], ◌∷◌, Option, none, some, pos, eqℤ, ltℤ, ◌==◌, if◌then◌else◌,
  ◌+s◌, Dict, insert, print_int, trim_space, one_of,
}
use oneagent.Config.Types.{InboundConfig}
use oneagent.Links.Values.{first_text}
use oneagent.Manager.Preview.{split_csv}
use oneagent.Share.Library.{
  Library, ShareResult, refused, link, bad_private_key, not_supported, add_query_value,
}
use oneagent.Share.Hosts.{best_share_host}

module _ (lib : Library) (i : InboundConfig) where
  -- `publicKeyFromRealityPrivate`
  public_key_from_reality_private : Option String
  public_key_from_reality_private = elim (lib.decode_base64 (trim_space i.private_key)) [
    | none ↦ none
    | some raw ↦ elim (lib.public_key raw) [ none ↦ none | some key ↦ some (lib.raw_base64 key) ]
  ]

  host_port : String → String
  host_port given =
      let best = best_share_host lib (given ∷ []) in
      let host = if best == "" then "127.0.0.1" else best in
      elim (lib.split_host_port host) [
        | none ↦ lib.join_host_port host (print_int i.port)
        | some _ ↦ host
      ]

  -- Behind the user of every link
  written : String → String → String → Dict String → ShareResult
  written scheme user at values = link (
      scheme
      +s "://"
      +s user
      +s "@"
      +s at
      +s "?"
      +s lib.encode values
      +s "#"
      +s lib.query_escape i.name)

  has_tls : Bool
  has_tls = i.tls || not (i.server_name == "")

  has_transport : Bool
  has_transport = not (i.transport == "") && not (i.transport == "tcp")

  reality_values : String → Dict String → Dict String
  reality_values key values =
      let named =
        insert "fp" "chrome"
          (insert "pbk" key (insert "sni" i.server_name (insert "security" "reality" values))) in
      if i.short_id == "" then named else insert "sid" (first_text (split_csv i.short_id)) named

  vless_security : Dict String → Dict String
  vless_security values =
      if has_tls
      then insert "skip-cert-verify" "1"
          (insert "allowInsecure" "1" (insert "sni" i.server_name (insert "security" "tls" values)))
      else insert "security" "none" values

  vless_rest : Dict String → Dict String
  vless_rest values = add_query_value "host" i.host (
      add_query_value "path" i.path (
        insert "type" (if has_transport then i.transport else "tcp")
          (add_query_value "flow" i.flow values)))

  vless_link : String → ShareResult
  vless_link at =
      let values = insert "encryption" "none" [] in
      if i.security == "reality"
      then elim public_key_from_reality_private [
        | none ↦ refused bad_private_key
        | some key ↦ written "vless" i.uuid at (vless_rest (reality_values key values))
      ]
      else written "vless" i.uuid at (vless_rest (vless_security values))

  anytls_link : String → ShareResult
  anytls_link at =
      let named = insert "sni" i.server_name (insert "peer" i.server_name []) in
      let secured = if has_tls then insert "security" "tls" named else named in
      written "anytls" (lib.query_escape i.password) at
        (insert "skip-cert-verify" "1" (insert "insecure" "1" (insert "allowInsecure" "1" secured)))

  with_transport : Dict String → Dict String
  with_transport values = add_query_value "host" i.host (
      add_query_value "path" i.path
        (if has_transport then insert "type" i.transport values else values))

  trojan_link : String → ShareResult
  trojan_link at = written "trojan" (lib.query_escape i.password) at (
      with_transport (
        if has_tls
        then insert "skip-cert-verify" "1"
            (insert "allowInsecure" "1" (insert "sni" i.server_name (insert "security" "tls" [])))
        else []))

  vmess_link : String → ShareResult
  vmess_link at =
      let values = insert "encryption" "auto" [] in
      written "vmess" i.uuid at (
        with_transport
          (if has_tls then insert "sni" i.server_name (insert "security" "tls" values) else values))

  shadowsocks_link : String → ShareResult
  shadowsocks_link at = link (
      "ss://"
      +s lib.raw_base64 (i.method +s ":" +s i.password)
      +s "@"
      +s at
      +s "#"
      +s lib.query_escape i.name)

  shadow_tls_values : Dict String
  shadow_tls_values =
      let values = insert "password" i.password (
        insert "host" (first_text (i.server_name ∷ i.reality_handshake_server ∷ []))
          (insert "version" "3" [])) in
      if ltℤ (pos 0) i.reality_handshake_port && not (eqℤ i.reality_handshake_port (pos 443))
      then insert "port" (print_int i.reality_handshake_port) values
      else values

  -- json.Marshal gives no text where it fails, and the error is dropped.
  json_or_empty : Option String → String
  json_or_empty none = ""
  json_or_empty (some text) = text

  shadow_tls_link : String → ShareResult
  shadow_tls_link at =
      let method = first_text (i.method ∷ "aes-128-gcm" ∷ []) in
      written "ss" (lib.raw_base64 (method +s ":" +s i.password)) at
        (insert "shadow-tls" (lib.raw_base64 (json_or_empty (lib.json_text shadow_tls_values))) [])

  -- `inboundShareLink`
  unfoldable pub inbound_share_link : String → ShareResult
  unfolding public_key_from_reality_private host_port written has_tls has_transport reality_values
      vless_security vless_rest vless_link anytls_link with_transport trojan_link vmess_link
      shadowsocks_link shadow_tls_values json_or_empty shadow_tls_link best_share_host first_text
      split_csv print_int one_of trim_space insert
  inbound_share_link public_host =
      let at = host_port public_host in
      if i.protocol == "vless"
      then vless_link at
      else if i.protocol == "anytls"
      then anytls_link at
      else if i.protocol == "trojan"
      then trojan_link at
      else if i.protocol == "vmess"
      then vmess_link at
      else if one_of i.protocol ("shadowsocks" ∷ "ss" ∷ [])
      then shadowsocks_link at
      else if i.protocol == "shadowtls"
      then shadow_tls_link at
      else refused (not_supported i.protocol)
