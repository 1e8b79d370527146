-- ===== src/SingBox/Outbounds.antt =====
-- core/kernel.go: `singBoxOutbounds`.
pub mod Tags
use oneagent.Prelude.{
  String, Bool, true, false, not, ◌&&◌, ◌||◌, List, [], ◌∷◌, ◌++◌, ℤ, pos, ltℤ, ◌==◌, if◌then◌else◌,
  ◌+s◌, trim_first, one_of,
}
use oneagent.Config.Types.{OutboundConfig}
use oneagent.Links.Values.{Any, text, texts, flag, number, object, Fields, end, field, first_text}
use oneagent.Manager.Preview.{split_csv}
use oneagent.SingBox.Values.{set, add_optional, sing_box_port_ranges}

abbrev pub direct_item : String → Fields
direct_item name = field "type" (text "direct") (field "tag" (text name) end)

module _ (o : OutboundConfig) where
  -- `addAnyTLSIdleFields`
  add_any_tls_idle_fields : Fields → Fields
  add_any_tls_idle_fields target =
      let named =
        add_optional "idle_session_timeout" o.idle_session_timeout
          (add_optional "idle_session_check_interval" o.idle_session_check target) in
      if ltℤ (pos 0) o.min_idle_session
      then set "min_idle_session" (number o.min_idle_session) named
      else named

  is_reality : Bool
  is_reality = o.security == "reality" || not (o.public_key == "")

  -- The map `tls` of `addTLS`, step by step
  tls_enabled : Fields
  tls_enabled =
      field "enabled"
        (flag (
          o.tls
          || not (o.server_name == "")
          || o.security == "reality"
          || not (o.public_key == "")))
        end

  tls_named : Fields
  tls_named =
      let named = add_optional "server_name" o.server_name tls_enabled in
      let listed = if o.alpn == "" then named else set "alpn" (texts (split_csv o.alpn)) named in
      if o.skip_cert_verify then set "insecure" (flag true) listed else listed

  utls : String → Any
  utls fingerprint =
      object (field "enabled" (flag true) (field "fingerprint" (text fingerprint) end))

  tls_map : Fields
  tls_map =
      if is_reality
      then set "reality"
          (object (
            add_optional "short_id" o.short_id
              (add_optional "public_key" o.public_key (field "enabled" (flag true) end))))
          (set "utls" (utls (first_text (o.fingerprint ∷ "chrome" ∷ []))) tls_named)
      else if o.fingerprint == ""
      then tls_named
      else set "utls" (utls o.fingerprint) tls_named

  -- `addTLS`
  add_tls : Fields → Fields
  add_tls target =
      if not o.tls && o.server_name == "" && not o.skip_cert_verify
      then target
      else set "tls" (object tls_map) target

  transport_map : Fields
  transport_map =
      let begun = field "type" (text o.transport) end in
      let located =
        if o.transport == "grpc"
        then add_optional "service_name" (trim_first b'/' o.path) begun
        else add_optional "path" o.path begun in
      if o.host == ""
      then located
      else set "headers" (object (field "Host" (texts (o.host ∷ [])) end)) located

  -- `addSingBoxTransport`
  add_sing_box_transport : Fields → Fields
  add_sing_box_transport target =
      if o.transport == "" || o.transport == "tcp"
      then target
      else set "transport" (object transport_map) target

  -- The server, under the name of the node or another
  server_item : String → String → Fields
  server_item kind tag = field "type" (text kind) (
      field "tag" (text tag)
        (field "server" (text o.address) (field "server_port" (number o.port) end)))

  base : Fields
  base = server_item o.protocol o.name

  credentials : Fields → Fields
  credentials item = add_optional "password" o.password (add_optional "username" o.username item)

  vless_item : Fields
  vless_item = add_sing_box_transport (
      add_tls (
        add_optional "network" o.network
          (add_optional "flow" o.flow (set "uuid" (text o.uuid) base))))

  vmess_item : Fields
  vmess_item = add_sing_box_transport (
      add_tls (
        add_optional "network" o.network (
          set "alter_id" (number o.alter_id) (
            set "security" (text (if o.security == "" then "auto" else o.security))
              (set "uuid" (text o.uuid) base)))))

  trojan_item : Fields
  trojan_item =
      add_sing_box_transport
        (add_tls (add_optional "network" o.network (set "password" (text o.password) base)))

  shadow_tag : String
  shadow_tag = o.name +s "-shadowtls"

  shadow_item : Fields
  shadow_item = add_tls (
      set "password" (text o.obfs_password)
        (set "version" (number (pos 3)) (server_item "shadowtls" shadow_tag)))

  shadowsocks_item : Fields → Fields
  shadowsocks_item begun = add_optional "network" o.network (
      set "password" (text o.password)
        (set "method" (text o.method) (set "type" (text "shadowsocks") begun)))

  shadowsocks_items : List Fields
  shadowsocks_items =
      if o.transport == "shadowtls"
      then shadow_item ∷ shadowsocks_item (set "detour" (text shadow_tag) base) ∷ []
      else shadowsocks_item base ∷ []

  set_mbps : String → ℤ → Fields → Fields
  set_mbps key mbps target = if ltℤ (pos 0) mbps then set key (number mbps) target else target

  hysteria2_item : Fields
  hysteria2_item =
      let begun = set "password" (text o.password) (set "type" (text "hysteria2") base) in
      let ports =
        if o.mport == ""
        then begun
        else set "server_ports" (texts (sing_box_port_ranges o.mport)) begun in
      let limited = set_mbps "down_mbps" o.down_mbps (set_mbps "up_mbps" o.up_mbps ports) in
      add_tls (
        if not (o.obfs == "") && not (o.obfs == "none")
        then set "obfs"
            (object (field "type" (text o.obfs) (field "password" (text o.obfs_password) end)))
            limited
        else limited)

  tuic_item : Fields
  tuic_item = add_tls (
      add_optional "udp_relay_mode" (first_text (o.udp_relay_mode ∷ "native" ∷ [])) (
        add_optional "congestion_control" (first_text (o.congestion ∷ "bbr" ∷ [])) (
          set "password" (text o.password)
            (set "uuid" (text o.uuid) (set "type" (text "tuic") base)))))

  anytls_item : Fields
  anytls_item =
      add_tls (
        add_any_tls_idle_fields
          (set "password" (text o.password) (set "type" (text "anytls") base)))

  naive_item : Fields
  naive_item = add_tls (
      add_optional "network" o.transport (
        set "password" (text o.password) (
          set "username" (text (first_text (o.username ∷ o.uuid ∷ [])))
            (set "type" (text "naive") base))))

  shadowtls_item : Fields
  shadowtls_item = add_tls (
      set "password" (text o.password)
        (set "version" (number (pos 3)) (set "type" (text "shadowtls") base)))

  -- The `switch` on the protocol.
  protocol_items : List Fields
  protocol_items =
      if one_of o.protocol ("socks" ∷ "socks5" ∷ [])
      then credentials (set "version" (text "5") (server_item "socks" o.name)) ∷ []
      else if o.protocol == "http"
      then credentials (server_item "http" o.name) ∷ []
      else if o.protocol == "vless"
      then vless_item ∷ []
      else if o.protocol == "vmess"
      then vmess_item ∷ []
      else if o.protocol == "trojan"
      then trojan_item ∷ []
      else if one_of o.protocol ("shadowsocks" ∷ "ss" ∷ [])
      then shadowsocks_items
      else if o.protocol == "hysteria2"
      then hysteria2_item ∷ []
      else if o.protocol == "tuic"
      then tuic_item ∷ []
      else if o.protocol == "anytls"
      then anytls_item ∷ []
      else if o.protocol == "naive"
      then naive_item ∷ []
      else if o.protocol == "shadowtls"
      then shadowtls_item ∷ []
      else direct_item o.name ∷ []

  -- The body of the loop.
  outbound_items : List Fields
  outbound_items =
      if o.address == "" || o.protocol == "direct" then direct_item o.name ∷ [] else protocol_items

all_items : List OutboundConfig → List Fields
all_items [] = []
all_items (o ∷ outbounds) = outbound_items o ++ all_items outbounds

-- `singBoxOutbounds`
unfoldable pub sing_box_outbounds : List OutboundConfig → List Fields
unfolding add_any_tls_idle_fields is_reality tls_enabled tls_named utls tls_map add_tls
    transport_map add_sing_box_transport server_item base credentials vless_item vmess_item
    trojan_item shadow_tag shadow_item shadowsocks_item shadowsocks_items set_mbps hysteria2_item
    tuic_item anytls_item naive_item shadowtls_item protocol_items outbound_items all_items set
    one_of first_text split_csv sing_box_port_ranges trim_first
sing_box_outbounds outbounds = direct_item "direct" ∷ all_items outbounds
