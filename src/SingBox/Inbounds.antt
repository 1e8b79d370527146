-- ===== src/SingBox/Inbounds.antt =====
-- core/kernel.go: `singBoxInbounds`.
use oneagent.Prelude.{
  String, true, not, ◌&&◌, ◌||◌, List, [], ◌∷◌, ◌++◌, pos, ◌==◌, if◌then◌else◌, ◌+s◌, one_of,
}
use oneagent.Config.Types.{InboundConfig}
use oneagent.Links.Values.{text, texts, flag, number, object, Fields, end, field, first_text}
use oneagent.Manager.Preview.{split_csv}
use oneagent.SingBox.Values.{set, add_optional, one, first_non_zero}

module _ (i : InboundConfig) where
  reality_map : Fields
  reality_map =
      let begun = field "enabled" (flag true) (
        field "handshake"
          (object (
            field "server" (text i.reality_handshake_server)
              (field "server_port" (number i.reality_handshake_port) end)))
          (field "private_key" (text i.private_key) end)) in
      if i.short_id == "" then begun else set "short_id" (texts (split_csv i.short_id)) begun

  tls_map : Fields
  tls_map =
      let begun =
        field "enabled" (flag (i.tls || i.security == "reality" || not (i.server_name == "")))
          end in
      let named = add_optional "key_path" i.key_path (
        add_optional "certificate_path" i.certificate_path
          (add_optional "server_name" i.server_name begun)) in
      if i.security == "reality" then set "reality" (object reality_map) named else named

  -- `addSingBoxInboundTLS`
  add_sing_box_inbound_tls : Fields → Fields
  add_sing_box_inbound_tls target =
      if not i.tls && not (i.security == "reality") && i.server_name == ""
      then target
      else set "tls" (object tls_map) target

  -- `addSingBoxInboundAuth`
  add_sing_box_inbound_auth : Fields → Fields
  add_sing_box_inbound_auth target =
      if i.username == "" && i.password == ""
      then target
      else set "users"
          (one (field "username" (text i.username) (field "password" (text i.password) end))) target

  inbound_transport_map : Fields
  inbound_transport_map =
      let located = add_optional "path" i.path (field "type" (text i.transport) end) in
      if i.host == ""
      then located
      else set "headers" (object (field "Host" (texts (i.host ∷ [])) end)) located

  -- `addSingBoxInboundTransport`
  add_sing_box_inbound_transport : Fields → Fields
  add_sing_box_inbound_transport target =
      if i.transport == "" || i.transport == "tcp"
      then target
      else set "transport" (object inbound_transport_map) target

  inbound_base : Fields
  inbound_base = field "tag" (text i.name) (
      field "listen" (text (first_text (i.listen ∷ "::" ∷ [])))
        (field "listen_port" (number i.port) end))

  typed : String → Fields
  typed kind = set "type" (text kind) inbound_base

  for_users : String → Fields → Fields
  for_users kind user =
      add_sing_box_inbound_transport
        (add_sing_box_inbound_tls (set "users" (one user) (typed kind)))

  inner_tag : String
  inner_tag = i.name +s "-shadowsocks"

  shadowtls_inbound : Fields
  shadowtls_inbound = set "detour" (text inner_tag) (
      set "handshake"
        (object (
          field "server" (text (first_text (i.reality_handshake_server ∷ i.server_name ∷ [])))
            (field "server_port" (number (first_non_zero i.reality_handshake_port (pos 443))) end)))
        (set "users"
          (one (
            field "name" (text (first_text (i.username ∷ i.name ∷ [])))
              (field "password" (text i.password) end)))
          (set "version" (number (pos 3)) (typed "shadowtls"))))

  inner_inbound : Fields
  inner_inbound = field "type" (text "shadowsocks") (
      field "tag" (text inner_tag) (
        field "method" (text (first_text (i.method ∷ "aes-128-gcm" ∷ [])))
          (field "password" (text i.password) (field "network" (text "tcp") end))))

  forward_item : String → Fields
  forward_item network =
      set "override_port" (number i.target_port) (
        set "override_address" (text i.target_host) (set "network" (text network) (typed "direct")))

  -- The `switch` on the protocol, and the end of the body of the loop.
  inbound_items : List Fields
  inbound_items =
      if i.protocol == "mixed"
      then add_sing_box_inbound_auth (typed "mixed") ∷ []
      else if one_of i.protocol ("socks" ∷ "socks5" ∷ [])
      then add_sing_box_inbound_auth (typed "socks") ∷ []
      else if i.protocol == "http"
      then add_sing_box_inbound_auth (typed "http") ∷ []
      else if i.protocol == "vless"
      then for_users "vless" (add_optional "flow" i.flow (field "uuid" (text i.uuid) end)) ∷ []
      else if i.protocol == "vmess"
      then for_users "vmess" (field "uuid" (text i.uuid) (field "alter_id" (number i.alter_id) end))
        ∷ []
      else if i.protocol == "trojan"
      then for_users "trojan" (field "password" (text i.password) end) ∷ []
      else if i.protocol == "shadowtls"
      then shadowtls_inbound ∷ inner_inbound ∷ []
      else if i.protocol == "anytls"
      then add_sing_box_inbound_tls
          (set "users" (one (field "password" (text i.password) end)) (typed "anytls"))
        ∷ []
      else if one_of i.protocol ("shadowsocks" ∷ "ss" ∷ [])
      then set "password" (text i.password) (set "method" (text i.method) (typed "shadowsocks"))
        ∷ []
      else if i.protocol == "forward-tcp"
      then forward_item "tcp" ∷ []
      else if i.protocol == "forward-udp"
      then forward_item "udp" ∷ []
      else typed "mixed" ∷ []

all_inbound_items : List InboundConfig → List Fields
all_inbound_items [] = []
all_inbound_items (i ∷ inbounds) = inbound_items i ++ all_inbound_items inbounds

-- `singBoxInbounds`
unfoldable pub sing_box_inbounds : List InboundConfig → List Fields
unfolding reality_map tls_map add_sing_box_inbound_tls add_sing_box_inbound_auth
    inbound_transport_map add_sing_box_inbound_transport inbound_base typed for_users inner_tag
    shadowtls_inbound inner_inbound forward_item inbound_items all_inbound_items set one_of
    first_text split_csv
sing_box_inbounds inbounds = all_inbound_items inbounds
