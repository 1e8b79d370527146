-- ===== src/Config/Inbound.antt =====
-- core/config.go: `InboundConfig.Validate`.
use oneagent.Prelude.{String, Bool, not, ◌&&◌, [], ◌∷◌, ◌==◌, if◌then◌else◌, one_of, port_ok}
use oneagent.Config.Types.{InboundConfig}
use oneagent.Config.Errors.{
  Kind, Field, requires, unsupported_protocol, unsupported_method, Result, ok, ◌>>◌, fail_if,
}

unfoldable pub is_supported_inbound_protocol : String → Bool
unfolding one_of
is_supported_inbound_protocol protocol = one_of protocol (
    "mixed" ∷ "socks" ∷ "socks5" ∷ "http" ∷ "vless" ∷ "anytls" ∷ "vmess" ∷ "trojan" ∷ "shadowtls"
    ∷ "shadowsocks" ∷ "ss" ∷ "forward-tcp" ∷ "forward-udp" ∷ [])

unfoldable pub is_supported_ss_method : String → Bool
unfolding one_of
is_supported_ss_method method = one_of method (
    "2022-blake3-aes-128-gcm" ∷ "2022-blake3-aes-256-gcm" ∷ "aes-128-gcm" ∷ "aes-256-gcm"
    ∷ "chacha20-ietf-poly1305" ∷ "xchacha20-ietf-poly1305" ∷ [])

-- The `switch` on the protocol, a function for each of its cases.
module _ (i : InboundConfig) where
  need : Bool → Field → Result (Unit {0})
  need missing field = fail_if missing (requires Kind.inbound i.name field)

  validate_reality : Result (Unit {0})
  validate_reality = do
    need (i.private_key == "") Field.private_key
    need (i.server_name == "") Field.server_name
    need (i.reality_handshake_server == "") Field.handshake_server
    need (not (port_ok i.reality_handshake_port)) Field.handshake_port

  validate_uuid : Result (Unit {0})
  validate_uuid = do
    need (i.uuid == "") Field.uuid
    if i.protocol == "vless" && i.security == "reality" then validate_reality else ok tt

  validate_password : Result (Unit {0})
  validate_password = do
    need (i.password == "") Field.password
    need (i.protocol == "shadowtls" && i.reality_handshake_server == "") Field.handshake_server

  validate_anytls : Result (Unit {0})
  validate_anytls = do
    need (i.password == "") Field.password
    need (i.server_name == "") Field.server_name

  validate_shadowsocks : Result (Unit {0})
  validate_shadowsocks = do
    need (i.password == "") Field.password
    need (i.method == "") Field.method
    fail_if (not (is_supported_ss_method i.method))
        (unsupported_method Kind.inbound i.name i.method)

  validate_forward : Result (Unit {0})
  validate_forward = do
    need (i.target_host == "") Field.target_host
    need (not (port_ok i.target_port)) Field.target_port

  validate_fields : Result (Unit {0})
  validate_fields =
      if one_of i.protocol ("vless" ∷ "vmess" ∷ [])
      then validate_uuid
      else if one_of i.protocol ("trojan" ∷ "shadowtls" ∷ [])
      then validate_password
      else if i.protocol == "anytls"
      then validate_anytls
      else if one_of i.protocol ("shadowsocks" ∷ "ss" ∷ [])
      then validate_shadowsocks
      else if one_of i.protocol ("forward-tcp" ∷ "forward-udp" ∷ [])
      then validate_forward
      else ok tt

  -- `InboundConfig.Validate`
  unfoldable pub validate_inbound : Result (Unit {0})
  unfolding one_of port_ok is_supported_inbound_protocol is_supported_ss_method need
      validate_reality validate_uuid validate_password validate_anytls validate_shadowsocks
      validate_forward validate_fields
  validate_inbound = do
    fail_if (not (is_supported_inbound_protocol i.protocol))
        (unsupported_protocol Kind.inbound i.name i.protocol)
    validate_fields
