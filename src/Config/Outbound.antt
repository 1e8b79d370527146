-- ===== src/Config/Outbound.antt =====
-- core/config.go: `OutboundConfig.Validate`.
use oneagent.Prelude.{String, Bool, not, ◌&&◌, ◌||◌, [], ◌∷◌, ◌==◌, if◌then◌else◌, one_of}
use oneagent.Config.Types.{OutboundConfig}
use oneagent.Config.Errors.{
  Kind, Field, requires, unsupported_protocol, unsupported_method, Result, ok, ◌>>◌, fail_if,
}
use oneagent.Config.Inbound.{is_supported_ss_method}

unfoldable pub is_supported_outbound_protocol : String → Bool
unfolding one_of
is_supported_outbound_protocol protocol = one_of protocol (
    "direct" ∷ "socks" ∷ "socks5" ∷ "http" ∷ "vless" ∷ "vmess" ∷ "trojan" ∷ "shadowsocks" ∷ "ss"
    ∷ "hysteria2" ∷ "tuic" ∷ "anytls" ∷ "naive" ∷ "shadowtls" ∷ "tcp" ∷ "udp" ∷ [])

module _ (o : OutboundConfig) where
  need : Bool → Field → Result (Unit {0})
  need missing field = fail_if missing (requires Kind.outbound o.name field)

  validate_shadowsocks : Result (Unit {0})
  validate_shadowsocks = do
    need (o.password == "") Field.password
    need (o.method == "") Field.method
    fail_if (not (is_supported_ss_method o.method))
        (unsupported_method Kind.outbound o.name o.method)
    need (o.transport == "shadowtls" && o.obfs_password == "") Field.obfs_password

  validate_fields : Result (Unit {0})
  validate_fields =
      if one_of o.protocol ("vless" ∷ "vmess" ∷ [])
      then need (o.uuid == "") Field.uuid
      else if one_of o.protocol ("trojan" ∷ "hysteria2" ∷ "anytls" ∷ "shadowtls" ∷ [])
      then need (o.password == "") Field.password
      else if o.protocol == "tuic"
      then need (o.uuid == "" || o.password == "") Field.uuid
      else if one_of o.protocol ("shadowsocks" ∷ "ss" ∷ [])
      then validate_shadowsocks
      else ok tt

  -- `OutboundConfig.Validate`
  unfoldable pub validate_outbound : Result (Unit {0})
  unfolding one_of is_supported_outbound_protocol is_supported_ss_method need validate_shadowsocks
      validate_fields
  validate_outbound = do
    fail_if (not (is_supported_outbound_protocol o.protocol))
        (unsupported_protocol Kind.outbound o.name o.protocol)
    validate_fields
