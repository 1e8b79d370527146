-- ===== src/SingBox/Outbounds/Tags.antt =====
-- The tags of the items that `singBoxOutbounds` writes.
use oneagent.Prelude.{
  String, Bool, true, false, ◌||◌, ◌≡◌, refl, sym, ◌∙◌, ap, ◌⊎◌, inl, inr, List, [], ◌∷◌, ◌++◌, map,
  Elem, ◌==◌, if◌then◌else◌, one_of, ℤ,
}
use oneagent.Config.Types.{OutboundConfig}
use oneagent.Config.Names.{outbound_names}
use oneagent.Links.Values.{Any, text, Fields, at, string_value, first_text}
use oneagent.SingBox.Values.{set, at-set, add_optional, tag_of}
use oneagent.SingBox.Outbounds.{
  direct_item, outbound_items, protocol_items, all_items, sing_box_outbounds, add_tls,
  add_sing_box_transport, add_any_tls_idle_fields, server_item, base, credentials, vless_item,
  vmess_item, trojan_item, shadow_item, shadow_tag, shadowsocks_item, shadowsocks_items, set_mbps,
  hysteria2_item, tuic_item, anytls_item, naive_item, shadowtls_item,
}

-- The item has the tag.
Tagged : String → Fields → Type 0
Tagged name d = tag_of d ≡ name

set-Tagged :
    (name key : String) (value : Any) (d : Fields)
    → (key == "tag") ≡ false
    → Tagged name d
    → Tagged name (set key value d)
unfolding Tagged
set-Tagged name key value d e h =
    ap string_value (at-set key "tag" value d ∙ ap (λ b. if b then value else at "tag" d) e) ∙ h

if-Tagged :
    (name : String) (b : Bool) (d e : Fields)
    → Tagged name d
    → Tagged name e
    → Tagged name (if b then d else e)
if-Tagged name true d e h k = h
if-Tagged name false d e h k = k

optional-Tagged :
    (name key value : String) (d : Fields)
    → (key == "tag") ≡ false
    → Tagged name d
    → Tagged name (add_optional key value d)
optional-Tagged name key value d e h =
    if-Tagged name (value == "") _ _ h (set-Tagged name key (text value) d e h)

module _ (o : OutboundConfig) where
  tls-Tagged : (name : String) (d : Fields) → Tagged name d → Tagged name (add_tls o d)
  unfolding add_tls
  tls-Tagged name d h = if-Tagged name _ _ _ h (set-Tagged name "tls" _ d refl h)

  transport-Tagged :
      (name : String) (d : Fields) → Tagged name d → Tagged name (add_sing_box_transport o d)
  unfolding add_sing_box_transport
  transport-Tagged name d h = if-Tagged name _ _ _ h (set-Tagged name "transport" _ d refl h)

  server-Tagged : (kind name : String) → Tagged name (server_item o kind name)
  unfolding Tagged server_item at
  server-Tagged kind name = refl

  base-Tagged : Tagged o.name (base o)
  unfolding base
  base-Tagged = server-Tagged o.protocol o.name

  credentials-Tagged : (d : Fields) → Tagged o.name d → Tagged o.name (credentials o d)
  unfolding credentials
  credentials-Tagged d h =
      optional-Tagged o.name "password" o.password _ refl
        (optional-Tagged o.name "username" o.username d refl h)

  vless-Tagged : Tagged o.name (vless_item o)
  unfolding vless_item
  vless-Tagged = transport-Tagged o.name _ (
      tls-Tagged o.name _ (
        optional-Tagged o.name "network" o.network _ refl (
          optional-Tagged o.name "flow" o.flow _ refl
            (set-Tagged o.name "uuid" _ (base o) refl base-Tagged))))

  vmess-Tagged : Tagged o.name (vmess_item o)
  unfolding vmess_item
  vmess-Tagged = transport-Tagged o.name _ (
      tls-Tagged o.name _ (
        optional-Tagged o.name "network" o.network _ refl (
          set-Tagged o.name "alter_id" _ _ refl (
            set-Tagged o.name "security" _ _ refl
              (set-Tagged o.name "uuid" _ (base o) refl base-Tagged)))))

  trojan-Tagged : Tagged o.name (trojan_item o)
  unfolding trojan_item
  trojan-Tagged = transport-Tagged o.name _ (
      tls-Tagged o.name _ (
        optional-Tagged o.name "network" o.network _ refl
          (set-Tagged o.name "password" _ (base o) refl base-Tagged)))

  shadowsocks-Tagged : (d : Fields) → Tagged o.name d → Tagged o.name (shadowsocks_item o d)
  unfolding shadowsocks_item
  shadowsocks-Tagged d h = optional-Tagged o.name "network" o.network _ refl (
      set-Tagged o.name "password" _ _ refl
        (set-Tagged o.name "method" _ _ refl (set-Tagged o.name "type" _ d refl h)))

  mbps-Tagged :
      (key : String) (mbps : ℤ) (d : Fields)
      → (key == "tag") ≡ false
      → Tagged o.name d
      → Tagged o.name (set_mbps o key mbps d)
  unfolding set_mbps
  mbps-Tagged key mbps d e h = if-Tagged o.name _ _ _ (set-Tagged o.name key _ d e h) h

  hysteria2-Tagged : Tagged o.name (hysteria2_item o)
  unfolding hysteria2_item
  hysteria2-Tagged =
      let begun =
        set-Tagged o.name "password" (text o.password) _ refl
          (set-Tagged o.name "type" (text "hysteria2") (base o) refl base-Tagged) in
      let ports =
        if-Tagged o.name (o.mport == "") _ _ begun
          (set-Tagged o.name "server_ports" _ _ refl begun) in
      let limited =
        mbps-Tagged "down_mbps" o.down_mbps _ refl (mbps-Tagged "up_mbps" o.up_mbps _ refl ports) in
      tls-Tagged o.name _
        (if-Tagged o.name _ _ _ (set-Tagged o.name "obfs" _ _ refl limited) limited)

  tuic-Tagged : Tagged o.name (tuic_item o)
  unfolding tuic_item
  tuic-Tagged = tls-Tagged o.name _ (
      optional-Tagged o.name "udp_relay_mode" (first_text (o.udp_relay_mode ∷ "native" ∷ [])) _ refl
        (optional-Tagged o.name "congestion_control" (first_text (o.congestion ∷ "bbr" ∷ [])) _ refl
          (set-Tagged o.name "password" (text o.password) _ refl (
            set-Tagged o.name "uuid" (text o.uuid) _ refl
              (set-Tagged o.name "type" (text "tuic") (base o) refl base-Tagged)))))

  anytls-Tagged : Tagged o.name (anytls_item o)
  unfolding anytls_item add_any_tls_idle_fields
  anytls-Tagged =
      let named = optional-Tagged o.name "idle_session_timeout" o.idle_session_timeout _ refl (
        optional-Tagged o.name "idle_session_check_interval" o.idle_session_check _ refl (
          set-Tagged o.name "password" (text o.password) _ refl
            (set-Tagged o.name "type" (text "anytls") (base o) refl base-Tagged))) in
      tls-Tagged o.name _
        (if-Tagged o.name _ _ _ (set-Tagged o.name "min_idle_session" _ _ refl named) named)

  naive-Tagged : Tagged o.name (naive_item o)
  unfolding naive_item
  naive-Tagged = tls-Tagged o.name _ (
      optional-Tagged o.name "network" o.transport _ refl (
        set-Tagged o.name "password" (text o.password) _ refl (
          set-Tagged o.name "username" (text (first_text (o.username ∷ o.uuid ∷ []))) _ refl
            (set-Tagged o.name "type" (text "naive") (base o) refl base-Tagged))))

  shadowtls-Tagged : Tagged o.name (shadowtls_item o)
  unfolding shadowtls_item
  shadowtls-Tagged = tls-Tagged o.name _ (
      set-Tagged o.name "password" _ _ refl (
        set-Tagged o.name "version" _ _ refl
          (set-Tagged o.name "type" _ (base o) refl base-Tagged)))

-- An item of the list has the tag.
abbrev pub HasTag : String → List Fields → Type 0
HasTag name items = Elem name (map tag_of items)

only : (name : String) (d : Fields) → Tagged name d → HasTag name (d ∷ [])
unfolding Tagged
only name d h = inl (sym h)

if-HasTag :
    (name : String) (b : Bool) (xs ys : List Fields)
    → HasTag name xs
    → HasTag name ys
    → HasTag name (if b then xs else ys)
if-HasTag name true xs ys h k = h
if-HasTag name false xs ys h k = k

direct-HasTag : (name : String) → HasTag name (direct_item name ∷ [])
unfolding at
direct-HasTag name = inl refl

module _ (o : OutboundConfig) where
  shadowsocks_items-HasTag : HasTag o.name (shadowsocks_items o)
  unfolding shadowsocks_items
  shadowsocks_items-HasTag =
      if-HasTag o.name (o.transport == "shadowtls")
        (shadow_item o ∷ shadowsocks_item o (set "detour" (text (shadow_tag o)) (base o)) ∷ [])
        (shadowsocks_item o (base o) ∷ [])
        (inr (
          only o.name _
            (shadowsocks-Tagged o _ (set-Tagged o.name "detour" _ (base o) refl (base-Tagged o)))))
        (only o.name _ (shadowsocks-Tagged o (base o) (base-Tagged o)))

  protocol_items-HasTag : HasTag o.name (protocol_items o)
  unfolding protocol_items
  protocol_items-HasTag =
      if-HasTag o.name (one_of o.protocol ("socks" ∷ "socks5" ∷ [])) _ _
        (only o.name _ (
          credentials-Tagged o _
            (set-Tagged o.name "version" _ _ refl (server-Tagged o "socks" o.name))))
        (if-HasTag o.name (o.protocol == "http") _ _
          (only o.name _ (credentials-Tagged o _ (server-Tagged o "http" o.name)))
          (if-HasTag o.name (o.protocol == "vless") _ _ (only o.name _ (vless-Tagged o)) (
            if-HasTag o.name (o.protocol == "vmess") _ _ (only o.name _ (vmess-Tagged o)) (
              if-HasTag o.name (o.protocol == "trojan") _ _ (only o.name _ (trojan-Tagged o)) (
                if-HasTag o.name (one_of o.protocol ("shadowsocks" ∷ "ss" ∷ [])) _ _
                  shadowsocks_items-HasTag
                  (if-HasTag o.name (o.protocol == "hysteria2") _ _
                    (only o.name _ (hysteria2-Tagged o))
                    (if-HasTag o.name (o.protocol == "tuic") _ _ (only o.name _ (tuic-Tagged o)) (
                      if-HasTag o.name (o.protocol == "anytls") _ _
                        (only o.name _ (anytls-Tagged o))
                        (if-HasTag o.name (o.protocol == "naive") _ _
                          (only o.name _ (naive-Tagged o))
                          (if-HasTag o.name (o.protocol == "shadowtls") _ _
                            (only o.name _ (shadowtls-Tagged o)) (direct-HasTag o.name)))))))))))

  outbound_items-HasTag : HasTag o.name (outbound_items o)
  unfolding outbound_items
  outbound_items-HasTag =
      if-HasTag o.name (o.address == "" || o.protocol == "direct") _ _ (direct-HasTag o.name)
        protocol_items-HasTag

HasTag-left : (name : String) (xs ys : List Fields) → HasTag name xs → HasTag name (xs ++ ys)
HasTag-left name [] ys h = absurd h
HasTag-left name (x ∷ xs) ys (inl e) = inl e
HasTag-left name (x ∷ xs) ys (inr h) = inr (HasTag-left name xs ys h)

HasTag-right : (name : String) (xs ys : List Fields) → HasTag name ys → HasTag name (xs ++ ys)
HasTag-right name [] ys h = h
HasTag-right name (x ∷ xs) ys h = inr (HasTag-right name xs ys h)

all_items-HasTag :
    (name : String) (outbounds : List OutboundConfig)
    → Elem name (outbound_names outbounds)
    → HasTag name (all_items outbounds)
unfolding all_items
all_items-HasTag name [] h = absurd h
all_items-HasTag name (o ∷ outbounds) (inl e) =
    rw e (HasTag-left o.name (outbound_items o) (all_items outbounds) (outbound_items-HasTag o))
all_items-HasTag name (o ∷ outbounds) (inr h) =
    HasTag-right name (outbound_items o) (all_items outbounds) (all_items-HasTag name outbounds h)

-- Every outbound has an item of its name among those that sing-box is given, and so has `direct`.
pub sing_box_outbounds_lem :
    (name : String) (outbounds : List OutboundConfig)
    → (name ≡ "direct") ⊎ Elem name (outbound_names outbounds)
    → HasTag name (sing_box_outbounds outbounds)
unfolding sing_box_outbounds at
sing_box_outbounds_lem name outbounds (inl e) = inl e
sing_box_outbounds_lem name outbounds (inr h) = inr (all_items-HasTag name outbounds h)
