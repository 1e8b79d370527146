-- ===== src/Share/Outbound/RoundTrip.antt =====
-- A link that `outboundShareLink` writes, as `parseOutboundLink` reads it: a trojan server behind a
-- web socket.
use oneagent.Prelude.{
  ℕ, ◌<◌, String, Bool, true, false, not, ◌||◌, ◌≡◌, refl, ap, ◌∙◌, [], ◌∷◌, none, some, pos, ◌+s◌,
  Dict, insert, trim_space, to_lower, contains, one_of, if◌then◌else◌, ◌==◌, arith, eqℤ, ltℤ,
}
use oneagent.Config.Types.{OutboundConfig}
use oneagent.Links.Library.{Library as Packages, parsed}
use oneagent.Links.Texts.Numbers.{parse_port-itoa}
use oneagent.Links.Parse.{decode, parse_outbound_link, checked, read_link}
use oneagent.Links.Parse.Plain.{parse_outbound_link-checked}
use oneagent.Links.Parse.Trojan.{trojan_url, read_as, read_link-plain}
use oneagent.Share.Library.{Library, link, refused, no_address}
use oneagent.Share.Outbound.{
  outbound_share_link, protocol_link, trojan_values, add_transport_query, host_port, has_tls,
}

-- What an outbound needs for its link to be read back: the port of the server, and no empty field.
pub record IsShareable (name address : String) (n : ℕ) (path host : String) : Type 0 where
  pub has_address : (address == "") ≡ false
  pub has_port : 0 < n
  pub small_port : n < 65536
  pub has_path : (path == "") ≡ false
  pub has_host : (host == "") ≡ false

module _ (share : Library) (name address password sni path host : String) (n : ℕ) where
  -- The server uses TLS where it has a server name.
  abbrev pub trojan : OutboundConfig
  trojan = read_as name address (pos n) password (not (sni == "")) sni path host ""

  -- The link of the server
  abbrev pub trojan_text : String
  trojan_text =
      "trojan"
      +s "://"
      +s share.query_escape password
      +s "@"
      +s host_port share trojan
      +s "?"
      +s share.encode (trojan_values share trojan)
      +s "#"
      +s share.query_escape name

  shared :
      IsShareable name address n path host → outbound_share_link share trojan ≡ link trojan_text
  unfolding outbound_share_link protocol_link trim_space contains one_of
  shared s =
      ap (λ b. if b then refused (no_address name) else link trojan_text)
        (has_server (address == "") s.has_address)
    where
      has_server : (b : Bool) → b ≡ false → (b || not (ltℤ (pos 0) (pos n))) ≡ false
      has_server b e = ground (arith, e, s.has_port)

values_plain :
    (share : Library) (name address password path host : String) (n : ℕ)
    → (path == "") ≡ false
    → (host == "") ≡ false
    → trojan_values share (trojan share name address password "" path host n)
      ≡ ("type", "ws") ∷ ("path", path) ∷ ("host", host) ∷ []
unfolding trojan_values has_tls add_transport_query insert
values_plain share name address password path host n b c = rw (b, c) refl

module _ (links : Packages) (share : Library) (name address password path host : String) (n : ℕ)
    (fragment raw_query raw_fragment : String) (s : IsShareable name address n path host) where
  -- What the package net/url makes of the link for a server: the parts that were put into it, of which
  -- the name is still to be decoded.
  abbrev IsRead : OutboundConfig → String → Type 0
  IsRead o text =
      links.parse_url text
      ≡ some (
          trojan_url (host_port share o) address n password fragment raw_query raw_fragment ""
            (trojan_values share o))

  -- The name is decoded, and the host and port are not base64.
  abbrev IsDecoded : OutboundConfig → Type 0
  IsDecoded o =
      ((trim_space fragment == "") ≡ false)
      × (links.query_unescape (trim_space fragment) ≡ some name)
      × (decode links (host_port share o) ≡ none)

  port_read : (n : ℕ) → 0 < n → eqℤ (pos n) (pos 0) ≡ false
  port_read n h = ground (arith, h)

  served :
      (tls : Bool) (sni text : String)
      → checked links text (read_as name address (pos n) password tls sni path host text)
        ≡ parsed (read_as name address (pos n) password tls sni path host text)
  served tls sni text = rw (port_read n s.has_port, s.has_address) refl

  read_back :
      (at text : String) (query : Dict String) (tls : Bool) (sni : String)
      → links.parse_url text
        ≡ some (trojan_url at address n password fragment raw_query raw_fragment "" query)
      → decode links at ≡ none
      → read_link links
          (trojan_url at address n password fragment raw_query raw_fragment "" query)
          "trojan"
          text
        ≡ read_as name address (pos n) password tls sni path host text
      → parse_outbound_link links text
        ≡ parsed (read_as name address (pos n) password tls sni path host text)
  unfolding to_lower
  read_back at text query tls sni e d r =
      parse_outbound_link-checked links text
        (trojan_url at address n password fragment raw_query raw_fragment "" query) e
        (record { has_scheme = refl; not_v2rayn = refl; not_opaque = refl; not_encoded = d })
      ∙ ap (checked links text) r
      ∙ served tls sni text

  -- A trojan outbound over a web socket, with a port below 65536, an address, a path and a host that are
  -- not empty, without TLS, and with no other option set, is read back from the link that `outboundShareLink` writes for it as
  -- one with TLS, whose server name is that host; if the link is split into the parts that were put
  -- into it, its name is decoded, and its host and port do not read as base64.
  pub trojan_gains_tls :
      IsRead
        (trojan share name address password "" path host n)
        (trojan_text share name address password "" path host n)
      → IsDecoded (trojan share name address password "" path host n)
      → (outbound_share_link share (trojan share name address password "" path host n)
          ≡ link (trojan_text share name address password "" path host n))
        × (parse_outbound_link links (trojan_text share name address password "" path host n)
            ≡ parsed (record (trojan share name address password "" path host n) {
              tls = true;
              server_name = host;
              raw = trojan_text share name address password "" path host n;
            }))
  trojan_gains_tls read (has_fragment, unescaped, not_encoded) =
      let o = trojan share name address password "" path host n in
      let text = trojan_text share name address password "" path host n in
      let values = values_plain share name address password path host n s.has_path s.has_host in
      (
        shared share name address password "" path host n s,
        read_back (host_port share o) text (("type", "ws") ∷ ("path", path) ∷ ("host", host) ∷ [])
            true host
            (read
              ∙ ap
                  (λ q. some (
                    trojan_url (host_port share o) address n password fragment raw_query
                      raw_fragment "" q))
                  values)
            not_encoded
            (read_link-plain links (host_port share o) address password fragment raw_query
              raw_fragment "" text n path host s.has_path s.has_host
              (parse_port-itoa n s.small_port) name has_fragment unescaped),
      )
