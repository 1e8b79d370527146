-- ===== src/Links/Parse/Trojan.antt =====
-- How `parseOutboundLink` reads the parts of a trojan link over a web socket.
use oneagent.Prelude.{
  ℕ, String, Bool, true, false, not, ◌≡◌, refl, ap, ◌∙◌, [], ◌∷◌, none, some, ℤ, pos, Dict, lookup,
  if◌then◌else◌, ◌==◌, itoa, one_of, equal_fold, trim_space,
}
use oneagent.Config.Types.{OutboundConfig, zero_outbound}
use oneagent.Links.Values.{first_text, atoi_default, parse_port, xtls_flow, normalize_link_protocol}
use oneagent.Links.Library.{Library, Url}
use oneagent.Links.Parse.{
  link_name, link_outbound, link_tls, link_insecure, link_reality, link_transport, link_user,
  read_link, user_name, user_password, fragment_name,
}

-- The parts of the link: its query holds a path and a host behind the given values.
abbrev pub trojan_url :
    String → String → ℕ → String → String → String → String → String → Dict String → Url
trojan_url at address port password fragment raw_query raw_fragment path query = record {
  scheme = "trojan";
  opaque = "";
  user = some (password, none);
  host = at;
  hostname = address;
  port = itoa port;
  path = path;
  raw_query = raw_query;
  query = query;
  fragment = fragment;
  raw_fragment = raw_fragment;
}

abbrev pub read_as :
    String → String → ℤ → String → Bool → String → String → String → String → OutboundConfig
read_as name address port password tls sni path host raw = record zero_outbound {
  name = name;
  protocol = "trojan";
  address = address;
  port = port;
  password = password;
  tls = tls;
  server_name = sni;
  transport = "ws";
  path = path;
  host = host;
  raw = raw;
}

module _ (lib : Library) (at address password fragment raw_query raw_fragment url_path raw : String)
    (n : ℕ) (path host : String) (has_path : (path == "") ≡ false) (has_host : (host == "") ≡ false)
    (number : parse_port (itoa n) ≡ pos n) where
  abbrev pub plain_url : Url
  plain_url =
      trojan_url at address n password fragment raw_query raw_fragment url_path
        (("type", "ws") ∷ ("path", path) ∷ ("host", host) ∷ [])

  abbrev pub secured_url : String → Url
  secured_url sni =
      trojan_url at address n password fragment raw_query raw_fragment url_path
        (("security", "tls") ∷ ("sni", sni) ∷ ("type", "ws") ∷ ("path", path) ∷ ("host", host) ∷ [])

  first_given :
      (value : String)
      → (value == "") ≡ false
      → (rest : String) → (if value == "" then rest else value) ≡ value
  first_given value e rest = ap (λ b. if b then rest else value) e

  -- Before the cases of the scheme, with nothing of the transport
  begun : String → ℤ → Bool → String → String → String → OutboundConfig
  begun name port tls sni path host = record zero_outbound {
    name = name;
    protocol = "trojan";
    address = address;
    port = port;
    tls = tls;
    server_name = sni;
    path = path;
    host = host;
    raw = raw;
  }

  plain_outbound :
      link_outbound lib plain_url "trojan" raw
      ≡ begun
          (link_name lib plain_url "trojan")
          (parse_port (itoa n))
          false
          (if host == "" then "" else host)
          (if path == "" then "" else path)
          (if host == "" then "" else host)
  unfolding link_outbound begun lookup first_text atoi_default xtls_flow normalize_link_protocol
      one_of
  plain_outbound = refl

  secured_outbound :
      (sni : String)
      → link_outbound lib (secured_url sni) "trojan" raw
        ≡ begun
            (link_name lib (secured_url sni) "trojan")
            (parse_port (itoa n))
            false
            (if sni == "" then (if host == "" then "" else host) else sni)
            (if path == "" then "" else path)
            (if host == "" then "" else host)
  unfolding link_outbound begun lookup first_text atoi_default xtls_flow normalize_link_protocol
      one_of
  secured_outbound sni = refl

  -- Behind the second step, and behind the first
  behind : Url → OutboundConfig → OutboundConfig
  behind u o =
      link_user lib u "trojan" (link_transport lib u (link_reality lib u (link_insecure lib u o)))

  later : Url → OutboundConfig → OutboundConfig
  later u o = behind u (link_tls lib u o)

  plain_later :
      (name sni : String) (port : ℤ)
      → (sni == "") ≡ false
      → later plain_url (begun name port false sni path host)
        ≡ read_as name address port password true sni path host raw
  unfolding later behind begun link_tls link_insecure link_reality link_transport link_user
      user_name user_password lookup equal_fold one_of
  plain_later name sni port e =
      ap
        (λ b. behind plain_url (
          if not b
          then record (begun name port false sni path host) { tls = true }
          else begun name port false sni path host))
        e

  secured_later :
      (name sni : String) (port : ℤ)
      → later (secured_url sni) (begun name port false sni path host)
        ≡ read_as name address port password true sni path host raw
  unfolding later behind begun link_tls link_insecure link_reality link_transport link_user
      user_name user_password lookup equal_fold one_of
  secured_later name sni port = refl

  module _ (name : String) (has_fragment : (trim_space fragment == "") ≡ false)
      (unescaped : lib.query_unescape (trim_space fragment) ≡ some name) where
    plain_name : link_name lib plain_url "trojan" ≡ name
    unfolding link_name fragment_name lookup first_text
    plain_name = rw (has_fragment, unescaped) refl

    secured_name : (sni : String) → link_name lib (secured_url sni) "trojan" ≡ name
    unfolding link_name fragment_name lookup first_text
    secured_name sni = rw (has_fragment, unescaped) refl

    -- A link without TLS is read as one with TLS, for the server that its host names.
    pub read_link-plain :
        read_link lib plain_url "trojan" raw
        ≡ read_as name address (pos n) password true host path host raw
    unfolding read_link later behind
    read_link-plain =
        ap (later plain_url) plain_outbound
        ∙ ap (later plain_url) begun_plain
        ∙ plain_later name host (pos n) has_host
      where
        begun_plain :
            begun
              (link_name lib plain_url "trojan")
              (parse_port (itoa n))
              false
              (if host == "" then "" else host)
              (if path == "" then "" else path)
              (if host == "" then "" else host)
            ≡ begun name (pos n) false host path host
        begun_plain =
            rw (plain_name, number, first_given host has_host "", first_given path has_path "") refl

    pub read_link-secured :
        (sni : String)
        → (sni == "") ≡ false
        → read_link lib (secured_url sni) "trojan" raw
          ≡ read_as name address (pos n) password true sni path host raw
    unfolding read_link later behind
    read_link-secured sni has_sni =
        ap (later (secured_url sni)) (secured_outbound sni)
        ∙ ap (later (secured_url sni)) begun_secured
        ∙ secured_later name sni (pos n)
      where
        begun_secured :
            begun
              (link_name lib (secured_url sni) "trojan")
              (parse_port (itoa n))
              false
              (if sni == "" then (if host == "" then "" else host) else sni)
              (if path == "" then "" else path)
              (if host == "" then "" else host)
            ≡ begun name (pos n) false sni path host
        begun_secured =
            rw
              (
                secured_name sni,
                number,
                first_given sni has_sni (if host == "" then "" else host),
                first_given host has_host "",
                first_given path has_path "",
              )
              refl
