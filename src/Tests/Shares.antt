-- ===== src/Tests/Shares.antt =====
-- Links that are shared, at concrete inputs.
use oneagent.Prelude.{
  String, true, ◌≡◌, refl, [], ◌∷◌, none, some, Dict, pos, ◌+s◌, ◌==◌, ◌||◌, ◌&&◌, not,
  if◌then◌else◌, arith, eq_refl, one_of, trim_space,
}
use oneagent.Config.Types.{OutboundConfig, zero_outbound}
use oneagent.Links.Library.{Library as Packages, Url, parsed}
use oneagent.Links.Texts.{decode_base64_string}
use oneagent.Links.Parse.{parse_outbound_link}
use oneagent.Links.Parse.Trojan.{trojan_url}
use oneagent.Share.Library.{Library, link}
use oneagent.Share.Outbound.{
  outbound_share_link, trojan_values, host_port, keeps_raw, lacks_address,
}
use oneagent.Share.Outbound.Outcomes.{is_link, link_protocols, outbound_share_link_lem}
use oneagent.Share.Outbound.RoundTrip.{IsShareable, trojan, trojan_text, trojan_gains_tls}

-- Texts without special characters are written as they are.
encode : Dict String → String
encode [] = ""
encode ((key, value) ∷ values) = key +s "=" +s value +s "&" +s encode values

abbrev share : Library
share = record {
  split_host_port = λ s. none;
  join_host_port = λ host port. host +s ":" +s port;
  url_host = λ s. none;
  query_escape = λ s. s;
  encode = encode;
  url_text = λ scheme user host fragment. scheme +s "://" +s host +s "#" +s fragment;
  raw_base64 = λ s. s;
  std_base64 = λ s. s;
  decode_base64 = λ s. some s;
  json_text = λ d. some (encode d);
  public_key = λ s. some s;
}

-- A parser that knows one link
packages : String → Url → Packages
packages text u = record {
  parse_url = λ raw. if raw == text then some u else none;
  query_unescape = λ s. some s;
  decodings = [];
  json_object = λ s. none;
  yaml_object = λ s. none;
  yaml_list = λ s. none;
}

abbrev tuic : OutboundConfig
tuic = record zero_outbound {
  name = "t";
  protocol = "tuic";
  address = "example.org";
  port = pos 443;
}

outbound_share_link_lem_example : is_link (outbound_share_link share tuic) ≡ (
    keeps_raw share tuic || (not (lacks_address share tuic) && one_of tuic.protocol link_protocols))
outbound_share_link_lem_example = outbound_share_link_lem share (λ d. refl) tuic

home-IsShareable : IsShareable "home" "example.org" 443 "/ws" "cdn"
home-IsShareable = record {
  has_address = refl;
  has_port = omega arith;
  small_port = omega arith;
  has_path = refl;
  has_host = refl;
}

abbrev home : String → OutboundConfig
home sni = trojan share "home" "example.org" "secret" sni "/ws" "cdn" 443

abbrev home_text : String → String
home_text sni = trojan_text share "home" "example.org" "secret" sni "/ws" "cdn" 443

abbrev home_url : String → Url
home_url sni =
    trojan_url (host_port share (home sni)) "example.org" 443 "secret" "home" "" "" ""
      (trojan_values share (home sni))

knows :
    (sni : String)
    → (packages (home_text sni) (home_url sni)).parse_url (home_text sni) ≡ some (home_url sni)
unfolding packages
knows sni = rw (eq_refl (home_text sni)) refl

trojan_gains_tls_example :
    (outbound_share_link share (home "") ≡ link (home_text ""))
    × (parse_outbound_link (packages (home_text "") (home_url "")) (home_text "")
        ≡ parsed (record (home "") { tls = true; server_name = "cdn"; raw = home_text "" }))
unfolding packages trim_space decode_base64_string
trojan_gains_tls_example =
    trojan_gains_tls (packages (home_text "") (home_url "")) share "home" "example.org" "secret"
      "/ws" "cdn" 443 "home" "" "" home-IsShareable (knows "") (refl, refl, refl)
