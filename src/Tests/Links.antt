-- ===== src/Tests/Links.antt =====
-- Runs of the parser of links, and of its lemmas, at concrete inputs.
use Prim.Native.String.{[], ◌∷◌}
use Prim.Native.String.append
use oneagent.Prelude.{
  ◌≤◌, String, Bool, true, false, ◌≡◌, ◌≢◌, refl, sym, ap, ◌∙◌, All, List, Option, none, some, ◌+s◌,
  contains, arith, if◌then◌else◌, pos, to_lower, map, lookup, insert, replace_newlines,
}
use oneagent.Config.Types.{OutboundConfig, zero_outbound}
use oneagent.Config.Names.{outbound_names}
use oneagent.Links.Texts.{size, sanitize_node_name}
use oneagent.Links.Texts.Sizes.{IsShrinking}
use oneagent.Links.Library.{Library, Url, LinkResult, parsed, failed, unfinished}
use oneagent.Links.Values.{Fields, end, field, text, null, object, nil, cons}
use oneagent.Links.Proxies.{parse_yaml_proxy_list}
use oneagent.Links.Parse.{parse_outbound_link}
use oneagent.Links.Parse.Sound.{parse_outbound_link_lem}
use oneagent.Links.Parse.Ends.{IsBounded, parse_outbound_link-ends}
use oneagent.Links.Text.{
  base_name, unique_outbounds, parse_candidates, detailed_fueled, parse_outbound_links_detailed,
}
use oneagent.Links.Text.Counted.{Accounts, parse_candidates_lem}
use oneagent.Links.Text.Names.{
  unnamed, HasShortName, unique_outbounds_lem, unique_outbounds-collision,
}
use oneagent.Links.Text.Usable.{
  IsListed, IsImportable, parse_yaml_proxy_list_lem, parse_outbound_links_detailed_lem,
}
use oneagent.Links.Text.Ends.{parse_outbound_links_detailed-fuel}

-- A decoder that takes the first character away.
abbrev tail : String → Option String
tail [] = none
tail (c ∷ s) = some s

plain_url : String → Url
plain_url host = record {
  scheme = "trojan";
  opaque = "";
  user = some ("secret", none);
  host = host;
  hostname = "example.org";
  port = "443";
  path = "";
  raw_query = "sni=example.com";
  query = List.◌∷◌ ("sni", "example.com") List.[];
  fragment = "home";
  raw_fragment = "home";
}

-- A text with a query has no host here, any other is its own host.
sample_url : String → Option Url
unfolding plain_url contains
sample_url raw = some (plain_url (if contains raw "?" then "" else raw))

unfoldable pub sample : Library
unfolding sample_url
sample = record {
  parse_url = sample_url;
  query_unescape = λ s. some s;
  decodings = List.◌∷◌ tail List.[];
  json_object = λ s. none;
  yaml_object = λ s. none;
  yaml_list = λ s. none;
}

tail-IsShrinking : IsShrinking tail
unfolding size
tail-IsShrinking [] t e n = ground (arith, e)
tail-IsShrinking (c ∷ s) t e n =
    let same : s ≡ t = ap (λ o. elim o [ none ↦ "" | some rest ↦ rest ]) e in
    omega (arith, ap size same)

starts_with_question : (s : String) → contains ("?" +s s) "?" ≡ true
unfolding contains
starts_with_question s = rw (append.cons "?" "" s) refl

contains-behind : (s t : String) → contains t "?" ≡ true → contains (s +s t) "?" ≡ true
unfolding contains
contains-behind [] t h = rw (append.nil t) h
contains-behind (c ∷ s) t h = rw (append.cons c s t) (ground (arith, contains-behind s t h))

host_of : Option Url → String
host_of none = ""
host_of (some u) = u.host

opaque_of : Option Url → String
opaque_of none = ""
opaque_of (some u) = u.opaque

smaller : (b : Bool) (s : String) → size (if b then "" else s) ≤ size s
unfolding size
smaller true s = omega arith
smaller false s = omega arith

sample-IsShrinking : All IsShrinking sample.decodings
unfolding sample
sample-IsShrinking = (tail-IsShrinking, tt)

empty_smallest : (s : String) → size "" ≤ size s
unfolding size
empty_smallest s = omega arith

sample-parts :
    (raw : String) (u : Url)
    → sample.parse_url raw ≡ some u
    → (size u.host ≤ size raw) × (size u.opaque ≤ size raw)
unfolding sample sample_url plain_url host_of opaque_of size
sample-parts raw u e = (
  omega (arith, ap size (ap host_of e), smaller (contains raw "?") raw),
  omega (arith, ap size (ap opaque_of e)),
)

sample-behind :
    (raw : String) (v : Url)
    → contains raw "?" ≡ true
    → sample.parse_url raw ≡ some v
    → (v.opaque ≡ "") × (v.host ≡ "")
unfolding sample sample_url plain_url host_of opaque_of
sample-behind raw v h e =
    (sym (ap opaque_of e), sym (ap host_of e) ∙ ap (λ b. if b then "" else raw) h)

sample-IsBounded : IsBounded sample
sample-IsBounded = record {
  shrinking = sample-IsShrinking;
  parts = sample-parts;
  behind_scheme = λ raw decoded query fragment u v e f.
      let found = contains-behind (to_lower u.scheme) _ (
        contains-behind "://" _
          (contains-behind decoded _ (starts_with_question (query +s "#" +s fragment)))) in
      let (opaque, host) = sample-behind _ v found f in (opaque, rw host (empty_smallest decoded));
}

-- A link whose host is decoded once.
abbrev link : String
link = "xa@example.org"

accepted : LinkResult → OutboundConfig
accepted (parsed o) = o
accepted (failed e) = zero_outbound

link_read : parse_outbound_link sample link ≡ parsed (accepted (parse_outbound_link sample link))
unfolding parse_outbound_link sample sample_url plain_url accepted lookup
link_read = refl

parse_outbound_link_lem_example :
    ((accepted (parse_outbound_link sample link)).address ≢ "")
    × ((accepted (parse_outbound_link sample link)).port ≢ pos 0)
parse_outbound_link_lem_example =
    parse_outbound_link_lem sample link (accepted (parse_outbound_link sample link)) link_read

parse_outbound_link-ends_example : parse_outbound_link sample link ≢ failed unfinished
parse_outbound_link-ends_example = parse_outbound_link-ends sample sample-IsBounded link

parse_candidates_lem_example :
    Accounts sample 1
      (List.◌∷◌ link (List.◌∷◌ "vless://b" List.[]))
      (parse_candidates sample 1 (List.◌∷◌ link (List.◌∷◌ "vless://b" List.[])))
parse_candidates_lem_example =
    parse_candidates_lem sample 1 (List.◌∷◌ link (List.◌∷◌ "vless://b" List.[]))

proxy : Fields
proxy =
    field "name" (text "home")
      (field "server" (text "example.org") (field "port" (text "443 ") end))

parse_yaml_proxy_list_lem_example :
    All IsListed (parse_yaml_proxy_list (cons (object proxy) (cons null nil)))
parse_yaml_proxy_list_lem_example = parse_yaml_proxy_list_lem (cons (object proxy) (cons null nil))

parse_outbound_links_detailed_lem_example :
    All IsImportable (parse_outbound_links_detailed sample "trojan://a  vless://b").0
parse_outbound_links_detailed_lem_example =
    parse_outbound_links_detailed_lem sample "trojan://a  vless://b"

parse_outbound_links_detailed-fuel_example :
    detailed_fueled sample 90 "trojan://a" ≡ parse_outbound_links_detailed sample "trojan://a"
unfolding size
parse_outbound_links_detailed-fuel_example =
    parse_outbound_links_detailed-fuel sample sample-IsShrinking 90 "trojan://a" (omega arith)

-- Three outbounds at one server
abbrev called : String → OutboundConfig
called name = record zero_outbound { name = name; address = "example.org"; port = pos 443 }

abbrev three : List OutboundConfig
three = List.◌∷◌ (called "a") (List.◌∷◌ (called " b") (List.◌∷◌ (called "c") List.[]))

unique_outbounds_lem_example :
    (map unnamed (unique_outbounds three) ≡ map unnamed three)
    × All HasShortName (unique_outbounds three)
unique_outbounds_lem_example = unique_outbounds_lem three

base_a : base_name (called "a ") ≡ base_name (called "a")
unfolding base_name
base_a = refl

base_a2 : base_name (called "a-2") ≡ base_name (called "a") +s "-2"
unfolding base_name
base_a2 = refl

unique_outbounds-collision_example :
    outbound_names (
      unique_outbounds
        (List.◌∷◌ (called "a") (List.◌∷◌ (called "a ") (List.◌∷◌ (called "a-2") List.[]))))
    ≡ List.◌∷◌ (sanitize_node_name (base_name (called "a"))) (
        List.◌∷◌
          (sanitize_node_name (base_name (called "a") +s "-2"))
          (List.◌∷◌ (sanitize_node_name (base_name (called "a") +s "-2")) List.[]))
unique_outbounds-collision_example =
    unique_outbounds-collision (called "a") (called "a ") (called "a-2") base_a base_a2

collision :
    outbound_names (
      unique_outbounds
        (List.◌∷◌ (called "a") (List.◌∷◌ (called "a ") (List.◌∷◌ (called "a-2") List.[]))))
    ≡ List.◌∷◌ "a" (List.◌∷◌ "a-2" (List.◌∷◌ "a-2" List.[]))
unfolding unique_outbounds replace_newlines lookup insert
collision = refl
