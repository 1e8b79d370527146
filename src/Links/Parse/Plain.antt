-- ===== src/Links/Parse/Plain.antt =====
-- A link that carries no other one: `parseOutboundLink` reads its parts.
use oneagent.Prelude.{
  String, Bool, true, false, not, ◌&&◌, ◌≡◌, ap, ◌∙◌, none, some, to_lower, if◌then◌else◌, ◌==◌,
  trim_first, arith, suc,
}
use oneagent.Links.Texts.{size}
use oneagent.Links.Library.{Library, Url, LinkResult, failed, missing_scheme}
use oneagent.Links.Parse.{
  decode, link_step, link_fueled, parse_outbound_link, checked, read_link, url_link, scheme_link,
  plain_link, host_link, opaque_link, v2rayn_link,
}

-- The parts of a link that decide how it is read
pub record IsPlain (lib : Library) (u : Url) : Type 0 where
  pub has_scheme : (to_lower u.scheme == "") ≡ false
  pub not_v2rayn : (to_lower u.scheme == "v2rayn") ≡ false
  pub not_opaque : (u.opaque == "") ≡ true
  pub not_encoded : decode lib u.host ≡ none

module _ (lib : Library) (next : String → LinkResult) (u : Url) (text : String)
    (p : IsPlain lib u) where
  abbrev scheme : String
  scheme = to_lower u.scheme

  host_link-checked :
      host_link lib next u scheme text (decode lib u.host)
      ≡ checked lib text (read_link lib u scheme text)
  unfolding host_link
  host_link-checked = ap (host_link lib next u scheme text) p.not_encoded

  no_opaque : (a b : Bool) → b ≡ true → (a && not b) ≡ false
  no_opaque a b e = ground (arith, e)

  plain_link-checked :
      plain_link lib next u scheme text ≡ checked lib text (read_link lib u scheme text)
  unfolding plain_link
  plain_link-checked =
      ap
        (λ b.
          if b
          then v2rayn_link lib u text (decode lib (trim_first b'/' u.path))
          else host_link lib next u scheme text (decode lib u.host))
        p.not_v2rayn
      ∙ host_link-checked

  scheme_link-checked :
      scheme_link lib next u scheme text ≡ checked lib text (read_link lib u scheme text)
  unfolding scheme_link
  scheme_link-checked =
      ap
        (λ b.
          if b
          then failed (missing_scheme text)
          else if u.host == "" && not (u.opaque == "")
          then opaque_link lib next u scheme text (decode lib u.opaque)
          else plain_link lib next u scheme text)
        p.has_scheme
      ∙ ap
          (λ b.
            if b
            then opaque_link lib next u scheme text (decode lib u.opaque)
            else plain_link lib next u scheme text)
          (no_opaque (u.host == "") (u.opaque == "") p.not_opaque)
      ∙ plain_link-checked

-- A link of which no other one is decoded is read from its parts, and refused only for a missing port
-- or server.
pub parse_outbound_link-checked :
    (lib : Library) (text : String) (u : Url)
    → lib.parse_url text ≡ some u
    → IsPlain lib u
    → parse_outbound_link lib text ≡ checked lib text (read_link lib u (to_lower u.scheme) text)
unfolding parse_outbound_link link_fueled link_step url_link
parse_outbound_link-checked lib text u e p =
    ap (url_link lib (link_fueled lib (suc (size text))) text) e
    ∙ scheme_link-checked lib (link_fueled lib (suc (size text))) u text p
