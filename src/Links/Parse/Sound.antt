-- ===== src/Links/Parse/Sound.antt =====
-- What `parseOutboundLink` accepts, and when it calls itself.
use mathlib.Core.Path.{subst}
use oneagent.Prelude.{
  ℕ, zero, suc, String, Bool, true, false, ◌≡◌, ◌≢◌, refl, ap, ◌⊎◌, ◌↔◌, inl, inr, Option, none,
  some, ℤ, pos, eqℤ, ◌==◌, ◌&&◌, not, to_lower, contains, trim_first, arith, eq_iff, if◌then◌else◌,
}
use oneagent.Config.Types.{OutboundConfig}
use oneagent.Links.Library.{Library, Url, LinkResult, failed, parsed, unfinished, missing_scheme}
use oneagent.Links.Share.{parse_json_share, decoded_share, complete, read_share}
use oneagent.Links.Parse.{
  link_step, link_fueled, parse_outbound_link, checked, plain_link, host_link, opaque_link,
  v2rayn_link, scheme_link, url_link, decode, read_link, is_object, unwrapped,
}
use oneagent.Links.Texts.{size}
use oneagent.Links.Values.{Fields, normalize_link_protocol}

-- The result is an outbound with a server and a port, or an error of the source.
abbrev pub Settled : LinkResult → Type 0
Settled (failed unfinished) = ⊥
Settled (failed _) = Unit
Settled (parsed o) = (o.address ≢ "") × (o.port ≢ pos 0)

not_zero : (n : ℤ) → eqℤ n (pos 0) ≡ false → n ≢ pos 0
not_zero n h e = ground (arith, h, ap (λ x. eqℤ x (pos 0)) e)

complete-Settled : (raw : String) (o : OutboundConfig) → Settled (complete raw o)
complete-Settled raw o = ground (arith, eq_iff o.address "", not_zero o.port)

checked-Settled : (lib : Library) (raw : String) (o : OutboundConfig) → Settled (checked lib raw o)
checked-Settled lib raw o = ground (arith, eq_iff o.address "", not_zero o.port)

module _ (lib : Library) where
  decoded_share-Settled :
      (protocol raw : String) (info : Option Fields) → Settled (decoded_share protocol raw info)
  decoded_share-Settled protocol raw none = tt
  decoded_share-Settled protocol raw (some info) =
      complete-Settled raw (read_share info (normalize_link_protocol protocol) raw)

  parse_json_share-Settled :
      (protocol payload raw : String) → Settled (parse_json_share lib protocol payload raw)
  unfolding parse_json_share
  parse_json_share-Settled protocol payload raw =
      decoded_share-Settled protocol raw (lib.json_object payload)

  v2rayn_link-Settled :
      (u : Url) (raw : String) (o : Option String) → Settled (v2rayn_link lib u raw o)
  unfolding v2rayn_link
  v2rayn_link-Settled u raw none = tt
  v2rayn_link-Settled u raw (some decoded) = parse_json_share-Settled u.host decoded raw

  -- The text is what the host or the opaque part of the URL decodes to.
  abbrev pub Wraps : Url → String → Type 0
  Wraps u decoded =
      (decode lib u.host ≡ some decoded) ⊎ ((u.opaque ≢ "") × (decode lib u.opaque ≡ some decoded))

  module _ (next : String → LinkResult) where
    -- A call settles the link, or goes on with the text that it carries.
    abbrev pub Steps : Url → LinkResult → Type 0
    Steps u r =
        Settled r
        ⊎ ((decoded : String) × Wraps u decoded
            × (r ≡ next (unwrapped lib u (to_lower u.scheme) decoded)))

    host_link-Steps :
        (u : Url) (raw : String) (o : Option String)
        → decode lib u.host ≡ o
        → Steps u (host_link lib next u (to_lower u.scheme) raw o)
    unfolding host_link
    host_link-Steps u raw none e =
        inl (checked-Settled lib raw (read_link lib u (to_lower u.scheme) raw))
    host_link-Steps u raw (some decoded) e = go (contains decoded "@") (is_object lib decoded)
      where
        go :
            (b c : Bool)
            → Steps u (
                if b
                then next (unwrapped lib u (to_lower u.scheme) decoded)
                else if c
                then parse_json_share lib (to_lower u.scheme) decoded raw
                else checked lib raw (read_link lib u (to_lower u.scheme) raw))
        go true c = inr (decoded, inl e, refl)
        go false true = inl (parse_json_share-Settled (to_lower u.scheme) decoded raw)
        go false false = inl (checked-Settled lib raw (read_link lib u (to_lower u.scheme) raw))

    plain_link-Steps :
        (u : Url) (raw : String) → Steps u (plain_link lib next u (to_lower u.scheme) raw)
    unfolding plain_link
    plain_link-Steps u raw = go (to_lower u.scheme == "v2rayn")
      where
        go :
            (b : Bool)
            → Steps u (
                if b
                then v2rayn_link lib u raw (decode lib (trim_first b'/' u.path))
                else host_link lib next u (to_lower u.scheme) raw (decode lib u.host))
        go true = inl (v2rayn_link-Settled u raw (decode lib (trim_first b'/' u.path)))
        go false = host_link-Steps u raw (decode lib u.host) refl

    opaque_link-Steps :
        (u : Url) (raw : String) (o : Option String)
        → u.opaque ≢ ""
        → decode lib u.opaque ≡ o
        → Steps u (opaque_link lib next u (to_lower u.scheme) raw o)
    unfolding opaque_link
    opaque_link-Steps u raw none n e = plain_link-Steps u raw
    opaque_link-Steps u raw (some decoded) n e = go (is_object lib decoded)
      where
        go :
            (b : Bool)
            → Steps u (
                if b
                then parse_json_share lib (to_lower u.scheme) decoded raw
                else next (unwrapped lib u (to_lower u.scheme) decoded))
        go true = inl (parse_json_share-Settled (to_lower u.scheme) decoded raw)
        go false = inr (decoded, inr (n, e), refl)

    scheme_link-Steps :
        (u : Url) (raw : String) → Steps u (scheme_link lib next u (to_lower u.scheme) raw)
    unfolding scheme_link
    scheme_link-Steps u raw =
        go (to_lower u.scheme == "") (u.host == "") (u.opaque == "") (eq_iff u.opaque "")
      where
        go :
            (b c d : Bool)
            → (d ≡ true) ↔ (u.opaque ≡ "")
            → Steps u (
                if b
                then failed (missing_scheme raw)
                else if c && not d
                then opaque_link lib next u (to_lower u.scheme) raw (decode lib u.opaque)
                else plain_link lib next u (to_lower u.scheme) raw)
        go true c d i = inl tt
        go false true false i =
            opaque_link-Steps u raw (decode lib u.opaque) (ground (arith, i)) refl
        go false true true i = plain_link-Steps u raw
        go false false d i = plain_link-Steps u raw

    -- A call of `parseOutboundLink` settles the link, or reads another in place of it.
    pub link_step-Steps :
        (raw : String)
        → Settled (link_step lib next raw)
          ⊎ ((u : Url) × (lib.parse_url raw ≡ some u) × Steps u (link_step lib next raw))
    unfolding link_step
    link_step-Steps raw = go (lib.parse_url raw) refl
      where
        go :
            (o : Option Url)
            → lib.parse_url raw ≡ o
            → Settled (url_link lib next raw o)
              ⊎ ((u : Url) × (lib.parse_url raw ≡ some u) × Steps u (url_link lib next raw o))
        go none e = inl tt
        go (some u) e = inr (u, e, scheme_link-Steps u raw)

  abbrev IsServed : LinkResult → Type 0
  IsServed (failed e) = Unit
  IsServed (parsed o) = (o.address ≢ "") × (o.port ≢ pos 0)

  Settled-IsServed : (r : LinkResult) → Settled r → IsServed r
  Settled-IsServed (failed e) h = tt
  Settled-IsServed (parsed o) h = h

  link_fueled-IsServed : (fuel : ℕ) (raw : String) → IsServed (link_fueled lib fuel raw)
  unfolding link_fueled
  link_fueled-IsServed zero raw = tt
  link_fueled-IsServed (suc fuel) raw = elim (link_step-Steps (link_fueled lib fuel) raw) [
    | inl settled ↦ Settled-IsServed _ settled
    | inr (u, e, inl settled) ↦ Settled-IsServed _ settled
    | inr (u, e, inr (decoded, wraps, same)) ↦ rw same (link_fueled-IsServed fuel _)
  ]

  -- An outbound that a link was read to has a server and a port.
  pub parse_outbound_link_lem :
      (raw : String) (o : OutboundConfig)
      → parse_outbound_link lib raw ≡ parsed o
      → (o.address ≢ "") × (o.port ≢ pos 0)
  unfolding parse_outbound_link
  parse_outbound_link_lem raw o h =
      subst IsServed h (link_fueled-IsServed (suc (suc (size raw))) raw)
