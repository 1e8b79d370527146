-- ===== src/Links/Parse/Ends.antt =====
-- `parseOutboundLink` comes to an end.
use mathlib.Core.Path.{subst}
use oneagent.Prelude.{
  ℕ, zero, suc, ◌≤◌, String, ◌≡◌, ◌≢◌, inl, inr, some, ◌+s◌, to_lower, arith, All,
}
use oneagent.Links.Texts.{size}
use oneagent.Links.Texts.Sizes.{IsShrinking, decode_base64_string-size}
use oneagent.Links.Library.{Library, Url, failed, unfinished}
use oneagent.Links.Parse.{link_fueled, parse_outbound_link, unwrapped}
use oneagent.Links.Parse.Sound.{Settled, Wraps, link_step-Steps}

-- What the end of the recursion rests on: each encoding makes a text shorter; the host and the
-- opaque part of a URL are parts of it; and a text with `://` behind its scheme has no opaque part,
-- and a host that is part of what stands there before the query.
pub record IsBounded (lib : Library) : Type 0 where
  pub shrinking : All IsShrinking lib.decodings
  pub parts :
      (raw : String) (u : Url)
      → lib.parse_url raw ≡ some u
      → (size u.host ≤ size raw) × (size u.opaque ≤ size raw)
  pub behind_scheme :
      (raw decoded query fragment : String) (u v : Url)
      → lib.parse_url raw ≡ some u
      → lib.parse_url (to_lower u.scheme +s "://" +s decoded +s "?" +s query +s "#" +s fragment)
        ≡ some v
      → (v.opaque ≡ "") × (size v.host ≤ size decoded)

module _ (lib : Library) (law : IsBounded lib) where
  -- The host of the link is no longer than the fuel.
  IsSmall : ℕ → String → Type 0
  IsSmall fuel raw = (u : Url) → lib.parse_url raw ≡ some u → (u.opaque ≡ "") × (size u.host ≤ fuel)

  IsSmall-unwrapped :
      (raw decoded : String) (u : Url) (fuel : ℕ)
      → lib.parse_url raw ≡ some u
      → size decoded ≤ fuel
      → IsSmall fuel (unwrapped lib u (to_lower u.scheme) decoded)
  unfolding IsSmall
  IsSmall-unwrapped raw decoded u fuel e h v f =
      let part = law.behind_scheme raw decoded u.raw_query u.raw_fragment u v e f in
      (part.0, omega (arith, part.1, h))

  decoded_size :
      (raw : String) (u : Url)
      → lib.parse_url raw ≡ some u
      → (decoded : String) → Wraps lib u decoded
      → size decoded ≤ size raw
  decoded_size raw u e decoded (inl d) = omega (
    arith,
    decode_base64_string-size lib.decodings law.shrinking u.host decoded d,
    (law.parts raw u e).0,
  )
  decoded_size raw u e decoded (inr (n, d)) = omega (
    arith,
    decode_base64_string-size lib.decodings law.shrinking u.opaque decoded d,
    (law.parts raw u e).1,
  )

  link_fueled-Settled :
      (fuel : ℕ) (raw : String) → IsSmall fuel raw → Settled (link_fueled lib (suc fuel) raw)
  unfolding link_fueled IsSmall
  link_fueled-Settled zero raw small = elim (link_step-Steps lib (link_fueled lib zero) raw) [
    | inl settled ↦ settled
    | inr (u, e, inl settled) ↦ settled
    | inr (u, e, inr (decoded, inr (n, _), same)) ↦ absurd (n (small u e).0)
    | inr (u, e, inr (decoded, inl d, same)) ↦ absurd (
        omega (
          arith,
          decode_base64_string-size lib.decodings law.shrinking u.host decoded d,
          (small u e).1,
        ))
  ]
  link_fueled-Settled (suc fuel) raw small =
      elim (link_step-Steps lib (link_fueled lib (suc fuel)) raw) [
        | inl settled ↦ settled
        | inr (u, e, inl settled) ↦ settled
        | inr (u, e, inr (decoded, inr (n, _), same)) ↦ absurd (n (small u e).0)
        | inr (u, e, inr (decoded, inl d, same)) ↦ rw same (
            link_fueled-Settled fuel _ (
              IsSmall-unwrapped raw decoded u fuel e (
                omega (
                  arith,
                  decode_base64_string-size lib.decodings law.shrinking u.host decoded d,
                  (small u e).1,
                ))))
      ]

  parse_outbound_link-Settled : (raw : String) → Settled (parse_outbound_link lib raw)
  unfolding parse_outbound_link link_fueled
  parse_outbound_link-Settled raw =
      elim (link_step-Steps lib (link_fueled lib (suc (size raw))) raw) [
        | inl settled ↦ settled
        | inr (u, e, inl settled) ↦ settled
        | inr (u, e, inr (decoded, wraps, same)) ↦ rw same (
            link_fueled-Settled (size raw) _
              (IsSmall-unwrapped raw decoded u (size raw) e (decoded_size raw u e decoded wraps)))
      ]

  -- Where base64 and the parser of URLs shorten texts as IsBounded says, the calls of
  -- `parseOutboundLink` to itself come to an end: it gives an outbound or one of its errors.
  pub parse_outbound_link-ends : (raw : String) → parse_outbound_link lib raw ≢ failed unfinished
  parse_outbound_link-ends raw e = subst Settled e (parse_outbound_link-Settled raw)
