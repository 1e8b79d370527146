-- ===== src/Links/Text/Ends.antt =====
-- The fuel that `ParseOutboundLinksDetailed` and `extractLinkCandidates` get in the model is enough.
use oneagent.Prelude.{
  ℕ, zero, suc, ◌≤◌, ◌<◌, String, ◌≡◌, refl, ap, List, [], ◌∷◌, Option, none, some, All, arith,
  trim_space, fields, if◌then◌else◌, ◌==◌,
}
use oneagent.Config.Types.{OutboundConfig}
use oneagent.Links.Texts.{size}
use oneagent.Links.Texts.Sizes.{IsShrinking, decode_base64_string-size, trim_space-size}
use oneagent.Links.Library.{Library}
use oneagent.Links.Parse.{decode}
use oneagent.Links.Text.{
  ImportParseError, empty_input, link_words, extract_link_candidates, nothing_parsed, links_or,
  text_step, parse_outbound_yaml, detailed_fueled, parse_outbound_links_detailed,
}

module _ (lib : Library) (shrinking : All IsShrinking lib.decodings) where
  decoded_size :
      (text decoded : String) (n : ℕ)
      → decode lib text ≡ some decoded
      → size text ≤ n
      → size decoded < n
  decoded_size text decoded n e h =
      omega (arith, h, decode_base64_string-size lib.decodings shrinking text decoded e)

  -- With more fuel than the text has characters, the candidates do not depend on the fuel.
  pub extract_link_candidates-fuel :
      (m n : ℕ) (text : String)
      → size text < m
      → size text < n
      → extract_link_candidates lib m text ≡ extract_link_candidates lib n text
  unfolding extract_link_candidates
  extract_link_candidates-fuel zero n text h k = absurd (omega (arith, h))
  extract_link_candidates-fuel (suc m) zero text h k = absurd (omega (arith, k))
  extract_link_candidates-fuel (suc m) (suc n) text h k =
      go (link_words (fields text)) (decode lib text) refl (λ decoded e.
        extract_link_candidates-fuel m n decoded (decoded_size text decoded m e (omega (arith, h)))
          (decoded_size text decoded n e (omega (arith, k))))
    where
      go :
          (items : List String) (o : Option String)
          → decode lib text ≡ o
          → ((decoded : String)
              → decode lib text ≡ some decoded
              → extract_link_candidates lib m decoded ≡ extract_link_candidates lib n decoded)
          → ◌≡◌ {A = List String}
              (elim items [
                | candidate ∷ candidates ↦ candidate ∷ candidates
                | [] ↦ elim o [ none ↦ [] | some decoded ↦ extract_link_candidates lib m decoded ]
              ])
              (elim items [
                | candidate ∷ candidates ↦ candidate ∷ candidates
                | [] ↦ elim o [ none ↦ [] | some decoded ↦ extract_link_candidates lib n decoded ]
              ])
      go (candidate ∷ candidates) o e f = refl
      go [] none e f = refl
      go [] (some decoded) e f = f decoded e

  links_or-same :
      (f g : String → List OutboundConfig × List ImportParseError)
      (r : List OutboundConfig × List ImportParseError) (o : Option String)
      → ((decoded : String) → o ≡ some decoded → f decoded ≡ g decoded)
      → links_or f r o ≡ links_or g r o
  unfolding links_or
  links_or-same f g r none h = refl
  links_or-same f g r (some decoded) h = h decoded refl

  nothing_parsed-some :
      (outbounds : List OutboundConfig) (o : Option String) (decoded : String)
      → nothing_parsed outbounds o ≡ some decoded
      → o ≡ some decoded
  nothing_parsed-some [] o decoded e = e
  nothing_parsed-some (x ∷ outbounds) o decoded e = ground (arith, e)

  text_step-same :
      (fuel : ℕ) (f g : String → List OutboundConfig × List ImportParseError) (text : String)
      (yaml : List OutboundConfig)
      → ((decoded : String) → decode lib text ≡ some decoded → f decoded ≡ g decoded)
      → text_step lib fuel f text yaml ≡ text_step lib fuel g text yaml
  text_step-same fuel f g text (o ∷ yaml) h = refl
  text_step-same fuel f g text [] h =
      links_or-same f g _ _
        (λ decoded e. h decoded (nothing_parsed-some _ (decode lib text) decoded e))

  -- With more fuel than the text has characters, the result does not depend on the fuel.
  detailed_fueled-same :
      (m n : ℕ) (text : String)
      → size text < m
      → size text < n
      → detailed_fueled lib m text ≡ detailed_fueled lib n text
  unfolding detailed_fueled
  detailed_fueled-same zero n text h k = absurd (omega (arith, h))
  detailed_fueled-same (suc m) zero text h k = absurd (omega (arith, k))
  detailed_fueled-same (suc m) (suc n) text h k =
      ap
        (λ later.
          if trim_space text == ""
          then ([], record { index = 0; input = ""; error = empty_input } ∷ [])
          else later)
        (text_step-same (suc (size (trim_space text))) (detailed_fueled lib m)
          (detailed_fueled lib n) (trim_space text) (parse_outbound_yaml lib (trim_space text))
          (λ decoded e.
            detailed_fueled-same m n decoded
              (decoded_size (trim_space text) decoded m e (omega (arith, h, trim_space-size text)))
              (decoded_size (trim_space text) decoded n e
                (omega (arith, k, trim_space-size text)))))

  -- Where base64 makes a text shorter, `ParseOutboundLinksDetailed` comes to an end: as many nested
  -- calls as the text has characters are enough, and more would change nothing.
  pub parse_outbound_links_detailed-fuel :
      (fuel : ℕ) (text : String)
      → size text < fuel
      → detailed_fueled lib fuel text ≡ parse_outbound_links_detailed lib text
  unfolding parse_outbound_links_detailed
  parse_outbound_links_detailed-fuel fuel text h =
      detailed_fueled-same fuel (suc (size text)) text h (omega arith)
