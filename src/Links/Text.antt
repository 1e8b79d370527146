-- ===== src/Links/Text.antt =====
-- core/link_parser.go: `ParseOutboundLinksDetailed`, which reads a text of links or a list of proxies.
pub mod Counted
pub mod Names
pub mod Usable
pub mod Ends
use oneagent.Prelude.{
  ℕ, zero, suc, ◌+◌, String, Bool, true, false, ◌||◌, List, [], ◌∷◌, Option, none, some, Dict,
  lookup, insert, ltb, eqb, ◌==◌, if◌then◌else◌, ◌+s◌, itoa, trim, trim_space, fields, contains,
  map,
}
use oneagent.Config.Types.{OutboundConfig}
use oneagent.Links.Texts.{redact_long_input, sanitize_node_name, size}
use oneagent.Links.Values.{Fields, at, as_list}
use oneagent.Links.Library.{Library, LinkError, LinkResult, failed, parsed}
use oneagent.Links.Proxies.{parse_yaml_proxy_list}
use oneagent.Links.SingBox.{parse_sing_box_outbound_list}
use oneagent.Links.Parse.{decode, parse_outbound_link}

pub data Problem : Type 0 where
  empty_input : Problem
  -- The number of the link, and its error
  bad_link : ℕ → LinkError → Problem

pub record ImportParseError : Type 0 where
  pub index : ℕ
  pub input : String
  pub error : Problem

-- The count that a map of counts holds for a name, 0 where it has none
abbrev pub count_of : String → Dict ℕ → ℕ
count_of name seen = elim (lookup name seen) [ none ↦ 0 | some n ↦ n ]

-- The name that an outbound gets in `uniqueOutbounds` before the names are counted.
unfoldable pub base_name : OutboundConfig → String
unfolding trim_space
base_name o = if trim_space o.name == "" then o.protocol +s "-" +s o.address else trim_space o.name

abbrev pub numbered : String → ℕ → String
numbered name count = if ltb 0 count then name +s "-" +s itoa (suc count) else name

abbrev pub counted : String → Dict ℕ → Dict ℕ
counted name seen =
    insert name (if ltb 0 (count_of name seen) then suc (count_of name seen) else 1) seen

-- The loop of `uniqueOutbounds`.
unfoldable pub unique_loop : Dict ℕ → List OutboundConfig → List OutboundConfig
unfolding base_name sanitize_node_name itoa
unique_loop seen [] = []
unique_loop seen (o ∷ items) =
    let rest = unique_loop (counted (base_name o) seen) items in
    record o { name = sanitize_node_name (numbered (base_name o) (count_of (base_name o) seen)) }
    ∷ rest

-- `uniqueOutbounds`
unfoldable pub unique_outbounds : List OutboundConfig → List OutboundConfig
unfolding unique_loop
unique_outbounds items = unique_loop [] items

is_quote : ℕ → Bool
is_quote c = eqb c b'"' || eqb c 39

-- The loop of `extractLinkCandidates`.
link_words : List String → List String
link_words [] = []
link_words (word ∷ words) =
    let rest = link_words words in
    let line = trim_space (trim is_quote word) in if contains line "://" then line ∷ rest else rest

abbrev add_result :
    ℕ
    → String
    → LinkResult
    → List OutboundConfig × List ImportParseError
    → List OutboundConfig × List ImportParseError
add_result index item (parsed o) (outbounds, errors) = (o ∷ outbounds, errors)
add_result index item (failed e) (outbounds, errors) = (
  outbounds,
  record { index = index; input = redact_long_input item; error = bad_link index e } ∷ errors,
)

-- Behind the loop: `none` stands for a text that holds no other one.
abbrev nothing_parsed : List OutboundConfig → Option String → Option String
nothing_parsed [] decoded = decoded
nothing_parsed (o ∷ outbounds) decoded = none

-- The end of a call, where no link was read from the text but another one is decoded from it
-- `next` reads that.
links_or :
    (String → List OutboundConfig × List ImportParseError)
    → List OutboundConfig × List ImportParseError
    → Option String
    → List OutboundConfig × List ImportParseError
links_or next (outbounds, errors) none = (unique_outbounds outbounds, errors)
links_or next result (some decoded) = next decoded

module _ (lib : Library) where
  -- `extractLinkCandidates`, with fuel for its calls of itself
  unfoldable pub extract_link_candidates : ℕ → String → List String
  unfolding link_words is_quote trim_space contains fields
  extract_link_candidates zero text = []
  extract_link_candidates (suc fuel) text = elim (link_words (fields text)) [
    | candidate ∷ candidates ↦ candidate ∷ candidates
    | [] ↦ elim (decode lib text) [
      | none ↦ []
      | some decoded ↦ extract_link_candidates fuel decoded
    ]
  ]

  yaml_root : Fields → List OutboundConfig
  yaml_root root = elim (as_list (at "proxies" root)) [
    | some proxies ↦ parse_yaml_proxy_list proxies
    | none ↦ elim (as_list (at "outbounds" root)) [
      | some outbounds ↦ parse_sing_box_outbound_list outbounds
      | none ↦ []
    ]
  ]

  -- `parseOutboundYAML`
  unfoldable pub parse_outbound_yaml : String → List OutboundConfig
  unfolding yaml_root at parse_yaml_proxy_list parse_sing_box_outbound_list
  parse_outbound_yaml text = elim (lib.yaml_object text) [
    | some root ↦ yaml_root root
    | none ↦ elim (lib.yaml_list text) [ none ↦ [] | some proxies ↦ parse_yaml_proxy_list proxies ]
  ]

  -- The loop over the candidates, the first of which has the number `index`.
  unfoldable pub parse_candidates : ℕ → List String → List OutboundConfig × List ImportParseError
  unfolding parse_outbound_link redact_long_input
  parse_candidates index [] = ([], [])
  parse_candidates index (item ∷ items) =
      add_result index item (parse_outbound_link lib item) (parse_candidates (suc index) items)

  -- One call, whose calls of itself are `next`.
  abbrev text_step :
      ℕ
      → (String → List OutboundConfig × List ImportParseError)
      → String
      → List OutboundConfig
      → List OutboundConfig × List ImportParseError
  text_step fuel next text (o ∷ outbounds) = (unique_outbounds (o ∷ outbounds), [])
  text_step fuel next text [] =
      let result = parse_candidates 1 (extract_link_candidates fuel text) in
      links_or next result (nothing_parsed result.0 (decode lib text))

  -- `ParseOutboundLinksDetailed`, with fuel for its calls of itself
  unfoldable pub detailed_fueled : ℕ → String → List OutboundConfig × List ImportParseError
  unfolding unique_outbounds parse_candidates links_or extract_link_candidates parse_outbound_yaml
      trim_space size
  detailed_fueled zero text = ([], [])
  detailed_fueled (suc fuel) given =
      let text = trim_space given in
      if text == ""
      then ([], record { index = 0; input = ""; error = empty_input } ∷ [])
      else text_step (suc (size text)) (detailed_fueled fuel) text (parse_outbound_yaml text)

  -- `ParseOutboundLinksDetailed`
  unfoldable pub parse_outbound_links_detailed :
      String → List OutboundConfig × List ImportParseError
  unfolding detailed_fueled size
  parse_outbound_links_detailed text = detailed_fueled (suc (size text)) text

  -- `ParseOutboundLinks`
  unfoldable pub parse_outbound_links : String → List OutboundConfig × List Problem
  unfolding parse_outbound_links_detailed
  parse_outbound_links text =
      let (outbounds, details) = parse_outbound_links_detailed text in
      (outbounds, map (λ (detail : ImportParseError). detail.error) details)
