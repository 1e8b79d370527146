-- ===== src/Manager/Merge.antt =====
-- core/manager.go: when an imported outbound is one that the manager has, and what it keeps.
use oneagent.Prelude.{
  ℕ, zero, suc, String, Bool, true, false, not, List, [], ◌∷◌, ◌==◌, if◌then◌else◌, Dict, has,
  to_lower, trim_space, ◌&&◌, ◌||◌, ◌+s◌, print_int, itoa, length, one_of,
}
use oneagent.Config.Types.{OutboundConfig, ProxyProviderConfig}
use oneagent.Links.Texts.{sanitize_node_name}
use oneagent.Manager.Apply.{first_non_empty}

-- `outboundSignature`
unfoldable pub outbound_signature : OutboundConfig → String
unfolding print_int
outbound_signature o =
    o.protocol
    +s "|"
    +s o.address
    +s "|"
    +s print_int o.port
    +s "|"
    +s o.username
    +s "|"
    +s o.uuid
    +s "|"
    +s o.password
    +s "|"
    +s o.method
    +s "|"
    +s o.public_key
    +s "|"
    +s o.short_id
    +s "|"
    +s o.transport

abbrev same_flag : Bool → Bool → Bool
same_flag true b = b
same_flag false b = not b

-- `outboundConfigEquivalent`
unfoldable pub outbound_config_equivalent : OutboundConfig → OutboundConfig → Bool
unfolding outbound_signature
outbound_config_equivalent a b =
    outbound_signature a == outbound_signature b
    && a.flow == b.flow
    && a.fingerprint == b.fingerprint
    && a.alpn == b.alpn
    && a.path == b.path
    && a.host == b.host
    && same_flag a.skip_cert_verify b.skip_cert_verify

-- `findEquivalentOutboundLocked`: the name of the first in the order of the map, or "".
unfoldable pub find_equivalent_outbound_locked : Dict OutboundConfig → OutboundConfig → String
unfolding outbound_signature
find_equivalent_outbound_locked [] o = ""
find_equivalent_outbound_locked ((_, existing) ∷ rest) o =
    if outbound_signature existing == outbound_signature o
    then existing.name
    else find_equivalent_outbound_locked rest o

-- `findMatchingOutboundLocked`
unfoldable pub find_matching_outbound_locked :
    Dict OutboundConfig → OutboundConfig → ProxyProviderConfig → String
unfolding find_equivalent_outbound_locked to_lower
find_matching_outbound_locked outbounds o provider =
    let strategy = to_lower (first_non_empty provider.dedup_strategy "equivalent") in
    if strategy == "none"
    then ""
    else if strategy == "name"
    then (if has o.name outbounds then o.name else "")
    else find_equivalent_outbound_locked outbounds o

-- `applyProviderImportOptions`
unfoldable pub apply_provider_import_options :
    OutboundConfig → ProxyProviderConfig → Bool → OutboundConfig
apply_provider_import_options o provider false = o
apply_provider_import_options o provider true = record o {
  subscription = provider.name;
  group = first_non_empty provider.group (first_non_empty o.group provider.name);
  name =
      if o.name == "" then o.name else provider.rename_prefix +s o.name +s provider.rename_suffix;
}

abbrev is_nil {ℓ} : {A : Type ℓ} → List A → Bool
is_nil [] = true
is_nil (x ∷ xs) = false

-- `shouldPreserveUserFields`
unfoldable pub should_preserve_user_fields : ProxyProviderConfig → Bool → Bool
should_preserve_user_fields provider from_subscription =
    from_subscription && (provider.preserve_user_fields || not (is_nil provider.preserve_fields))

-- One round of the loop of `mergePreservedOutboundFields`.
preserve_field : OutboundConfig → OutboundConfig → String → OutboundConfig
preserve_field existing o field =
    if field == "name"
    then record o { name = existing.name }
    else if one_of field ("disabled" ∷ "enabled" ∷ [])
    then record o { disabled = existing.disabled }
    else if one_of field ("server_name" ∷ "sni" ∷ [])
    then record o { server_name = existing.server_name }
    else if one_of field ("skip_cert_verify" ∷ "insecure" ∷ [])
    then record o { skip_cert_verify = existing.skip_cert_verify }
    else if one_of field ("fingerprint" ∷ "fp" ∷ [])
    then record o { fingerprint = existing.fingerprint }
    else if field == "alpn"
    then record o { alpn = existing.alpn }
    else if field == "flow"
    then record o { flow = existing.flow }
    else if one_of field ("transport" ∷ "network" ∷ [])
    then record o { transport = existing.transport; network = existing.network }
    else if field == "path"
    then record o { path = existing.path }
    else if field == "host"
    then record o { host = existing.host }
    else if field == "group"
    then record o { group = existing.group }
    else o

preserve_fields : OutboundConfig → OutboundConfig → List String → OutboundConfig
preserve_fields existing o [] = o
preserve_fields existing o (field ∷ fields) =
    preserve_fields existing (preserve_field existing o (to_lower (trim_space field))) fields

abbrev preserved_by_default : List String → List String
preserved_by_default [] =
    "name" ∷ "disabled" ∷ "server_name" ∷ "skip_cert_verify" ∷ "fingerprint" ∷ "alpn" ∷ "group" ∷ []
preserved_by_default (f ∷ fs) = f ∷ fs

-- `mergePreservedOutboundFields`
unfoldable pub merge_preserved_outbound_fields :
    OutboundConfig → OutboundConfig → List String → OutboundConfig
unfolding one_of to_lower trim_space preserve_field preserve_fields
merge_preserved_outbound_fields existing incoming fields =
    preserve_fields existing incoming (preserved_by_default fields)

-- The loop of `uniqueOutboundNameLocked`; past its fuel it returns the candidate that is due.
unique_from : Dict OutboundConfig → String → ℕ → ℕ → String
unique_from outbounds name zero i = name +s "-" +s itoa i
unique_from outbounds name (suc fuel) i =
    let rest = unique_from outbounds name fuel (suc i) in
    if has (name +s "-" +s itoa i) outbounds then rest else name +s "-" +s itoa i

-- `uniqueOutboundNameLocked`, with a candidate for each entry of the map and one more.
unfoldable pub unique_outbound_name_locked : Dict OutboundConfig → String → String
unfolding sanitize_node_name unique_from itoa
unique_outbound_name_locked outbounds given =
    let name = sanitize_node_name given in
    if has name outbounds then unique_from outbounds name (length outbounds) 2 else name
