-- ===== src/Manager/Import.antt =====
-- core/manager.go: outbounds are imported, from links or from a subscription.
pub mod Counts
use oneagent.Prelude.{
  ℕ, suc, String, Bool, true, false, not, List, [], ◌∷◌, ◌++◌, Option, none, some, ℤ, ◌==◌,
  if◌then◌else◌, lookup, contains, to_lower, ◌&&◌, ◌||◌, ◌+s◌, length, port_ok, one_of,
}
use oneagent.Config.Types.{OutboundConfig, ProxyProviderConfig}
use oneagent.Config.Errors.{Kind, Field, requires, nothing_to_import}
use oneagent.Config.Outbound.{validate_outbound}
use oneagent.Exec.{◌>>=◌, ◌>>◌, pure, lift, get, refuse_if}
use oneagent.Manager.State.{Manager, Method, snapshot_locked}
use oneagent.Manager.Commit.{update, commit_with_rollback_locked}
use oneagent.Manager.Nodes.{Node, node_locked}
use oneagent.Manager.Requests.{put_outbound}
use oneagent.Manager.Apply.{enrich_outbound_from_raw}
use oneagent.Manager.Merge.{
  outbound_config_equivalent, find_matching_outbound_locked, apply_provider_import_options,
  should_preserve_user_fields, merge_preserved_outbound_fields, unique_outbound_name_locked,
}

pub data Warning : Type 0 where
  no_public_key no_server_name no_fingerprint no_flow no_method no_tls_name : Warning

abbrev when : Bool → Warning → List Warning
when true w = w ∷ []
when false w = []

-- `outboundImportWarnings`
unfoldable pub outbound_import_warnings : OutboundConfig → List Warning
unfolding one_of contains to_lower
outbound_import_warnings o =
    if o.protocol == "vless"
    then (if o.security == "reality" || not (o.public_key == "")
        then when (o.public_key == "") no_public_key
          ++ when (o.server_name == "") no_server_name
          ++ when (o.fingerprint == "") no_fingerprint
          ++ when (contains (to_lower o.raw) "xtls" && o.flow == "") no_flow
        else [])
    else if one_of o.protocol ("shadowsocks" ∷ "ss" ∷ [])
    then when (o.method == "") no_method
    else if one_of o.protocol ("hysteria2" ∷ "tuic" ∷ "anytls" ∷ "trojan" ∷ [])
    then when (o.server_name == "" && o.tls) no_tls_name
    else []

-- The action of a detail: "added", "updated" or "unchanged".
pub data Action : Type 0 where
  added updated unchanged : Action

pub record ImportOutboundDetail : Type 0 where
  pub name : String
  pub original_name : String
  pub protocol : String
  pub address : String
  pub port : ℤ
  pub action : Action
  pub preserved_name : Bool
  pub warnings : List Warning

pub record ImportOutboundsReport : Type 0 where
  pub imported : List Node
  pub parsed : ℕ
  pub added : ℕ
  pub updated : ℕ
  pub unchanged : ℕ
  pub details : List ImportOutboundDetail

pub record ImportOutboundsOptions : Type 0 where
  pub provider : ProxyProviderConfig
  pub from_subscription : Bool

-- What the loop decides of one outbound before its checks.
pub record Decision : Type 0 where
  pub outbound : OutboundConfig
  pub original_name : String
  pub action : Action
  pub preserved_name : Bool

named : OutboundConfig → OutboundConfig
named o = record o { name = if o.name == "" then o.protocol +s "-" +s o.address else o.name }

-- The outbound is one that the manager has: `existing` is its name, `have` what the map holds.
matched :
    ImportOutboundsOptions → String → String → OutboundConfig → Option OutboundConfig → Decision
matched options existing original_name o none = record {
  outbound = record o { name = existing };
  original_name = original_name;
  action = updated;
  preserved_name = not (existing == original_name);
}
matched options existing original_name o (some have) = record {
  outbound =
      record (if should_preserve_user_fields options.provider options.from_subscription
        then merge_preserved_outbound_fields have o options.provider.preserve_fields
        else o) { name = existing };
  original_name = original_name;
  action = if outbound_config_equivalent have o then unchanged else updated;
  preserved_name = not (existing == original_name);
}

count : Decision → Node → ImportOutboundsReport → ImportOutboundsReport
count d node report = record report {
  imported = report.imported ++ node ∷ [];
  added = elim d.action [ added ↦ suc report.added | _ ↦ report.added ];
  updated = elim d.action [ updated ↦ suc report.updated | _ ↦ report.updated ];
  unchanged = elim d.action [ unchanged ↦ suc report.unchanged | _ ↦ report.unchanged ];
  details =
      report.details
      ++ record {
        name = d.outbound.name;
        original_name = d.original_name;
        protocol = d.outbound.protocol;
        address = d.outbound.address;
        port = d.outbound.port;
        action = d.action;
        preserved_name = d.preserved_name;
        warnings = outbound_import_warnings d.outbound;
      }
        ∷ [];
}

empty_report : ℕ → ImportOutboundsReport
empty_report parsed = record {
  imported = [];
  parsed = parsed;
  added = 0;
  updated = 0;
  unchanged = 0;
  details = [];
}

module _ (parse_link : String → Option OutboundConfig) (options : ImportOutboundsOptions) where
  unfoldable pub decide : Manager → OutboundConfig → Decision
  unfolding named matched enrich_outbound_from_raw apply_provider_import_options
      find_matching_outbound_locked unique_outbound_name_locked should_preserve_user_fields
      merge_preserved_outbound_fields outbound_config_equivalent
  decide m given =
      let first =
        apply_provider_import_options (enrich_outbound_from_raw parse_link given) options.provider
          options.from_subscription in
      let o = named first in
      let existing = find_matching_outbound_locked m.outbounds o options.provider in
      if existing == ""
      then record {
        outbound = record o { name = unique_outbound_name_locked m.outbounds o.name };
        original_name = first.name;
        action = added;
        preserved_name = false;
      }
      else matched options existing first.name o (lookup existing m.outbounds)

  -- One round of the loop. An error ends the request where it stands: nothing is rolled back.
  unfoldable pub import_one : OutboundConfig → ImportOutboundsReport → Method ImportOutboundsReport
  unfolding decide count put_outbound outbound_import_warnings
  import_one given report = do
    s ← get
    let d = decide s.self given
    refuse_if (d.outbound.protocol == "") (requires Kind.outbound d.outbound.name Field.protocol)
    refuse_if (d.outbound.address == "") (requires Kind.outbound d.outbound.name Field.address)
    refuse_if (not (port_ok d.outbound.port)) (requires Kind.outbound d.outbound.name Field.port)
    lift (validate_outbound d.outbound)
    update (put_outbound d.outbound s.world.clock)
    t ← get
    node ← lift (node_locked t.self d.outbound.name Kind.outbound)
    pure (count d node report)

  unfoldable pub import_loop :
      List OutboundConfig → ImportOutboundsReport → Method ImportOutboundsReport
  unfolding import_one
  import_loop [] report = pure report
  import_loop (o ∷ rest) report = do next ← import_one o report; import_loop rest next

  abbrev is_nil : List OutboundConfig → Bool
  is_nil [] = true
  is_nil (o ∷ rest) = false

  -- `ImportOutboundsReportWithOptions`
  unfoldable pub import_outbounds : List OutboundConfig → Method ImportOutboundsReport
  unfolding import_loop empty_report
  import_outbounds outbounds = do
    refuse_if (is_nil outbounds) nothing_to_import
    s ← get
    report ← import_loop outbounds (empty_report (length outbounds))
    commit_with_rollback_locked (snapshot_locked s.self)
    pure report
