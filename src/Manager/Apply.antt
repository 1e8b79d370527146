-- ===== src/Manager/Apply.antt =====
-- core/manager.go: a whole configuration is applied.
pub mod Completed
pub mod Outcomes
use oneagent.Prelude.{
  ℕ, String, true, List, [], ◌∷◌, Option, none, some, ◌==◌, if◌then◌else◌, insert, contains,
}
use oneagent.Config.Types.{InboundConfig, OutboundConfig, Config}
use oneagent.Config.Validate.{validate}
use oneagent.Exec.{◌>>=◌, ◌>>◌, lift, get}
use oneagent.Manager.State.{Manager, Method, snapshot_locked, restore_locked}
use oneagent.Manager.Commit.{
  update, undo_with, configure_kernel_locked, commit_with_rollback_locked,
}
use oneagent.Manager.Requests.{ensure_node}

-- `firstNonEmpty` of two values
abbrev pub first_non_empty : String → String → String
first_non_empty a b = if a == "" then b else a

abbrev pub filled : OutboundConfig → Option OutboundConfig → OutboundConfig
filled o none = o
filled o (some parsed) = record o {
  flow = first_non_empty o.flow parsed.flow;
  security = first_non_empty o.security parsed.security;
  server_name = first_non_empty o.server_name parsed.server_name;
  public_key = first_non_empty o.public_key parsed.public_key;
  short_id = first_non_empty o.short_id parsed.short_id;
  fingerprint = first_non_empty o.fingerprint parsed.fingerprint;
  transport = first_non_empty o.transport parsed.transport;
  path = first_non_empty o.path parsed.path;
  host = first_non_empty o.host parsed.host;
  alpn = first_non_empty o.alpn parsed.alpn;
  tls = if o.tls then true else parsed.tls;
  skip_cert_verify = if o.skip_cert_verify then true else parsed.skip_cert_verify;
}

-- The loops of `ApplyConfig` that fill the maps.
unfoldable pub load_inbounds : ℕ → List InboundConfig → Manager → Manager
load_inbounds now [] m = m
load_inbounds now (i ∷ rest) m =
    load_inbounds now rest
      (ensure_node now i.name i.disabled (record m { inbounds = insert i.name i m.inbounds }))

unfoldable pub load_outbounds : ℕ → List OutboundConfig → Manager → Manager
load_outbounds now [] m = m
load_outbounds now (o ∷ rest) m =
    load_outbounds now rest
      (ensure_node now o.name o.disabled (record m { outbounds = insert o.name o m.outbounds }))

-- Between the snapshot and the kernel.
unfoldable pub load_config : ℕ → Config → Manager → Manager
unfolding load_inbounds load_outbounds
load_config now cfg m =
    let m1 = load_inbounds now cfg.inbounds (record m { cfg = cfg; inbounds = [] }) in
    let m2 = load_outbounds now cfg.outbounds (record m1 { outbounds = [] }) in
    record m2 { rules = cfg.routing.rules }

-- The parser of links, core/link_parser.go: `parseOutboundLink`; `none` is an error.
module _ (parse_link : String → Option OutboundConfig) where
  -- `enrichOutboundFromRaw`
  unfoldable pub enrich_outbound_from_raw : OutboundConfig → OutboundConfig
  enrich_outbound_from_raw o = if contains o.raw "://" then filled o (parse_link o.raw) else o

  unfoldable pub enrich_all : List OutboundConfig → List OutboundConfig
  enrich_all [] = []
  enrich_all (o ∷ rest) = enrich_outbound_from_raw o ∷ enrich_all rest

  -- `ApplyConfig`, less its log lines.
  unfoldable pub apply_config : Config → Method (Unit {0})
  unfolding enrich_outbound_from_raw enrich_all load_config
  apply_config given = do
    let cfg = record given { outbounds = enrich_all given.outbounds }
    lift (validate cfg)
    s ← get
    update (load_config s.world.clock cfg)
    λ t.
        undo_with (update (restore_locked (snapshot_locked s.self)))
          (configure_kernel_locked cfg.kernel t)
    commit_with_rollback_locked (snapshot_locked s.self)
