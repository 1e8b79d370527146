-- ===== src/Manager/Synced/Applies.antt =====
-- A whole configuration, one out of the history, and outbounds that are imported keep the maps and
-- the configuration in step.
use oneagent.Prelude.{ℕ, String, List, [], ◌∷◌, Option}
use oneagent.Config.Types.{OutboundConfig, Config}
use oneagent.Config.Errors.{Result, ok, err}
use oneagent.Config.Validate.Sound.{validate_lem}
use oneagent.Platform.{call}
use oneagent.Manager.State.{Manager, State, snapshot_locked, restore_locked, in_world}
use oneagent.Manager.Commit.{update, undo_with, configure_kernel_locked}
use oneagent.Manager.Apply.{load_config, apply_config, enrich_all}
use oneagent.Manager.History.{restore_config_history}
use oneagent.Manager.Import.{
  ImportOutboundsReport, ImportOutboundsOptions, import_one, import_loop, import_outbounds,
}
use oneagent.Manager.Synced.{IsSynced, put_outbound-IsSynced}
use oneagent.Manager.Synced.Load.{load_config-IsSynced}
use oneagent.Manager.Synced.Handlers.{
  Syncs, Syncs-bind, Syncs-get, Syncs-lift, Syncs-refuse_if, Syncs-commit, Syncs-configure,
  restore-IsSynced,
}

undo_with-IsSynced :
    (before : Manager) (r : Result (Unit {0}) × State)
    → IsSynced before
    → IsSynced r.1.self
    → IsSynced (undo_with (update (restore_locked (snapshot_locked before))) r).1.self
undo_with-IsSynced before (ok u, t) old new = new
undo_with-IsSynced before (err e, t) old new = restore-IsSynced before t.self old

module _ (parse_link : String → Option OutboundConfig) where
  pub Syncs-apply_config :
      (given : Config) (s : State) → IsSynced s.self → Syncs (apply_config parse_link given) s
  unfolding apply_config
  Syncs-apply_config given s h = Syncs-lift _ _ s h λ u valid. Syncs-get _ s (
      let cfg = record given { outbounds = enrich_all parse_link given.outbounds } in
      let sound = validate_lem cfg valid in
      let loaded =
        load_config-IsSynced s.world.clock cfg s.self sound.distinct_inbounds
          sound.distinct_outbounds in
      Syncs-bind (update (load_config s.world.clock cfg)) _ s loaded λ v t same.
        let configured =
          undo_with-IsSynced s.self (configure_kernel_locked cfg.kernel t) h
            (Syncs-configure cfg.kernel t (rw same loaded)) in
        Syncs-bind _ _ t configured λ x w e. Syncs-commit s.self w h (rw e configured))

  pub Syncs-restore_config_history :
      (id : ℕ) (s : State) → IsSynced s.self → Syncs (restore_config_history parse_link id) s
  unfolding restore_config_history in_world
  Syncs-restore_config_history id s h = Syncs-refuse_if _ _ _ s h λ _.
      Syncs-bind (in_world (call "query row")) _ s h λ u t e.
        let now : IsSynced t.self = rw e h in
        Syncs-get _ t (
          Syncs-lift _ _ t now λ content found.
            Syncs-bind (in_world (call "decode")) _ t now
              λ v w same. Syncs-apply_config _ w (rw same now))

  module _ (options : ImportOutboundsOptions) where
    Syncs-import_one :
        (given : OutboundConfig) (report : ImportOutboundsReport) (s : State)
        → IsSynced s.self
        → Syncs (import_one parse_link options given report) s
    unfolding import_one
    Syncs-import_one given report s h = Syncs-get _ s (
        Syncs-refuse_if _ _ _ s h λ _. Syncs-refuse_if _ _ _ s h λ _. Syncs-refuse_if _ _ _ s h λ _.
          Syncs-lift _ _ s h λ u valid.
            let changed = put_outbound-IsSynced _ s.world.clock s.self h in
            Syncs-bind (update _) _ s changed λ v t same.
              Syncs-get _ t (Syncs-lift _ _ t (rw same changed) λ node shown. rw same changed))

    Syncs-import_loop :
        (given : List OutboundConfig) (report : ImportOutboundsReport) (s : State)
        → IsSynced s.self
        → Syncs (import_loop parse_link options given report) s
    unfolding import_loop
    Syncs-import_loop [] report s h = h
    Syncs-import_loop (o ∷ rest) report s h =
        let first = Syncs-import_one o report s h in
        Syncs-bind _ _ s first λ next t same. Syncs-import_loop rest next t (rw same first)

    pub Syncs-import_outbounds :
        (given : List OutboundConfig) (s : State)
        → IsSynced s.self
        → Syncs (import_outbounds parse_link options given) s
    unfolding import_outbounds
    Syncs-import_outbounds given s h = Syncs-refuse_if _ _ _ s h λ _. Syncs-get _ s (
        let looped = Syncs-import_loop given _ s h in
        Syncs-bind _ _ s looped λ report t same.
          let committed = Syncs-commit s.self t h (rw same looped) in
          Syncs-bind _ _ t committed λ u w e. rw e committed)
