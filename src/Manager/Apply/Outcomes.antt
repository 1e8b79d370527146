-- ===== src/Manager/Apply/Outcomes.antt =====
-- What `ApplyConfig` does.
use oneagent.Prelude.{ℕ, String, ◌≡◌, refl, sym, ◌∙◌, ap, Option, lookup}
use oneagent.Config.Types.{OutboundConfig, Config}
use oneagent.Config.Errors.{Result, ok, err}
use oneagent.Config.Validate.Sound.{validate_lem}
use oneagent.Manager.Find.{find_inbound, find_outbound}
use oneagent.Manager.Apply.Completed.{AreCompleted, enrich_all_lem}
use oneagent.Config.Validate.{validate}
use oneagent.Exec.{continue, ◌>>=◌, ◌>>◌}
use oneagent.Manager.State.{Manager, State, snapshot_locked, restore_locked}
use oneagent.Manager.Commit.{
  update, undo_with, configure_kernel_locked, commit_with_rollback_locked,
}
use oneagent.Manager.Commit.Keeps.{Renewed, configure_kernel_lem}
use oneagent.Manager.Commit.Atomic.{Committed, commit_with_rollback_lem}
use oneagent.Manager.Requests.Atomic.{
  Settled, Settled-weaken, Settled-lift, Settled-get, restore-snapshot,
}
use oneagent.Manager.Synced.Load.{load_config-path, load_config-cfg, load_config-IsSynced}
use oneagent.Manager.Apply.{load_config, apply_config, enrich_all}

-- The manager has loaded the configuration, and has a pointer to a kernel.
abbrev pub Loads : Config → State → Manager → Type 0
Loads cfg s m =
    (kernel : ℕ) × (m ≡ record (load_config s.world.clock cfg s.self) { kernel = kernel })

module _ (cfg : Config) (s : State) where
  Settled-Committed :
      (kernel : ℕ) (m : Manager) (r : Result (Unit {0}) × State)
      → m ≡ record (load_config s.world.clock cfg s.self) { kernel = kernel }
      → Committed (snapshot_locked s.self) m r
      → Settled (Loads cfg s) s.self r
  Settled-Committed kernel m (ok u, t) e (same, valid) = ((kernel, same ∙ e), rw same valid)
  Settled-Committed kernel m (err x, t) e same =
      same
      ∙ restore-snapshot s.self m
          (ap (λ (n : Manager). n.config_path) e ∙ load_config-path _ cfg s.self)

  after_configure :
      (r : Result (Unit {0}) × State)
      → Renewed (load_config s.world.clock cfg s.self) r
      → Settled (Loads cfg s) s.self (
          continue
            (undo_with (update (restore_locked (snapshot_locked s.self))) r)
            (λ _. commit_with_rollback_locked (snapshot_locked s.self)))
  after_configure (ok u, t) (kernel, e) =
      Settled-Committed kernel t.self _ e (commit_with_rollback_lem (snapshot_locked s.self) t)
  after_configure (err x, t) (kernel, e) =
      restore-snapshot s.self t.self
        (ap (λ (n : Manager). n.config_path) e ∙ load_config-path _ cfg s.self)

  load_lem : Settled (Loads cfg s) s.self (
      (update (load_config s.world.clock cfg)
          >> ((λ t.
                undo_with
                  (update (restore_locked (snapshot_locked s.self)))
                  (configure_kernel_locked cfg.kernel t))
              >> commit_with_rollback_locked (snapshot_locked s.self)))
        s)
  unfolding ◌>>=◌
  load_lem =
      after_configure _
        (configure_kernel_lem cfg.kernel (record s { self = load_config s.world.clock cfg s.self }))

-- What a configuration that was applied leaves.
pub apply_config-Loads :
    (parse_link : String → Option OutboundConfig) (given : Config) (s : State)
    → Settled
        (Loads (record given { outbounds = enrich_all parse_link given.outbounds }) s)
        s.self
        (apply_config parse_link given s)
unfolding apply_config
apply_config-Loads parse_link given s =
    let cfg = record given { outbounds = enrich_all parse_link given.outbounds } in
    Settled-lift (Loads cfg s) (validate cfg) _ s
      λ u valid. Settled-get (Loads cfg s) _ s (load_lem cfg s)

-- The configuration of the manager is the given one with its outbounds completed, and the maps of
-- nodes and the rules are those of the configuration.
pub record IsLoaded (parse_link : String → Option OutboundConfig) (given : Config)
    (before m : Manager) : Type 0 where
  pub cfg : m.cfg ≡ record given { outbounds = m.cfg.outbounds }
  pub completed : AreCompleted parse_link given.outbounds m.cfg.outbounds
  pub inbounds : (name : String) → lookup name m.inbounds ≡ find_inbound name given.inbounds
  pub outbounds : (name : String) → lookup name m.outbounds ≡ find_outbound name m.cfg.outbounds
  pub rules : m.rules ≡ given.routing.rules
  pub config_path : m.config_path ≡ before.config_path

Loads-IsLoaded :
    (parse_link : String → Option OutboundConfig) (given : Config) (s : State)
    → validate (record given { outbounds = enrich_all parse_link given.outbounds }) ≡ ok tt
    → (m : Manager) → Loads (record given { outbounds = enrich_all parse_link given.outbounds }) s m
    → IsLoaded parse_link given s.self m
Loads-IsLoaded parse_link given s valid m (kernel, e) =
    let cfg = record given { outbounds = enrich_all parse_link given.outbounds } in
    let now = s.world.clock in
    let sound = validate_lem cfg valid in
    let maps =
      load_config-IsSynced now cfg s.self sound.distinct_inbounds sound.distinct_outbounds in
    let own = load_config-cfg now cfg s.self in
    let all : m.cfg ≡ cfg = ap (λ (n : Manager). n.cfg) e ∙ own in
    record {
      cfg = rw all refl;
      completed = rw all (enrich_all_lem parse_link given.outbounds);
      inbounds = λ name.
          ap (λ (n : Manager). lookup name n.inbounds) e
          ∙ maps.inbounds name
          ∙ ap (λ (c : Config). find_inbound name c.inbounds) own;
      outbounds = λ name.
          ap (λ (n : Manager). lookup name n.outbounds) e
          ∙ maps.outbounds name
          ∙ ap (λ (c : Config). find_outbound name c.outbounds) (own ∙ sym all);
      rules =
          ap (λ (n : Manager). n.rules) e ∙ maps.rules ∙ ap (λ (c : Config). c.routing.rules) own;
      config_path = ap (λ (n : Manager). n.config_path) e ∙ load_config-path now cfg s.self;
    }

-- `ApplyConfig` either fails and changes nothing of the manager, its kernel pointer included, or the
-- manager's configuration is the given one, in which an outbound whose raw text is a link that can be
-- read has what the link says in the fields that it left empty; it is valid, the map of inbounds and
-- the map of outbounds have under each name the node of that name in it, and the rules are its
-- rules. Which kernel object the manager then points to is not said.
pub apply_config_lem :
    (parse_link : String → Option OutboundConfig) (given : Config) (s : State)
    → Settled (IsLoaded parse_link given s.self) s.self (apply_config parse_link given s)
unfolding apply_config
apply_config_lem parse_link given s =
    let cfg = record given { outbounds = enrich_all parse_link given.outbounds } in
    Settled-lift (IsLoaded parse_link given s.self) (validate cfg) _ s λ u valid.
      Settled-get (IsLoaded parse_link given s.self) _ s
        (Settled-weaken _ _ _ _ (Loads-IsLoaded parse_link given s valid) (load_lem cfg s))
