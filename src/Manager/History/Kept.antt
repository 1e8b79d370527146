-- ===== src/Manager/History/Kept.antt =====
-- What the history of configurations keeps, and what a restore brings back.
use oneagent.Prelude.{
  ℕ, zero, suc, negsuc, ◌≤◌, String, ◌≡◌, ◌≢◌, refl, ◌∙◌, ap, List, ◌∷◌, Option, some,
  if◌then◌else◌, ℤ, pos, eqℤ, length, take, length-take-le, arith, eq_iff,
}
use oneagent.Config.Types.{OutboundConfig, Config}
use oneagent.Config.Errors.{ok}
use oneagent.Config.Routing.{normalize_routing_config}
use oneagent.Platform.{HistoryRow, World}
use oneagent.Manager.State.{Manager, State}
use oneagent.Manager.Persist.{default_config_history_keep, without_password, persist_config_locked}
use oneagent.Manager.Persist.Rows.{row_of, persist_config_lem}
use oneagent.Manager.Synced.Load.{load_config-cfg}
use oneagent.Manager.Apply.{first_non_empty, enrich_all}
use oneagent.Manager.Apply.Outcomes.{Loads, apply_config-Loads}
use oneagent.Manager.Requests.Atomic.{
  Settled, Settled-weaken, Settled-refuse_if, Settled-in_world, Settled-get, Settled-lift,
}
use oneagent.Manager.History.{find_row, restored, restore_config_history}

-- A configuration that a restore has nothing to complete in, of the server that it runs on.
pub record IsComplete (current cfg : Config) : Type 0 where
  pub password : current.server.admin_pass ≡ cfg.server.admin_pass
  pub user : cfg.server.admin_user ≢ ""
  pub web_port : cfg.server.web_port ≢ pos 0
  pub kind : cfg.kernel.kind ≢ ""
  pub config_path : cfg.kernel.config_path ≢ ""
  pub routing : normalize_routing_config cfg.routing ≡ cfg.routing

non_empty : (a b : String) → a ≢ "" → first_non_empty a b ≡ a
non_empty a b h = ground (arith, eq_iff a "")

non_zero : (a b : ℤ) → a ≢ pos 0 → (if eqℤ a (pos 0) then b else a) ≡ a
non_zero (pos zero) b h = absurd (h refl)
non_zero (pos (suc n)) b h = ground arith
non_zero (negsuc n) b h = refl

restored_lem :
    (current cfg : Config) → IsComplete current cfg → restored current (without_password cfg) ≡ cfg
unfolding restore_config_history without_password
restored_lem current cfg h = λ j. record cfg {
  server = record (cfg.server) {
    admin_user = non_empty cfg.server.admin_user current.server.admin_user h.user j;
    admin_pass = h.password j;
    web_port = non_zero cfg.server.web_port current.server.web_port h.web_port j;
  };
  kernel = record (cfg.kernel) {
    kind = non_empty cfg.kernel.kind "placeholder" h.kind j;
    config_path = non_empty cfg.kernel.config_path "kernel.generated.json" h.config_path j;
  };
  routing = h.routing j;
}

find_first :
    (id : ℕ) (row : HistoryRow) (rows : List HistoryRow)
    → row.id ≡ id
    → find_row id (take default_config_history_keep (row ∷ rows)) ≡ some row
unfolding restore_config_history
find_first id row rows h = ground arith

-- Where a configuration was persisted, at most a hundred rows are kept, the newest is found under the
-- id that it got, and if the configuration is complete and its password is the one of the server
-- that restores, what a restore of this row applies is that configuration.
pub history_roundtrip :
    (current cfg : Config) (w v : World)
    → persist_config_locked cfg w ≡ (ok tt, v)
    → IsComplete current cfg
    → (length v.db.config_history ≤ 100)
      × ((row : HistoryRow) × (find_row w.db.next_id v.db.config_history ≡ some row)
          × (restored current row.content ≡ cfg))
history_roundtrip current cfg w v h complete =
    let rows = persist_config_lem cfg w v h in
    rw rows (
      length-take-le 100 (row_of cfg w ∷ w.db.config_history),
      (
        row_of cfg w,
        find_first w.db.next_id (row_of cfg w) w.db.config_history refl,
        restored_lem current cfg complete,
      ),
    )

restored-password :
    (current cfg : Config) → (restored current cfg).server.admin_pass ≡ current.server.admin_pass
unfolding restore_config_history
restored-password current cfg = refl

Loads-password :
    (current cfg : Config) (outbounds : List OutboundConfig) (s : State) (m : Manager)
    → Loads (record (restored current cfg) { outbounds = outbounds }) s m
    → m.cfg.server.admin_pass ≡ current.server.admin_pass
Loads-password current cfg outbounds s m (kernel, e) =
    ap (λ (n : Manager). n.cfg.server.admin_pass) e
    ∙ ap (λ (c : Config). c.server.admin_pass)
        (load_config-cfg _ (record (restored current cfg) { outbounds = outbounds }) s.self)
    ∙ restored-password current cfg

-- `RestoreConfigHistory` either fails and changes nothing of the manager, or its new configuration is
-- valid and has the password that the manager had: no row brings another one back.
pub restore-password :
    (parse_link : String → Option OutboundConfig) (id : ℕ) (s : State)
    → Settled
        (λ m. m.cfg.server.admin_pass ≡ s.self.cfg.server.admin_pass)
        s.self
        (restore_config_history parse_link id s)
unfolding restore_config_history
restore-password parse_link id s = Settled-refuse_if _ _ _ _ s λ _.
    Settled-in_world _ _ _ s λ u w _.
      Settled-get _ _ (record s { world = w })
        (Settled-lift _ _ _ (record s { world = w })
          λ content found.
            Settled-in_world _ _ _ (record s { world = w })
              λ x v _.
                Settled-weaken _ _ _ _
                  (λ m loads.
                    Loads-password s.self.cfg content (enrich_all parse_link content.outbounds)
                      (record s { world = v }) m loads)
                  (apply_config-Loads parse_link (restored s.self.cfg content)
                    (record s { world = v })))
