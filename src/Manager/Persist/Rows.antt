-- ===== src/Manager/Persist/Rows.antt =====
-- The rows of the history behind `persistConfigLocked`.
use oneagent.Prelude.{Bool, ◌≡◌, sym, ap, String, List, ◌∷◌, take, arith}
use oneagent.Config.Types.{Config}
use oneagent.Config.Errors.{Result, ok, err}
use oneagent.Exec.{continue, ◌>>=◌, ◌>>◌, modify}
use oneagent.Platform.{HistoryRow, World, Action, call}
use oneagent.Manager.Persist.{
  default_config_history_keep, keep_newest, insert_history, without_password,
  cleanup_config_history, persist_config_locked,
}

continued :
    (r : Result (Unit {0})) (w v : World) (f : Action (Unit {0}))
    → continue (r, w) (λ _. f) ≡ (ok tt, v)
    → f w ≡ (ok tt, v)
continued (ok u) w v f h = h
continued (err e) w v f h = ground arith

after_call :
    (what : String) (f : Action (Unit {0})) (w v : World)
    → (call what >> f) w ≡ (ok tt, v)
    → (outcomes : List Bool) × (f (record w { outcomes = outcomes }) ≡ (ok tt, v))
unfolding call ◌>>=◌
after_call what f w v h = (_, continued _ _ v f h)

modified :
    (change : World → World) (f : Action (Unit {0})) (w v : World)
    → (modify change >> f) w ≡ (ok tt, v)
    → f (change w) ≡ (ok tt, v)
unfolding ◌>>=◌
modified change f w v h = h

abbrev pub row_of : Config → World → HistoryRow
row_of cfg w = record { id = w.db.next_id; content = without_password cfg; created_at = w.clock }

pub persist_config_lem :
    (cfg : Config) (w v : World)
    → persist_config_locked cfg w ≡ (ok tt, v)
    → v.db.config_history ≡ take default_config_history_keep (row_of cfg w ∷ w.db.config_history)
unfolding persist_config_locked cleanup_config_history
persist_config_lem cfg w v h =
    let (o1, h1) = after_call "encode" _ w v h in
    let (o2, h2) = after_call "insert history" _ (record w { outcomes = o1 }) v h1 in
    let (o3, h3) =
      after_call "delete history" (modify (keep_newest default_config_history_keep))
        (insert_history cfg (record w { outcomes = o2 })) v
        (modified (insert_history cfg) (cleanup_config_history default_config_history_keep)
          (record w { outcomes = o2 }) v h2) in
    ap (λ (r : Result (Unit {0}) × World). r.1.db.config_history) (sym h3)
