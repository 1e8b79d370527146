-- ===== src/Manager/Commit/Atomic.antt =====
-- A commit succeeds with a valid configuration, or gives the manager back as the snapshot has it.
use oneagent.Prelude.{◌≡◌, refl, ◌∙◌, ap}
use oneagent.Config.Errors.{Error, Result, ok, err}
use oneagent.Config.Validate.{validate}
use oneagent.Exec.{continue, ◌>>=◌}
use oneagent.Manager.State.{Manager, Snapshot, State, Method, restore_locked}
use oneagent.Manager.Commit.{commit_locked, roll_back, or_roll_back, commit_with_rollback_locked}
use oneagent.Manager.Commit.Keeps.{Keeps-apply_kernel_locked, Keeps-commit_locked}

-- The two ends of a commit of the manager `m`.
abbrev pub Committed : Snapshot → Manager → Result (Unit {0}) × State → Type 0
Committed before m (ok u, t) = (t.self ≡ m) × (validate m.cfg ≡ ok tt)
Committed before m (err e, t) = t.self ≡ restore_locked before m

validate_of_continue :
    (r : Result (Unit {0})) (s : State) (f : Method (Unit {0}))
    → (continue (r, s) (λ _. f)).0 ≡ ok tt
    → r ≡ ok tt
validate_of_continue (ok tt) s f h = refl
validate_of_continue (err e) s f h = h

commit_locked-valid : (s : State) → (commit_locked s).0 ≡ ok tt → validate s.self.cfg ≡ ok tt
unfolding commit_locked ◌>>=◌
commit_locked-valid s h = validate_of_continue (validate s.self.cfg) s _ h

module _ (before : Snapshot) where
  roll_back_lem :
      (e : Error) (m : Manager) (r : Result (Unit {0}) × State)
      → r.1.self ≡ restore_locked before m
      → Committed before m (roll_back e r)
  roll_back_lem e m (ok u, t) h = h
  roll_back_lem e m (err x, t) h = h

  or_roll_back_lem :
      (m : Manager) (r : Result (Unit {0}) × State)
      → r.1.self ≡ m
      → (r.0 ≡ ok tt → validate m.cfg ≡ ok tt)
      → Committed before m (or_roll_back before r)
  or_roll_back_lem m (ok tt, t) h v = (h, v refl)
  or_roll_back_lem m (err e, t) h v = roll_back_lem e m _ (
      Keeps-apply_kernel_locked.at (record t { self = restore_locked before t.self })
      ∙ ap (restore_locked before) h)

  -- The commit of a changed manager either succeeds, leaves the manager's fields as they are and the
  -- configuration is valid, or it fails and gives the fields of the snapshot back, whichever calls
  -- of the files, the kernel and the database fail, also during the rollback.
  pub commit_with_rollback_lem :
      (s : State) → Committed before s.self (commit_with_rollback_locked before s)
  unfolding commit_with_rollback_locked
  commit_with_rollback_lem s =
      or_roll_back_lem s.self (commit_locked s) (Keeps-commit_locked.at s) (commit_locked-valid s)
