-- ===== src/Manager/Synced/Handlers.antt =====
-- How the maps of the manager and its configuration stay in step through the code that all requests
-- share: the chain of calls, and the commit with its rollback.
use oneagent.Prelude.{ℕ, Bool, true, false, ◌≡◌, refl}
use oneagent.Config.Types.{KernelConfig}
use oneagent.Config.Errors.{Error, Result, ok, err}
use oneagent.Exec.{continue, ◌>>=◌, ◌>>◌, lift, get, refuse_if}
use oneagent.Manager.State.{Manager, State, Method, snapshot_locked, restore_locked}
use oneagent.Manager.Commit.{commit_with_rollback_locked, configure_kernel_locked}
use oneagent.Manager.Commit.Atomic.{Committed, commit_with_rollback_lem}
use oneagent.Manager.Commit.Keeps.{configure_kernel_lem}
use oneagent.Manager.Requests.{transact}
use oneagent.Manager.Requests.Atomic.{Settled}
use oneagent.Manager.Synced.{IsSynced}

-- The method leaves a manager whose maps and configuration agree, whether it returns or fails.
abbrev pub Syncs : {A : Type 0} → Method A → State → Type 0
Syncs m s = IsSynced (m s).1.self

module _ {A : Type 0} where
  Syncs-continue :
      {B : Type 0} (m : Result B × State) (f : B → Method A)
      → IsSynced m.1.self
      → ((b : B) (t : State) → t.self ≡ m.1.self → Syncs (f b) t)
      → IsSynced (continue m f).1.self
  Syncs-continue (ok b, t) f h k = k b t refl
  Syncs-continue (err e, t) f h k = h

  -- The second call starts where the first one has left the manager.
  pub Syncs-bind :
      {B : Type 0} (m : Method B) (f : B → Method A) (s : State)
      → Syncs m s
      → ((b : B) (t : State) → t.self ≡ (m s).1.self → Syncs (f b) t)
      → Syncs (m >>= f) s
  unfolding ◌>>=◌
  Syncs-bind m f s h k = Syncs-continue (m s) f h k

  pub Syncs-refuse_if :
      (bad : Bool) (e : Error) (f : Method A) (s : State)
      → IsSynced s.self
      → (bad ≡ false → Syncs f s)
      → Syncs (refuse_if bad e >> f) s
  unfolding ◌>>=◌
  Syncs-refuse_if true e f s h k = h
  Syncs-refuse_if false e f s h k = k refl

  pub Syncs-lift :
      {B : Type 0} (r : Result B) (f : B → Method A) (s : State)
      → IsSynced s.self
      → ((b : B) → r ≡ ok b → Syncs (f b) s)
      → Syncs (lift r >>= f) s
  unfolding ◌>>=◌
  Syncs-lift (ok b) f s h k = k b refl
  Syncs-lift (err e) f s h k = h

  pub Syncs-get : (f : State → Method A) (s : State) → Syncs (f s) s → Syncs (get >>= f) s
  unfolding ◌>>=◌
  Syncs-get f s h = h

  -- A request that is settled with a change that keeps the two in step.
  pub Syncs-Settled :
      (Q : Manager → Type 0) (m : Result A × State) (before : Manager)
      → IsSynced before
      → ((after : Manager) → Q after → IsSynced after)
      → Settled Q before m
      → IsSynced m.1.self
  Syncs-Settled Q (ok a, t) before h k settled = k t.self settled.0
  Syncs-Settled Q (err e, t) before h k settled = rw settled h

pub restore-IsSynced :
    (m n : Manager) → IsSynced m → IsSynced (restore_locked (snapshot_locked m) n)
unfolding restore_locked snapshot_locked
restore-IsSynced m n h = record { inbounds = h.inbounds; outbounds = h.outbounds; rules = h.rules }

Committed-IsSynced :
    (before m : Manager) (r : Result (Unit {0}) × State)
    → IsSynced before
    → IsSynced m
    → Committed (snapshot_locked before) m r
    → IsSynced r.1.self
Committed-IsSynced before m (ok u, t) old new (same, _) = rw same new
Committed-IsSynced before m (err e, t) old new same = rw same (restore-IsSynced before m old)

-- A commit keeps the two in step if they are in the manager and in the snapshot.
pub Syncs-commit :
    (before : Manager) (s : State)
    → IsSynced before
    → IsSynced s.self
    → Syncs (commit_with_rollback_locked (snapshot_locked before)) s
Syncs-commit before s old new =
    Committed-IsSynced before s.self _ old new (commit_with_rollback_lem (snapshot_locked before) s)

pub Syncs-transact :
    (change : ℕ → Manager → Manager) (s : State)
    → IsSynced s.self
    → IsSynced (change s.world.clock s.self)
    → Syncs (transact change) s
unfolding transact
Syncs-transact change s old new = Syncs-commit s.self _ old new

kernel-IsSynced : (m : Manager) (kernel : ℕ) → IsSynced m → IsSynced (record m { kernel = kernel })
kernel-IsSynced m kernel h = record {
  inbounds = h.inbounds;
  outbounds = h.outbounds;
  rules = h.rules;
}

pub Syncs-configure :
    (cfg : KernelConfig) (s : State) → IsSynced s.self → Syncs (configure_kernel_locked cfg) s
Syncs-configure cfg s h =
    let (kernel, same) = configure_kernel_lem cfg s in rw same (kernel-IsSynced s.self kernel h)
