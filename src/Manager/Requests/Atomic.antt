-- ===== src/Manager/Requests/Atomic.antt =====
-- A request succeeds with a valid configuration, or leaves the manager as it was.
use oneagent.Prelude.{ℕ, Bool, true, false, ◌≡◌, refl, ◌∙◌}
use oneagent.Config.Errors.{Error, Result, ok, err}
use oneagent.Config.Validate.{validate}
use oneagent.Exec.{continue, ◌>>=◌, ◌>>◌, lift, refuse_if, get}
use oneagent.Platform.{Action, World}
use oneagent.Manager.State.{Manager, State, Method, snapshot_locked, restore_locked, in_world}
use oneagent.Manager.Commit.Atomic.{Committed, commit_with_rollback_lem}
use oneagent.Manager.Commit.Keeps.{Keeps}
use oneagent.Manager.Requests.{transact}

-- The change that a request makes, at the time of the request.
abbrev pub Change : Type 0
Change = ℕ → Manager → Manager

-- A success has made the change, and the new configuration is valid; an error has changed nothing.
abbrev pub Transacted : Change → State → Result (Unit {0}) × State → Type 0
Transacted change s (ok u, t) =
    (t.self ≡ change s.world.clock s.self) × (validate t.self.cfg ≡ ok tt)
Transacted change s (err e, t) = t.self ≡ s.self

pub restore-snapshot :
    (m n : Manager) → n.config_path ≡ m.config_path → restore_locked (snapshot_locked m) n ≡ m
unfolding restore_locked snapshot_locked
restore-snapshot m n e = λ i. record m { config_path = e i }

Transacted-of_Committed :
    (change : Change) (s : State) (r : Result (Unit {0}) × State)
    → (change s.world.clock s.self).config_path ≡ s.self.config_path
    → Committed (snapshot_locked s.self) (change s.world.clock s.self) r
    → Transacted change s r
Transacted-of_Committed change s (ok u, t) e (h, v) = (h, rw h v)
Transacted-of_Committed change s (err x, t) e h = h ∙ restore-snapshot s.self _ e

pub transact_lem :
    (change : Change) (s : State)
    → (change s.world.clock s.self).config_path ≡ s.self.config_path
    → Transacted change s (transact change s)
unfolding transact
transact_lem change s e = Transacted-of_Committed change s _ e (commit_with_rollback_lem _ _)

-- An answer of the method that started with the manager `m`: on success `Q` holds of the new
-- manager and its configuration is valid; on an error the manager is `m`.
abbrev pub Settled : {A : Type 0} → (Manager → Type 0) → Manager → Result A × State → Type 0
Settled Q m (ok a, t) = Q t.self × (validate t.self.cfg ≡ ok tt)
Settled Q m (err e, t) = t.self ≡ m

pub Settled-weaken :
    {A : Type 0} (P Q : Manager → Type 0) (m : Manager) (r : Result A × State)
    → ((n : Manager) → P n → Q n)
    → Settled P m r
    → Settled Q m r
Settled-weaken P Q m (ok a, t) f (h, valid) = (f t.self h, valid)
Settled-weaken P Q m (err e, t) f h = h

module _ {A : Type 0} (Q : Manager → Type 0) where
  Settled-continue :
      {B : Type 0} (s : State) (m : Result B × State) (f : B → Method A)
      → m.1.self ≡ s.self
      → ((b : B) (t : State) → t.self ≡ s.self → Settled Q s.self (f b t))
      → Settled Q s.self (continue m f)
  Settled-continue s (ok b, t) f e k = k b t e
  Settled-continue s (err x, t) f e k = e

  Settled-commit :
      (change : Change) (s : State) (f : Method A)
      → Q (change s.world.clock s.self)
      → ((t : State) → t.self ≡ change s.world.clock s.self → (a : A) × (f t ≡ (ok a, t)))
      → (r : Result (Unit {0}) × State) → Transacted change s r
      → Settled Q s.self (continue r (λ _. f))
  Settled-commit change s f q k (ok u, t) (h, v) = let (a, p) = k t h in rw p (rw h q, v)
  Settled-commit change s f q k (err x, t) h = h

  -- A step that leaves the manager alone.
  pub Settled-bind :
      {B : Type 0} (m : Method B) (f : B → Method A) (s : State)
      → Keeps m
      → ((b : B) (t : State) → t.self ≡ s.self → Settled Q s.self (f b t))
      → Settled Q s.self ((m >>= f) s)
  unfolding ◌>>=◌
  Settled-bind m f s km k = Settled-continue s (m s) f (km.at s) k

  pub Settled-refuse_if :
      (bad : Bool) (e : Error) (f : Method A) (s : State)
      → (bad ≡ false → Settled Q s.self (f s))
      → Settled Q s.self ((refuse_if bad e >> f) s)
  unfolding ◌>>=◌
  Settled-refuse_if true e f s k = refl
  Settled-refuse_if false e f s k = k refl

  pub Settled-get :
      (f : State → Method A) (s : State)
      → Settled Q s.self (f s s)
      → Settled Q s.self ((get >>= f) s)
  unfolding ◌>>=◌
  Settled-get f s h = h

  Settled-continue_in_world :
      {B : Type 0} (f : B → Method A) (s : State) (r : Result B × World)
      → ((b : B) (w : World) → r ≡ (ok b, w) → Settled Q s.self (f b (record s { world = w })))
      → Settled Q s.self (continue (r.0, record s { world = r.1 }) f)
  Settled-continue_in_world f s (ok b, w) k = k b w refl
  Settled-continue_in_world f s (err e, w) k = refl

  -- A call of the platform, with what its success says.
  pub Settled-in_world :
      {B : Type 0} (a : Action B) (f : B → Method A) (s : State)
      → ((b : B) (w : World)
          → a s.world ≡ (ok b, w)
          → Settled Q s.self (f b (record s { world = w })))
      → Settled Q s.self ((in_world a >>= f) s)
  unfolding ◌>>=◌ in_world
  Settled-in_world a f s k = Settled-continue_in_world f s (a s.world) k

  -- A check, with what its success says.
  pub Settled-lift :
      {B : Type 0} (r : Result B) (f : B → Method A) (s : State)
      → ((b : B) → r ≡ ok b → Settled Q s.self (f b s))
      → Settled Q s.self ((lift r >>= f) s)
  unfolding ◌>>=◌
  Settled-lift (ok b) f s k = k b refl
  Settled-lift (err e) f s k = refl

  -- The commit, and an answer that cannot fail behind it.
  pub Settled-transact :
      (change : Change) (f : Method A) (s : State)
      → (change s.world.clock s.self).config_path ≡ s.self.config_path
      → Q (change s.world.clock s.self)
      → ((t : State) → t.self ≡ change s.world.clock s.self → (a : A) × (f t ≡ (ok a, t)))
      → Settled Q s.self ((transact change >> f) s)
  unfolding ◌>>=◌
  Settled-transact change f s e q k =
      Settled-commit change s f q k (transact change s) (transact_lem change s e)

Settled-of_Transacted :
    (Q : Manager → Type 0) (change : Change) (s : State) (r : Result (Unit {0}) × State)
    → Q (change s.world.clock s.self)
    → Transacted change s r
    → Settled Q s.self r
Settled-of_Transacted Q change s (ok u, t) q (h, v) = (rw h q, v)
Settled-of_Transacted Q change s (err x, t) q h = h

-- A method that ends with the commit.
pub Settled-transact_last :
    (Q : Manager → Type 0) (change : Change) (s : State)
    → (change s.world.clock s.self).config_path ≡ s.self.config_path
    → Q (change s.world.clock s.self)
    → Settled Q s.self (transact change s)
Settled-transact_last Q change s e q =
    Settled-of_Transacted Q change s _ q (transact_lem change s e)
