-- ===== src/Manager/Commit/Keeps.antt =====
-- Which methods leave the manager's own fields alone: all that a commit calls.
use oneagent.Prelude.{
  ℕ, length, Bool, true, false, ap, if◌then◌else◌, ◌==◌, String, ◌≡◌, refl, ◌∙◌, Option,
}
use oneagent.Config.Errors.{Result, ok, err}
use oneagent.Config.Types.{KernelConfig}
use oneagent.Config.Validate.{validate}
use oneagent.Exec.{Exec, continue, ◌>>=◌, get, lift, modify}
use oneagent.Platform.{File, Action}
use oneagent.Kernel.{Method as KernelMethod, start, stop}
use oneagent.Manager.State.{Manager, State, Method, on_kernel, in_world, kernel_of}
use oneagent.Manager.Persist.{restore_generated_file}
use oneagent.Manager.Commit.{
  install, apply_kernel_locked, commit_locked, undo_with, configure_kernel_locked, kernel_name,
  renew_kernel, reconfigure,
}

-- `m` leaves the manager's fields alone, whether it returns or fails.
pub record Keeps {A : Type 0} (m : Exec State A) : Type 0 where
  pub at : (s : State) → (m s).1.self ≡ s.self

module _ {A : Type 0} where
  pub Keeps-in_world : (a : Action A) → Keeps (in_world a)
  unfolding in_world
  Keeps-in_world a = record { at = λ s. refl }

  Keeps-lift : (r : Result A) → Keeps (lift r)
  Keeps-lift r = record { at = λ s. refl }

Keeps-get : Keeps get
Keeps-get = record { at = λ s. refl }

pub Keeps-on_kernel : (m : KernelMethod (Unit {0})) → Keeps (on_kernel m)
unfolding on_kernel
Keeps-on_kernel m = record { at = λ s. refl }

Keeps-continue :
    {A B : Type 0} (s : State) (m : Result A × State) (f : A → Method B)
    → m.1.self ≡ s.self
    → ((a : A) → Keeps (f a))
    → (continue m f).1.self ≡ s.self
Keeps-continue s (ok a, t) f e kf = (kf a).at t ∙ e
Keeps-continue s (err x, t) f e kf = e

pub Keeps-bind :
    {A B : Type 0} (m : Method A) (f : A → Method B)
    → Keeps m
    → ((a : A) → Keeps (f a))
    → Keeps (m >>= f)
unfolding ◌>>=◌
Keeps-bind m f km kf = record { at = λ s. Keeps-continue s (m s) f (km.at s) kf }

Keeps-undo_with : (h m : Method (Unit {0})) → Keeps h → Keeps m → Keeps (λ s. undo_with h (m s))
Keeps-undo_with h m kh km = record { at = λ s. after s (m s) (km.at s) }
  where
    after :
        (s : State) (r : Result (Unit {0}) × State)
        → r.1.self ≡ s.self
        → (undo_with h r).1.self ≡ s.self
    after s (ok u, t) e = e
    after s (err x, t) e = kh.at t ∙ e

Keeps-install :
    (path : String) (previous : Option File) (file : File) → Keeps (install path previous file)
unfolding apply_kernel_locked
Keeps-install path previous file = Keeps-bind _ _ (Keeps-in_world _) λ _.
    Keeps-undo_with _ _ (Keeps-in_world (restore_generated_file path previous))
      (Keeps-on_kernel start)

pub Keeps-apply_kernel_locked : Keeps apply_kernel_locked
unfolding apply_kernel_locked
Keeps-apply_kernel_locked = Keeps-bind _ _ Keeps-get λ s.
    Keeps-bind _ _ (Keeps-in_world _) λ inbounds.
      Keeps-bind _ _ (Keeps-in_world _)
        λ file. Keeps-bind _ _ (Keeps-in_world _) λ previous. Keeps-install _ previous file

pub Keeps-commit_locked : Keeps commit_locked
unfolding commit_locked
Keeps-commit_locked = Keeps-bind _ _ Keeps-get λ s.
    Keeps-bind _ _ (Keeps-lift (validate s.self.cfg)) λ _.
      Keeps-bind _ _ Keeps-apply_kernel_locked λ _.
        Keeps-bind _ _ (Keeps-in_world _)
          λ _. Keeps-bind _ _ (Keeps-in_world _) λ _. Keeps-in_world _

-- The manager gets a pointer to a kernel, and nothing else of it changes.
abbrev pub Renewed : Manager → Result (Unit {0}) × State → Type 0
Renewed m r = (kernel : ℕ) × (r.1.self ≡ record m { kernel = kernel })

renewed_lem :
    (cfg : KernelConfig) (s : State) (r : Result (Unit {0}) × State)
    → r.1.self ≡ s.self
    → Renewed s.self (continue r (λ _. modify (renew_kernel cfg)))
unfolding configure_kernel_locked
renewed_lem cfg s (ok u, t) same =
    (length t.kernels, ap (λ (m : Manager). record m { kernel = length t.kernels }) same)
renewed_lem cfg s (err e, t) same = (s.self.kernel, same)

pub configure_kernel_lem :
    (cfg : KernelConfig) (s : State) → Renewed s.self (configure_kernel_locked cfg s)
unfolding configure_kernel_locked
configure_kernel_lem cfg s = by_name ((kernel_of s).name == kernel_name cfg)
  where
    by_name :
        (same : Bool)
        → Renewed s.self (
            if same
            then (ok tt, reconfigure cfg s)
            else continue (on_kernel stop s) (λ _. modify (renew_kernel cfg)))
    by_name true = (s.self.kernel, refl)
    by_name false = renewed_lem cfg s (on_kernel stop s) ((Keeps-on_kernel stop).at s)
