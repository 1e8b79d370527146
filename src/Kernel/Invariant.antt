-- ===== src/Kernel/Invariant.antt =====
-- What holds of a kernel object between the calls of its methods.
use oneagent.Prelude.{
  ℕ, ◌≡◌, refl, true, false, Option, none, some, arith, ◌==◌, Bool-cases, inl, inr, ◌⊎◌, String, ap,
  ◌∙◌,
}
use oneagent.Config.Types.{KernelConfig}
use oneagent.Config.Errors.{Error, Result, ok, err}
use oneagent.Exec.{continue}
use oneagent.Platform.{Kernel, World, call}
use oneagent.Kernel.{
  Machine, Method, outside, configure, new_kernel, recorded, stop_cmd, stop_process, launch,
  launched, validate_config, start_process, is_external, start, stop, exited, or_applied,
}

-- The kernel's type and configuration are left alone; it is marked as not running.
abbrev Idle : Kernel → Kernel → Type 0
Idle k k' = (k'.running ≡ false) × (k'.pid ≡ 0) × (k'.name ≡ k.name) × (k'.cfg ≡ k.cfg)

outside_self : (what : String) (s : Machine) → (outside (call what) s).1.self ≡ s.self
unfolding call
outside_self what s = refl

stop_cmd-Idle : (c : Option ℕ) (s : Machine) → Idle s.self (stop_cmd c s).1.self
unfolding stop_process call
stop_cmd-Idle none s = (refl, refl, refl, refl)
stop_cmd-Idle (some p) s = ground arith

stop_process-Idle : (s : Machine) → Idle s.self (stop_process s).1.self
unfolding stop_process
stop_process-Idle s = stop_cmd-Idle s.self.cmd s

stop_cmd_done :
    (c : Option ℕ) (s : Machine)
    → s.self.cmd ≡ c
    → (stop_cmd c s).0 ≡ ok tt
    → (stop_cmd c s).1.self.cmd ≡ none
unfolding stop_process call
stop_cmd_done none s e h = e
stop_cmd_done (some p) s e h = ground arith

-- A step before the process runs: it may fail, and then the kernel is marked as not running.
abbrev Prepared : Machine → Result (Unit {0}) × Machine → Type 0
Prepared s (ok u, t) = t.self ≡ s.self
Prepared s (err e, t) = Idle s.self t.self

Prepared-or_applied :
    (s t : Machine) (r : Result (Unit {0})) → t.self ≡ s.self → Prepared s (or_applied (r, t))
Prepared-or_applied s t (ok u) e = e
Prepared-or_applied s t (err x) e = ground arith

recorded-call : (what : String) (s : Machine) → Prepared s (recorded (outside (call what)) s)
unfolding start_process call
recorded-call what s = Prepared-or_applied s _ _ refl

-- What a start leaves: a process whose id the kernel shows, or a kernel marked as not running.
abbrev Started : Kernel → Result (Unit {0}) × Machine → Type 0
Started k (ok u, t) =
    (t.self.running ≡ true) × (t.self.cmd ≡ some t.self.pid) × (t.self.name ≡ k.name)
Started k (err e, t) = (t.self.running ≡ false) × (t.self.pid ≡ 0) × (t.self.name ≡ k.name)

Started-continue :
    (s : Machine) (m : Result (Unit {0}) × Machine) (next : Method (Unit {0}))
    → Prepared s m
    → ((t : Machine) → t.self ≡ s.self → Started s.self (next t))
    → Started s.self (continue m (λ _. next))
Started-continue s (ok u, t) next p k = k t p
Started-continue s (err e, t) next (a, b, c, d) k = (a, b, c)

Started-trans :
    (s t : Machine) (r : Result (Unit {0}) × Machine)
    → t.self ≡ s.self
    → Started t.self r
    → Started s.self r
Started-trans s t r e h = rw (← e) h

Started-name :
    (k : Kernel) (t : Machine) (r : Result (Unit {0}) × Machine)
    → t.self.name ≡ k.name
    → Started t.self r
    → Started k r
Started-name k t (ok u, v) e (a, b, c) = (a, b, c ∙ e)
Started-name k t (err x, v) e (a, b, c) = (a, b, c ∙ e)

launched_lem : (k : Kernel) (t : Machine) → t.self ≡ k → Started k (ok tt, launched t)
unfolding start_process
launched_lem k t e = (refl, refl, ap (λ (x : Kernel). x.name) e)

launch_lem : (s : Machine) → Started s.self (launch s)
unfolding start_process
launch_lem s = Started-continue s _ _ (recorded-call "stdout pipe" s) λ t et.
    Started-trans s t _ et (
      Started-continue t _ _ (recorded-call "stderr pipe" t) λ u eu.
        Started-trans t u _ eu
          (Started-continue u _ _ (recorded-call "start" u) λ v ev. launched_lem u.self v ev))

start_process_lem : (s : Machine) → Started s.self (start_process s)
unfolding start_process
start_process_lem s = elim (Bool-cases (s.self.cfg.executable == "")) [
  | inl missing ↦ rw missing (refl, refl, refl)
  | inr given ↦ rw given (after (stop_process s) (stop_process-Idle s))
]
  where
    after :
        (m : Result (Unit {0}) × Machine)
        → Idle s.self m.1.self
        → Started s.self (continue m (λ _. launch))
    after (ok u, t) (a, b, name, d) = Started-name s.self t _ name (launch_lem t)
    after (err e, t) (a, b, name, d) = (a, b, name)

validate_config_lem : (s : Machine) → Prepared s (recorded validate_config s)
unfolding start call
validate_config_lem s = elim (Bool-cases (s.self.cfg.executable == "")) [
  | inl missing ↦ rw missing (refl, refl, refl, refl)
  | inr given ↦ rw given (Prepared-or_applied s _ _ refl)
]

-- Start and reload of a kernel that runs a process.
start_external : (s : Machine) → is_external s.self ≡ true → Started s.self (start s)
unfolding start
start_external s e = rw e (
    Started-continue s _ _ (validate_config_lem s)
      λ t et. Started-trans s t _ et (start_process_lem t))

-- A kernel that is marked as not running shows no process id; one that runs a process and is marked as
-- running shows the id of its command.
pub record IsConsistent (k : Kernel) : Type 0 where
  pub idle : (k.running ≡ true) ⊎ (k.pid ≡ 0)
  pub live : (is_external k ≡ false) ⊎ (k.running ≡ false) ⊎ (k.cmd ≡ some k.pid)

Started-IsConsistent :
    (k : Kernel) (m : Result (Unit {0}) × Machine) → Started k m → IsConsistent m.1.self
Started-IsConsistent k (ok u, t) (a, b, c) = record { idle = inl a; live = inr (inr b) }
Started-IsConsistent k (err e, t) (a, b, c) = record { idle = inr b; live = inr (inl a) }

Idle-IsConsistent : (k k' : Kernel) → Idle k k' → IsConsistent k'
Idle-IsConsistent k k' (a, b, c, d) = record { idle = inr b; live = inr (inl a) }

start-IsConsistent : (s : Machine) → IsConsistent s.self → IsConsistent (start s).1.self
unfolding start
start-IsConsistent s v = elim (Bool-cases (is_external s.self)) [
  | inl ext ↦ Started-IsConsistent s.self (start s) (start_external s ext)
  | inr not_ext ↦ rw not_ext (record { idle = inl refl; live = inl not_ext })
]

stop-Idle : (s : Machine) → Idle s.self (stop s).1.self
unfolding stop
stop-Idle s = elim (Bool-cases (is_external s.self)) [
  | inl ext ↦ rw ext (stop_process-Idle s)
  | inr not_ext ↦ rw not_ext (refl, refl, refl, refl)
]

-- What may happen to a kernel: its methods, and the end of its process.
pub data Step : Machine → Machine → Type 0 where
  started : (s : Machine) → Step s (start s).1
  halted : (s : Machine) → Step s (stop s).1
  configured :
      (s : Machine) (cfg : KernelConfig) → Step s (record s { self = configure cfg s.self })
  ended :
      (s : Machine) (p : ℕ) (e : Option Error)
      → s.self.cmd ≡ some p
      → Step s (record s { self = exited e s.self })
  -- The rest of the world moves on.
  elsewhere : (s : Machine) (w : World) → Step s (record s { world = w })

pub data Reach (s : Machine) : Machine → Type 0 where
  here : Reach s s
  next : {t u : Machine} → Reach s t → Step t u → Reach s u

Step-IsConsistent : {s t : Machine} → Step s t → IsConsistent s.self → IsConsistent t.self
unfolding exited configure is_external
Step-IsConsistent (started s) v = start-IsConsistent s v
Step-IsConsistent (halted s) v = Idle-IsConsistent s.self _ (stop-Idle s)
Step-IsConsistent (configured s cfg) v = record { idle = v.idle; live = v.live }
Step-IsConsistent (ended s p none h) v = record { idle = inr refl; live = inr (inl refl) }
Step-IsConsistent (ended s p (some e) h) v = record { idle = inr refl; live = inr (inl refl) }
Step-IsConsistent (elsewhere s w) v = v

new_kernel-IsConsistent : (cfg : KernelConfig) → IsConsistent (new_kernel cfg)
unfolding new_kernel
new_kernel-IsConsistent cfg = record { idle = ground arith; live = inr (inl (ground arith)) }

Reach-IsConsistent_from : {s t : Machine} → IsConsistent s.self → Reach s t → IsConsistent t.self
Reach-IsConsistent_from v here = v
Reach-IsConsistent_from v (next r st) = Step-IsConsistent st (Reach-IsConsistent_from v r)

-- After any sequence of starts, reloads, stops, configurations and ends of its process, whichever
-- calls of the platform fail, a kernel object made by `NewKernel` shows the process id 0 while it is
-- marked as not running, and if it is of a type that runs a process and is marked as running, its
-- command is the process whose id it shows. What the command is while it is marked as not running is
-- not said.
pub Reach-IsConsistent :
    (cfg : KernelConfig) (w : World) {t : Machine}
    → Reach (record { self = new_kernel cfg; world = w }) t
    → IsConsistent t.self
Reach-IsConsistent cfg w r = Reach-IsConsistent_from (new_kernel-IsConsistent cfg) r

-- After `Stop` a kernel is marked as not running and shows no process id, also when the process could
-- not be killed and the error is returned; its type and configuration stay. If `Stop` succeeds on a
-- kernel that runs a process, the kernel has no command left.
pub stop_lem :
    (s : Machine)
    → ((stop s).1.self.running ≡ false)
      × ((stop s).1.self.pid ≡ 0)
      × ((stop s).1.self.name ≡ s.self.name)
      × ((stop s).1.self.cfg ≡ s.self.cfg)
      × (is_external s.self ≡ true → (stop s).0 ≡ ok tt → (stop s).1.self.cmd ≡ none)
unfolding stop stop_process
stop_lem s =
    let (idle, no_pid, name, cfg) = stop-Idle s in
    (idle, no_pid, name, cfg, λ ext. rw ext (λ done. stop_cmd_done s.self.cmd s refl done))
