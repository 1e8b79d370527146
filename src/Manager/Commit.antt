-- ===== src/Manager/Commit.antt =====
-- core/manager.go: the commit of a changed configuration, and its rollback.
pub mod Keeps
pub mod Atomic
use oneagent.Prelude.{
  ℕ, String, Bool, true, false, not, List, [], ◌∷◌, ◌++◌, Option, none, some, ◌==◌, if◌then◌else◌,
  length, ◌&&◌,
}
use oneagent.Config.Types.{
  InboundConfig, OutboundConfig, RoutingRule, RoutingConfig, KernelConfig, MihomoConfig, Config,
}
use oneagent.Config.Errors.{Error, rollback_failed, Result, ok, err}
use oneagent.Config.Validate.{validate}
use oneagent.Exec.{Exec, continue, ◌>>=◌, ◌>>◌, pure, raise, lift, get, modify}
use oneagent.Platform.{RuntimeState, File, Kernel, World, Action}
use oneagent.Kernel.{configure, new_kernel, start, stop, generate_config}
use oneagent.Certs.{ensure_inbound_tls_assets}
use oneagent.Manager.State.{
  Manager, Snapshot, State, Method, snapshot_locked, restore_locked, write_at, kernel_of, on_kernel,
  in_world,
}
use oneagent.Manager.Runtime.{enabled_runtime}
use oneagent.Manager.Persist.{
  read_generated_file, save_generated_file, restore_generated_file, save_config_locked,
  persist_config_locked, persist_runtime_locked,
}

-- A change of the manager's own fields.
abbrev pub update : (Manager → Manager) → Method (Unit {0})
update f s = (ok tt, record s { self = f s.self })

-- A handler that runs where a call fails; the error of the call is the one that is returned.
abbrev pub undo_with : Method (Unit {0}) → Result (Unit {0}) × State → Result (Unit {0}) × State
undo_with h (ok u, s) = (ok u, s)
undo_with h (err e, s) = (err e, (h s).1)

-- The part of `applyKernelLocked` behind the generated configuration. `Reload` does what `Start`
-- does for every kernel, so that the two branches on `status.Running` are one.
install : String → Option File → File → Method (Unit {0})
install path previous file = do
  in_world (save_generated_file path file)
  λ s. undo_with (in_world (restore_generated_file path previous)) (on_kernel start s)

runtime_state : Manager → List InboundConfig → RuntimeState
runtime_state m inbounds =
    let (ins, outs, routing) = enabled_runtime m.cfg.inbounds m.cfg.outbounds m.cfg.routing in
    record { inbounds = inbounds; outbounds = outs; routing = routing; mihomo = m.cfg.mihomo }

unfoldable pub apply_kernel_locked : Method (Unit {0})
unfolding install runtime_state enabled_runtime on_kernel in_world
apply_kernel_locked = do
  s ← get
  inbounds ← in_world (
      ensure_inbound_tls_assets
        (enabled_runtime s.self.cfg.inbounds s.self.cfg.outbounds s.self.cfg.routing).0)
  file ← in_world (generate_config (runtime_state s.self inbounds) (kernel_of s))
  previous ← in_world (read_generated_file s.self.cfg.kernel.config_path)
  install s.self.cfg.kernel.config_path previous file

unfoldable pub commit_locked : Method (Unit {0})
unfolding in_world
commit_locked = do
  s ← get
  lift (validate s.self.cfg)
  apply_kernel_locked
  in_world (save_config_locked s.self)
  in_world (persist_config_locked s.self.cfg)
  in_world (persist_runtime_locked s.self)

-- The error that is returned when the commit fails with `e` and the kernel is applied again.
abbrev roll_back : Error → Result (Unit {0}) × State → Result (Unit {0}) × State
roll_back e (ok u, s) = (err e, s)
roll_back e (err r, s) = (err (rollback_failed e r), s)

abbrev or_roll_back : Snapshot → Result (Unit {0}) × State → Result (Unit {0}) × State
or_roll_back snapshot (ok u, s) = (ok u, s)
or_roll_back snapshot (err e, s) =
    roll_back e (apply_kernel_locked (record s { self = restore_locked snapshot s.self }))

unfoldable pub commit_with_rollback_locked : Snapshot → Method (Unit {0})
commit_with_rollback_locked snapshot s = or_roll_back snapshot (commit_locked s)

-- `kernelName`
unfoldable pub kernel_name : KernelConfig → String
kernel_name cfg =
    if cfg.kind == "sing-box"
    then "sing-box"
    else if cfg.kind == "mihomo"
    then "mihomo"
    else "placeholder"

-- A new kernel object, and the pointer set to it.
renew_kernel : KernelConfig → State → State
renew_kernel cfg s = record s {
  self = record (s.self) { kernel = length s.kernels };
  kernels = s.kernels ++ new_kernel cfg ∷ [];
}

reconfigure : KernelConfig → State → State
reconfigure cfg s = record s {
  kernels = write_at s.kernels s.self.kernel (configure cfg (kernel_of s));
}

-- `configureKernelLocked`
unfoldable pub configure_kernel_locked : KernelConfig → Method (Unit {0})
unfolding kernel_name renew_kernel reconfigure on_kernel
configure_kernel_locked cfg s =
    if (kernel_of s).name == kernel_name cfg
    then (ok tt, reconfigure cfg s)
    else continue (on_kernel stop s) (λ _. modify (renew_kernel cfg))

abbrev sing_box_path : String → Bool
sing_box_path path =
    if path == ""
    then true
    else if path == "kernel.generated.json"
    then true
    else path == "mihomo.generated.yaml"

abbrev mihomo_path : String → Bool
mihomo_path path =
    if path == ""
    then true
    else if path == "kernel.generated.json"
    then true
    else path == "sing-box.generated.json"

-- `normalizeKernelConfig`: the defaults, and then those of the type.
default_kernel_config : KernelConfig → KernelConfig
default_kernel_config cfg = record cfg {
  kind = if cfg.kind == "" then "placeholder" else cfg.kind;
  config_path = if cfg.config_path == "" then "kernel.generated.json" else cfg.config_path;
}

typed_kernel_config : KernelConfig → KernelConfig
typed_kernel_config cfg =
    if cfg.kind == "sing-box"
    then record cfg {
      executable =
          if cfg.executable == ""
          then "/usr/local/bin/sing-box"
          else if cfg.executable == "/usr/local/bin/mihomo"
          then "/usr/local/bin/sing-box"
          else cfg.executable;
      config_path =
          if sing_box_path cfg.config_path then "sing-box.generated.json" else cfg.config_path;
    }
    else if cfg.kind == "mihomo"
    then record cfg {
      executable =
          if cfg.executable == ""
          then "/usr/local/bin/mihomo"
          else if cfg.executable == "/usr/local/bin/sing-box"
          then "/usr/local/bin/mihomo"
          else cfg.executable;
      config_path =
          if mihomo_path cfg.config_path then "mihomo.generated.yaml" else cfg.config_path;
    }
    else cfg

unfoldable pub normalize_kernel_config : KernelConfig → KernelConfig
unfolding default_kernel_config typed_kernel_config
normalize_kernel_config cfg = typed_kernel_config (default_kernel_config cfg)
