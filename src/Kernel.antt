-- ===== src/Kernel.antt =====
-- core/kernel.go: the life of a kernel process. A method takes the kernel object and the world and
-- gives both back, beside its error.
pub mod Invariant
use oneagent.Prelude.{
  ℕ, suc, ◌+◌, String, Bool, true, false, Option, none, some, ◌==◌, ◌||◌, if◌then◌else◌, Dict,
  insert, lookup, remove,
}
use oneagent.Config.Types.{KernelConfig}
use oneagent.Config.Errors.{Error, platform, Result, ok, err}
use oneagent.Exec.{Exec, continue, ◌>>=◌, ◌>>◌, pure, raise, modify}
use oneagent.Platform.{RuntimeState, File, generated, Kernel, World, Action, call}

pub record Machine : Type 0 where
  pub self : Kernel
  pub world : World

abbrev pub Method : Type 0 → Type 0
Method A = Exec Machine A

-- A call of the platform, from a method.
abbrev outside : Action (Unit {0}) → Method (Unit {0})
outside m s = let (r, w) = m s.world in (r, record s { world = w })

abbrev pub no_kernel : KernelConfig
no_kernel = record { kind = ""; executable = ""; config_path = "" }

abbrev pub new_base : String → String → Kernel
new_base name mode = record {
  name = name;
  mode = mode;
  cfg = no_kernel;
  cmd = none;
  running = false;
  pid = 0;
  last_time = 0;
  last_err = none;
}

-- `Configure`
unfoldable pub configure : KernelConfig → Kernel → Kernel
configure cfg k = record k {
  cfg = record cfg {
    config_path = if cfg.config_path == "" then "kernel.generated.json" else cfg.config_path;
  };
}

-- `NewKernel`
unfoldable pub new_kernel : KernelConfig → Kernel
unfolding configure
new_kernel cfg = configure cfg (
    if cfg.kind == "sing-box"
    then new_base "sing-box" "external"
    else if cfg.kind == "mihomo"
    then new_base "mihomo" "external"
    else new_base "placeholder" "dry-run")

-- `setApplied`
abbrev pub set_applied : Bool → Option Error → Machine → Machine
set_applied running e s = record s {
  self = record (s.self) {
    running = running;
    pid = if running then s.self.pid else 0;
    last_time = s.world.clock;
    last_err = e;
  };
}

-- A step whose failure is recorded before it is returned: `b.setApplied(false, err); return err`.
abbrev or_applied : Result (Unit {0}) × Machine → Result (Unit {0}) × Machine
or_applied (ok u, s) = (ok u, s)
or_applied (err e, s) = (err e, set_applied false (some e) s)

recorded : Method (Unit {0}) → Method (Unit {0})
recorded m s = or_applied (m s)

-- The last block of `stopProcess`.
stopped : Machine → Machine
stopped s = record s {
  self = record (s.self) {
    cmd = none;
    running = false;
    pid = 0;
    last_time = s.world.clock;
    last_err = none;
  };
}

abbrev ignore : Result (Unit {0}) × Machine → Result (Unit {0}) × Machine
ignore (r, s) = (ok tt, s)

-- The `select`: the process ends within three seconds, or it is killed.
await_exit : Result (Unit {0}) × Machine → Result (Unit {0}) × Machine
await_exit (ok u, s) = (ok tt, stopped s)
await_exit (err e, s) = continue (recorded (outside (call "kill")) s) (λ _ t. (ok tt, stopped t))

stop_cmd : Option ℕ → Method (Unit {0})
stop_cmd none s = (ok tt, set_applied false none s)
stop_cmd (some p) s =
    continue (ignore (outside (call "interrupt") s)) (λ _ t. await_exit (outside (call "exit") t))

unfoldable pub stop_process : Method (Unit {0})
unfolding call stop_cmd await_exit stopped recorded
stop_process s = stop_cmd s.self.cmd s

launched : Machine → Machine
launched s = record {
  self = record (s.self) {
    cmd = some s.world.next_pid;
    running = true;
    pid = s.world.next_pid;
    last_time = s.world.clock;
    last_err = none;
  };
  world = record (s.world) { next_pid = suc s.world.next_pid };
}

launch : Method (Unit {0})
unfolding ◌>>=◌
launch = do
  recorded (outside (call "stdout pipe"))
  recorded (outside (call "stderr pipe"))
  recorded (outside (call "start"))
  modify launched

executable_required : Error
executable_required = platform "executable is required"

unfoldable pub start_process : Method (Unit {0})
unfolding stop_process launch launched recorded executable_required
start_process s =
    if s.self.cfg.executable == ""
    then recorded (raise executable_required) s
    else continue (stop_process s) (λ _. launch)

-- `ValidateConfig` of the kernels that run a process.
validate_config : Method (Unit {0})
validate_config s =
    if s.self.cfg.executable == "" then (err executable_required, s) else outside (call "check") s

unfoldable pub is_external : Kernel → Bool
is_external k = k.name == "sing-box" || k.name == "mihomo"

-- `Start`, and `Reload`, which does the same.
unfoldable pub start : Method (Unit {0})
unfolding call is_external validate_config recorded executable_required start_process
start s =
    if is_external s.self
    then continue (recorded validate_config s) (λ _. start_process)
    else (ok tt, set_applied true none s)

-- `Stop`
unfoldable pub stop : Method (Unit {0})
unfolding is_external stop_process
stop s = if is_external s.self then stop_process s else (ok tt, set_applied false none s)

-- The goroutine that waits for the process, when it ends by itself.
unfoldable pub exited : Option Error → Kernel → Kernel
exited none k = record k { cmd = none; running = false; pid = 0 }
exited (some e) k = record k { cmd = none; running = false; pid = 0; last_err = some e }

-- `GenerateConfig`, less the layout of the text.
unfoldable pub generate_config : RuntimeState → Kernel → Action File
unfolding call
generate_config state k w = continue (call "encode" w) (λ _. pure (generated k.name state))
