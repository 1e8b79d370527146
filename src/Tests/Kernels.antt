-- ===== src/Tests/Kernels.antt =====
-- Runs of a kernel.
use oneagent.Prelude.{◌≡◌, refl, true, false, none}
use oneagent.Config.Types.{KernelConfig}
use oneagent.Config.Errors.{ok}
use oneagent.Kernel.{Machine, new_kernel, is_external, start, stop}
use oneagent.Kernel.Invariant.{
  IsConsistent, Reach-IsConsistent, here, next, started, halted, stop_lem,
}
use oneagent.Tests.Fixtures.{world}

abbrev sing_box : KernelConfig
sing_box = record { kind = "sing-box"; executable = "/usr/bin/sing-box"; config_path = "sb.json" }

abbrev fresh : Machine
fresh = record { self = new_kernel sing_box; world = world }

start_runs : ((start fresh).1.self.running ≡ true) × ((start fresh).1.self.pid ≡ 7)
unfolding start new_kernel
start_runs = (refl, refl)

Reach-IsConsistent_example : IsConsistent (stop (start fresh).1).1.self
Reach-IsConsistent_example =
    Reach-IsConsistent sing_box world (next (next here (started fresh)) (halted (start fresh).1))

stop_lem_example :
    ((stop (start fresh).1).1.self.running ≡ false)
    × ((stop (start fresh).1).1.self.pid ≡ 0)
    × ((stop (start fresh).1).1.self.name ≡ (start fresh).1.self.name)
    × ((stop (start fresh).1).1.self.cfg ≡ (start fresh).1.self.cfg)
    × (is_external (start fresh).1.self ≡ true
        → (stop (start fresh).1).0 ≡ ok tt
        → (stop (start fresh).1).1.self.cmd ≡ none)
stop_lem_example = stop_lem (start fresh).1
