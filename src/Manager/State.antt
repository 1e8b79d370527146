-- ===== src/Manager/State.antt =====
-- core/manager.go: the manager's records, its snapshots, and the heap that its kernel pointer
-- leads to. The pointer is never nil: `NewManager` sets it, and nothing clears it.
use oneagent.Prelude.{
  ℕ, zero, suc, String, Bool, true, false, List, [], ◌∷◌, none, some, Dict, insert, lookup,
}
use oneagent.Config.Types.{InboundConfig, OutboundConfig, RoutingRule, Config, zero_config}
use oneagent.Exec.{Exec}
use oneagent.Platform.{Kernel, World, Action}
use oneagent.Kernel.{Machine, Method as KernelMethod, new_base}

pub record Traffic : Type 0 where
  pub upload_bytes : ℕ
  pub download_bytes : ℕ
  pub updated_at : ℕ

pub record Health : Type 0 where
  pub status : String
  pub latency_ms : ℕ
  pub last_error : String
  pub updated_at : ℕ

pub record Manager : Type 0 where
  -- the address of the kernel object
  pub kernel : ℕ
  pub config_path : String
  pub cfg : Config
  pub inbounds : Dict InboundConfig
  pub outbounds : Dict OutboundConfig
  pub rules : List RoutingRule
  pub traffic : Dict Traffic
  pub health : Dict Health
  pub subscriptions : Dict ℕ

-- `managerSnapshot`
pub record Snapshot : Type 0 where
  pub kernel : ℕ
  pub cfg : Config
  pub inbounds : Dict InboundConfig
  pub outbounds : Dict OutboundConfig
  pub rules : List RoutingRule
  pub traffic : Dict Traffic
  pub health : Dict Health
  pub subscriptions : Dict ℕ

-- The manager, the kernel objects by address, and the world.
pub record State : Type 0 where
  pub self : Manager
  pub kernels : List Kernel
  pub world : World

abbrev pub Method : Type 0 → Type 0
Method A = Exec State A

-- `snapshotLocked`. It copies the maps and the configuration, and the kernel's pointer.
unfoldable pub snapshot_locked : Manager → Snapshot
snapshot_locked m = record {
  kernel = m.kernel;
  cfg = m.cfg;
  inbounds = m.inbounds;
  outbounds = m.outbounds;
  rules = m.rules;
  traffic = m.traffic;
  health = m.health;
  subscriptions = m.subscriptions;
}

-- `restoreLocked`
unfoldable pub restore_locked : Snapshot → Manager → Manager
restore_locked s m = record m {
  kernel = s.kernel;
  cfg = s.cfg;
  inbounds = s.inbounds;
  outbounds = s.outbounds;
  rules = s.rules;
  traffic = s.traffic;
  health = s.health;
  subscriptions = s.subscriptions;
}

-- The object at an address; a placeholder where there is none.
abbrev pub object_at : List Kernel → ℕ → Kernel
object_at [] p = new_base "placeholder" "dry-run"
object_at (k ∷ ks) zero = k
object_at (k ∷ ks) (suc p) = object_at ks p

abbrev pub write_at : List Kernel → ℕ → Kernel → List Kernel
write_at [] p v = []
write_at (k ∷ ks) zero v = v ∷ ks
write_at (k ∷ ks) (suc p) v = k ∷ write_at ks p v

abbrev pub kernel_of : State → Kernel
kernel_of s = object_at s.kernels s.self.kernel

abbrev put_back : State → Machine → State
put_back s t = record s { kernels = write_at s.kernels s.self.kernel t.self; world = t.world }

-- A call of a method of the kernel that the pointer leads to.
unfoldable pub on_kernel : KernelMethod (Unit {0}) → Method (Unit {0})
on_kernel m s = let (r, t) = m (record { self = kernel_of s; world = s.world }) in (r, put_back s t)

unfoldable pub in_world : {A : Type 0} → Action A → Method A
in_world m s = let (r, w) = m s.world in (r, record s { world = w })

-- `ensureTrafficLocked`
unfoldable pub ensure_traffic_locked : ℕ → String → Manager → Manager
ensure_traffic_locked now name m = record m {
  traffic = elim (lookup name m.traffic) [
    | none ↦
        insert name (record { upload_bytes = 0; download_bytes = 0; updated_at = now }) m.traffic
    | some t ↦ m.traffic
  ];
}

abbrev first_health : ℕ → Bool → Health
first_health now true = record {
  status = "disabled";
  latency_ms = 0;
  last_error = "node disabled";
  updated_at = now;
}
first_health now false = record {
  status = "unknown";
  latency_ms = 0;
  last_error = "";
  updated_at = now;
}

-- `ensureHealthLocked`
unfoldable pub ensure_health_locked : ℕ → String → Bool → Manager → Manager
ensure_health_locked now name disabled m = record m {
  health = elim (lookup name m.health) [
    | none ↦ insert name (first_health now disabled) m.health
    | some h ↦ m.health
  ];
}

-- `NewManager`, which makes the first kernel object. The zero `Config` has no server port.
unfoldable pub new_manager : String → World → State
new_manager config_path w = record {
  self = record {
    kernel = 0;
    config_path = config_path;
    cfg = zero_config;
    inbounds = [];
    outbounds = [];
    rules = [];
    traffic = [];
    health = [];
    subscriptions = [];
  };
  kernels = new_base "placeholder" "dry-run" ∷ [];
  world = w;
}
