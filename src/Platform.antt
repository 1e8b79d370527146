-- ===== src/Platform.antt =====
-- What the agent reads and changes outside its own records: the clock, the
-- files, the database, and the outcomes of the calls that may fail. A run is judged for every list
-- of outcomes; past its end all calls succeed.
use oneagent.Prelude.{ℕ, String, Bool, true, false, List, [], ◌∷◌, Dict, ℤ, Option}
use oneagent.Config.Types.{
  KernelConfig, Config, InboundConfig, OutboundConfig, RoutingConfig, MihomoConfig,
}
use oneagent.Config.Errors.{Error, platform, Result, ok, err}
use oneagent.Exec.{Exec}

-- core/kernel.go: `RuntimeState`
pub record RuntimeState : Type 0 where
  pub inbounds : List InboundConfig
  pub outbounds : List OutboundConfig
  pub routing : RoutingConfig
  pub mihomo : MihomoConfig

-- What a file holds: the value that was encoded into it.
pub data File : Type 0 where
  generated : String → RuntimeState → File
  saved : Config → File
  -- a PEM block, and what a write that was broken off has left
  pem : File
  partial : File

-- core/kernel.go: `baseKernel`, with the name that the kernel's type answers.
pub record Kernel : Type 0 where
  pub name : String
  pub mode : String
  pub cfg : KernelConfig
  -- `cmd`, by the process id that the platform gave it
  pub cmd : Option ℕ
  pub running : Bool
  pub pid : ℕ
  pub last_time : ℕ
  pub last_err : Option Error

-- core/database.go: the rows of `nodes`, `traffic_stats` and `config_history`, less their times.
pub record NodeRow : Type 0 where
  pub name : String
  pub kind : String
  pub protocol : String
  pub address : String
  pub port : ℤ
  pub status : String

pub record HistoryRow : Type 0 where
  pub id : ℕ
  pub content : Config
  pub created_at : ℕ

pub record Database : Type 0 where
  pub nodes : List NodeRow
  pub routing_rules : List (String × String)
  pub traffic_stats : List (String × ℕ × ℕ)
  -- the newest row first
  pub config_history : List HistoryRow
  pub next_id : ℕ

pub record World : Type 0 where
  pub clock : ℕ
  pub next_pid : ℕ
  pub files : Dict File
  pub db : Database
  pub outcomes : List Bool

abbrev pub Action : Type 0 → Type 0
Action A = Exec World A

abbrev outcome_of : String → List Bool → Result (Unit {0})
outcome_of what [] = ok tt
outcome_of what (true ∷ r) = ok tt
outcome_of what (false ∷ r) = err (platform what)

abbrev rest_of : List Bool → List Bool
rest_of [] = []
rest_of (b ∷ r) = r

-- A call that may fail, and that changes nothing that is modelled.
unfoldable pub call : String → Action (Unit {0})
call what w = (outcome_of what w.outcomes, record w { outcomes = rest_of w.outcomes })
