-- ===== src/Manager/Synced/Load.antt =====
-- core/manager.go: the loops of `ApplyConfig` fill the maps with the nodes of the configuration.
use oneagent.Prelude.{
  ℕ, String, true, ◌≡◌, refl, ◌∙◌, List, [], ◌∷◌, Option, none, some, one_of, lookup, lookup-insert,
  arith, eq_iff,
}
use oneagent.Config.Types.{InboundConfig, OutboundConfig, Config}
use oneagent.Config.Names.{inbound_names, outbound_names, Distinct}
use oneagent.Manager.State.{Manager, ensure_traffic_locked, ensure_health_locked}
use oneagent.Manager.Find.{find_inbound, find_outbound}
use oneagent.Manager.Apply.{load_inbounds, load_outbounds, load_config}
use oneagent.Manager.Synced.{IsSynced}

abbrev or_else : {A : Type 0} → Option A → Option A → Option A
or_else (some a) other = some a
or_else none other = other

-- A name that was seen before is not the name of a later item.
seen_inbound :
    (name : String) (seen : List String) (items : List InboundConfig)
    → Distinct seen (inbound_names items)
    → one_of name seen ≡ true
    → find_inbound name items ≡ none
unfolding find_inbound one_of
seen_inbound name seen [] h k = refl
seen_inbound name seen (i ∷ items) h k =
    ground (arith, h.0, eq_iff i.name name, seen_inbound name (i.name ∷ seen) items h.1)

seen_outbound :
    (name : String) (seen : List String) (items : List OutboundConfig)
    → Distinct seen (outbound_names items)
    → one_of name seen ≡ true
    → find_outbound name items ≡ none
unfolding find_outbound one_of
seen_outbound name seen [] h k = refl
seen_outbound name seen (o ∷ items) h k =
    ground (arith, h.0, eq_iff o.name name, seen_outbound name (o.name ∷ seen) items h.1)

load_inbounds_lem :
    (now : ℕ) (name : String) (seen : List String) (items : List InboundConfig) (m : Manager)
    → Distinct seen (inbound_names items)
    → lookup name (load_inbounds now items m).inbounds
      ≡ or_else (find_inbound name items) (lookup name m.inbounds)
unfolding find_inbound load_config ensure_traffic_locked ensure_health_locked one_of
load_inbounds_lem now name seen [] m h = refl
load_inbounds_lem now name seen (i ∷ items) m h =
    load_inbounds_lem now name (i.name ∷ seen) items _ h.1
    ∙ ground (
      arith,
      lookup-insert i.name name i m.inbounds,
      eq_iff i.name name,
      seen_inbound name (i.name ∷ seen) items h.1,
    )

load_outbounds_lem :
    (now : ℕ) (name : String) (seen : List String) (items : List OutboundConfig) (m : Manager)
    → Distinct seen (outbound_names items)
    → lookup name (load_outbounds now items m).outbounds
      ≡ or_else (find_outbound name items) (lookup name m.outbounds)
unfolding find_outbound load_config ensure_traffic_locked ensure_health_locked one_of
load_outbounds_lem now name seen [] m h = refl
load_outbounds_lem now name seen (o ∷ items) m h =
    load_outbounds_lem now name (o.name ∷ seen) items _ h.1
    ∙ ground (
      arith,
      lookup-insert o.name name o m.outbounds,
      eq_iff o.name name,
      seen_outbound name (o.name ∷ seen) items h.1,
    )

-- What the loops leave alone.
load_inbounds-cfg :
    (now : ℕ) (items : List InboundConfig) (m : Manager)
    → ((load_inbounds now items m).cfg ≡ m.cfg)
      × ((load_inbounds now items m).config_path ≡ m.config_path)
unfolding load_config ensure_traffic_locked ensure_health_locked
load_inbounds-cfg now [] m = (refl, refl)
load_inbounds-cfg now (i ∷ items) m = load_inbounds-cfg now items _

load_outbounds-cfg :
    (now : ℕ) (items : List OutboundConfig) (m : Manager)
    → ((load_outbounds now items m).cfg ≡ m.cfg)
      × ((load_outbounds now items m).config_path ≡ m.config_path)
      × ((load_outbounds now items m).inbounds ≡ m.inbounds)
unfolding load_config ensure_traffic_locked ensure_health_locked
load_outbounds-cfg now [] m = (refl, refl, refl)
load_outbounds-cfg now (o ∷ items) m = load_outbounds-cfg now items _

or_else-none : {A : Type 0} (o : Option A) → or_else o none ≡ o
or_else-none none = refl
or_else-none (some a) = refl

pub load_config-IsSynced :
    (now : ℕ) (cfg : Config) (m : Manager)
    → Distinct [] (inbound_names cfg.inbounds)
    → Distinct [] (outbound_names cfg.outbounds)
    → IsSynced (load_config now cfg m)
unfolding load_config lookup
load_config-IsSynced now cfg m ins outs =
    let m1 = load_inbounds now cfg.inbounds (record m { cfg = cfg; inbounds = [] }) in
    let (cfg1, _) = load_inbounds-cfg now cfg.inbounds (record m { cfg = cfg; inbounds = [] }) in
    let (cfg2, _, same) = load_outbounds-cfg now cfg.outbounds (record m1 { outbounds = [] }) in
    record {
      inbounds = λ name.
          rw (same, cfg2, cfg1) (load_inbounds_lem now name [] cfg.inbounds _ ins ∙ or_else-none _);
      outbounds = λ name.
          rw (cfg2, cfg1) (load_outbounds_lem now name [] cfg.outbounds _ outs ∙ or_else-none _);
      rules = rw (cfg2, cfg1) refl;
    }

pub load_config-path :
    (now : ℕ) (cfg : Config) (m : Manager) → (load_config now cfg m).config_path ≡ m.config_path
unfolding load_config
load_config-path now cfg m =
    (load_outbounds-cfg now cfg.outbounds _).1 ∙ (load_inbounds-cfg now cfg.inbounds _).1

pub load_config-cfg : (now : ℕ) (cfg : Config) (m : Manager) → (load_config now cfg m).cfg ≡ cfg
unfolding load_config
load_config-cfg now cfg m =
    (load_outbounds-cfg now cfg.outbounds _).0 ∙ (load_inbounds-cfg now cfg.inbounds _).0
