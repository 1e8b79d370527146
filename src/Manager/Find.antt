-- ===== src/Manager/Find.antt =====
-- The first item of a list of the configuration that has a name, and what the functions on these
-- lists in core/manager.go do to it.
use oneagent.Prelude.{
  String, ◌≡◌, refl, List, [], ◌∷◌, ◌++◌, Option, none, some, ◌==◌, if◌then◌else◌, arith, eq_iff,
}
use oneagent.Config.Types.{InboundConfig, OutboundConfig}
use oneagent.Manager.Lists.{
  upsert_inbound_config, upsert_outbound_config, delete_inbound_config, delete_outbound_config,
}

unfoldable pub find_inbound : String → List InboundConfig → Option InboundConfig
find_inbound name [] = none
find_inbound name (i ∷ items) = if i.name == name then some i else find_inbound name items

unfoldable pub find_outbound : String → List OutboundConfig → Option OutboundConfig
find_outbound name [] = none
find_outbound name (o ∷ items) = if o.name == name then some o else find_outbound name items

pub find_inbound-name :
    (name : String) (items : List InboundConfig) (i : InboundConfig)
    → find_inbound name items ≡ some i
    → i.name ≡ name
unfolding find_inbound
find_inbound-name name [] i h = ground arith
find_inbound-name name (j ∷ items) i h =
    ground (arith, eq_iff j.name name, find_inbound-name name items i)

pub find_outbound-name :
    (name : String) (items : List OutboundConfig) (o : OutboundConfig)
    → find_outbound name items ≡ some o
    → o.name ≡ name
unfolding find_outbound
find_outbound-name name [] o h = ground arith
find_outbound-name name (p ∷ items) o h =
    ground (arith, eq_iff p.name name, find_outbound-name name items o)

-- An appended item is found where no item of its name stood before.
pub find_inbound-append :
    (name : String) (items : List InboundConfig) (next : InboundConfig)
    → find_inbound next.name items ≡ none
    → find_inbound name (items ++ next ∷ [])
      ≡ (if next.name == name then some next else find_inbound name items)
unfolding find_inbound
find_inbound-append name [] next h = refl
find_inbound-append name (i ∷ items) next h = ground (
  arith,
  eq_iff i.name name,
  eq_iff next.name name,
  eq_iff i.name next.name,
  find_inbound-append name items next,
)

pub find_inbound-upsert :
    (name : String) (items : List InboundConfig) (next : InboundConfig)
    → find_inbound name (upsert_inbound_config items next)
      ≡ (if next.name == name then some next else find_inbound name items)
unfolding find_inbound upsert_inbound_config
find_inbound-upsert name [] next = refl
find_inbound-upsert name (i ∷ items) next = ground (
  arith,
  eq_iff i.name name,
  eq_iff next.name name,
  eq_iff i.name next.name,
  find_inbound-upsert name items next,
)

pub find_outbound-upsert :
    (name : String) (items : List OutboundConfig) (next : OutboundConfig)
    → find_outbound name (upsert_outbound_config items next)
      ≡ (if next.name == name then some next else find_outbound name items)
unfolding find_outbound upsert_outbound_config
find_outbound-upsert name [] next = refl
find_outbound-upsert name (o ∷ items) next = ground (
  arith,
  eq_iff o.name name,
  eq_iff next.name name,
  eq_iff o.name next.name,
  find_outbound-upsert name items next,
)

pub find_inbound-delete :
    (name gone : String) (items : List InboundConfig)
    → find_inbound name (delete_inbound_config items gone)
      ≡ (if gone == name then none else find_inbound name items)
unfolding find_inbound delete_inbound_config
find_inbound-delete name gone [] = ground arith
find_inbound-delete name gone (i ∷ items) = ground (
  arith,
  eq_iff i.name name,
  eq_iff gone name,
  eq_iff i.name gone,
  find_inbound-delete name gone items,
)

pub find_outbound-delete :
    (name gone : String) (items : List OutboundConfig)
    → find_outbound name (delete_outbound_config items gone)
      ≡ (if gone == name then none else find_outbound name items)
unfolding find_outbound delete_outbound_config
find_outbound-delete name gone [] = ground arith
find_outbound-delete name gone (o ∷ items) = ground (
  arith,
  eq_iff o.name name,
  eq_iff gone name,
  eq_iff o.name gone,
  find_outbound-delete name gone items,
)
