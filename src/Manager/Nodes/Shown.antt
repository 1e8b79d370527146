-- ===== src/Manager/Nodes/Shown.antt =====
-- When the view of a node is given.
use oneagent.Prelude.{
  ℕ, String, ◌≡◌, some, lookup, lookup-insert, eq_refl, arith, Option-cases, inl, inr,
}
use oneagent.Config.Errors.{Kind, ok}
use oneagent.Manager.State.{Traffic, Manager, ensure_traffic_locked}
use oneagent.Manager.Nodes.{Node, node_locked, inbound_node, outbound_node, or_zero, health_of}
use oneagent.Config.Types.{zero_inbound, zero_outbound}

-- A node whose traffic entry exists is shown.
pub node_locked_lem :
    (m : Manager) (name : String) (kind : Kind) (t : Traffic)
    → lookup name m.traffic ≡ some t
    → (n : Node) × (node_locked m name kind ≡ ok n)
unfolding node_locked
node_locked_lem m name Kind.inbound t h = (
  inbound_node (or_zero zero_inbound (lookup name m.inbounds)) (health_of m name) t,
  ground arith,
)
node_locked_lem m name Kind.outbound t h = (
  outbound_node (or_zero zero_outbound (lookup name m.outbounds)) (health_of m name) t,
  ground arith,
)

pub ensure_traffic_lem :
    (now : ℕ) (name : String) (m : Manager)
    → (t : Traffic) × (lookup name (ensure_traffic_locked now name m).traffic ≡ some t)
unfolding ensure_traffic_locked
ensure_traffic_lem now name m = elim (Option-cases (lookup name m.traffic)) [
  | inl missing ↦ (
    record { upload_bytes = 0; download_bytes = 0; updated_at = now },
    rw (missing, ensure_traffic_locked) (simp (lookup-insert, eq_refl)),
  )
  | inr (t, found) ↦ (t, rw (found, ensure_traffic_locked) found)
]
