-- ===== src/Share/Requests.antt =====
-- core/share.go: `ShareInbound` and `ShareOutbound`, which read the manager and change nothing.
use oneagent.Prelude.{String, List, ◌∷◌, none, some, lookup}
use oneagent.Manager.State.{Manager}
use oneagent.Share.Library.{Library, ShareResult, refused, no_inbound, no_outbound}
use oneagent.Share.Hosts.{best_share_host}
use oneagent.Share.Inbound.{inbound_share_link}
use oneagent.Share.Outbound.{outbound_share_link}

module _ (lib : Library) (m : Manager) where
  -- `ShareInbound`; the response has the name of the request and this link.
  unfoldable pub share_inbound : String → List String → ShareResult
  unfolding inbound_share_link best_share_host
  share_inbound name public_hosts = elim (lookup name m.inbounds) [
    | none ↦ refused (no_inbound name)
    | some inbound ↦
        inbound_share_link lib inbound
          (best_share_host lib (m.cfg.server.public_host ∷ public_hosts))
  ]

  -- `ShareOutbound`
  unfoldable pub share_outbound : String → ShareResult
  unfolding outbound_share_link
  share_outbound name = elim (lookup name m.outbounds) [
    | none ↦ refused (no_outbound name)
    | some outbound ↦ outbound_share_link lib outbound
  ]
