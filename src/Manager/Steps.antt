-- ===== src/Manager/Steps.antt =====
-- core/manager.go: the requests of the manager as the steps of its life, which starts at `NewManager`.
-- The lock of the manager makes each request one step.
use oneagent.Prelude.{ℕ, String, Bool, List, Option, insert}
use oneagent.Config.Types.{
  InboundConfig, OutboundConfig, RoutingConfig, KernelConfig, MihomoConfig, Config,
}
use oneagent.Exec.{◌>>=◌, pure}
use oneagent.Platform.{Kernel, World}
use oneagent.Kernel.{stop}
use oneagent.Manager.State.{Health, Manager, State, Method, new_manager, on_kernel}
use oneagent.Manager.Commit.{update, apply_kernel_locked}
use oneagent.Manager.Requests.{
  ProxyCreateRequest, create_proxy, ForwardCreateRequest, create_forward, upsert_inbound,
  upsert_outbound, update_mihomo_config, update_routing_config, update_kernel_config,
}
use oneagent.Manager.Switch.{
  BatchNodeItem, delete_node, delete_nodes, set_node_enabled, set_nodes_enabled,
}
use oneagent.Manager.Apply.{apply_config}
use oneagent.Manager.Import.{ImportOutboundsOptions, import_outbounds}
use oneagent.Manager.Subscriptions.{due_subscription_providers, mark_subscription_updated}
use oneagent.Manager.History.{restore_config_history}

-- `ReloadKernel`
unfoldable pub reload_kernel : Method (Unit {0})
unfolding apply_kernel_locked
reload_kernel = apply_kernel_locked

-- `StopKernel`
unfoldable pub stop_kernel : Method (Unit {0})
unfolding on_kernel
stop_kernel = on_kernel stop

-- What `TestNode` and `probeAllNodes` write: the health of a node that a probe has found.
unfoldable pub record_health : String → Health → Manager → Manager
record_health name health m = record m { health = insert name health m.health }

pub data Request : Type 0 where
  apply : Config → Request
  add_proxy : ProxyCreateRequest → Request
  add_forward : ForwardCreateRequest → Request
  put_inbound : InboundConfig → Request
  put_outbound : OutboundConfig → Request
  import_nodes : ImportOutboundsOptions → List OutboundConfig → Request
  delete : String → String → Request
  delete_all : List BatchNodeItem → Request
  switch : String → String → Bool → Request
  switch_all : List BatchNodeItem → Bool → Request
  set_routing : RoutingConfig → Request
  set_mihomo : MihomoConfig → Request
  set_kernel : KernelConfig → Request
  restore_history : ℕ → Request
  reload : Request
  halt : Request
  probed : String → Health → Request
  due_subscriptions : Request
  fetched : String → Request

abbrev pub done : {A : Type 0} → Method A → Method (Unit {0})
done m = m >>= λ _. pure tt

module _ (parse_link : String → Option OutboundConfig) where
  -- The answer of a request is left out; whether it is an error is kept.
  unfoldable pub handle : Request → Method (Unit {0})
  unfolding apply_config create_proxy create_forward upsert_inbound upsert_outbound import_outbounds
      delete_node delete_nodes set_node_enabled set_nodes_enabled update_routing_config
      update_mihomo_config update_kernel_config restore_config_history reload_kernel stop_kernel
      record_health due_subscription_providers mark_subscription_updated
  handle (apply cfg) = apply_config parse_link cfg
  handle (add_proxy req) = done (create_proxy req)
  handle (add_forward req) = done (create_forward req)
  handle (put_inbound i) = done (upsert_inbound i)
  handle (put_outbound o) = done (upsert_outbound o)
  handle (import_nodes options given) = done (import_outbounds parse_link options given)
  handle (delete node_type name) = delete_node node_type name
  handle (delete_all items) = done (delete_nodes items)
  handle (switch node_type name enabled) = done (set_node_enabled node_type name enabled)
  handle (switch_all items enabled) = done (set_nodes_enabled items enabled)
  handle (set_routing routing) = update_routing_config routing
  handle (set_mihomo cfg) = update_mihomo_config cfg
  handle (set_kernel cfg) = update_kernel_config cfg
  handle (restore_history id) = restore_config_history parse_link id
  handle reload = reload_kernel
  handle halt = stop_kernel
  handle (probed name health) = update (record_health name health)
  handle due_subscriptions = done due_subscription_providers
  handle (fetched name) = mark_subscription_updated name

  -- A request, or a change of the world or of a kernel object behind the manager's back, as when
  -- its process ends.
  pub data Step : State → State → Type 0 where
    request : (r : Request) {s : State} → Step s (handle r s).1
    outside :
        (kernels : List Kernel) (world : World) {s : State}
        → Step s (record s { kernels = kernels; world = world })

  -- What a manager can become.
  pub data Reach (config_path : String) (world : World) : State → Type 0 where
    start : Reach config_path world (new_manager config_path world)
    after : {s t : State} → Reach config_path world s → Step s t → Reach config_path world t
