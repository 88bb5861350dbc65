-- ===== src/Proxy.antt =====
-- crates/e2etest-scylla-proxy-cluster/src/lib.rs: the actor that manages a proxy before a cluster.
-- The proxy itself is a library's: the record `ProxyLibrary`.
pub mod Handle
pub mod Rules
use e2etest_rs.Prelude.{ℕ, Bool, Option, none, some, List, [], ◌∷◌, map}
use e2etest_rs.System.Command.{Ipv4Addr}
use e2etest_rs.Runner.Runtime.{◌>>=◌, ◌>>◌, pure}

abbrev pub SocketAddr : Type 0
SocketAddr = Ipv4Addr × ℕ

abbrev pub default_scylla_cql_port : ℕ
default_scylla_cql_port = 9042

-- `ScyllaProxyNodeConfig`
pub record NodeConfig : Type 0 where
  pub real_addr : Ipv4Addr
  pub proxy_addr : Ipv4Addr

-- What `Node::builder()` is given, with `ShardAwareness::QueryNode`.
pub record ProxyNode : Type 0 where
  pub real_address : SocketAddr
  pub proxy_address : SocketAddr

-- `run` starts a proxy, or fails; `finish` ends it and says whether that went well; the rules are
-- changed node by node, but `turn_off_rules`.
pub record ProxyLibrary : Type 1 where
  pub World : Type 0
  pub RunningProxy : Type 0
  pub RunningNode : Type 0
  pub RequestRule : Type 0
  pub ResponseRule : Type 0
  pub translation_map : List ProxyNode → List (SocketAddr × SocketAddr)
  pub run : List ProxyNode → World → Option RunningProxy × World
  pub finish : RunningProxy → World → Bool × World
  pub running_nodes : RunningProxy → List RunningNode
  pub with_running_nodes : List RunningNode → RunningProxy → RunningProxy
  pub change_node_requests : Option (List RequestRule) → RunningNode → RunningNode
  pub change_node_responses : Option (List ResponseRule) → RunningNode → RunningNode
  pub turn_off_proxy : RunningProxy → RunningProxy

module _ (lib : ProxyLibrary) where
  -- The messages of `ScyllaProxyCluster`, without the channels of their answers.
  pub data Message : Type 0 where
    start : List NodeConfig → Message
    stop : Message
    change_request_rules : Option (List lib.RequestRule) → Message
    change_response_rules : Option (List lib.ResponseRule) → Message
    turn_off_rules : Message

  abbrev pub Io : Type 0 → Type 0
  Io A = lib.World → Option (A × lib.World)

-- What is sent on the channel of the message.
pub data Answer : Type 0 where
  translations : List (SocketAddr × SocketAddr) → Answer
  done : Answer

abbrev pub proxy_node : NodeConfig → ProxyNode
proxy_node cfg = record {
  real_address = (cfg.real_addr, default_scylla_cql_port);
  proxy_address = (cfg.proxy_addr, default_scylla_cql_port);
}

module _ (lib : ProxyLibrary) where
  -- An error of `finish` is logged only.
  unfoldable pub stop_proxy : Option lib.RunningProxy → Io lib (Option lib.RunningProxy)
  stop_proxy none w = some (none, w)
  stop_proxy (some proxy) w = let (ended, w') = lib.finish proxy w in some (none, w')

  unfoldable pub start_proxy :
      List NodeConfig
      → Option lib.RunningProxy
      → Io lib (List (SocketAddr × SocketAddr) × Option lib.RunningProxy)
  start_proxy [] proxy = pure ([], proxy)
  start_proxy (cfg ∷ cfgs) proxy = do
    stopped ← stop_proxy proxy
    started ← λ w. some (lib.run (map proxy_node (cfg ∷ cfgs)) w)
    pure (lib.translation_map (map proxy_node (cfg ∷ cfgs)), started)

  unfoldable pub change_requests :
      Option (List lib.RequestRule) → Option lib.RunningProxy → Option lib.RunningProxy
  change_requests rules none = none
  change_requests rules (some proxy) = some (
      lib.with_running_nodes (map (lib.change_node_requests rules) (lib.running_nodes proxy)) proxy)

  unfoldable pub change_responses :
      Option (List lib.ResponseRule) → Option lib.RunningProxy → Option lib.RunningProxy
  change_responses rules none = none
  change_responses rules (some proxy) = some (
      lib.with_running_nodes (map (lib.change_node_responses rules) (lib.running_nodes proxy))
        proxy)

  unfoldable pub turn_off : Option lib.RunningProxy → Option lib.RunningProxy
  turn_off none = none
  turn_off (some proxy) = some (lib.turn_off_proxy proxy)

  unfoldable pub process :
      Message lib → Option lib.RunningProxy → Io lib (Answer × Option lib.RunningProxy)
  process (start cfgs) proxy = do r ← start_proxy cfgs proxy; pure (translations r.0, r.1)
  process stop proxy = do p ← stop_proxy proxy; pure (done, p)
  process (change_request_rules rules) proxy = pure (done, change_requests rules proxy)
  process (change_response_rules rules) proxy = pure (done, change_responses rules proxy)
  process turn_off_rules proxy = pure (done, turn_off proxy)
