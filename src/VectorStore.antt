-- ===== src/VectorStore.antt =====
-- crates/e2etest-vector-store-cluster/src/lib.rs: the actor that manages a cluster of Vector Store
-- processes. The state is passed on, `Io` is a call of the system, `none` a panic. `polls` is the
-- number of requests that fit into the 30 seconds of `wait_for_node`.
pub mod Node
pub mod Refinement
pub mod Stopped
pub mod Handle
pub mod Ready
pub mod Waiting
pub mod Restart
use e2etest_rs.Prelude.{
  ℕ, zero, suc, Bool, true, false, Option, none, some, List, [], ◌∷◌, ◌++◌, if◌then◌else◌, is_empty,
}
use e2etest_rs.Prelude.Text.{Text, codes}
use e2etest_rs.System.Command.{Ipv4Addr, ip_eq, trim}
use e2etest_rs.System.Os.{Os, Io, total, total_, drop_old_child, drop_old_dir}
use e2etest_rs.Runner.Runtime.{◌>>=◌, ◌>>◌, pure}
use e2etest_rs.VectorStore.Node.{
  NodeConfig, HttpClient, NodeState, State, NodeStatus, initializing, connecting_to_db,
  bootstrapping, serving, new_client, status, vs_addr, run_node,
}

-- The messages of `VectorStoreCluster`, without the channels of their answers.
pub data Message : Type 0 where
  version : Message
  start : List NodeConfig → Message
  start_node : NodeConfig → Message
  stop : Message
  stop_node : Ipv4Addr → Message
  wait_for_ready : Message

-- What is sent on the channel of the message, if it has one.
pub data Answer : Type 0 where
  no_answer : Answer
  version_is : Text → Answer
  is_ready : Bool → Answer
  done : Answer

abbrev pub is_serving : Option NodeStatus → Bool
is_serving (some serving) = true
is_serving _ = false

module _ (os : Os) where
  -- `State::new`: the version is what the program prints.
  unfoldable pub new_state : Text → Bool → Bool → Text → Io os (State os)
  new_state path verbose disable_colors tmpdir = do
    printed ← os.output (record {
      program = path;
      args = codes "--version" ∷ [];
      envs = [];
      silent = false;
      user = none;
    })
    pure (record {
      path = path;
      nodes = [];
      version = trim printed.stdout;
      verbose = verbose;
      disable_colors = disable_colors;
      tmpdir = tmpdir;
    })

  -- A node in a new working directory under this one.
  unfoldable pub start_in : Text → NodeConfig → State os → Io os (NodeState os)
  start_in tmpdir config state = do
    workdir ← os.new_temp_dir tmpdir
    child ← run_node os config state workdir
    pure (record {
      vs_ip = config.vs_ip;
      child = some child;
      client = some (new_client (vs_addr config));
      workdir = some workdir;
    })

  unfoldable pub start_nodes : List NodeConfig → State os → Io os (State os)
  start_nodes [] state = pure state
  start_nodes (config ∷ configs) state = do
    node ← start_in state.tmpdir config state
    start_nodes configs (record state { nodes = state.nodes ++ node ∷ [] })

  -- The first node with the address is replaced.
  unfoldable pub start_first :
      State os → NodeConfig → List (NodeState os) → Io os (List (NodeState os))
  start_first state config [] = pure []
  start_first state config (node ∷ nodes) =
      if ip_eq node.vs_ip config.vs_ip
      then (do
        started ← start_in os.default_temp_dir config state
        drop_old_child os node.child
        drop_old_dir os node.workdir
        pure (started ∷ nodes))
      else (do rest ← start_first state config nodes; pure (node ∷ rest))

  unfoldable pub start_one : NodeConfig → State os → Io os (State os)
  start_one config state = do
    nodes ← start_first state config state.nodes
    pure (record state { nodes = nodes })

  -- The child is killed and waited for, and the client is dropped.
  unfoldable pub shut_down : NodeState os → Io os (NodeState os)
  shut_down node = elim node.child [
    | none ↦ pure (record node { client = none })
    | some child ↦ do
      os.start_kill child
      os.wait child
      pure (record node { child = none; client = none })
  ]

  -- `state.nodes.clear()` at the end drops the working directories.
  unfoldable pub stop_all : List (NodeState os) → Io os (List (NodeState os))
  stop_all [] = pure []
  stop_all (node ∷ nodes) = do
    stopped ← shut_down node
    rest ← stop_all nodes
    pure (stopped ∷ rest)

  unfoldable pub drop_all : List (NodeState os) → Io os (Unit {0})
  drop_all [] = pure tt
  drop_all (node ∷ nodes) = do
    drop_old_child os node.child
    drop_old_dir os node.workdir
    drop_all nodes

  unfoldable pub stop_nodes : State os → Io os (State os)
  stop_nodes state = do
    nodes ← stop_all state.nodes
    drop_all nodes
    pure (record state { nodes = [] })

  -- The first node with the address.
  unfoldable pub stop_first : Ipv4Addr → List (NodeState os) → Io os (List (NodeState os))
  stop_first vs_ip [] = pure []
  stop_first vs_ip (node ∷ nodes) =
      if ip_eq node.vs_ip vs_ip
      then (do stopped ← shut_down node; pure (stopped ∷ nodes))
      else (do rest ← stop_first vs_ip nodes; pure (node ∷ rest))

  unfoldable pub stop_one : State os → Ipv4Addr → Io os (State os)
  stop_one state vs_ip = do
    nodes ← stop_first vs_ip state.nodes
    pure (record state { nodes = nodes })

  -- The timeout ends the loop with `false`.
  unfoldable pub wait_for_node : ℕ → HttpClient → Io os Bool
  wait_for_node zero client = pure false
  wait_for_node (suc polls) client = do
    answered ← status os client
    elim (is_serving answered) [
      | true ↦ pure true
      | false ↦ total_ os (os.sleep 100) >> wait_for_node polls client
    ]

  -- `assert!`
  abbrev pub assert_ready : Bool → Io os (Unit {0})
  assert_ready true = pure tt
  assert_ready false = λ w. none

  unfoldable pub wait_for_nodes : ℕ → List (NodeState os) → Io os Bool
  wait_for_nodes polls [] = pure true
  wait_for_nodes polls (node ∷ nodes) = elim node.client [
    | none ↦ pure false
    | some client ↦ do
      ready ← wait_for_node polls client
      assert_ready ready
      wait_for_nodes polls nodes
  ]

  unfoldable pub wait_until_ready : ℕ → State os → Io os Bool
  wait_until_ready polls state =
      if is_empty state.nodes then pure false else wait_for_nodes polls state.nodes

  unfoldable pub process : ℕ → Message → State os → Io os (Answer × State os)
  process polls version state = pure (version_is state.version, state)
  process polls (start configs) state = do s ← start_nodes configs state; pure (no_answer, s)
  process polls (start_node config) state = do s ← start_one config state; pure (no_answer, s)
  process polls stop state = do s ← stop_nodes state; pure (done, s)
  process polls (stop_node vs_ip) state = do s ← stop_one state vs_ip; pure (done, s)
  process polls wait_for_ready state = do
    ready ← wait_until_ready polls state
    pure (is_ready ready, state)
