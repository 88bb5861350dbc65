-- ===== src/Scylla.antt =====
-- crates/e2etest-scylla-cluster/src/lib.rs: the actor that manages a cluster of ScyllaDB processes.
-- The state is passed on, `Io` is a call of the system, `none` a panic. A loop that polls until
-- something is ready has fuel for its polls; without fuel it has not returned.
pub mod Node
pub mod OneNode
pub mod Refinement
pub mod Stopped
pub mod Up
pub mod Handle
pub mod Ready
use e2etest_rs.Prelude.{
  ℕ, zero, suc, ◌+◌, Bool, true, false, Option, none, some, List, [], ◌∷◌, ◌++◌, if◌then◌else◌, any,
}
use e2etest_rs.Prelude.Text.{Text, codes, starts_with}
use e2etest_rs.System.Command.{Ipv4Addr, ip_eq, ip_text, decimal, Command, Output, trim, lines}
use e2etest_rs.System.Os.{
  Os, Connection, connected, refused, timed_out, Io, total, total_, drop_old_child, drop_old_dir,
}
use e2etest_rs.Runner.Runtime.{◌>>=◌, ◌>>◌, pure}
use e2etest_rs.Scylla.Node.{NodeConfig, NodeState, State, run_node}

-- The messages of `ScyllaCluster`, without the channels of their answers.
pub data Message : Type 0 where
  version : Message
  start : List NodeConfig → Message
  wait_for_ready : Message
  stop : Message
  up : List NodeConfig → Message
  up_node : NodeConfig → Message
  down : Message
  down_node : Ipv4Addr → Message
  flush : Message

-- What is sent on the channel of the message, if it has one.
pub data Answer : Type 0 where
  no_answer : Answer
  version_is : Text → Answer
  is_ready : Bool → Answer
  done : Answer

abbrev pub default_scylla_cql_port : ℕ
default_scylla_cql_port = 9042

abbrev pub rack_name : ℕ → Text
rack_name i = codes "rack" ++ decimal (i + 1)

module _ (os : Os) where
  -- `State::new`: the version is what the program prints.
  unfoldable pub new_state : Text → Text → Text → Bool → Io os (State os)
  new_state path default_conf tempdir verbose = do
    printed ← os.output (record {
      program = path;
      args = codes "--version" ∷ [];
      envs = [];
      silent = false;
      user = none;
    })
    pure (record {
      path = path;
      default_conf = default_conf;
      tempdir = tempdir;
      nodes = [];
      version = trim printed.stdout;
      verbose = verbose;
    })

  abbrev pub chown_for : Text → Option (ℕ × ℕ) → Io os (Unit {0})
  chown_for path none = pure tt
  chown_for path (some user) = os.chown path user

  abbrev pub scylla_user : Io os (Option (ℕ × ℕ))
  scylla_user w = some (os.find_user (codes "scylla") w, w)

  -- One node of `start`, the one at place `i` of the configurations.
  unfoldable pub start_one : State os → Ipv4Addr → ℕ → NodeConfig → Io os (NodeState os)
  start_one state seed_ip i config = do
    workdir ← os.new_temp_dir state.tempdir
    user ← scylla_user
    chown_for (os.temp_path workdir) user
    child ← run_node os config (ip_text seed_ip) (os.temp_path workdir) (rack_name i) state
    pure (record { db_ip = config.db_ip; child = some child; workdir = some workdir })

  unfoldable pub start_from : Ipv4Addr → ℕ → List NodeConfig → State os → Io os (State os)
  start_from seed_ip i [] state = pure state
  start_from seed_ip i (config ∷ configs) state = do
    node ← start_one state seed_ip i config
    start_from seed_ip (suc i) configs (record state { nodes = state.nodes ++ node ∷ [] })

  unfoldable pub start_nodes : List NodeConfig → State os → Io os (State os)
  start_nodes [] state = pure state
  start_nodes (config ∷ configs) state = start_from config.db_ip 0 (config ∷ configs) state

  -- `node.child.take()`, with the kill and the wait.
  unfoldable pub take_child : NodeState os → Io os (NodeState os)
  take_child node = elim node.child [
    | none ↦ pure node
    | some child ↦ do os.start_kill child; os.wait child; pure (record node { child = none })
  ]

  unfoldable pub stop_all : List (NodeState os) → Io os (Unit {0})
  stop_all [] = pure tt
  stop_all (node ∷ nodes) = do
    stopped ← take_child node
    drop_old_dir os stopped.workdir
    stop_all nodes

  unfoldable pub stop_nodes : State os → Io os (State os)
  stop_nodes state = do stop_all state.nodes; pure (record state { nodes = [] })

  unfoldable pub down_all : List (NodeState os) → Io os (List (NodeState os))
  down_all [] = pure []
  down_all (node ∷ nodes) = do taken ← take_child node; rest ← down_all nodes; pure (taken ∷ rest)

  unfoldable pub down_nodes : State os → Io os (State os)
  down_nodes state = do nodes ← down_all state.nodes; pure (record state { nodes = nodes })

  -- The first node with the address.
  unfoldable pub down_first : Ipv4Addr → List (NodeState os) → Io os (List (NodeState os))
  down_first db_ip [] = pure []
  down_first db_ip (node ∷ nodes) =
      if ip_eq node.db_ip db_ip
      then (do taken ← take_child node; pure (taken ∷ nodes))
      else (do rest ← down_first db_ip nodes; pure (node ∷ rest))

  unfoldable pub down_one : State os → Ipv4Addr → Io os (State os)
  down_one state db_ip = do
    nodes ← down_first db_ip state.nodes
    pure (record state { nodes = nodes })

  -- A node gets the new child in the working directory it has, which must be there.
  unfoldable pub up_in_place :
      State os → Text → ℕ → NodeConfig → NodeState os → Io os (NodeState os)
  up_in_place state seed_ip i config node = elim node.workdir [
    | none ↦ λ w. none
    | some workdir ↦ do
      child ← run_node os config seed_ip (os.temp_path workdir) (rack_name i) state
      drop_old_child os node.child
      pure (record node { child = some child })
  ]

  -- The nodes from place `i` on, with the configurations at their places, which must be there.
  unfoldable pub up_from :
      State os → Text → ℕ → List NodeConfig → List (NodeState os) → Io os (List (NodeState os))
  up_from state seed_ip i configs [] = pure []
  up_from state seed_ip i [] (node ∷ nodes) = λ w. none
  up_from state seed_ip i (config ∷ configs) (node ∷ nodes) = do
    started ← up_in_place state seed_ip i config node
    rest ← up_from state seed_ip (suc i) configs nodes
    pure (started ∷ rest)

  unfoldable pub up_first :
      State os → Text → ℕ → NodeConfig → List (NodeState os) → Io os (List (NodeState os))
  up_first state seed_ip i config [] = pure []
  up_first state seed_ip i config (node ∷ nodes) =
      if ip_eq node.db_ip config.db_ip
      then (do started ← up_in_place state seed_ip i config node; pure (started ∷ nodes))
      else (do rest ← up_first state seed_ip (suc i) config nodes; pure (node ∷ rest))

  -- The first node's address is the seed.
  abbrev pub seed_of : List (NodeState os) → Text
  seed_of [] = []
  seed_of (node ∷ nodes) = ip_text node.db_ip

  unfoldable pub up_nodes : List NodeConfig → State os → Io os (State os)
  up_nodes configs state = do
    nodes ← up_from state (seed_of state.nodes) 0 configs state.nodes
    pure (record state { nodes = nodes })

  unfoldable pub up_one : NodeConfig → State os → Io os (State os)
  up_one config state = do
    nodes ← up_first state (seed_of state.nodes) 0 config state.nodes
    pure (record state { nodes = nodes })

  abbrev pub nodetool : State os → Ipv4Addr → Text → Command
  nodetool state ip word = record {
    program = state.path;
    args = codes "nodetool" ∷ codes "-h" ∷ ip_text ip ∷ word ∷ [];
    envs = [];
    silent = false;
    user = none;
  }

  abbrev pub is_up_line : Ipv4Addr → Text → Bool
  is_up_line ip line = starts_with (codes "UN " ++ ip_text ip) line

  abbrev pub is_connected : Connection → Bool
  is_connected connected = true
  is_connected refused = false
  is_connected timed_out = false

  -- The timeout is in milliseconds.
  abbrev pub is_cql_port_ready : Ipv4Addr → Io os Bool
  is_cql_port_ready ip = do
    answered ← total os (os.connects ip default_scylla_cql_port 500)
    pure (is_connected answered)

  -- The inner loop of `wait_for_node`.
  unfoldable pub wait_for_port : ℕ → Ipv4Addr → Io os (Unit {0})
  wait_for_port zero ip = λ w. none
  wait_for_port (suc fuel) ip = do
    ready ← is_cql_port_ready ip
    elim ready [ true ↦ pure tt | false ↦ total_ os (os.sleep 100) >> wait_for_port fuel ip ]

  unfoldable pub wait_for_node : ℕ → State os → Ipv4Addr → Io os (Unit {0})
  wait_for_node zero state ip = λ w. none
  wait_for_node (suc fuel) state ip = do
    status ← os.output (nodetool state ip (codes "status"))
    elim (any (is_up_line ip) (lines status.stdout)) [
      | true ↦ wait_for_port fuel ip
      | false ↦ total_ os (os.sleep 100) >> wait_for_node fuel state ip
    ]

  unfoldable pub wait_for_nodes : ℕ → State os → List (NodeState os) → Io os (Unit {0})
  wait_for_nodes fuel state [] = pure tt
  wait_for_nodes fuel state (node ∷ nodes) = do
    wait_for_node fuel state node.db_ip
    wait_for_nodes fuel state nodes

  unfoldable pub wait_until_ready : ℕ → State os → Io os Bool
  wait_until_ready fuel state = elim state.nodes [
    | [] ↦ pure false
    | node ∷ nodes ↦ do wait_for_nodes fuel state (node ∷ nodes); pure true
  ]

  -- The status of the flush is logged only.
  unfoldable pub flush_all : State os → List (NodeState os) → Io os (Unit {0})
  flush_all state [] = pure tt
  flush_all state (node ∷ nodes) = do
    printed ← os.output (nodetool state node.db_ip (codes "flush"))
    flush_all state nodes

  unfoldable pub process : ℕ → Message → State os → Io os (Answer × State os)
  process fuel version state = pure (version_is state.version, state)
  process fuel (start configs) state = do s ← start_nodes configs state; pure (no_answer, s)
  process fuel stop state = do s ← stop_nodes state; pure (done, s)
  process fuel wait_for_ready state = do
    ready ← wait_until_ready fuel state
    pure (is_ready ready, state)
  process fuel (up configs) state = do s ← up_nodes configs state; pure (no_answer, s)
  process fuel (up_node config) state = do s ← up_one config state; pure (no_answer, s)
  process fuel down state = do s ← down_nodes state; pure (done, s)
  process fuel (down_node db_ip) state = do s ← down_one state db_ip; pure (done, s)
  process fuel flush state = do flush_all state state.nodes; pure (done, state)

  -- The messages in the order in which the actor receives them, and the stop at the end.
  unfoldable pub process_all : ℕ → List Message → State os → Io os (State os)
  process_all fuel [] state = stop_nodes state
  process_all fuel (m ∷ ms) state = do r ← process fuel m state; process_all fuel ms r.1
