-- ===== src/Scylla/Up.antt =====
-- crates/e2etest-scylla-cluster/src/lib.rs: starting the nodes again with too few configurations.
use e2etest_rs.Prelude.{ℕ, suc, ◌<◌, ◌≡◌, none, refl, List, [], ◌∷◌, length, arith}
use e2etest_rs.Prelude.Text.{Text}
use e2etest_rs.System.Os.{Os}
use e2etest_rs.Runner.Runtime.{bind-none, none-bind}
use e2etest_rs.Scylla.Node.{NodeConfig, NodeState, State}
use e2etest_rs.Scylla.{up, seed_of, up_from, up_nodes, process}

module _ (os : Os) where
  up_from-none :
      (state : State os) (seed_ip : Text) (i : ℕ) (configs : List NodeConfig)
      (nodes : List (NodeState os)) (w : os.World)
      → length configs < length nodes
      → up_from os state seed_ip i configs nodes w ≡ none
  unfolding up_from
  up_from-none state seed_ip i configs [] w h = ground (arith, h)
  up_from-none state seed_ip i [] (node ∷ nodes) w h = refl
  up_from-none state seed_ip i (config ∷ configs) (node ∷ nodes) w h = bind-none _ _ w λ started t.
      none-bind _ _ t (up_from-none state seed_ip (suc i) configs nodes t (omega (arith, h)))

  -- A message to bring the cluster up with fewer configurations than it has nodes panics the actor,
  -- whatever the system does, also if the configurations are those of nodes of the cluster.
  pub process-up-none :
      (fuel : ℕ) (configs : List NodeConfig) (state : State os) (w : os.World)
      → length configs < length state.nodes
      → process os fuel (up configs) state w ≡ none
  unfolding process up_nodes
  process-up-none fuel configs state w h =
      none-bind _ _ w
        (none-bind _ _ w (up_from-none state (seed_of os state.nodes) 0 configs state.nodes w h))
