-- ===== src/Scylla/Ready.antt =====
-- crates/e2etest-scylla-cluster/src/lib.rs: waiting until the nodes are ready.
use e2etest_rs.Prelude.{
  ℕ, zero, suc, ◌-◌, ◌≤◌, ◌<◌, ◌≡◌, refl, ap, Bool, true, false, not, ◌&&◌, Option, List, [], ◌∷◌,
  arith, All, any, is_empty, Bool-cases, inl, inr,
}
use e2etest_rs.Prelude.Text.{codes}
use e2etest_rs.System.Command.{Ipv4Addr, lines}
use e2etest_rs.System.Os.{Os, Connection, connected, refused, timed_out, Io, total_}
use e2etest_rs.Runner.Runtime.{
  Yields, yields, Yields-bind, Yields-map, Yields-both, ◌>>=◌, ◌>>◌, pure,
}
use e2etest_rs.Scylla.Node.{NodeState, State}
use e2etest_rs.Scylla.{
  default_scylla_cql_port, nodetool, is_up_line, is_connected, is_cql_port_ready, wait_for_port,
  wait_for_node, wait_for_nodes, wait_until_ready, process, wait_for_ready, is_ready,
}
use e2etest_rs.Scylla.Refinement.{View, set_first}

pub set_first_twice :
    (ip : Ipv4Addr) (b c : Bool) (v : View) → set_first ip b (set_first ip c v) ≡ set_first ip b v
set_first_twice ip b c [] = refl
set_first_twice ip b c ((p, x) ∷ v) = ground (arith, set_first_twice ip b c v)

-- What is not seen to be ready is due yet.
still_due : (due n : ℕ) (seen : Bool) → due < suc n → (due ≡ 0 → seen ≡ true) → seen ≡ false → 0 < n
still_due zero n seen h ready e = cc (ready refl)
still_due (suc due) n seen h ready e = omega (arith, h)

module _ (os : Os) where
  -- The nodes that come up: for them `due` sleeps are still to pass, never more than `bound`. When none
  -- are, `nodetool` lists the node as up and its port is open. Asking does not put this off.
  pub record ComesUp : Type 0 where
    pub responds : Ipv4Addr → Bool
    pub bound : ℕ
    pub due : Ipv4Addr → os.World → ℕ
    pub bounded : (ip : Ipv4Addr) (w : os.World) → due ip w ≤ bound
    pub sleeps : (ip : Ipv4Addr) (ms : ℕ) (w : os.World) → due ip (os.sleep ms w) ≤ due ip w - 1
    pub listed :
        (s : State os) (ip : Ipv4Addr) (w : os.World)
        → responds ip ≡ true
        → Yields
            (λ o v.
              (due ip v ≤ due ip w)
              × (due ip w ≡ 0 → any (is_up_line os ip) (lines o.stdout) ≡ true))
            (os.output (nodetool os s ip (codes "status")) w)
    pub reachable :
        (ip : Ipv4Addr) (w : os.World)
        → (due ip (os.connects ip default_scylla_cql_port 500 w).1 ≤ due ip w)
          × (due ip w ≡ 0 → (os.connects ip default_scylla_cql_port 500 w).0 ≡ connected)

  -- Which nodes have their port open: one that is connected to has, and neither asking nor sleeping
  -- closes a port.
  pub record Opens : Type 0 where
    pub is_open : Ipv4Addr → os.World → Bool
    pub open_connected :
        (ip : Ipv4Addr) (w : os.World)
        → (os.connects ip default_scylla_cql_port 500 w).0 ≡ connected
        → is_open ip (os.connects ip default_scylla_cql_port 500 w).1 ≡ true
    pub open_connects :
        (q ip : Ipv4Addr) (w : os.World)
        → is_open q w ≡ true
        → is_open q (os.connects ip default_scylla_cql_port 500 w).1 ≡ true
    pub open_sleep :
        (q : Ipv4Addr) (ms : ℕ) (w : os.World)
        → is_open q w ≡ true
        → is_open q (os.sleep ms w) ≡ true
    pub open_output :
        (s : State os) (ip : Ipv4Addr) (w : os.World)
        → Yields
            (λ _ v. (q : Ipv4Addr) → is_open q w ≡ true → is_open q v ≡ true)
            (os.output (nodetool os s ip (codes "status")) w)

  module _ (comes : ComesUp) (opens : Opens) where
    -- No port is closed.
    abbrev Keeps : os.World → os.World → Type 0
    Keeps w v = (q : Ipv4Addr) → opens.is_open q w ≡ true → opens.is_open q v ≡ true

    -- A wait that began in `w` returns with the port open.
    abbrev Opened : Ipv4Addr → os.World → Option (Unit {0} × os.World) → Type 0
    Opened ip w = Yields (λ _ v. (opens.is_open ip v ≡ true) × Keeps w v)

    -- After a sleep less is due.
    slept :
        (ip : Ipv4Addr) (ms n : ℕ) (w v : os.World) (rest : Io os (Unit {0}))
        → comes.due ip v < suc n
        → 0 < n
        → Keeps w v
        → ((t : os.World) → comes.due ip t < n → Opened ip t (rest t))
        → Opened ip w ((total_ os (os.sleep ms) >> rest) v)
    slept ip ms n w v rest h late keep k =
        Yields-bind {P = λ _ t. (comes.due ip t < n) × Keeps w t} _ _ _
          (yields (
            omega (arith, h, late, comes.sleeps ip ms v),
            λ q o. opens.open_sleep q ms v (keep q o),
          ))
          λ _ t l. Yields-map (λ _ u m. (m.0, λ q o. m.1 q (l.1 q o))) (k t l.0)

    -- What an attempt to connect finds and leaves.
    abbrev Asked : Ipv4Addr → os.World → Bool → os.World → Type 0
    Asked ip w b v =
        (comes.due ip v ≤ comes.due ip w)
        × (comes.due ip w ≡ 0 → b ≡ true)
        × (b ≡ true → opens.is_open ip v ≡ true)
        × Keeps w v

    connected-of_is_connected : (a : Connection) → is_connected os a ≡ true → a ≡ connected
    connected-of_is_connected connected e = refl
    connected-of_is_connected refused e = absurd cc
    connected-of_is_connected timed_out e = absurd cc

    is_cql_port_ready-Yields :
        (ip : Ipv4Addr) (w : os.World) → Yields (Asked ip w) (is_cql_port_ready os ip w)
    unfolding ◌>>=◌
    is_cql_port_ready-Yields ip w =
        let (less, up) = comes.reachable ip w in
        yields (
          less,
          λ e. ap (is_connected os) (up e),
          λ e. opens.open_connected ip w (connected-of_is_connected _ e),
          λ q. opens.open_connects q ip w,
        )

    wait_for_port-Yields :
        (fuel : ℕ) (ip : Ipv4Addr) (w : os.World)
        → comes.due ip w < fuel
        → Opened ip w (wait_for_port os fuel ip w)
    unfolding wait_for_port
    wait_for_port-Yields zero ip w h = absurd (omega arith)
    wait_for_port-Yields (suc fuel) ip w h =
        Yields-bind {P = Asked ip w} _ _ _ (is_cql_port_ready-Yields ip w) λ b v k.
          elim (Bool-cases b) [
            | inl e ↦ rw e (yields (k.2 e, k.3))
            | inr e ↦ rw e (
                slept ip 100 fuel w v (wait_for_port os fuel ip) (omega (arith, h, k.0))
                  (still_due (comes.due ip w) fuel b h k.1 e) k.3
                  λ t l. wait_for_port-Yields fuel ip t l)
          ]

    -- One poll more than there are sleeps is enough to see the node up, and one more to see its port.
    wait_for_node-Yields :
        (fuel : ℕ) (s : State os) (ip : Ipv4Addr) (w : os.World)
        → comes.responds ip ≡ true
        → comes.due ip w < fuel
        → Opened ip w (wait_for_node os (suc fuel) s ip w)
    unfolding wait_for_node
    wait_for_node-Yields zero s ip w up h = absurd (omega arith)
    wait_for_node-Yields (suc fuel) s ip w up h =
        Yields-bind _ _ _ (Yields-both (comes.listed s ip w up) (opens.open_output s ip w)) λ o v k.
          elim (Bool-cases (any (is_up_line os ip) (lines o.stdout))) [
            | inl e ↦ rw e (
                Yields-map (λ _ u m. (m.0, λ q l. m.1 q (k.1 q l)))
                  (wait_for_port-Yields (suc fuel) ip v (omega (arith, h, k.0.0))))
            | inr e ↦ rw e (
                slept ip 100 fuel w v (wait_for_node os (suc fuel) s ip) (omega (arith, h, k.0.0))
                  (still_due (comes.due ip w) fuel _ h k.0.1 e) k.1
                  λ t l. wait_for_node-Yields fuel s ip t up l)
          ]

    -- All nodes come up.
    abbrev pub all_respond : List (NodeState os) → Bool
    all_respond [] = true
    all_respond (n ∷ ns) = comes.responds n.db_ip && all_respond ns

    -- The ports of all nodes are open.
    abbrev pub AllOpen : List (NodeState os) → os.World → Type 0
    AllOpen ns v = All (λ n. opens.is_open n.db_ip v ≡ true) ns

    module _ (fuel : ℕ) (enough : comes.bound < fuel) where
      wait_for_nodes-Yields :
          (s : State os) (ns : List (NodeState os)) (w : os.World)
          → all_respond ns ≡ true
          → Yields (λ _ v. AllOpen ns v × Keeps w v) (wait_for_nodes os (suc fuel) s ns w)
      unfolding wait_for_nodes
      wait_for_nodes-Yields s [] w up = yields (tt, λ q o. o)
      wait_for_nodes-Yields s (n ∷ ns) w up =
          Yields-bind _ _ _
            (wait_for_node-Yields fuel s n.db_ip w (ground (arith, up))
              (omega (arith, enough, comes.bounded n.db_ip w)))
            λ _ v k.
              Yields-map (λ _ u l. ((l.1 n.db_ip k.0, l.0), λ q o. l.1 q (k.1 q o)))
                (wait_for_nodes-Yields s ns v (ground (arith, up)))

      wait_until_ready-Yields :
          (s : State os) (w : os.World)
          → all_respond s.nodes ≡ true
          → Yields
              (λ b v. (b ≡ not (is_empty s.nodes)) × AllOpen s.nodes v)
              (wait_until_ready os (suc fuel) s w)
      unfolding wait_until_ready
      wait_until_ready-Yields s w up = of_nodes s.nodes up
        where
          of_nodes :
              (ns : List (NodeState os))
              → all_respond ns ≡ true
              → Yields
                  (λ b v. (b ≡ not (is_empty ns)) × AllOpen ns v)
                  ((elim ns as (λ _. Io os Bool) [
                    | [] ↦ pure false
                    | node ∷ nodes ↦ do wait_for_nodes os (suc fuel) s (node ∷ nodes); pure true
                  ])
                    w)
          of_nodes [] up = yields (refl, tt)
          of_nodes (n ∷ ns) up =
              Yields-bind _ _ _ (wait_for_nodes-Yields s (n ∷ ns) w up) λ _ v k. yields (refl, k.0)

      -- If the nodes all come up after a bounded number of sleeps, one that can be connected to has its
      -- port open, and neither asking nor sleeping closes a port, then `wait_for_ready` is answered, with
      -- fuel for one poll more than the sleeps and one more for the port. It says whether there is a
      -- node, leaves the state as it was, and then the ports of all nodes are open.
      pub process-AllOpen :
          (s : State os) (w : os.World)
          → all_respond s.nodes ≡ true
          → Yields
              (λ r v. (r.0 ≡ is_ready (not (is_empty s.nodes))) × (r.1 ≡ s) × AllOpen s.nodes v)
              (process os (suc fuel) wait_for_ready s w)
      unfolding process
      process-AllOpen s w up =
          Yields-bind _ _ _ (wait_until_ready-Yields s w up)
            λ b v k. yields (ap is_ready k.0, refl, k.1)
