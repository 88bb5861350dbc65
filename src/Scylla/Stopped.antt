-- ===== src/Scylla/Stopped.antt =====
-- crates/e2etest-scylla-cluster/src/lib.rs: which processes the messages end.
use e2etest_rs.Prelude.{
  ℕ, ◌≡◌, true, List, [], ◌∷◌, ◌++◌, if◌then◌else◌, all, All-append, Option-cases, Bool-cases, inl,
  inr,
}
use e2etest_rs.System.Command.{Ipv4Addr, ip_eq}
use e2etest_rs.System.Os.{
  Os, IsHealthy, Stops, Keeps, AllEnded, AllEnded-Keeps, drop_old_dir-Keeps, child_of,
}
use e2etest_rs.Runner.Runtime.{Yields, yields, Yields-bind, Yields-map, Yields-both}
use e2etest_rs.Scylla.Node.{NodeState, State}
use e2etest_rs.Scylla.{
  Message, down, down_node, stop, wait_for_ready, take_child, stop_all, stop_nodes, down_all,
  down_nodes, down_first, down_one, process,
}
use e2etest_rs.Scylla.OneNode.{has_workdir}
use e2etest_rs.Scylla.Refinement.{view, answer_of, IsServed, Shows, after_message, process-refines}

module _ (os : Os) where
  abbrev pub children : List (NodeState os) → List os.Child
  children [] = []
  children (n ∷ ns) = child_of os n.child ++ children ns

  -- The process of the first node with the address.
  abbrev pub first_child : Ipv4Addr → List (NodeState os) → List os.Child
  first_child ip [] = []
  first_child ip (n ∷ ns) =
      let rest = first_child ip ns in if ip_eq n.db_ip ip then child_of os n.child else rest

  -- The processes that a message is meant to end.
  abbrev pub ended_by : Message → List (NodeState os) → List os.Child
  ended_by stop ns = children ns
  ended_by down ns = children ns
  ended_by (down_node ip) ns = first_child ip ns
  ended_by _ ns = []

  module _ (stops : Stops os) where
    abbrev End : List os.Child → os.World → os.World → Type 0
    End cs w v = AllEnded os stops cs v × Keeps os stops w v

    take_child-End :
        (n : NodeState os) (w : os.World)
        → Yields (λ _ v. End (child_of os n.child) w v) (take_child os n w)
    unfolding take_child
    take_child-End n w = elim (Option-cases n.child) [
      | inl e ↦ rw e (yields (tt, λ d h. h))
      | inr (c, e) ↦ rw e (
          Yields-bind _ _ _ (stops.start_kill c w) λ _ v h.
            Yields-bind _ _ _ (stops.wait c v h.0)
              λ _ u k. yields ((k.0, tt), λ d l. k.1 d (h.1 d l)))
    ]

    -- What ended in two parts.
    End-append :
        (cs ds : List os.Child) {u v w : os.World} → End cs u v → End ds v w → End (cs ++ ds) u w
    End-append cs ds h k =
        (All-append _ cs ds (AllEnded-Keeps os stops cs k.1 h.0) k.0, λ d l. k.1 d (h.1 d l))

    stop_all-End :
        (ns : List (NodeState os)) (w : os.World)
        → Yields (λ _ v. End (children ns) w v) (stop_all os ns w)
    unfolding stop_all
    stop_all-End [] w = yields (tt, λ d h. h)
    stop_all-End (n ∷ ns) w = Yields-bind _ _ _ (take_child-End n w) λ m v h.
        Yields-bind _ _ _ (drop_old_dir-Keeps os stops m.workdir v) λ _ u k.
          Yields-map
            (λ _ t l.
              End-append (child_of os n.child) (children ns)
                (AllEnded-Keeps os stops (child_of os n.child) k h.0, λ d e. k d (h.1 d e)) l)
            (stop_all-End ns u)

    down_all-End :
        (ns : List (NodeState os)) (w : os.World)
        → Yields (λ _ v. End (children ns) w v) (down_all os ns w)
    unfolding down_all
    down_all-End [] w = yields (tt, λ d h. h)
    down_all-End (n ∷ ns) w = Yields-bind _ _ _ (take_child-End n w) λ m v h.
        Yields-bind _ _ _ (down_all-End ns v)
          λ ms u k. yields (End-append (child_of os n.child) (children ns) h k)

    down_first-End :
        (ip : Ipv4Addr) (ns : List (NodeState os)) (w : os.World)
        → Yields (λ _ v. AllEnded os stops (first_child ip ns) v) (down_first os ip ns w)
    unfolding down_first
    down_first-End ip [] w = yields tt
    down_first-End ip (n ∷ ns) w = elim (Bool-cases (ip_eq n.db_ip ip)) [
      | inl e ↦ rw e (Yields-bind _ _ _ (take_child-End n w) λ m v h. yields h.0)
      | inr e ↦ rw e (Yields-bind _ _ _ (down_first-End ip ns w) λ ms v h. yields h)
    ]

    -- The messages that end something.
    ends :
        (healthy : IsHealthy os) (fuel : ℕ) (m : Message) (s : State os) (w : os.World)
        → IsServed os s m
        → all (has_workdir os) s.nodes ≡ true
        → Yields (λ _ v. AllEnded os stops (ended_by m s.nodes) v) (process os fuel m s w)
    unfolding process stop_nodes down_nodes down_one
    ends healthy fuel stop s w e h =
        Yields-bind {P = λ _ v. AllEnded os stops (children s.nodes) v} _ _ _
          (Yields-bind _ _ _ (stop_all-End s.nodes w) λ _ v k. yields k.0) λ _ v k. yields k
    ends healthy fuel down s w e h =
        Yields-bind {P = λ _ v. AllEnded os stops (children s.nodes) v} _ _ _
          (Yields-bind _ _ _ (down_all-End s.nodes w) λ _ v k. yields k.0) λ _ v k. yields k
    ends healthy fuel (down_node ip) s w e h =
        Yields-bind {P = λ _ v. AllEnded os stops (first_child ip s.nodes) v} _ _ _
          (Yields-bind _ _ _ (down_first-End ip s.nodes w) λ _ v k. yields k) λ _ v k. yields k
    ends healthy fuel wait_for_ready s w e h = absurd e
    ends healthy fuel m s w e h =
        Yields-map (λ _ _ _. tt) (process-refines os healthy fuel m s w e h)

    -- On a system whose calls succeed, every message but `wait_for_ready`, and an `up` with fewer
    -- configurations than nodes, is answered: the actor does not panic, the answer is the one of the
    -- message, and the addresses, with which of them have a process in the state, are what the
    -- message is meant to make of them, if every node has a working directory, which it then still has.
    -- If a process that is killed and waited for has ended, then after `stop` and `down` the processes
    -- of all nodes have ended, and after `down_node` that of the first node with the address.
    pub process-ends :
        (healthy : IsHealthy os) (fuel : ℕ) (m : Message) (s : State os) (w : os.World)
        → IsServed os s m
        → all (has_workdir os) s.nodes ≡ true
        → Yields
            (λ r v.
              ((r.0 ≡ answer_of os m s) × Shows os (after_message m (view os s.nodes)) r.1.nodes)
              × AllEnded os stops (ended_by m s.nodes) v)
            (process os fuel m s w)
    process-ends healthy fuel m s w e h =
        Yields-both (process-refines os healthy fuel m s w e h) (ends healthy fuel m s w e h)
