-- ===== src/VectorStore/Stopped.antt =====
-- crates/e2etest-vector-store-cluster/src/lib.rs: which processes the messages end.
use e2etest_rs.Prelude.{
  ℕ, ◌≡◌, true, List, [], ◌∷◌, ◌++◌, if◌then◌else◌, all, All-append, Option-cases, Bool-cases, inl,
  inr,
}
use e2etest_rs.System.Command.{Ipv4Addr, ip_eq}
use e2etest_rs.System.Os.{
  Os, IsHealthy, Stops, Keeps, AllEnded, AllEnded-Keeps, drop_old_child-Keeps, drop_old_dir-Keeps,
  child_of,
}
use e2etest_rs.Runner.Runtime.{Yields, yields, Yields-bind, Yields-map, Yields-both}
use e2etest_rs.VectorStore.Node.{NodeState, State}
use e2etest_rs.VectorStore.{
  Message, stop, stop_node, wait_for_ready, shut_down, stop_all, drop_all, stop_nodes, stop_first,
  stop_one, process,
}
use e2etest_rs.VectorStore.Refinement.{
  view, answer_of, IsServed, Shows, is_paired, after_message, process-simulates,
}

module _ (os : Os) where
  abbrev pub children : List (NodeState os) → List os.Child
  children [] = []
  children (n ∷ ns) = child_of os n.child ++ children ns

  -- The process of the first node with the address.
  abbrev pub first_child : Ipv4Addr → List (NodeState os) → List os.Child
  first_child ip [] = []
  first_child ip (n ∷ ns) =
      let rest = first_child ip ns in if ip_eq n.vs_ip ip then child_of os n.child else rest

  -- The processes that a message is meant to end.
  abbrev pub ended_by : Message → List (NodeState os) → List os.Child
  ended_by stop ns = children ns
  ended_by (stop_node ip) ns = first_child ip ns
  ended_by _ ns = []

  module _ (stops : Stops os) where
    abbrev End : List os.Child → os.World → os.World → Type 0
    End cs w v = AllEnded os stops cs v × Keeps os stops w v

    shut_down-End :
        (n : NodeState os) (w : os.World)
        → Yields (λ _ v. End (child_of os n.child) w v) (shut_down os n w)
    unfolding shut_down
    shut_down-End n w = elim (Option-cases n.child) [
      | inl e ↦ rw e (yields (tt, λ d h. h))
      | inr (c, e) ↦ rw e (
          Yields-bind _ _ _ (stops.start_kill c w) λ _ v h.
            Yields-bind _ _ _ (stops.wait c v h.0)
              λ _ u k. yields ((k.0, tt), λ d l. k.1 d (h.1 d l)))
    ]

    -- What ended in two parts.
    End-append :
        (cs ds : List os.Child) {u v w : os.World} → End cs u v → End ds v w → End (cs ++ ds) u w
    End-append cs ds h k =
        (All-append _ cs ds (AllEnded-Keeps os stops cs k.1 h.0) k.0, λ d l. k.1 d (h.1 d l))

    stop_all-End :
        (ns : List (NodeState os)) (w : os.World)
        → Yields (λ _ v. End (children ns) w v) (stop_all os ns w)
    unfolding stop_all
    stop_all-End [] w = yields (tt, λ d h. h)
    stop_all-End (n ∷ ns) w = Yields-bind _ _ _ (shut_down-End n w) λ m v h.
        Yields-bind _ _ _ (stop_all-End ns v)
          λ ms u k. yields (End-append (child_of os n.child) (children ns) h k)

    drop_all-Keeps :
        (ns : List (NodeState os)) (w : os.World)
        → Yields (λ _ v. Keeps os stops w v) (drop_all os ns w)
    unfolding drop_all
    drop_all-Keeps [] w = yields λ d h. h
    drop_all-Keeps (n ∷ ns) w = Yields-bind _ _ _ (drop_old_child-Keeps os stops n.child w) λ _ v h.
        Yields-bind _ _ _ (drop_old_dir-Keeps os stops n.workdir v)
          λ _ u k. Yields-map (λ _ _ l d e. l d (k d (h d e))) (drop_all-Keeps ns u)

    stop_first-End :
        (ip : Ipv4Addr) (ns : List (NodeState os)) (w : os.World)
        → Yields (λ _ v. AllEnded os stops (first_child ip ns) v) (stop_first os ip ns w)
    unfolding stop_first
    stop_first-End ip [] w = yields tt
    stop_first-End ip (n ∷ ns) w = elim (Bool-cases (ip_eq n.vs_ip ip)) [
      | inl e ↦ rw e (Yields-bind _ _ _ (shut_down-End n w) λ m v h. yields h.0)
      | inr e ↦ rw e (Yields-bind _ _ _ (stop_first-End ip ns w) λ ms v h. yields h)
    ]

    -- The messages that end something.
    ends :
        (healthy : IsHealthy os) (polls : ℕ) (m : Message) (s : State os) (w : os.World)
        → IsServed os m
        → all (is_paired os) s.nodes ≡ true
        → Yields (λ _ v. AllEnded os stops (ended_by m s.nodes) v) (process os polls m s w)
    unfolding process stop_nodes stop_one
    ends healthy polls stop s w e h =
        Yields-bind {P = λ _ v. AllEnded os stops (children s.nodes) v} _ _ _
          (Yields-bind _ _ _ (stop_all-End s.nodes w) λ ns v k.
            Yields-bind _ _ _ (drop_all-Keeps ns v)
              λ _ u l. yields (AllEnded-Keeps os stops (children s.nodes) l k.0))
          λ _ v k. yields k
    ends healthy polls (stop_node ip) s w e h =
        Yields-bind {P = λ _ v. AllEnded os stops (first_child ip s.nodes) v} _ _ _
          (Yields-bind _ _ _ (stop_first-End ip s.nodes w) λ _ v k. yields k) λ _ v k. yields k
    ends healthy polls wait_for_ready s w e h = absurd e
    ends healthy polls m s w e h =
        Yields-map (λ _ _ _. tt) (process-simulates os healthy polls m s w e h)

    -- On a system whose calls succeed, every message but `wait_for_ready` is answered: the actor does
    -- not panic, the answer is the one of the message, and the addresses, with which of them have a
    -- process in the state, are what the message is meant to make of them, if every node has a client
    -- exactly when it has a process, which still holds then. If a process that is killed and waited
    -- for has ended, then after `stop` the processes of all nodes have ended, and after `stop_node`
    -- that of the first node with the address.
    pub process-stops :
        (healthy : IsHealthy os) (polls : ℕ) (m : Message) (s : State os) (w : os.World)
        → IsServed os m
        → all (is_paired os) s.nodes ≡ true
        → Yields
            (λ r v.
              ((r.0 ≡ answer_of os m s) × Shows os (after_message m (view os s.nodes)) r.1.nodes)
              × AllEnded os stops (ended_by m s.nodes) v)
            (process os polls m s w)
    process-stops healthy polls m s w e h =
        Yields-both (process-simulates os healthy polls m s w e h) (ends healthy polls m s w e h)
