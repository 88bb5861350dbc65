-- ===== src/Scylla/Refinement.antt =====
-- crates/e2etest-scylla-cluster/src/lib.rs: what the messages do to the cluster, seen as a list of
-- addresses with a bit that says whether the node's process is there.
use e2etest_rs.Prelude.{
  ℕ, suc, ◌≤◌, ◌≡◌, refl, sym, ap, ◌∙◌, Bool, true, false, List, [], ◌∷◌, ◌++◌, arith,
  if◌then◌else◌, all, length, Bool-cases, inl, inr,
}
use mathlib.Core.Path.{ap₂}
use e2etest_rs.Prelude.Text.{Text}
use e2etest_rs.System.Command.{Ipv4Addr, ip_eq}
use e2etest_rs.System.Os.{Os, Returns, IsHealthy}
use e2etest_rs.Runner.Runtime.{Yields, yields, Yields-bind, Yields-map}
use e2etest_rs.Scylla.Node.{NodeConfig, NodeState, State}
use e2etest_rs.Scylla.{
  Message, Answer, version, start, wait_for_ready, stop, up, up_node, down, down_node, flush,
  no_answer, version_is, done, start_from, start_nodes, stop_all, stop_nodes, down_all, down_nodes,
  down_first, down_one, up_from, up_first, up_nodes, seed_of, up_one, flush_all, process,
}
use e2etest_rs.Scylla.OneNode.{
  is_some, has_workdir, start_one-Yields, take_child-Yields, drop_old_dir-Returns,
  up_in_place-Yields,
}

abbrev pub View : Type 0
View = List (Ipv4Addr × Bool)

abbrev pub set_first : Ipv4Addr → Bool → View → View
set_first ip b [] = []
set_first ip b ((p, x) ∷ v) =
    let rest = set_first ip b v in if ip_eq p ip then (p, b) ∷ v else (p, x) ∷ rest

abbrev pub set_all : Bool → View → View
set_all b [] = []
set_all b ((p, x) ∷ v) = (p, b) ∷ set_all b v

abbrev pub started : List NodeConfig → View
started [] = []
started (c ∷ cs) = (c.db_ip, true) ∷ started cs

-- What a message is meant to do.
abbrev pub after_message : Message → View → View
after_message (start configs) v = v ++ started configs
after_message stop v = []
after_message (up configs) v = set_all true v
after_message (up_node config) v = set_first config.db_ip true v
after_message down v = set_all false v
after_message (down_node ip) v = set_first ip false v
after_message _ v = v

module _ (os : Os) where
  abbrev pub view : List (NodeState os) → View
  view [] = []
  view (n ∷ ns) = (n.db_ip, is_some n.child) ∷ view ns

  abbrev pub answer_of : Message → State os → Answer
  answer_of version state = version_is state.version
  answer_of stop state = done
  answer_of down state = done
  answer_of (down_node ip) state = done
  answer_of flush state = done
  answer_of _ state = no_answer

  -- `up` needs a configuration for each node; `wait_for_ready` may poll for ever, and is left out.
  abbrev pub IsServed : State os → Message → Type 0
  IsServed state (up configs) = length state.nodes ≤ length configs
  IsServed state wait_for_ready = ⊥
  IsServed state _ = Unit

  -- The nodes have this view, and each has its working directory.
  abbrev pub Shows : View → List (NodeState os) → Type 0
  Shows v ns = (view ns ≡ v) × (all (has_workdir os) ns ≡ true)

  module _ (healthy : IsHealthy os) where
    append_nil : (v : View) → v ++ [] ≡ v
    append_nil [] = refl
    append_nil (x ∷ v) = ground (arith, append_nil v)

    view-snoc :
        (ns : List (NodeState os)) (m : NodeState os) (u : View)
        → view (ns ++ m ∷ []) ++ u ≡ view ns ++ (m.db_ip, is_some m.child) ∷ u
    view-snoc [] m u = refl
    view-snoc (n ∷ ns) m u = ground (arith, view-snoc ns m u)

    all-snoc :
        (ns : List (NodeState os)) (m : NodeState os)
        → all (has_workdir os) ns ≡ true
        → has_workdir os m ≡ true
        → all (has_workdir os) (ns ++ m ∷ []) ≡ true
    all-snoc [] m h k = ground (arith, k)
    all-snoc (n ∷ ns) m h k = ground (arith, all-snoc ns m (ground (arith, h)) k)

    start_from-Yields :
        (seed : Ipv4Addr) (i : ℕ) (cs : List NodeConfig) (s : State os) (w : os.World)
        → all (has_workdir os) s.nodes ≡ true
        → Yields (λ t _. Shows (view s.nodes ++ started cs) t.nodes) (start_from os seed i cs s w)
    unfolding start_from
    start_from-Yields seed i [] s w h = yields (sym (append_nil (view s.nodes)), h)
    start_from-Yields seed i (c ∷ cs) s w h =
        Yields-bind _ _ _ (start_one-Yields os healthy s seed i c w) λ m w₁ k.
          Yields-map
            (λ t _ l. (
              l.0
                  ∙ view-snoc s.nodes m (started cs)
                  ∙ ap (λ p. view s.nodes ++ p ∷ started cs) (ap₂ (λ ip b. (ip, b)) k.0 k.1),
              l.1,
            ))
            (start_from-Yields seed (suc i) cs (record s { nodes = s.nodes ++ m ∷ [] }) w₁
              (all-snoc s.nodes m h k.2))

    stop_all-Returns : (ns : List (NodeState os)) (w : os.World) → Returns os (stop_all os ns w)
    unfolding stop_all
    stop_all-Returns [] w = yields tt
    stop_all-Returns (n ∷ ns) w = Yields-bind _ _ _ (take_child-Yields os healthy n w) λ m w₁ h.
        Yields-bind _ _ _ (drop_old_dir-Returns os healthy m.workdir w₁)
          λ _ w₂ k. stop_all-Returns ns w₂

    down_all-Yields :
        (ns : List (NodeState os)) (w : os.World)
        → all (has_workdir os) ns ≡ true
        → Yields (λ ms _. Shows (set_all false (view ns)) ms) (down_all os ns w)
    unfolding down_all
    down_all-Yields [] w h = yields (refl, refl)
    down_all-Yields (n ∷ ns) w h = Yields-bind _ _ _ (take_child-Yields os healthy n w) λ m w₁ k.
        Yields-bind _ _ _ (down_all-Yields ns w₁ (ground (arith, h)))
          λ ms w₂ l. yields (ground (arith, h, k, l), ground (arith, h, k, l))

    down_first-Yields :
        (ip : Ipv4Addr) (ns : List (NodeState os)) (w : os.World)
        → all (has_workdir os) ns ≡ true
        → Yields (λ ms _. Shows (set_first ip false (view ns)) ms) (down_first os ip ns w)
    unfolding down_first
    down_first-Yields ip [] w h = yields (refl, refl)
    down_first-Yields ip (n ∷ ns) w h = elim (Bool-cases (ip_eq n.db_ip ip)) [
      | inl e ↦ rw e (
          Yields-bind _ _ _ (take_child-Yields os healthy n w)
            λ m w₁ k. yields (ground (arith, h, k), ground (arith, h, k)))
      | inr e ↦ rw e (
          Yields-bind _ _ _ (down_first-Yields ip ns w (ground (arith, h)))
            λ ms w₁ k. yields (ground (arith, h, k), ground (arith, h, k)))
    ]

    up_from-Yields :
        (s : State os) (seed : Text) (i : ℕ) (cs : List NodeConfig) (ns : List (NodeState os))
        (w : os.World)
        → all (has_workdir os) ns ≡ true
        → length ns ≤ length cs
        → Yields (λ ms _. Shows (set_all true (view ns)) ms) (up_from os s seed i cs ns w)
    unfolding up_from
    up_from-Yields s seed i cs [] w h l = yields (refl, refl)
    up_from-Yields s seed i [] (n ∷ ns) w h l = absurd (omega arith)
    up_from-Yields s seed i (c ∷ cs) (n ∷ ns) w h l =
        Yields-bind _ _ _ (up_in_place-Yields os healthy s seed i c n w (ground (arith, h)))
          λ m w₁ k.
            Yields-bind _ _ _
              (up_from-Yields s seed (suc i) cs ns w₁ (ground (arith, h)) (omega arith))
              λ ms w₂ l. yields (ground (arith, h, k, l), ground (arith, h, k, l))

    up_first-Yields :
        (s : State os) (seed : Text) (i : ℕ) (c : NodeConfig) (ns : List (NodeState os))
        (w : os.World)
        → all (has_workdir os) ns ≡ true
        → Yields (λ ms _. Shows (set_first c.db_ip true (view ns)) ms) (up_first os s seed i c ns w)
    unfolding up_first
    up_first-Yields s seed i c [] w h = yields (refl, refl)
    up_first-Yields s seed i c (n ∷ ns) w h = elim (Bool-cases (ip_eq n.db_ip c.db_ip)) [
      | inl e ↦ rw e (
          Yields-bind _ _ _ (up_in_place-Yields os healthy s seed i c n w (ground (arith, h)))
            λ m w₁ k. yields (ground (arith, h, k), ground (arith, h, k)))
      | inr e ↦ rw e (
          Yields-bind _ _ _ (up_first-Yields s seed (suc i) c ns w (ground (arith, h)))
            λ ms w₁ k. yields (ground (arith, h, k), ground (arith, h, k)))
    ]

    flush_all-Returns :
        (s : State os) (ns : List (NodeState os)) (w : os.World) → Returns os (flush_all os s ns w)
    unfolding flush_all
    flush_all-Returns s [] w = yields tt
    flush_all-Returns s (n ∷ ns) w =
        Yields-bind _ _ _ (healthy.output _ w) λ o w₁ h. flush_all-Returns s ns w₁

    start_nodes-Yields :
        (cs : List NodeConfig) (s : State os) (w : os.World)
        → all (has_workdir os) s.nodes ≡ true
        → Yields (λ t _. Shows (view s.nodes ++ started cs) t.nodes) (start_nodes os cs s w)
    unfolding start_nodes
    start_nodes-Yields [] s w h = yields (sym (append_nil (view s.nodes)), h)
    start_nodes-Yields (c ∷ cs) s w h = start_from-Yields c.db_ip 0 (c ∷ cs) s w h

    -- On a system whose calls succeed, every message but `wait_for_ready` is answered, `up` with a
    -- configuration for each node: the actor does not panic, the answer is the one of the message,
    -- the addresses and the running nodes are what the message is meant to make of them, and every
    -- node still has its working directory if all had one before.
    pub process-refines :
        (fuel : ℕ) (m : Message) (s : State os) (w : os.World)
        → IsServed s m
        → all (has_workdir os) s.nodes ≡ true
        → Yields
            (λ r _. (r.0 ≡ answer_of m s) × Shows (after_message m (view s.nodes)) r.1.nodes)
            (process os fuel m s w)
    unfolding process stop_nodes down_nodes down_one up_nodes up_one
    process-refines fuel version s w e h = yields (refl, (refl, h))
    process-refines fuel (start cs) s w e h =
        Yields-bind _ _ _ (start_nodes-Yields cs s w h) λ t w₁ k. yields (refl, k)
    process-refines fuel wait_for_ready s w e h = absurd e
    process-refines fuel stop s w e h =
        Yields-bind {P = λ t _. Shows [] t.nodes} _ _ _
          (Yields-bind _ _ _ (stop_all-Returns s.nodes w) λ _ w₁ k. yields (refl, refl))
          λ t w₁ k. yields (refl, k)
    process-refines fuel (up cs) s w e h =
        Yields-bind {P = λ t _. Shows (set_all true (view s.nodes)) t.nodes} _ _ _
          (Yields-bind _ _ _ (up_from-Yields s (seed_of os s.nodes) 0 cs s.nodes w h e)
            λ _ w₁ k. yields k)
          λ t w₁ k. yields (refl, k)
    process-refines fuel (up_node c) s w e h =
        Yields-bind {P = λ t _. Shows (set_first c.db_ip true (view s.nodes)) t.nodes} _ _ _
          (Yields-bind _ _ _ (up_first-Yields s (seed_of os s.nodes) 0 c s.nodes w h)
            λ _ w₁ k. yields k)
          λ t w₁ k. yields (refl, k)
    process-refines fuel down s w e h =
        Yields-bind {P = λ t _. Shows (set_all false (view s.nodes)) t.nodes} _ _ _
          (Yields-bind _ _ _ (down_all-Yields s.nodes w h) λ _ w₁ k. yields k)
          λ t w₁ k. yields (refl, k)
    process-refines fuel (down_node ip) s w e h =
        Yields-bind {P = λ t _. Shows (set_first ip false (view s.nodes)) t.nodes} _ _ _
          (Yields-bind _ _ _ (down_first-Yields ip s.nodes w h) λ _ w₁ k. yields k)
          λ t w₁ k. yields (refl, k)
    process-refines fuel flush s w e h =
        Yields-bind _ _ _ (flush_all-Returns s s.nodes w) λ _ w₁ k. yields (refl, (refl, h))
