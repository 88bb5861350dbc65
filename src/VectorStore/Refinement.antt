-- ===== src/VectorStore/Refinement.antt =====
-- crates/e2etest-vector-store-cluster/src/lib.rs: what the messages do to the cluster, seen as a list
-- of addresses with a bit that says whether the node's process is there.
use e2etest_rs.Prelude.{
  ℕ, ◌≡◌, refl, sym, ap, ◌∙◌, Bool, true, false, Option, none, some, List, [], ◌∷◌, ◌++◌, arith,
  if◌then◌else◌, all, not, Option-cases, Bool-cases, inl, inr,
}
use mathlib.Core.Path.{ap₂}
use e2etest_rs.Prelude.Text.{Text}
use e2etest_rs.System.Command.{Ipv4Addr, ip_eq, ip_eq_iff}
use e2etest_rs.System.Os.{Os, Returns, IsHealthy, drop_old_child, drop_old_dir}
use e2etest_rs.Runner.Runtime.{Yields, yields, Yields-bind, Yields-map}
use e2etest_rs.Scylla.Refinement.{View, set_first}
use e2etest_rs.Scylla.OneNode.{is_some}
use e2etest_rs.VectorStore.Node.{NodeConfig, NodeState, State, write_password, run_node}
use e2etest_rs.VectorStore.{
  Message, Answer, version, start, start_node, stop, stop_node, wait_for_ready, no_answer,
  version_is, done, start_in, start_nodes, start_first, start_one, shut_down, stop_all, drop_all,
  stop_nodes, stop_first, stop_one, process,
}

abbrev pub started : List NodeConfig → View
started [] = []
started (c ∷ cs) = (c.vs_ip, true) ∷ started cs

-- What a message is meant to do.
abbrev pub after_message : Message → View → View
after_message (start configs) v = v ++ started configs
after_message (start_node config) v = set_first config.vs_ip true v
after_message stop v = []
after_message (stop_node ip) v = set_first ip false v
after_message _ v = v

module _ (os : Os) where
  abbrev pub view : List (NodeState os) → View
  view [] = []
  view (n ∷ ns) = (n.vs_ip, is_some n.child) ∷ view ns

  -- A node has a client when it has a process.
  abbrev pub is_paired : NodeState os → Bool
  is_paired n = if is_some n.child then is_some n.client else not (is_some n.client)

  abbrev pub answer_of : Message → State os → Answer
  answer_of version state = version_is state.version
  answer_of stop state = done
  answer_of (stop_node ip) state = done
  answer_of _ state = no_answer

  -- `wait_for_ready` panics when a node is not ready in time, and is left out.
  abbrev pub IsServed : Message → Type 0
  IsServed wait_for_ready = ⊥
  IsServed _ = Unit

  -- The nodes have this view, and are paired.
  abbrev pub Shows : View → List (NodeState os) → Type 0
  Shows v ns = (view ns ≡ v) × (all is_paired ns ≡ true)

  -- A node at this address, with this bit.
  abbrev Stands : Ipv4Addr → Bool → NodeState os → Type 0
  Stands ip b m = (m.vs_ip ≡ ip) × (is_some m.child ≡ b) × (is_paired m ≡ true)

  module _ (healthy : IsHealthy os) where
    write_password-Returns :
        (d : Text) (u p : Option Text) (w : os.World) → Returns os (write_password os d u p w)
    write_password-Returns d (some u) (some p) w =
        Yields-bind _ _ _ (healthy.create_new_file _ p w) λ _ v h. yields tt
    write_password-Returns d (some u) none w = yields tt
    write_password-Returns d none p w = yields tt

    run_node-Returns :
        (c : NodeConfig) (s : State os) (d : os.TempDir) (w : os.World)
        → Returns os (run_node os c s d w)
    unfolding run_node
    run_node-Returns c s d w =
        Yields-bind _ _ _ (write_password-Returns (os.temp_path d) c.user c.password w)
          λ e w₁ h. healthy.spawn _ w₁

    start_in-Yields :
        (t : Text) (c : NodeConfig) (s : State os) (w : os.World)
        → Yields (λ m _. Stands c.vs_ip true m) (start_in os t c s w)
    unfolding start_in
    start_in-Yields t c s w = Yields-bind _ _ _ (healthy.new_temp_dir t w) λ d w₁ h₁.
        Yields-bind _ _ _ (run_node-Returns c s d w₁) λ child w₂ h₂. yields (refl, refl, refl)

    shut_down-Yields :
        (n : NodeState os) (w : os.World)
        → Yields (λ m _. Stands n.vs_ip false m) (shut_down os n w)
    unfolding shut_down
    shut_down-Yields n w = elim (Option-cases n.child) [
      | inl e ↦ rw e (yields (refl, ground (arith, e), ground (arith, e)))
      | inr (c, e) ↦ rw e (
          Yields-bind _ _ _ (healthy.start_kill c w)
            λ _ w₁ h₁. Yields-bind _ _ _ (healthy.wait c w₁) λ _ w₂ h₂. yields (refl, refl, refl))
    ]

    drop_old_child-Returns :
        (c : Option os.Child) (w : os.World) → Returns os (drop_old_child os c w)
    drop_old_child-Returns none w = yields tt
    drop_old_child-Returns (some c) w = yields tt

    drop_old_dir-Returns : (d : Option os.TempDir) (w : os.World) → Returns os (drop_old_dir os d w)
    drop_old_dir-Returns none w = yields tt
    drop_old_dir-Returns (some d) w = yields tt

    append_nil : (v : View) → v ++ [] ≡ v
    append_nil [] = refl
    append_nil (x ∷ v) = ground (arith, append_nil v)

    view-snoc :
        (ns : List (NodeState os)) (m : NodeState os) (u : View)
        → view (ns ++ m ∷ []) ++ u ≡ view ns ++ (m.vs_ip, is_some m.child) ∷ u
    view-snoc [] m u = refl
    view-snoc (n ∷ ns) m u = ground (arith, view-snoc ns m u)

    all-snoc :
        (ns : List (NodeState os)) (m : NodeState os)
        → all is_paired ns ≡ true
        → is_paired m ≡ true
        → all is_paired (ns ++ m ∷ []) ≡ true
    all-snoc [] m h k = ground (arith, k)
    all-snoc (n ∷ ns) m h k = ground (arith, all-snoc ns m (ground (arith, h)) k)

    start_nodes-Yields :
        (cs : List NodeConfig) (s : State os) (w : os.World)
        → all is_paired s.nodes ≡ true
        → Yields (λ t _. Shows (view s.nodes ++ started cs) t.nodes) (start_nodes os cs s w)
    unfolding start_nodes
    start_nodes-Yields [] s w h = yields (sym (append_nil (view s.nodes)), h)
    start_nodes-Yields (c ∷ cs) s w h = Yields-bind _ _ _ (start_in-Yields s.tmpdir c s w) λ m w₁ k.
        Yields-map
          (λ t _ l. (
            l.0
                ∙ view-snoc s.nodes m (started cs)
                ∙ ap (λ p. view s.nodes ++ p ∷ started cs) (ap₂ (λ ip b. (ip, b)) k.0 k.1),
            l.1,
          ))
          (start_nodes-Yields cs (record s { nodes = s.nodes ++ m ∷ [] }) w₁
            (all-snoc s.nodes m h k.2))

    start_first-Yields :
        (s : State os) (c : NodeConfig) (ns : List (NodeState os)) (w : os.World)
        → all is_paired ns ≡ true
        → Yields (λ ms _. Shows (set_first c.vs_ip true (view ns)) ms) (start_first os s c ns w)
    unfolding start_first
    start_first-Yields s c [] w h = yields (refl, refl)
    start_first-Yields s c (n ∷ ns) w h = elim (Bool-cases (ip_eq n.vs_ip c.vs_ip)) [
      | inl e ↦ rw e (
          Yields-bind _ _ _ (start_in-Yields os.default_temp_dir c s w) λ m w₁ k.
            Yields-bind _ _ _ (drop_old_child-Returns n.child w₁) λ _ w₂ h₂.
              Yields-bind _ _ _ (drop_old_dir-Returns n.workdir w₂) λ _ w₃ h₃. yields (
                ap (λ p. p ∷ view ns) (ap₂ (λ ip b. (ip, b)) (k.0 ∙ sym (ip_eq_iff _ _ e)) k.1),
                ground (arith, h, k),
              ))
      | inr e ↦ rw e (
          Yields-bind _ _ _ (start_first-Yields s c ns w (ground (arith, h)))
            λ ms w₁ k. yields (ground (arith, h, k), ground (arith, h, k)))
    ]

    stop_all-Returns : (ns : List (NodeState os)) (w : os.World) → Returns os (stop_all os ns w)
    unfolding stop_all
    stop_all-Returns [] w = yields tt
    stop_all-Returns (n ∷ ns) w =
        Yields-bind _ _ _ (shut_down-Yields n w)
          λ m w₁ h. Yields-bind _ _ _ (stop_all-Returns ns w₁) λ ms w₂ k. yields tt

    drop_all-Returns : (ns : List (NodeState os)) (w : os.World) → Returns os (drop_all os ns w)
    unfolding drop_all
    drop_all-Returns [] w = yields tt
    drop_all-Returns (n ∷ ns) w = Yields-bind _ _ _ (drop_old_child-Returns n.child w) λ _ w₁ h.
        Yields-bind _ _ _ (drop_old_dir-Returns n.workdir w₁) λ _ w₂ k. drop_all-Returns ns w₂

    stop_first-Yields :
        (ip : Ipv4Addr) (ns : List (NodeState os)) (w : os.World)
        → all is_paired ns ≡ true
        → Yields (λ ms _. Shows (set_first ip false (view ns)) ms) (stop_first os ip ns w)
    unfolding stop_first
    stop_first-Yields ip [] w h = yields (refl, refl)
    stop_first-Yields ip (n ∷ ns) w h = elim (Bool-cases (ip_eq n.vs_ip ip)) [
      | inl e ↦ rw e (
          Yields-bind _ _ _ (shut_down-Yields n w)
            λ m w₁ k. yields (ground (arith, h, k), ground (arith, h, k)))
      | inr e ↦ rw e (
          Yields-bind _ _ _ (stop_first-Yields ip ns w (ground (arith, h)))
            λ ms w₁ k. yields (ground (arith, h, k), ground (arith, h, k)))
    ]

    -- On a system whose calls succeed, every message but `wait_for_ready` is answered: the actor does
    -- not panic, the answer is the one of the message, the addresses and the running nodes are what
    -- the message is meant to make of them, and every node still has a client exactly when it has a
    -- process if that held before.
    pub process-simulates :
        (polls : ℕ) (m : Message) (s : State os) (w : os.World)
        → IsServed m
        → all is_paired s.nodes ≡ true
        → Yields
            (λ r _. (r.0 ≡ answer_of m s) × Shows (after_message m (view s.nodes)) r.1.nodes)
            (process os polls m s w)
    unfolding process stop_nodes start_one stop_one
    process-simulates polls version s w e h = yields (refl, (refl, h))
    process-simulates polls (start cs) s w e h =
        Yields-bind _ _ _ (start_nodes-Yields cs s w h) λ t w₁ k. yields (refl, k)
    process-simulates polls (start_node c) s w e h =
        Yields-bind {P = λ t _. Shows (set_first c.vs_ip true (view s.nodes)) t.nodes} _ _ _
          (Yields-bind _ _ _ (start_first-Yields s c s.nodes w h) λ _ w₁ k. yields k)
          λ t w₁ k. yields (refl, k)
    process-simulates polls stop s w e h =
        Yields-bind {P = λ t _. Shows [] t.nodes} _ _ _
          (Yields-bind _ _ _ (stop_all-Returns s.nodes w)
            λ ns w₁ k. Yields-bind _ _ _ (drop_all-Returns ns w₁) λ _ w₂ l. yields (refl, refl))
          λ t w₁ k. yields (refl, k)
    process-simulates polls (stop_node ip) s w e h =
        Yields-bind {P = λ t _. Shows (set_first ip false (view s.nodes)) t.nodes} _ _ _
          (Yields-bind _ _ _ (stop_first-Yields ip s.nodes w h) λ _ w₁ k. yields k)
          λ t w₁ k. yields (refl, k)
    process-simulates polls wait_for_ready s w e h = absurd e
