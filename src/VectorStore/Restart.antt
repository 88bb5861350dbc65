-- ===== src/VectorStore/Restart.antt =====
-- crates/e2etest-vector-store-cluster/src/lib.rs: the restart of a node.
use e2etest_rs.Prelude.{
  ℕ, suc, ◌≡◌, refl, sym, ap, ◌∙◌, Bool, true, false, ◌&&◌, not, none, List, [], ◌∷◌, arith, all,
  is_empty,
}
use mathlib.Core.Path.{subst}
use e2etest_rs.System.Command.{Ipv4Addr}
use e2etest_rs.System.Os.{Os, IsHealthy, assert-none}
use e2etest_rs.Actor.{idle, post}
use e2etest_rs.Actor.Outcome.{post-idle, ask-idle-Yields, ask_after-Yields}
use e2etest_rs.Runner.Runtime.{Yields, yields, Yields-bind, Yields-none, pure}
use e2etest_rs.Scylla.Refinement.{View, set_first}
use e2etest_rs.VectorStore.Node.{NodeConfig, NodeState, State}
use e2etest_rs.VectorStore.{Message, Answer, is_ready, done, process}
use e2etest_rs.VectorStore.Handle.{
  Box, as_done, as_ready, stop_node, start_node, wait_for_ready, restart,
}
use e2etest_rs.VectorStore.Refinement.{view, is_paired, Shows, process-simulates}
use e2etest_rs.Scylla.Ready.{set_first_twice}
use e2etest_rs.VectorStore.Ready.{all_up, AlwaysServes, wait_until_ready-Yields}

module _ (os : Os) where
  module _ (serves : AlwaysServes os) (polls : ℕ) where
    -- `restart` on an actor with nothing to do, on a system whose calls succeed and whose nodes all
    -- serve, with a poll at least.
    module _ (healthy : IsHealthy os) where
      -- The nodes after the restart, and what the wait for them says.
      abbrev Restarted : View → Bool × Box os → os.World → Type 0
      Restarted v r t =
          (r.0 ≡ (not (is_empty v) && all_up v)) × (r.1.waiting ≡ []) × Shows os v r.1.state.nodes

      is_empty-view : (ns : List (NodeState os)) → is_empty (view os ns) ≡ is_empty ns
      is_empty-view [] = refl
      is_empty-view (n ∷ ns) = refl

      stop_node-Yields :
          (turns : ℕ) (ip : Ipv4Addr) (s : State os) (w : os.World)
          → all (is_paired os) s.nodes ≡ true
          → Yields
              (λ b _.
                (b.waiting ≡ []) × Shows os (set_first ip false (view os s.nodes)) b.state.nodes)
              (stop_node os (suc polls) turns ip (idle s) w)
      unfolding stop_node
      stop_node-Yields turns ip s w h =
          Yields-bind _ _ _
            (ask-idle-Yields (process os (suc polls)) turns (Message.stop_node ip) s w
              (process-simulates os healthy (suc polls) (Message.stop_node ip) s w tt h))
            λ (a, b) t k. done-Yields a b t k.1.0 (k.0, k.1.1)
        where
          done-Yields :
              {Q : Box os → os.World → Type 0} (a : Answer) (b : Box os) (t : os.World)
              → a ≡ done
              → Q b t
              → Yields Q (as_done os (a, b) t)
          done-Yields a b t e q = rw e (yields q)

      ready_of_shown :
          (config : NodeConfig) (v : View) (box : Box os) (s : State os) (t : os.World)
          → view os box.state.nodes ≡ v
          → Shows os (set_first config.vs_ip true (view os box.state.nodes)) s.nodes
          → Yields
              (λ r _.
                (r.0
                  ≡ is_ready (
                      not (is_empty (set_first config.vs_ip true v))
                      && all_up (set_first config.vs_ip true v)))
                × Shows os (set_first config.vs_ip true v) r.1.nodes)
              (process os (suc polls) Message.wait_for_ready s t)
      unfolding process
      ready_of_shown config v box s t e k =
          let shown : view os s.nodes ≡ set_first config.vs_ip true v =
            k.0 ∙ ap (set_first config.vs_ip true) e in
          Yields-bind _ _ _ (wait_until_ready-Yields os serves polls s t k.1) λ b u ready. yields (
            ap is_ready (
                ready
                ∙ ap (λ x. not x && all_up (view os s.nodes)) (sym (is_empty-view s.nodes))
                ∙ ap (λ x. not (is_empty x) && all_up x) shown),
            (shown, k.1),
          )

      wait_for_ready-Yields :
          (turns : ℕ) (config : NodeConfig) (box : Box os) (v : View) (w : os.World)
          → box.waiting ≡ Message.start_node config ∷ []
          → Shows os v box.state.nodes
          → Yields
              (Restarted (set_first config.vs_ip true v))
              (wait_for_ready os (suc polls) turns box w)
      unfolding wait_for_ready
      wait_for_ready-Yields turns config box v w e h =
          Yields-bind _ _ _
            (ask_after-Yields (process os (suc polls))
              {R = λ r _.
                (r.0
                  ≡ is_ready (
                      not (is_empty (set_first config.vs_ip true v))
                      && all_up (set_first config.vs_ip true v)))
                × Shows os (set_first config.vs_ip true v) r.1.nodes}
              turns (Message.start_node config) Message.wait_for_ready box w e
              (process-simulates os healthy (suc polls) (Message.start_node config) box.state w tt
                h.1)
              λ a s t k. ready_of_shown config v box s t h.0 k.1)
            λ (a, b) t k. ready-Yields a b t k.1.0 (refl, k.0, k.1.1)
        where
          ready-Yields :
              {Q : Bool × Box os → os.World → Type 0} (a : Answer) (b : Box os) (t : os.World)
              {r : Bool}
              → a ≡ is_ready r
              → Q (r, b) t
              → Yields Q (as_ready os (a, b) t)
          ready-Yields a b t e q = rw e (yields q)

      -- The first two calls of `restart`.
      start_node-Yields :
          (turns : ℕ) (config : NodeConfig) (v : View) (box : Box os) (w : os.World)
          → (box.waiting ≡ []) × Shows os v box.state.nodes
          → Yields
              (λ b _. (b.waiting ≡ Message.start_node config ∷ []) × Shows os v b.state.nodes)
              (start_node os (suc polls) turns config box w)
      unfolding start_node
      start_node-Yields turns config v box w (e, h) =
          subst
            (λ ms.
              Yields
                (λ b _. (b.waiting ≡ Message.start_node config ∷ []) × Shows os v b.state.nodes)
                (post (process os (suc polls)) turns (Message.start_node config)
                  (record { waiting = ms; state = box.state }) w))
            (sym e)
            (subst
              (Yields
                (λ b _. (b.waiting ≡ Message.start_node config ∷ []) × Shows os v b.state.nodes))
              (sym
                (post-idle (process os (suc polls)) turns (Message.start_node config) box.state w))
              (yields (refl, h)))

      abbrev after_restart : NodeConfig → State os → View
      after_restart config s =
          set_first config.vs_ip true (set_first config.vs_ip false (view os s.nodes))

      -- On a system whose calls succeed and whose nodes all serve, `restart` panics when another node
      -- of the cluster is stopped.
      pub restart_panics :
          (turns : ℕ) (config : NodeConfig) (s : State os) (w : os.World)
          → all (is_paired os) s.nodes ≡ true
          → all_up (set_first config.vs_ip true (view os s.nodes)) ≡ false
          → restart os (suc polls) turns config (idle s) w ≡ none
      unfolding restart
      restart_panics turns config s w h stopped =
          let same = set_first_twice config.vs_ip true false (view os s.nodes) in
          Yields-none _ _ _ (stop_node-Yields turns config.vs_ip s w h) λ b t k.
            Yields-none _ _ _ (start_node-Yields turns config _ b t k) λ c u l.
              Yields-none _ _ _ (wait_for_ready-Yields turns config c _ u l.0 l.1) λ r x q.
                assert-none r.0 (pure r.1) x
                  (q.0 ∙ ap (λ v. not (is_empty v) && all_up v) same ∙ ground (arith, stopped))
