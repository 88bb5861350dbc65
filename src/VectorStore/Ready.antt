-- ===== src/VectorStore/Ready.antt =====
-- crates/e2etest-vector-store-cluster/src/lib.rs: waiting for the nodes.
use e2etest_rs.Prelude.{
  ℕ, suc, ◌≡◌, refl, Bool, true, ◌&&◌, not, some, List, [], ◌∷◌, arith, all, is_empty, Option-cases,
  Bool-cases, inl, inr,
}
use e2etest_rs.Prelude.Text.{Text, codes, text_eq}
use e2etest_rs.System.Os.{Os}
use e2etest_rs.Runner.Runtime.{Yields, yields, Yields-bind, Yields-map}
use e2etest_rs.Scylla.Refinement.{View}
use e2etest_rs.VectorStore.Node.{NodeState, State, HttpClient, status}
use e2etest_rs.VectorStore.{is_serving, wait_for_node, wait_for_nodes, wait_until_ready}
use e2etest_rs.VectorStore.Refinement.{view, is_paired}

abbrev pub all_up : View → Bool
all_up [] = true
all_up ((p, x) ∷ v) = x && all_up v

module _ (os : Os) where
  -- Every node that is asked serves.
  pub record AlwaysServes : Type 0 where
    pub serves : (url : Text) (w : os.World) → (os.get_json_string url w).0 ≡ some (codes "SERVING")

  module _ (serves : AlwaysServes) (polls : ℕ) where
    status-Yields :
        (client : HttpClient) (w : os.World)
        → Yields (λ a _. is_serving a ≡ true) (status os client w)
    unfolding text_eq
    status-Yields client w =
        Yields-bind {P = λ r _. r ≡ some (codes "SERVING")} _ _ _ (yields (serves.serves _ w))
          λ r t e. rw e (yields refl)

    wait_for_node-Yields :
        (client : HttpClient) (w : os.World)
        → Yields (λ b _. b ≡ true) (wait_for_node os (suc polls) client w)
    unfolding wait_for_node
    wait_for_node-Yields client w =
        Yields-bind {P = λ a _. is_serving a ≡ true} _ _ _ (status-Yields client w)
          λ a t ready. rw ready (yields refl)

    wait_for_nodes-Yields :
        (ns : List (NodeState os)) (w : os.World)
        → all (is_paired os) ns ≡ true
        → Yields (λ b _. b ≡ all_up (view os ns)) (wait_for_nodes os (suc polls) ns w)
    unfolding wait_for_nodes
    wait_for_nodes-Yields [] w h = yields refl
    wait_for_nodes-Yields (n ∷ ns) w h = elim (Option-cases n.client) [
      | inl e ↦ rw e (yields (ground (arith, e, h)))
      | inr (c, e) ↦ rw e (
          Yields-bind _ _ _ (wait_for_node-Yields c w) λ b w₁ ready.
            Yields-bind {P = λ _ _. Unit {0}} _ _ _ (rw ready (yields tt)) λ _ w₂ u.
              Yields-map (λ b _ k. ground (arith, e, h, k))
                (wait_for_nodes-Yields ns w₂ (ground (arith, h))))
    ]

    pub wait_until_ready-Yields :
        (s : State os) (w : os.World)
        → all (is_paired os) s.nodes ≡ true
        → Yields
            (λ b _. b ≡ (not (is_empty s.nodes) && all_up (view os s.nodes)))
            (wait_until_ready os (suc polls) s w)
    unfolding wait_until_ready
    wait_until_ready-Yields s w h = elim (Bool-cases (is_empty s.nodes)) [
      | inl e ↦ rw e (yields refl)
      | inr e ↦ rw e (wait_for_nodes-Yields s.nodes w h)
    ]
