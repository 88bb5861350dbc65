-- ===== src/VectorStore/Waiting.antt =====
-- crates/e2etest-vector-store-cluster/src/lib.rs: the polls of a wait, and its timeout.
use e2etest_rs.Prelude.{
  ℕ, zero, suc, ◌-◌, ◌≤◌, ◌<◌, ◌≡◌, refl, ap, if◌then◌else◌, Bool, true, false, not, none, some,
  List, [], ◌∷◌, ◌++◌, arith, ltb, ◌==◌, is_empty, Bool-cases, inl, inr,
}
use e2etest_rs.Prelude.Text.{Text, codes}
use e2etest_rs.System.Os.{Os}
use e2etest_rs.Runner.Runtime.{
  Yields, yields, Yields-bind, Yields-map, Yields-none, none-bind, ◌>>=◌, pure,
}
use e2etest_rs.VectorStore.Node.{NodeState, State, HttpClient, parse_status, status}
use e2etest_rs.VectorStore.{
  is_serving, wait_for_node, wait_for_nodes, wait_until_ready, wait_for_ready, is_ready, process,
}

abbrev pub status_url : HttpClient → Text
status_url client = client.url_api ++ codes "/status"

module _ (os : Os) where
  -- A node answers that it serves exactly when no sleeps are due. Each sleep takes one off, and asking
  -- none.
  pub record Serves : Type 0 where
    pub due : Text → os.World → ℕ
    pub answers :
        (url : Text) (w : os.World)
        → is_serving (parse_status (os.get_json_string url w).0) ≡ (due url w == 0)
    pub due_asked : (url q : Text) (w : os.World) → due q (os.get_json_string url w).1 ≡ due q w
    pub due_slept : (q : Text) (ms : ℕ) (w : os.World) → due q (os.sleep ms w) ≡ due q w - 1

  module _ (serves : Serves) where
    -- Nothing is put off.
    abbrev Nearer : os.World → os.World → Type 0
    Nearer w v = (q : Text) → serves.due q v ≤ serves.due q w

    status-Yields :
        (client : HttpClient) (w : os.World)
        → Yields
            (λ a v.
              (is_serving a ≡ (serves.due (status_url client) w == 0))
              × ((q : Text) → serves.due q v ≡ serves.due q w))
            (status os client w)
    unfolding ◌>>=◌
    status-Yields client w =
        yields (serves.answers (status_url client) w, λ q. serves.due_asked (status_url client) q w)

    -- What a wait for one node finds: whether the polls are more than the sleeps that are due.
    abbrev Waited : ℕ → HttpClient → os.World → Bool → os.World → Type 0
    Waited polls client w b v =
        (b ≡ ltb (serves.due (status_url client) w) polls)
        × (b ≡ true → serves.due (status_url client) v ≡ 0)
        × Nearer w v

    wait_for_node-Yields :
        (polls : ℕ) (client : HttpClient) (w : os.World)
        → Yields (Waited polls client w) (wait_for_node os polls client w)
    unfolding wait_for_node
    wait_for_node-Yields zero client w = yields (ground arith, λ e. cc, λ q. omega arith)
    wait_for_node-Yields (suc polls) client w = Yields-bind _ _ _ (status-Yields client w) λ a v k.
        let url = status_url client in
        elim (Bool-cases (is_serving a)) [
          | inl e ↦ rw e (
              yields (
                ground (arith, k.0, e),
                λ _. ground (arith, k.0, k.1 url, e),
                λ q. omega (arith, k.1 q),
              ))
          | inr e ↦ rw e (
              Yields-bind {P = λ _ t. (q : Text) → serves.due q t ≡ serves.due q v - 1} _ _ _
                (yields λ q. serves.due_slept q 100 v)
                λ _ t l.
                  Yields-map
                    (λ b u m. (
                      ground (arith, m.0, l url, k.0, k.1 url, e),
                      m.1,
                      λ q. omega (arith, m.2 q, l q, k.1 q),
                    ))
                    (wait_for_node-Yields polls client t))
        ]

    -- Every node has a client, and the polls are more than the sleeps due for it.
    abbrev pub InTime : ℕ → os.World → List (NodeState os) → Type 0
    InTime polls w [] = Unit
    InTime polls w (n ∷ ns) =
        ((c : HttpClient) × (n.client ≡ some c) × (serves.due (status_url c) w < polls))
        × InTime polls w ns

    -- Every node has a client, and serves.
    abbrev pub AllServe : os.World → List (NodeState os) → Type 0
    AllServe w [] = Unit
    AllServe w (n ∷ ns) =
        ((c : HttpClient) × (n.client ≡ some c) × (serves.due (status_url c) w ≡ 0)) × AllServe w ns

    InTime-Nearer :
        (polls : ℕ) (ns : List (NodeState os)) {w v : os.World}
        → Nearer w v
        → InTime polls w ns
        → InTime polls v ns
    InTime-Nearer polls [] near h = tt
    InTime-Nearer polls (n ∷ ns) near ((c, e, l), h) =
        ((c, e, omega (arith, l, near (status_url c))), InTime-Nearer polls ns near h)

    wait_for_nodes-Yields :
        (polls : ℕ) (ns : List (NodeState os)) (w : os.World)
        → InTime polls w ns
        → Yields (λ b v. (b ≡ true) × AllServe v ns × Nearer w v) (wait_for_nodes os polls ns w)
    unfolding wait_for_nodes
    wait_for_nodes-Yields polls [] w h = yields (refl, tt, λ q. omega arith)
    wait_for_nodes-Yields polls (n ∷ ns) w ((c, e, l), h) = rw e (
        Yields-bind _ _ _ (wait_for_node-Yields polls c w) λ b v k.
          let ready : b ≡ true = ground (arith, k.0, l) in
          Yields-bind {P = λ _ t. (q : Text) → serves.due q t ≡ serves.due q v} _ _ _
            (rw ready (yields λ q. refl))
            λ _ t same.
              Yields-map
                (λ r u m. (
                  m.0,
                  (
                    (c, refl, omega (arith, k.1 ready, same (status_url c), m.2 (status_url c))),
                    m.1,
                  ),
                  λ q. omega (arith, m.2 q, same q, k.2 q),
                ))
                (wait_for_nodes-Yields polls ns t
                  (InTime-Nearer polls ns (λ q. omega (arith, same q, k.2 q)) h)))

    -- If each node answers that it serves exactly when no sleeps are due, each sleep takes one off and
    -- asking none, and every node has a client and fewer sleeps due than there are polls in the
    -- timeout, then `wait_for_ready` is answered by whether there is a node, without a panic, leaves
    -- the state as it was, and then every node serves.
    pub process-AllServe :
        (polls : ℕ) (s : State os) (w : os.World)
        → InTime polls w s.nodes
        → Yields
            (λ r v. (r.0 ≡ is_ready (not (is_empty s.nodes))) × (r.1 ≡ s) × AllServe v s.nodes)
            (process os polls wait_for_ready s w)
    unfolding process wait_until_ready
    process-AllServe polls s w h =
        Yields-bind {P = λ b v. (b ≡ not (is_empty s.nodes)) × AllServe v s.nodes} _ _ _
          (waited s.nodes h) λ b v k. yields (ap is_ready k.0, refl, k.1)
      where
        waited :
            (ns : List (NodeState os))
            → InTime polls w ns
            → Yields
                (λ b v. (b ≡ not (is_empty ns)) × AllServe v ns)
                ((if is_empty ns then pure false else wait_for_nodes os polls ns) w)
        waited [] h = yields (refl, tt)
        waited (n ∷ ns) h =
            Yields-map (λ b v k. (k.0, k.1)) (wait_for_nodes-Yields polls (n ∷ ns) w h)

    -- If each node answers that it serves exactly when no sleeps are due, each sleep takes one off and
    -- asking none, then `wait_for_ready` panics when the first node has a client and as many sleeps due
    -- as there are polls in the timeout, or more.
    pub process-late :
        (polls : ℕ) (n : NodeState os) (ns : List (NodeState os)) (c : HttpClient) (s : State os)
        (w : os.World)
        → s.nodes ≡ n ∷ ns
        → n.client ≡ some c
        → polls ≤ serves.due (status_url c) w
        → process os polls wait_for_ready s w ≡ none
    unfolding process wait_until_ready wait_for_nodes
    process-late polls n ns c s w e d late = none-bind _ _ w (
        rw (e, d)
          (Yields-none _ _ _ (wait_for_node-Yields polls c w) λ b v k.
            let timed_out : b ≡ false = ground (arith, k.0, late) in
            none-bind _ _ v (rw timed_out refl)))
