-- ===== src/Examples/Waits.antt =====
-- Waits for nodes of the Vector Store that serve only after some sleeps.
use e2etest_rs.Prelude.{
  ℕ, suc, ◌-◌, ◌≡◌, refl, true, false, none, some, [], ◌∷◌, ◌==◌, arith, leb, if◌then◌else◌, Option,
  Bool-cases, inl, inr,
}
use e2etest_rs.Prelude.Text.{Text, codes, text_eq}
use e2etest_rs.System.Os.{Os}
use e2etest_rs.Runner.Runtime.{Yields}
use e2etest_rs.VectorStore.Node.{NodeState, State, new_client, parse_status}
use e2etest_rs.VectorStore.{is_serving, wait_for_ready, is_ready, process}
use e2etest_rs.VectorStore.Waiting.{Serves, AllServe, process-AllServe, process-late}
use e2etest_rs.Examples.Clusters.{plain, ip}

abbrev status_at : ℕ → Option Text
status_at w = some (if leb 6 w then codes "SERVING" else codes "BOOTSTRAPPING")

-- The nodes serve when the number of the world is 6, and a sleep adds one.
abbrev booting : Os
booting = record plain { get_json_string = λ url w. (status_at w, w); sleep = λ ms w. suc w }

serving-of_status : (w : ℕ) → is_serving (parse_status (status_at w)) ≡ (6 - w == 0)
unfolding text_eq
serving-of_status w = elim (Bool-cases (leb 6 w)) [
  | inl e ↦ rw e (ground arith)
  | inr e ↦ rw e (ground arith)
]

abbrev booting-Serves : Serves booting
booting-Serves = record {
  due = λ url w. 6 - w;
  answers = λ url w. serving-of_status w;
  due_asked = λ url q w. refl;
  due_slept = λ q ms w. omega arith;
}

abbrev node : ℕ → NodeState booting
node n = record {
  vs_ip = ip n;
  child = some n;
  client = some (new_client (codes "127.0.0.1:6080"));
  workdir = some n;
}

abbrev cluster : State booting
cluster = record {
  path = codes "vector-store";
  nodes = node 1 ∷ node 2 ∷ [];
  version = codes "1.0";
  verbose = false;
  disable_colors = true;
  tmpdir = codes "/tmp";
}

-- Two sleeps are due, and three polls fit into the timeout.
process-AllServe_example :
    Yields
      (λ r v.
        (r.0 ≡ is_ready true) × (r.1 ≡ cluster) × AllServe booting booting-Serves v cluster.nodes)
      (process booting 3 wait_for_ready cluster 4)
process-AllServe_example =
    process-AllServe booting booting-Serves 3 cluster 4
      ((_, refl, omega arith), ((_, refl, omega arith), tt))

process-late_example : process booting 2 wait_for_ready cluster 4 ≡ none
process-late_example =
    process-late booting booting-Serves 2 (node 1) (node 2 ∷ []) _ cluster 4 refl refl (omega arith)
