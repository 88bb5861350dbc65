-- ===== src/Examples/Processes.antt =====
-- A system that keeps account of its processes, and clusters of two nodes on it.
use e2etest_rs.Prelude.{
  ℕ, suc, ◌≡◌, Bool, refl, true, false, if◌then◌else◌, ◌==◌, none, some, List, [], ◌∷◌, any, arith,
}
use e2etest_rs.Prelude.Text.{codes}
use e2etest_rs.System.Command.{ip_eq}
use e2etest_rs.System.Os.{Os, connected, IsHealthy, Stops, AllEnded}
use e2etest_rs.Runner.Runtime.{Yields, yields}
use e2etest_rs.Scylla.Node as ScyllaNode
use e2etest_rs.Scylla as Scylla
use e2etest_rs.Scylla.Refinement as ScyllaRefinement
use e2etest_rs.Scylla.Stopped.{process-ends}
use e2etest_rs.VectorStore.Node as StoreNode
use e2etest_rs.VectorStore as Store
use e2etest_rs.VectorStore.Refinement as StoreRefinement
use e2etest_rs.VectorStore.Stopped.{process-stops}
use e2etest_rs.Examples.Clusters.{ip}

-- The next number, the processes that were signalled, and those that have ended.
record Table : Type 0 where
  next : ℕ
  signalled : List ℕ
  ended : List ℕ

abbrev has : List ℕ → ℕ → Bool
has cs c = any (λ d. d == c) cs

abbrev tracked : Os
tracked = record {
  World = Table;
  Child = ℕ;
  TempDir = ℕ;
  new_temp_dir = λ p w. some (w.next, record w { next = suc w.next });
  temp_path = λ d. codes "/tmp/dir";
  drop_temp_dir = λ d w. w;
  find_user = λ u w. none;
  chown = λ p u w. some (tt, w);
  write_file = λ p t w. some (tt, w);
  create_new_file = λ p t w. some (tt, w);
  create_dir_all = λ p w. some (tt, w);
  spawn = λ c w. some (w.next, record w { next = suc w.next });
  start_kill = λ c w. some (tt, record w { signalled = c ∷ w.signalled });
  wait = λ c w. some (tt, record w { ended = if has w.signalled c then c ∷ w.ended else w.ended });
  drop_child = λ c w. w;
  output = λ c w. some (record { stdout = []; success = true }, w);
  connects = λ ip port ms w. (connected, w);
  get_json_string = λ u w. (some (codes "SERVING"), w);
  sleep = λ ms w. w;
  default_temp_dir = codes "/tmp";
  metadata = λ p w. (some (true, 0o755), w);
}

tracked-IsHealthy : IsHealthy tracked
tracked-IsHealthy = record {
  new_temp_dir = λ p w. yields tt;
  chown = λ p u w. yields tt;
  write_file = λ p t w. yields tt;
  create_new_file = λ p t w. yields tt;
  create_dir_all = λ p w. yields tt;
  spawn = λ c w. yields tt;
  start_kill = λ c w. yields tt;
  wait = λ c w. yields tt;
  output = λ c w. yields tt;
}

has_first : (c : ℕ) (cs : List ℕ) → has (c ∷ cs) c ≡ true
has_first c cs = ground arith

waited_for :
    (c : ℕ) (ss es : List ℕ) → has ss c ≡ true → has (if has ss c then c ∷ es else es) c ≡ true
waited_for c ss es h = ground (arith, h)

has_still :
    (c d : ℕ) (ss es : List ℕ) → has es d ≡ true → has (if has ss c then c ∷ es else es) d ≡ true
has_still c d ss es h = ground (arith, h)

abbrev tracked-Stops : Stops tracked
tracked-Stops = record {
  signalled = λ c w. has w.signalled c;
  ended = λ c w. has w.ended c;
  start_kill = λ c w. yields (has_first c w.signalled, λ d h. h);
  wait =
      λ c w h. yields (waited_for c w.signalled w.ended h, λ d. has_still c d w.signalled w.ended);
  drop_child = λ c d w h. h;
  drop_temp_dir = λ t d w h. h;
}

abbrev table : Table
table = record { next = 4; signalled = []; ended = [] }

abbrev scylla : ScyllaNode.State tracked
scylla = record {
  path = codes "scylla";
  default_conf = codes "scylla.yaml";
  tempdir = codes "/tmp";
  nodes =
      record { db_ip = ip 1; child = some 1; workdir = some 2 }
      ∷ record { db_ip = ip 2; child = none; workdir = some 3 }
      ∷ [];
  version = codes "6.0";
  verbose = false;
}

process-ends_example :
    Yields
      (λ r v.
        ((r.0 ≡ Scylla.done)
          × ScyllaRefinement.Shows tracked ((ip 1, false) ∷ (ip 2, false) ∷ []) r.1.nodes)
        × AllEnded tracked tracked-Stops (1 ∷ []) v)
      (Scylla.process tracked 9 (Scylla.down_node (ip 1)) scylla table)
unfolding ip_eq
process-ends_example =
    process-ends tracked tracked-Stops tracked-IsHealthy 9 (Scylla.down_node (ip 1)) scylla table tt
      refl

abbrev store : StoreNode.State tracked
store = record {
  path = codes "vector-store";
  nodes =
      record {
        vs_ip = ip 1;
        child = some 1;
        client = some (StoreNode.new_client []);
        workdir = some 2;
      }
      ∷ record { vs_ip = ip 2; child = none; client = none; workdir = some 3 }
      ∷ [];
  version = codes "1.0";
  verbose = false;
  disable_colors = true;
  tmpdir = codes "/tmp";
}

process-stops_example :
    Yields
      (λ r v.
        ((r.0 ≡ Store.done) × StoreRefinement.Shows tracked [] r.1.nodes)
        × AllEnded tracked tracked-Stops (1 ∷ []) v)
      (Store.process tracked 9 Store.stop store table)
process-stops_example =
    process-stops tracked tracked-Stops tracked-IsHealthy 9 Store.stop store table tt refl
