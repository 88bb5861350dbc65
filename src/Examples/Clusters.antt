-- ===== src/Examples/Clusters.antt =====
-- A system whose calls succeed, and clusters of two nodes on it.
use e2etest_rs.Prelude.{ℕ, suc, true, false, none, some, [], ◌∷◌, ◌++◌}
use e2etest_rs.Prelude.Text.{codes}
use e2etest_rs.System.Command.{Ipv4Addr}
use e2etest_rs.System.Os.{Os, connected, IsHealthy}
use e2etest_rs.Runner.Runtime.{yields}
use e2etest_rs.Scylla.Node as ScyllaNode
use e2etest_rs.VectorStore.Node as StoreNode

-- The world numbers the processes and directories.
abbrev pub plain : Os
plain = record {
  World = ℕ;
  Child = ℕ;
  TempDir = ℕ;
  new_temp_dir = λ p w. some (w, suc w);
  temp_path = λ d. codes "/tmp/dir";
  drop_temp_dir = λ d w. w;
  find_user = λ u w. some (7, 7);
  chown = λ p u w. some (tt, w);
  write_file = λ p t w. some (tt, w);
  create_new_file = λ p t w. some (tt, w);
  create_dir_all = λ p w. some (tt, w);
  spawn = λ c w. some (w, suc w);
  start_kill = λ c w. some (tt, w);
  wait = λ c w. some (tt, w);
  drop_child = λ c w. w;
  output = λ c w.
      some
        (record { stdout = codes "UN 127.0.0.1" ++ 10 ∷ codes "UN 127.0.0.2"; success = true }, w);
  connects = λ ip port ms w. (connected, w);
  get_json_string = λ u w. (some (codes "SERVING"), w);
  sleep = λ ms w. w;
  default_temp_dir = codes "/tmp";
  metadata = λ p w. (some (true, 0o755), w);
}

pub plain-IsHealthy : IsHealthy plain
plain-IsHealthy = record {
  new_temp_dir = λ p w. yields tt;
  chown = λ p u w. yields tt;
  write_file = λ p t w. yields tt;
  create_new_file = λ p t w. yields tt;
  create_dir_all = λ p w. yields tt;
  spawn = λ c w. yields tt;
  start_kill = λ c w. yields tt;
  wait = λ c w. yields tt;
  output = λ c w. yields tt;
}

abbrev pub ip : ℕ → Ipv4Addr
ip n = record { a = 127; b = 0; c = 0; d = n }

abbrev pub scylla : ScyllaNode.State plain
scylla = record {
  path = codes "scylla";
  default_conf = codes "scylla.yaml";
  tempdir = codes "/tmp";
  nodes =
      record { db_ip = ip 1; child = some 1; workdir = some 2 }
      ∷ record { db_ip = ip 2; child = none; workdir = some 3 }
      ∷ [];
  version = codes "6.0";
  verbose = false;
}

abbrev pub store : StoreNode.State plain
store = record {
  path = codes "vector-store";
  nodes =
      record {
        vs_ip = ip 1;
        child = some 1;
        client = some (StoreNode.new_client []);
        workdir = some 2;
      }
      ∷ record { vs_ip = ip 2; child = none; client = none; workdir = some 3 }
      ∷ [];
  version = codes "1.0";
  verbose = false;
  disable_colors = true;
  tmpdir = codes "/tmp";
}
