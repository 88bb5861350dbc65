-- ===== src/Examples/Restarts.antt =====
-- Restarts of nodes on a system whose calls succeed.
use e2etest_rs.Prelude.{
  ℕ, suc, ◌-◌, false, leb, if◌then◌else◌, some, ◌⊎◌, inl, inr, Bool, ◌||◌, ◌++◌, any, arith,
  Bool-cases, ◌≡◌, refl, true, none, [], ◌∷◌,
}
use e2etest_rs.System.Os.{Os, connected, refused}
use e2etest_rs.System.Command.{Ipv4Addr, ip_eq, lines, digits}
use e2etest_rs.Prelude.Text.{codes, starts_with}
use e2etest_rs.Actor.{idle}
use e2etest_rs.Runner.Runtime.{Yields, yields}
use e2etest_rs.VectorStore.Node.{NodeConfig}
use e2etest_rs.VectorStore.Handle.{restart}
use e2etest_rs.VectorStore.Ready.{AlwaysServes}
use e2etest_rs.VectorStore.Restart.{restart_panics}
use e2etest_rs.Scylla.Node as ScyllaNode
use e2etest_rs.Scylla.{is_up_line}
use e2etest_rs.Scylla.Ready.{ComesUp, Opens, AllOpen, process-AllOpen}
use e2etest_rs.Scylla as Scylla
use e2etest_rs.Scylla.Up.{process-up-none}
use e2etest_rs.Examples.Clusters.{plain, plain-IsHealthy, ip, store, scylla}

abbrev plain-AlwaysServes : AlwaysServes plain
plain-AlwaysServes = record { serves = λ url w. refl }

abbrev node : ℕ → NodeConfig
node n = record { vs_ip = ip n; db_ip = ip 9; user = none; password = none; envs = [] }

-- The first node is restarted while the second is stopped.
restart_panics_example : restart plain 5 3 (node 1) (idle store) 4 ≡ none
unfolding ip_eq
restart_panics_example =
    restart_panics plain plain-AlwaysServes 4 plain-IsHealthy 3 (node 1) store 4 refl refl

-- The ports are closed until the number of the world is 6, and a sleep adds one.
abbrev slow : Os
slow = record plain {
  connects = λ ip port ms w. (if leb 6 w then connected else refused, w);
  sleep = λ ms w. suc w;
}

-- `nodetool` lists the first two addresses.
abbrev is_known : Ipv4Addr → Bool
is_known q = ip_eq q (ip 1) || ip_eq q (ip 2)

same_of_ip_eq : (p q : Ipv4Addr) → ip_eq p q ≡ true → p ≡ q
unfolding ip_eq
same_of_ip_eq p q h = ground arith

known-cases : (q : Ipv4Addr) → is_known q ≡ true → (q ≡ ip 1) ⊎ (q ≡ ip 2)
known-cases q h = elim (Bool-cases (ip_eq q (ip 1))) [
  | inl e ↦ inl (same_of_ip_eq q (ip 1) e)
  | inr e ↦ inr (same_of_ip_eq q (ip 2) (ground arith))
]

known-IsUp :
    (q : Ipv4Addr)
    → is_known q ≡ true
    → any (is_up_line slow q) (lines (codes "UN 127.0.0.1" ++ 10 ∷ codes "UN 127.0.0.2")) ≡ true
unfolding lines starts_with digits
known-IsUp q h = elim (known-cases q h) [ inl e ↦ rw e refl | inr e ↦ rw e refl ]

open_of_due : (w : ℕ) → 6 - w ≡ 0 → (if leb 6 w then connected else refused) ≡ connected
open_of_due w e = ground arith

leb_of_connected : (w : ℕ) → (if leb 6 w then connected else refused) ≡ connected → leb 6 w ≡ true
leb_of_connected w e = ground arith

leb-suc : (w : ℕ) → leb 6 w ≡ true → leb 6 (suc w) ≡ true
leb-suc w h = ground arith

abbrev slow-ComesUp : ComesUp slow
slow-ComesUp = record {
  responds = is_known;
  bound = 6;
  due = λ q w. 6 - w;
  bounded = λ q w. omega arith;
  sleeps = λ q ms w. omega arith;
  listed = λ s q w up. yields (omega arith, λ _. known-IsUp q up);
  reachable = λ q w. (omega arith, λ e. open_of_due w e);
}

abbrev slow-Opens : Opens slow
slow-Opens = record {
  is_open = λ q w. leb 6 w;
  open_connected = λ q w e. leb_of_connected w e;
  open_connects = λ q r w h. h;
  open_sleep = λ q ms w h. leb-suc w h;
  open_output = λ s q w. yields λ r h. h;
}

abbrev slow_cluster : ScyllaNode.State slow
slow_cluster = record {
  path = codes "scylla";
  default_conf = codes "scylla.yaml";
  tempdir = codes "/tmp";
  nodes =
      record { db_ip = ip 1; child = some 1; workdir = some 2 }
      ∷ record { db_ip = ip 2; child = some 4; workdir = some 3 }
      ∷ [];
  version = codes "6.0";
  verbose = false;
}

-- The world is 4 in the beginning, so the wait sleeps twice.
process-AllOpen_example :
    Yields
      (λ r v.
        (r.0 ≡ Scylla.is_ready true)
        × (r.1 ≡ slow_cluster)
        × AllOpen slow slow-ComesUp slow-Opens slow_cluster.nodes v)
      (Scylla.process slow 8 Scylla.wait_for_ready slow_cluster 4)
unfolding ip_eq
process-AllOpen_example =
    process-AllOpen slow slow-ComesUp slow-Opens 7 (omega arith) slow_cluster 4 refl

abbrev scylla_node : ScyllaNode.NodeConfig
scylla_node = record {
  db_ip = ip 2;
  primary_vs_uris = [];
  secondary_vs_uris = [];
  args = [];
  cert_path = none;
  key_path = none;
  extra_config = none;
}

-- One configuration for two nodes.
process-up-none_example : Scylla.process plain 9 (Scylla.up (scylla_node ∷ [])) scylla 4 ≡ none
process-up-none_example = process-up-none plain 9 (scylla_node ∷ []) scylla 4 (omega arith)
