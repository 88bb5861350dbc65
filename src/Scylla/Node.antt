-- ===== src/Scylla/Node.antt =====
-- crates/e2etest-scylla-cluster/src/lib.rs: the state of the actor, and the process of one node with
-- its configuration files and its command line.
use e2etest_rs.Prelude.{
  Bool, true, false, Option, none, some, List, [], ◌∷◌, ◌++◌, if◌then◌else◌, is_empty,
}
use e2etest_rs.Prelude.Text.{Text, codes}
use e2etest_rs.System.Command.{Ipv4Addr, ip_text, join_path, join_commas}
use e2etest_rs.System.Os.{Os, Io}
use e2etest_rs.Runner.Runtime.{◌>>=◌, ◌>>◌, pure}

pub record NodeConfig : Type 0 where
  pub db_ip : Ipv4Addr
  pub primary_vs_uris : List Text
  pub secondary_vs_uris : List Text
  pub args : List Text
  pub cert_path : Option Text
  pub key_path : Option Text
  pub extra_config : Option Text

module _ (os : Os) where
  pub record NodeState : Type 0 where
    pub db_ip : Ipv4Addr
    pub child : Option os.Child
    pub workdir : Option os.TempDir

  pub record State : Type 0 where
    pub path : Text
    pub default_conf : Text
    pub tempdir : Text
    pub nodes : List NodeState
    pub version : Text
    pub verbose : Bool

abbrev pub tls_config : Option Text → Option Text → Text
tls_config (some cert) (some key) =
    codes "client_encryption_options:\n  enabled: true\n  certificate: "
    ++ cert
    ++ codes "\n  keyfile: "
    ++ key
tls_config _ _ = []

abbrev pub with_extra : Text → Option Text → Text
with_extra config none = config
with_extra config (some extra) = (if is_empty config then config else config ++ 10 ∷ []) ++ extra

-- The text of the configuration file that a node needs of its own, if it needs one.
abbrev pub own_config : Option Text → Option Text → Option Text → Option Text
own_config (some cert) (some key) extra =
    some (with_extra (tls_config (some cert) (some key)) extra)
own_config cert key (some extra) = some (with_extra (tls_config cert key) (some extra))
own_config cert key none = none

abbrev pub uris_args : Text → List Text → List Text
uris_args option [] = []
uris_args option (u ∷ us) = option ∷ join_commas (u ∷ us) ∷ []

abbrev pub seeds_args : Text → List Text
seeds_args [] = []
seeds_args (c ∷ s) = codes "--seed-provider-parameters" ∷ (codes "seeds=" ++ (c ∷ s)) ∷ []

-- The arguments of a node's process.
unfoldable pub node_args : NodeConfig → Text → Text → Text → List Text
node_args config seeds conf path =
    seeds_args seeds
    ++ uris_args (codes "--vector-store-primary-uri") config.primary_vs_uris
    ++ uris_args (codes "--vector-store-secondary-uri") config.secondary_vs_uris
    ++ (codes "--options-file"
        ∷ conf
        ∷ codes "--workdir"
        ∷ path
        ∷ codes "--listen-address"
        ∷ ip_text config.db_ip
        ∷ codes "--rpc-address"
        ∷ ip_text config.db_ip
        ∷ codes "--api-address"
        ∷ ip_text config.db_ip
        ∷ codes "--log-to-stdout"
        ∷ codes "true"
        ∷ codes "--logger-ostream-type"
        ∷ codes "stdout"
        ∷ codes "--endpoint-snitch"
        ∷ codes "GossipingPropertyFileSnitch"
        ∷ [])
    ++ config.args

module _ (os : Os) where
  -- The configuration file that the node reads.
  abbrev pub write_conf : Text → Text → Option Text → Io os Text
  write_conf default_conf path none = pure default_conf
  write_conf default_conf path (some config) = do
    os.write_file (join_path path (codes "scylla.conf")) config
    pure (join_path path (codes "scylla.conf"))

  unfoldable pub run_node : NodeConfig → Text → Text → Text → State os → Io os os.Child
  run_node config seeds path rack state = do
    conf ←
        write_conf state.default_conf path
          (own_config config.cert_path config.key_path config.extra_config)
    os.create_dir_all (join_path path (codes "conf"))
    os.write_file (join_path (join_path path (codes "conf")) (codes "cassandra-rackdc.properties"))
        (codes "dc=datacenter1\nrack=" ++ rack ++ codes "\nprefer_local=true\n")
    user ← λ w. some (os.find_user (codes "scylla") w, w)
    os.spawn (record {
      program = state.path;
      args = node_args config seeds conf path;
      envs = (codes "SCYLLA_CONF", join_path path (codes "conf")) ∷ [];
      silent = if state.verbose then false else true;
      user = user;
    })
