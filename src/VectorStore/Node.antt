-- ===== src/VectorStore/Node.antt =====
-- crates/e2etest-vector-store-cluster/src/lib.rs: the state of the actor, the client of a node's API,
-- and the process of one node with its environment.
use e2etest_rs.Prelude.{
  ℕ, Bool, true, false, Option, none, some, List, [], ◌∷◌, ◌++◌, if◌then◌else◌,
}
use e2etest_rs.Prelude.Text.{Text, codes, text_eq}
use e2etest_rs.System.Command.{Ipv4Addr, socket_text, join_path}
use e2etest_rs.System.Os.{Os, Io, total}
use e2etest_rs.Runner.Runtime.{◌>>=◌, ◌>>◌, pure}

abbrev pub vs_port : ℕ
vs_port = 6080

abbrev pub db_port : ℕ
db_port = 9042

pub data NodeStatus : Type 0 where
  initializing : NodeStatus
  connecting_to_db : NodeStatus
  bootstrapping : NodeStatus
  serving : NodeStatus

-- The names of the variants in JSON.
abbrev pub parse_status : Option Text → Option NodeStatus
parse_status none = none
parse_status (some t) =
    if text_eq t (codes "INITIALIZING")
    then some initializing
    else if text_eq t (codes "CONNECTING_TO_DB")
    then some connecting_to_db
    else if text_eq t (codes "BOOTSTRAPPING")
    then some bootstrapping
    else if text_eq t (codes "SERVING")
    then some serving
    else none

pub record HttpClient : Type 0 where
  pub url_api : Text

-- `HttpClient::new`
abbrev pub new_client : Text → HttpClient
new_client addr = record { url_api = codes "http://" ++ addr ++ codes "/api/v1" }

pub record NodeConfig : Type 0 where
  pub vs_ip : Ipv4Addr
  pub db_ip : Ipv4Addr
  pub user : Option Text
  pub password : Option Text
  pub envs : List (Text × Text)

abbrev pub vs_addr : NodeConfig → Text
vs_addr config = socket_text config.vs_ip vs_port

abbrev pub db_addr : NodeConfig → Text
db_addr config = socket_text config.db_ip db_port

abbrev pub bool_text : Bool → Text
bool_text true = codes "true"
bool_text false = codes "false"

module _ (os : Os) where
  pub record NodeState : Type 0 where
    pub vs_ip : Ipv4Addr
    pub child : Option os.Child
    pub client : Option HttpClient
    pub workdir : Option os.TempDir

  pub record State : Type 0 where
    pub path : Text
    pub nodes : List NodeState
    pub version : Text
    pub verbose : Bool
    pub disable_colors : Bool
    pub tmpdir : Text

  -- `HttpClient::status`, where every error is `none`.
  abbrev pub status : HttpClient → Io os (Option NodeStatus)
  status client = do
    answered ← total os (os.get_json_string (client.url_api ++ codes "/status"))
    pure (parse_status answered)

  abbrev pub base_envs : NodeConfig → Bool → List (Text × Text)
  base_envs config disable_colors =
      (codes "VECTOR_STORE_URI", vs_addr config)
      ∷ (codes "VECTOR_STORE_SCYLLADB_URI", db_addr config)
      ∷ (codes "VECTOR_STORE_THREADS", codes "2")
      ∷ (codes "VECTOR_STORE_DISABLE_COLORS", bool_text disable_colors)
      ∷ (codes "VECTOR_STORE_CQL_KEEPALIVE_INTERVAL", codes "2s")
      ∷ (codes "VECTOR_STORE_CQL_KEEPALIVE_TIMEOUT", codes "10s")
      ∷ (codes "VECTOR_STORE_CQL_TCP_KEEPALIVE_INTERVAL", codes "1s")
      ∷ (codes "VECTOR_STORE_CDC_SAFETY_INTERVAL", codes "3s")
      ∷ (codes "VECTOR_STORE_CDC_SLEEP_INTERVAL", codes "1s")
      ∷ (codes "VECTOR_STORE_CDC_FINE_SAFETY_INTERVAL", codes "100ms")
      ∷ (codes "VECTOR_STORE_CDC_FINE_SLEEP_INTERVAL", codes "500ms")
      ∷ []

  -- The password goes through a file, if both the user and the password are given.
  abbrev pub write_password : Text → Option Text → Option Text → Io os (List (Text × Text))
  write_password dir (some user) (some password) = do
    os.create_new_file (join_path dir (codes "password")) password
    pure (
        (codes "VECTOR_STORE_SCYLLADB_USERNAME", user)
        ∷ (codes "VECTOR_STORE_SCYLLADB_PASSWORD_FILE", join_path dir (codes "password"))
        ∷ [])
  write_password dir _ _ = pure []

  unfoldable pub run_node : NodeConfig → State → os.TempDir → Io os os.Child
  run_node config state workdir = do
    secrets ← write_password (os.temp_path workdir) config.user config.password
    os.spawn (record {
      program = state.path;
      args = [];
      envs = base_envs config state.disable_colors ++ secrets ++ config.envs;
      silent = if state.verbose then false else true;
      user = none;
    })
