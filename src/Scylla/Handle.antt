-- ===== src/Scylla/Handle.antt =====
-- crates/e2etest-scylla-cluster/src/lib.rs: the default arguments, the start of the actor, and the
-- methods of its handle.
use e2etest_rs.Prelude.{ℕ, Bool, none, List, [], ◌∷◌}
use e2etest_rs.Prelude.Text.{Text, codes}
use e2etest_rs.System.Command.{Ipv4Addr}
use e2etest_rs.System.Os.{Os, Io, assert, executable_exists, file_exists}
use e2etest_rs.Runner.Runtime.{◌>>=◌, ◌>>◌, pure}
use e2etest_rs.Actor.{Mailbox, idle, post, ask}
use e2etest_rs.Scylla.Node.{NodeConfig, State}
use e2etest_rs.Scylla.{Message, Answer, version_is, is_ready, done, new_state, process}

-- What `DEFAULT_SCYLLA_ARGS` holds at first.
abbrev pub initial_scylla_args : List Text
initial_scylla_args =
    codes "--overprovisioned"
    ∷ codes "--developer-mode=true"
    ∷ codes "--smp=2"
    ∷ codes "--memory=1G"
    ∷ codes "--unsafe-bypass-fsync=on"
    ∷ codes "--kernel-page-cache=on"
    ∷ codes "--reactor-backend=io_uring"
    ∷ codes "--rf-rack-valid-keyspaces=true"
    ∷ codes "--collectd=0"
    ∷ codes "--max-networking-io-control-blocks=1000"
    ∷ codes "--commitlog-use-o-dsync=0"
    ∷ codes "--flush-schema-tables-after-modification=false"
    ∷ codes "--auto-snapshot=0"
    ∷ codes "--logger-log-level=compaction=warn"
    ∷ codes "--logger-log-level=migration_manager=warn"
    ∷ codes "--shutdown-announce-in-ms=0"
    ∷ codes "--tablets-mode-for-new-keyspaces=enabled"
    ∷ codes "--alternator-ttl-period-in-seconds=0.5"
    ∷ []

-- The value behind the lock, as it is read and as it is written.
abbrev pub default_scylla_args : List Text → List Text × List Text
default_scylla_args held = (held, held)

abbrev pub set_default_scylla_args : List Text → List Text → List Text
set_default_scylla_args args held = args

module _ (os : Os) where
  abbrev pub Box : Type 0
  Box = Mailbox Message (State os)

  -- `new`
  unfoldable pub new : Text → Text → Text → Bool → Io os Box
  new path default_conf tempdir verbose = do
    program ← executable_exists os path
    assert program
    config ← file_exists os default_conf
    assert config
    state ← new_state os path default_conf tempdir verbose
    pure (idle state)

  -- The value of the channel of an answer.
  abbrev pub as_version : Answer × Box → Io os (Text × Box)
  as_version (version_is v, box) = pure (v, box)
  as_version _ = λ w. none

  abbrev pub as_ready : Answer × Box → Io os (Bool × Box)
  as_ready (is_ready b, box) = pure (b, box)
  as_ready _ = λ w. none

  abbrev pub as_done : Answer × Box → Io os Box
  as_done (done, box) = pure box
  as_done _ = λ w. none

  -- `fuel` is that of the loops that poll, `turns` how many messages the actor takes first.
  module _ (fuel : ℕ) (turns : ℕ) where
    abbrev asked : Message → Box → Io os (Answer × Box)
    asked = ask (process os fuel) turns

    abbrev sent : Message → Box → Io os Box
    sent = post (process os fuel) turns

    unfoldable pub version : Box → Io os (Text × Box)
    version box = do r ← asked Message.version box; as_version r

    unfoldable pub start : List NodeConfig → Box → Io os Box
    start configs box = sent (Message.start configs) box

    unfoldable pub stop : Box → Io os Box
    stop box = do r ← asked Message.stop box; as_done r

    unfoldable pub wait_for_ready : Box → Io os (Bool × Box)
    wait_for_ready box = do r ← asked Message.wait_for_ready box; as_ready r

    unfoldable pub up : List NodeConfig → Box → Io os Box
    up configs box = sent (Message.up configs) box

    unfoldable pub up_node : NodeConfig → Box → Io os Box
    up_node config box = sent (Message.up_node config) box

    unfoldable pub down : Box → Io os Box
    down box = do r ← asked Message.down box; as_done r

    unfoldable pub down_node : Ipv4Addr → Box → Io os Box
    down_node db_ip box = do r ← asked (Message.down_node db_ip) box; as_done r

    unfoldable pub flush : Box → Io os Box
    flush box = do r ← asked Message.flush box; as_done r

    unfoldable pub restart : NodeConfig → Box → Io os Box
    unfolding down_node up_node wait_for_ready
    restart config box = do
      paused ← down_node config.db_ip box
      started ← up_node config paused
      r ← wait_for_ready started
      assert r.0
      pure r.1
