-- ===== src/VectorStore/Handle.antt =====
-- crates/e2etest-vector-store-cluster/src/lib.rs: the start of the actor, and the methods of its
-- handle.
use e2etest_rs.Prelude.{ℕ, Bool, none, List}
use e2etest_rs.Prelude.Text.{Text}
use e2etest_rs.System.Command.{Ipv4Addr}
use e2etest_rs.System.Os.{Os, Io, assert, executable_exists}
use e2etest_rs.Runner.Runtime.{◌>>=◌, ◌>>◌, pure}
use e2etest_rs.Actor.{Mailbox, idle, post, ask}
use e2etest_rs.VectorStore.Node.{NodeConfig, State}
use e2etest_rs.VectorStore.{Message, Answer, version_is, is_ready, done, new_state, process}

module _ (os : Os) where
  abbrev pub Box : Type 0
  Box = Mailbox Message (State os)

  -- `new`
  unfoldable pub new : Text → Bool → Bool → Text → Io os Box
  new path verbose disable_colors tmpdir = do
    program ← executable_exists os path
    assert program
    state ← new_state os path verbose disable_colors tmpdir
    pure (idle state)

  -- The value of the channel of an answer.
  abbrev pub as_version : Answer × Box → Io os (Text × Box)
  as_version (version_is v, box) = pure (v, box)
  as_version _ = λ w. none

  abbrev pub as_ready : Answer × Box → Io os (Bool × Box)
  as_ready (is_ready b, box) = pure (b, box)
  as_ready _ = λ w. none

  abbrev pub as_done : Answer × Box → Io os Box
  as_done (done, box) = pure box
  as_done _ = λ w. none

  -- `polls` are those of `wait_for_node`, `turns` the messages that the actor takes first.
  module _ (polls : ℕ) (turns : ℕ) where
    abbrev asked : Message → Box → Io os (Answer × Box)
    asked = ask (process os polls) turns

    abbrev sent : Message → Box → Io os Box
    sent = post (process os polls) turns

    unfoldable pub version : Box → Io os (Text × Box)
    version box = do r ← asked Message.version box; as_version r

    unfoldable pub start : List NodeConfig → Box → Io os Box
    start configs box = sent (Message.start configs) box

    unfoldable pub start_node : NodeConfig → Box → Io os Box
    start_node config box = sent (Message.start_node config) box

    unfoldable pub stop : Box → Io os Box
    stop box = do r ← asked Message.stop box; as_done r

    unfoldable pub stop_node : Ipv4Addr → Box → Io os Box
    stop_node vs_ip box = do r ← asked (Message.stop_node vs_ip) box; as_done r

    unfoldable pub wait_for_ready : Box → Io os (Bool × Box)
    wait_for_ready box = do r ← asked Message.wait_for_ready box; as_ready r

    unfoldable pub restart : NodeConfig → Box → Io os Box
    unfolding stop_node start_node wait_for_ready
    restart config box = do
      stopped ← stop_node config.vs_ip box
      started ← start_node config stopped
      r ← wait_for_ready started
      assert r.0
      pure r.1
