-- ===== src/Proxy/Handle.antt =====
-- crates/e2etest-scylla-proxy-cluster/src/lib.rs: the methods of the actor's handle, and its task.
use e2etest_rs.Prelude.{ℕ, Option, none, List}
use e2etest_rs.Actor.{Mailbox, idle, ask, settle}
use e2etest_rs.Runner.Runtime.{◌>>=◌, pure}
use e2etest_rs.Proxy.{
  SocketAddr, NodeConfig, ProxyLibrary, Message, Answer, translations, done, Io, stop_proxy,
  process,
}

module _ (lib : ProxyLibrary) where
  abbrev pub Box : Type 0
  Box = Mailbox (Message lib) (Option lib.RunningProxy)

  -- `new`
  abbrev pub new : Box
  new = idle none

  -- The task: all messages, and a stop when the handles are gone.
  unfoldable pub run_actor :
      List (Message lib) → Option lib.RunningProxy → Io lib (Option lib.RunningProxy)
  run_actor ms proxy = do last ← settle (process lib) ms proxy; stop_proxy lib last

  abbrev pub as_translations : Answer × Box → Io lib (List (SocketAddr × SocketAddr) × Box)
  as_translations (translations t, box) = pure (t, box)
  as_translations _ = λ w. none

  abbrev pub as_done : Answer × Box → Io lib Box
  as_done (done, box) = pure box
  as_done _ = λ w. none

  module _ (turns : ℕ) where
    abbrev asked : Message lib → Box → Io lib (Answer × Box)
    asked = ask (process lib) turns

    unfoldable pub start : List NodeConfig → Box → Io lib (List (SocketAddr × SocketAddr) × Box)
    start cfgs box = do r ← asked (Message.start cfgs) box; as_translations r

    unfoldable pub stop : Box → Io lib Box
    stop box = do r ← asked Message.stop box; as_done r

    unfoldable pub change_request_rules : Option (List lib.RequestRule) → Box → Io lib Box
    change_request_rules rules box = do
      r ← asked (Message.change_request_rules rules) box
      as_done r

    unfoldable pub change_response_rules : Option (List lib.ResponseRule) → Box → Io lib Box
    change_response_rules rules box = do
      r ← asked (Message.change_response_rules rules) box
      as_done r

    unfoldable pub turn_off_rules : Box → Io lib Box
    turn_off_rules box = do r ← asked Message.turn_off_rules box; as_done r
