-- ===== src/Firewall/Handle.antt =====
-- crates/e2etest-firewall/src/lib.rs: the methods of the actor's handle, and its task.
use e2etest_rs.Prelude.{ℕ, List, []}
use e2etest_rs.System.Command.{Ipv4Addr}
use e2etest_rs.Actor.{Mailbox, idle, ask, settle}
use e2etest_rs.Runner.Runtime.{◌>>=◌, ◌>>◌, pure}
use e2etest_rs.Firewall.Routes.{Netlink}
use e2etest_rs.Firewall.{Message, Io, process}

module _ (nl : Netlink) where
  abbrev pub Box : Type 0
  Box = Mailbox Message (List Ipv4Addr)

  -- `new`, which leaves the connection to the task
  abbrev pub new : Box
  new = idle []

  -- The task: the connection, and all messages. Nothing is done when the handles are gone.
  unfoldable pub run_actor : List Message → Io nl (List Ipv4Addr)
  run_actor ms = do nl.connect; settle (process nl) ms []

  module _ (turns : ℕ) where
    unfoldable pub drop_traffic : List Ipv4Addr → Box → Io nl Box
    drop_traffic ips box = do r ← ask (process nl) turns (Message.drop_traffic ips) box; pure r.1

    unfoldable pub turn_off_rules : Box → Io nl Box
    turn_off_rules box = do r ← ask (process nl) turns Message.turn_off_rules box; pure r.1
