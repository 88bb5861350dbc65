-- ===== src/Dns/Handle.antt =====
-- crates/e2etest-dns/src/lib.rs: the start of the actor, and the methods of its handle.
use e2etest_rs.Prelude.{ℕ, Bool, Option, none, List}
use e2etest_rs.Prelude.Text.{Text}
use e2etest_rs.System.Command.{Ipv4Addr}
use e2etest_rs.System.Os.{assert}
use e2etest_rs.Actor.{Mailbox, idle, post, ask, settle}
use e2etest_rs.Runner.Runtime.{◌>>=◌, ◌>>◌, pure}
use e2etest_rs.Dns.{
  DnsLibrary, Message, Answer, text, State, Io, is_loopback, zone_name, expect, new_state, process,
}

-- `bind` is `UdpSocket::bind` on port 53, `serve` the server with its catalog of one zone, `shutdown`
-- its graceful end; `checked` says whether the build checks overflow.
module _ (lib : DnsLibrary) (bind : Ipv4Addr → ℕ → lib.World → Option (Unit {0} × lib.World))
    (serve : lib.LowerName → lib.Zone → lib.World → Option (Unit {0} × lib.World))
    (shutdown : lib.World → Option (Unit {0} × lib.World)) (checked : Bool) where
  abbrev pub Box : Type 0
  Box = Mailbox Message (State lib)

  unfoldable pub new : Ipv4Addr → Io lib Box
  new ip = do
    assert (is_loopback ip)
    state ← new_state lib
    bind ip 53
    zone ← expect (lib.parse_lower zone_name)
    serve zone state.authority
    pure (idle state)

  -- The task: all messages, and the end of the server when the handles are gone.
  unfoldable pub run_actor : List Message → State lib → Io lib (Unit {0})
  run_actor ms state = do settle (process lib checked) ms state; shutdown

  abbrev pub as_text : Answer × Box → Io lib (Text × Box)
  as_text (text t, box) = pure (t, box)
  as_text _ = λ w. none

  module _ (turns : ℕ) where
    unfoldable pub version : Box → Io lib (Text × Box)
    version box = do r ← ask (process lib checked) turns Message.version box; as_text r

    unfoldable pub domain : Box → Io lib (Text × Box)
    domain box = do r ← ask (process lib checked) turns Message.domain box; as_text r

    unfoldable pub remove : Text → Box → Io lib Box
    remove name box = post (process lib checked) turns (Message.remove name) box

    unfoldable pub upsert : Text → Ipv4Addr → Box → Io lib Box
    upsert name ip box = post (process lib checked) turns (Message.upsert name ip) box
