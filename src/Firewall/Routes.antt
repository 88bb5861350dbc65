-- ===== src/Firewall/Routes.antt =====
-- crates/e2etest-firewall/src/lib.rs: the netlink messages, and the listing of the routes for the log.
use e2etest_rs.Prelude.{
  ℕ, Bool, true, false, Option, none, some, List, [], ◌∷◌, ◌++◌, if◌then◌else◌, ◌==◌, length,
}
use e2etest_rs.Prelude.Text.{Text, codes}
use e2etest_rs.System.Command.{Ipv4Addr, ip_text, decimal}

-- The constants of netlink that the messages are made of.
pub data Table : Type 0 where
  main : Table
  unspec_table : Table

pub data Kind : Type 0 where
  blackhole : Kind
  unspec_kind : Kind

pub data Rtm : Type 0 where
  new_route : Rtm
  delete_route : Rtm
  get_route : Rtm

pub data Flags : Type 0 where
  request_create_replace : Flags
  request : Flags
  dump : Flags

-- A routing message of the family `Inet`, with no source, no service type, no protocol and the scope
-- `Universe`. `dst` is the payload of its attribute `Dst`, if it has one.
pub record Rtmsg : Type 0 where
  pub dst : Option (List ℕ)
  pub dst_len : ℕ
  pub table : Table
  pub kind : Kind

abbrev pub octets : Ipv4Addr → List ℕ
octets ip = ip.a ∷ ip.b ∷ ip.c ∷ ip.d ∷ []

abbrev pub route_to : Ipv4Addr → Rtmsg
route_to ip = record { dst = some (octets ip); dst_len = 32; table = main; kind = blackhole }

abbrev pub list_all : Rtmsg
list_all = record { dst = none; dst_len = 0; table = unspec_table; kind = unspec_kind }

-- An attribute of a received route: whether it is a `Dst`, and its payload.
pub record Attribute : Type 0 where
  pub is_dst : Bool
  pub payload : List ℕ

-- A received message: whether it is of a routing type, and its route if it has one.
pub record Received : Type 0 where
  pub is_rtm : Bool
  pub route : Option (List Attribute × ℕ)

-- `connect` is `NlRouter::connect` for the routes; `builds` says whether the builders take the fields; `receive` is the stream of results that follows a
-- dump, and `none` in it is an error. `v6_text` prints an address of 16 bytes.
pub record Netlink : Type 1 where
  pub World : Type 0
  pub connect : World → Option (Unit {0} × World)
  pub builds : Rtmsg → Bool
  pub send : Rtm → Flags → Rtmsg → World → Bool × World
  pub receive : World → List (Option Received) × World
  pub v6_text : List ℕ → Text

module _ (nl : Netlink) where
  -- `to_addr`, printed
  abbrev pub address_text : List ℕ → Option Text
  address_text (a ∷ b ∷ c ∷ d ∷ []) = some (ip_text (record { a = a; b = b; c = c; d = d }))
  address_text bytes = if length bytes == 16 then some (nl.v6_text bytes) else none

  -- The last attribute `Dst` counts.
  unfoldable pub destination : Option Text → List Attribute → Option Text
  destination dst [] = dst
  destination dst (attr ∷ attrs) =
      destination (if attr.is_dst then address_text attr.payload else dst) attrs

  abbrev pub destination_text : Option Text → ℕ → Text
  destination_text none dst_len = codes "default"
  destination_text (some t) dst_len = t ++ codes "/" ++ decimal dst_len ++ codes " "

  -- `parse_route_table`: the destination that the log line names.
  unfoldable pub parse_route_table : Received → List Text
  parse_route_table rtm = elim rtm.route [
    | none ↦ []
    | some (attrs, dst_len) ↦ destination_text (destination none attrs) dst_len ∷ []
  ]

  abbrev pub parse_if_route : Received → List Text
  parse_if_route rtm = if rtm.is_rtm then parse_route_table rtm else []

  -- The loop ends at the first error. The result is whether there was none, and the log lines.
  unfoldable pub log_received : List (Option Received) → Bool × List Text
  log_received [] = (true, [])
  log_received (none ∷ rest) = (false, [])
  log_received (some rtm ∷ rest) =
      let (ended, lines) = log_received rest in (ended, parse_if_route rtm ++ lines)

  abbrev pub log_sent : Bool × nl.World → (Bool × List Text) × nl.World
  log_sent (false, w) = ((false, []), w)
  log_sent (true, w) = let (received, w') = nl.receive w in (log_received received, w')

  unfoldable pub log_routes : nl.World → (Bool × List Text) × nl.World
  log_routes w =
      let sent = log_sent (nl.send get_route dump list_all w) in
      if nl.builds list_all then sent else ((false, []), w)
