-- ===== src/Firewall.antt =====
-- crates/e2etest-firewall/src/lib.rs: the actor that blocks traffic to addresses by blackhole routes.
-- The kernel is behind a library's netlink socket: the record `Netlink`.
pub mod Handle
pub mod Routes
pub mod Blocked
use e2etest_rs.Prelude.{ℕ, Bool, true, false, Option, none, some, List, [], ◌∷◌}
use e2etest_rs.System.Command.{Ipv4Addr}
use e2etest_rs.Runner.Runtime.{◌>>=◌, ◌>>◌, pure}
use e2etest_rs.Firewall.Routes.{
  Rtmsg, Netlink, route_to, list_all, new_route, delete_route, get_route, request_create_replace,
  request, dump, log_routes,
}

-- The messages of `Firewall`, without the channels of their answers.
pub data Message : Type 0 where
  drop_traffic : List Ipv4Addr → Message
  turn_off_rules : Message

module _ (nl : Netlink) where
  abbrev pub Io : Type 0 → Type 0
  Io A = nl.World → Option (A × nl.World)

  -- Whether it went well. A message that cannot be built is not sent.
  abbrev pub send_built : Bool → (nl.World → Bool × nl.World) → nl.World → Bool × nl.World
  send_built true send w = send w
  send_built false send w = (false, w)

  unfoldable pub add_unreachable_route : Ipv4Addr → nl.World → Bool × nl.World
  add_unreachable_route ip =
      send_built (nl.builds (route_to ip)) (nl.send new_route request_create_replace (route_to ip))

  unfoldable pub remove_unreachable_route : Ipv4Addr → nl.World → Bool × nl.World
  remove_unreachable_route ip =
      send_built (nl.builds (route_to ip)) (nl.send delete_route request (route_to ip))

  -- Errors are logged only.
  unfoldable pub add_routes : List Ipv4Addr → nl.World → nl.World
  add_routes [] w = w
  add_routes (ip ∷ ips) w = add_routes ips (add_unreachable_route ip w).1

  unfoldable pub remove_routes : List Ipv4Addr → nl.World → nl.World
  remove_routes [] w = w
  remove_routes (ip ∷ ips) w = remove_routes ips (remove_unreachable_route ip w).1

  -- The state is `disabled_ips`. Every message is answered by `()`.
  unfoldable pub process : Message → List Ipv4Addr → Io (Unit {0} × List Ipv4Addr)
  process (drop_traffic ips) disabled w =
      some ((tt, ips), (log_routes nl (add_routes ips (remove_routes disabled w))).1)
  process turn_off_rules disabled w = some ((tt, []), (log_routes nl (remove_routes disabled w)).1)
