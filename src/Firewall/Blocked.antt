-- ===== src/Firewall/Blocked.antt =====
-- crates/e2etest-firewall/src/lib.rs: which addresses are blocked.
use e2etest_rs.Prelude.{
  ◌≡◌, refl, ap, ◌∙◌, Bool, true, false, not, ◌&&◌, ◌||◌, List, [], ◌∷◌, arith, Bool-cases, inl,
  inr,
}
use e2etest_rs.System.Command.{Ipv4Addr, ip_eq}
use e2etest_rs.Runner.Runtime.{Yields, yields, Yields-bind}
use e2etest_rs.Actor.{settle}
use e2etest_rs.Firewall.Routes.{
  Netlink, route_to, list_all, new_route, delete_route, get_route, request_create_replace, request,
  dump, log_sent, log_routes,
}
use e2etest_rs.Firewall.{
  Message, drop_traffic, turn_off_rules, add_unreachable_route, remove_unreachable_route,
  add_routes, remove_routes, process,
}
use e2etest_rs.Firewall.Handle.{run_actor}

abbrev pub is_listed : Ipv4Addr → List Ipv4Addr → Bool
is_listed q [] = false
is_listed q (ip ∷ ips) = ip_eq ip q || is_listed q ips

module _ (nl : Netlink) where
  -- What the library and the kernel do: the connection comes about, a new route blocks its address, a deletion unblocks it,
  -- whether it was there or not, and a listing changes nothing.
  pub record Kernel : Type 0 where
    pub blocked : nl.World → Ipv4Addr → Bool
    pub connected :
        (q : Ipv4Addr) (w : nl.World) → Yields (λ _ v. blocked v q ≡ blocked w q) (nl.connect w)
    pub builds : (ip : Ipv4Addr) → nl.builds (route_to ip) ≡ true
    pub added :
        (ip q : Ipv4Addr) (w : nl.World)
        → blocked (nl.send new_route request_create_replace (route_to ip) w).1 q
          ≡ (ip_eq ip q || blocked w q)
    pub deleted :
        (ip q : Ipv4Addr) (w : nl.World)
        → blocked (nl.send delete_route request (route_to ip) w).1 q
          ≡ (not (ip_eq ip q) && blocked w q)
    pub asked :
        (q : Ipv4Addr) (w : nl.World)
        → blocked (nl.send get_route dump list_all w).1 q ≡ blocked w q
    pub received : (q : Ipv4Addr) (w : nl.World) → blocked (nl.receive w).1 q ≡ blocked w q

  module _ (kernel : Kernel) (q : Ipv4Addr) where
    blocked-add_routes :
        (ips : List Ipv4Addr) (w : nl.World)
        → kernel.blocked (add_routes nl ips w) q ≡ (is_listed q ips || kernel.blocked w q)
    unfolding add_routes add_unreachable_route
    blocked-add_routes [] w = refl
    blocked-add_routes (ip ∷ ips) w =
        let w' = (add_unreachable_route nl ip w).1 in
        let step : kernel.blocked w' q ≡ (ip_eq ip q || kernel.blocked w q) =
          rw (kernel.builds ip) (kernel.added ip q w) in
        ground (arith, blocked-add_routes ips w', step)

    blocked-remove_routes :
        (ips : List Ipv4Addr) (w : nl.World)
        → kernel.blocked (remove_routes nl ips w) q ≡ (not (is_listed q ips) && kernel.blocked w q)
    unfolding remove_routes remove_unreachable_route
    blocked-remove_routes [] w = refl
    blocked-remove_routes (ip ∷ ips) w =
        let w' = (remove_unreachable_route nl ip w).1 in
        let step : kernel.blocked w' q ≡ (not (ip_eq ip q) && kernel.blocked w q) =
          rw (kernel.builds ip) (kernel.deleted ip q w) in
        ground (arith, blocked-remove_routes ips w', step)

    blocked-log_sent :
        (r : Bool × nl.World) → kernel.blocked (log_sent nl r).1 q ≡ kernel.blocked r.1 q
    blocked-log_sent (true, w) = kernel.received q w
    blocked-log_sent (false, w) = refl

    blocked-log_routes : (w : nl.World) → kernel.blocked (log_routes nl w).1 q ≡ kernel.blocked w q
    unfolding log_routes
    blocked-log_routes w = elim (Bool-cases (nl.builds list_all)) [
      | inl e ↦ rw e (blocked-log_sent (nl.send get_route dump list_all w) ∙ kernel.asked q w)
      | inr e ↦ rw e refl
    ]

    -- The addresses that the messages are meant to block.
    abbrev pub disabled_after : List Message → List Ipv4Addr → List Ipv4Addr
    disabled_after [] ips = ips
    disabled_after (drop_traffic ips' ∷ ms) ips = disabled_after ms ips'
    disabled_after (turn_off_rules ∷ ms) ips = disabled_after ms []

    abbrev Blocks : List Ipv4Addr → List Ipv4Addr → nl.World → Type 0
    Blocks ips disabled w = (disabled ≡ ips) × (kernel.blocked w q ≡ is_listed q ips)

    settle-Blocks :
        (ms : List Message) (ips disabled : List Ipv4Addr) (w : nl.World)
        → Blocks ips disabled w
        → Yields (Blocks (disabled_after ms ips)) (settle (process nl) ms disabled w)
    unfolding settle process
    settle-Blocks [] ips disabled w h = yields h
    settle-Blocks (drop_traffic new ∷ ms) ips disabled w h =
        Yields-bind {P = λ r t. Blocks new r.1 t} _ _ _
          (yields (
            refl,
            blocked-log_routes _
                ∙ ground (
                  arith,
                  h.1,
                  ap (λ l. is_listed q l) h.0,
                  blocked-add_routes new (remove_routes nl disabled w),
                  blocked-remove_routes disabled w,
                ),
          ))
          λ r t k. settle-Blocks ms new r.1 t k
    settle-Blocks (turn_off_rules ∷ ms) ips disabled w h =
        Yields-bind {P = λ r t. Blocks [] r.1 t} _ _ _
          (yields (
            refl,
            blocked-log_routes _
                ∙ ground
                    (arith, h.1, ap (λ l. is_listed q l) h.0, blocked-remove_routes disabled w),
          ))
          λ r t k. settle-Blocks ms [] r.1 t k

    -- On a kernel that carries out every request to add or to delete a route, the actor answers every
    -- sequence of messages. An address that was not blocked before is blocked afterwards exactly when
    -- the last message asks to drop the traffic to it. That is also so after the end of the actor,
    -- which removes no route.
    pub run_actor-Blocks :
        (ms : List Message) (w : nl.World)
        → kernel.blocked w q ≡ false
        → Yields
            (λ disabled t.
              (disabled ≡ disabled_after ms [])
              × (kernel.blocked t q ≡ is_listed q (disabled_after ms [])))
            (run_actor nl ms w)
    unfolding run_actor
    run_actor-Blocks ms w h =
        Yields-bind _ _ _ (kernel.connected q w) λ _ v e. settle-Blocks ms [] [] v (refl, e ∙ h)
