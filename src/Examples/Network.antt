-- ===== src/Examples/Network.antt =====
-- A proxy that keeps the rules of its nodes, and a kernel that keeps the blocked addresses.
use e2etest_rs.Prelude.{
  ℕ, suc, ◌≡◌, refl, Bool, true, false, not, ◌&&◌, ◌||◌, Option, none, some, List, [], ◌∷◌, map,
  All,
}
use mathlib.Core.Path.{subst}
use e2etest_rs.System.Command.{Ipv4Addr, ip_eq}
use e2etest_rs.Runner.Runtime.{Yields, yields}
use e2etest_rs.Actor.{settle}
use e2etest_rs.Proxy as Proxy
use e2etest_rs.Proxy.{ProxyNode, ProxyLibrary}
use e2etest_rs.Proxy.Rules.{HasRules, AllHave, settle-AllHave}
use e2etest_rs.Firewall.Routes.{Rtm, new_route, delete_route, get_route, Rtmsg, Netlink}
use e2etest_rs.Firewall as Firewall
use e2etest_rs.Firewall.Handle.{run_actor}
use e2etest_rs.Firewall.Blocked.{Kernel, run_actor-Blocks}

abbrev Rules : Type 0
Rules = Option (List ℕ) × Option (List ℕ)

abbrev no_rules : Rules
no_rules = (none, none)

-- A running proxy is the rules of its nodes.
abbrev simple_proxy : ProxyLibrary
simple_proxy = record {
  World = ℕ;
  RunningProxy = List Rules;
  RunningNode = Rules;
  RequestRule = ℕ;
  ResponseRule = ℕ;
  translation_map = map (λ n. (n.real_address, n.proxy_address));
  run = λ ns w. (some (map (λ _. no_rules) ns), suc w);
  finish = λ p w. (true, suc w);
  running_nodes = λ p. p;
  with_running_nodes = λ ns p. ns;
  change_node_requests = λ r n. (r, n.1);
  change_node_responses = λ r n. (n.0, r);
  turn_off_proxy = map (λ _. no_rules);
}

-- The new nodes have no rules.
all_new :
    {A : Type 0} (ns : List A)
    → All (λ (n : Rules). (n.0 ≡ none) × (n.1 ≡ none)) (map (λ _. no_rules) ns)
all_new [] = tt
all_new (n ∷ ns) = ((refl, refl), all_new ns)

new_started :
    {A : Type 0} (ns : List A) (p : List Rules)
    → some (map (λ _. no_rules) ns) ≡ some p
    → All (λ (n : Rules). (n.0 ≡ none) × (n.1 ≡ none)) p
new_started ns p e =
    let d : map (λ _. no_rules) ns ≡ p = cc in
    subst (All (λ (n : Rules). (n.0 ≡ none) × (n.1 ≡ none))) d (all_new ns)

abbrev simple_proxy-HasRules : HasRules simple_proxy
simple_proxy-HasRules = record {
  requests = λ n. n.0;
  responses = λ n. n.1;
  requests_changed = λ r n. refl;
  requests_kept = λ r n. refl;
  responses_changed = λ r n. refl;
  responses_kept = λ r n. refl;
  nodes_set = λ ns p. refl;
  started = λ ns w p. new_started ns p;
  turned_off = λ p. all_new p;
}

abbrev address : ℕ → Ipv4Addr
address n = record { a = 127; b = 0; c = 0; d = n }

abbrev conversation : List (Proxy.Message simple_proxy)
conversation =
    Proxy.start (record { real_addr = address 1; proxy_addr = address 2 } ∷ [])
    ∷ Proxy.change_request_rules (some (7 ∷ []))
    ∷ Proxy.change_response_rules (some (8 ∷ []))
    ∷ []

settle-AllHave_example :
    Yields
      (λ q _. AllHave simple_proxy simple_proxy-HasRules (some (7 ∷ []), some (8 ∷ [])) q)
      (settle (Proxy.process simple_proxy) conversation none 0)
settle-AllHave_example =
    settle-AllHave simple_proxy simple_proxy-HasRules conversation (none, none) none 0 tt

abbrev is_destination : Option (List ℕ) → Ipv4Addr → Bool
is_destination (some (a ∷ b ∷ c ∷ d ∷ [])) q = ip_eq (record { a = a; b = b; c = c; d = d }) q
is_destination _ q = false

abbrev after_send : Rtm → Rtmsg → (Ipv4Addr → Bool) → Ipv4Addr → Bool
after_send new_route m w = λ q. is_destination m.dst q || w q
after_send delete_route m w = λ q. not (is_destination m.dst q) && w q
after_send get_route m w = w

abbrev simple_netlink : Netlink
simple_netlink = record {
  World = Ipv4Addr → Bool;
  connect = λ w. some (tt, w);
  builds = λ m. true;
  send = λ kind flags m w. (true, after_send kind m w);
  receive = λ w. ([], w);
  v6_text = λ bytes. [];
}

abbrev simple_netlink-Kernel : Kernel simple_netlink
simple_netlink-Kernel = record {
  blocked = λ w q. w q;
  connected = λ q w. yields refl;
  builds = λ ip. refl;
  added = λ ip q w. refl;
  deleted = λ ip q w. refl;
  asked = λ q w. refl;
  received = λ q w. refl;
}

abbrev orders : List Firewall.Message
orders =
    Firewall.drop_traffic (address 1 ∷ address 2 ∷ []) ∷ Firewall.drop_traffic (address 2 ∷ []) ∷ []

-- The second message unblocks the first address.
run_actor-Blocks_example :
    Yields
      (λ disabled t. (disabled ≡ address 2 ∷ []) × (t (address 1) ≡ false))
      (run_actor simple_netlink orders (λ q. false))
unfolding ip_eq
run_actor-Blocks_example =
    run_actor-Blocks simple_netlink simple_netlink-Kernel (address 1) orders (λ q. false) refl
