-- ===== src/Proxy/Rules.antt =====
-- crates/e2etest-scylla-proxy-cluster/src/lib.rs: the rules that the nodes of a running proxy have.
use e2etest_rs.Prelude.{◌≡◌, refl, sym, ◌∙◌, Option, none, some, List, [], ◌∷◌, map, All}
use mathlib.Core.Path.{subst}
use e2etest_rs.Runner.Runtime.{Yields, yields, Yields-bind}
use e2etest_rs.Actor.{settle}
use e2etest_rs.Proxy.{
  ProxyNode, ProxyLibrary, Message, start, stop, change_request_rules, change_response_rules,
  turn_off_rules, proxy_node, stop_proxy, start_proxy, change_requests, change_responses, turn_off,
  process,
}

module _ (lib : ProxyLibrary) where
  -- What the library says of the rules of a node. A node that is built has none, and turning the
  -- rules off leaves none on any node.
  pub record HasRules : Type 0 where
    pub requests : lib.RunningNode → Option (List lib.RequestRule)
    pub responses : lib.RunningNode → Option (List lib.ResponseRule)
    pub requests_changed :
        (r : Option (List lib.RequestRule)) (n : lib.RunningNode)
        → requests (lib.change_node_requests r n) ≡ r
    pub requests_kept :
        (r : Option (List lib.ResponseRule)) (n : lib.RunningNode)
        → requests (lib.change_node_responses r n) ≡ requests n
    pub responses_changed :
        (r : Option (List lib.ResponseRule)) (n : lib.RunningNode)
        → responses (lib.change_node_responses r n) ≡ r
    pub responses_kept :
        (r : Option (List lib.RequestRule)) (n : lib.RunningNode)
        → responses (lib.change_node_requests r n) ≡ responses n
    pub nodes_set :
        (ns : List lib.RunningNode) (p : lib.RunningProxy)
        → lib.running_nodes (lib.with_running_nodes ns p) ≡ ns
    pub started :
        (ns : List ProxyNode) (w : lib.World) (p : lib.RunningProxy)
        → (lib.run ns w).0 ≡ some p
        → All (λ n. (requests n ≡ none) × (responses n ≡ none)) (lib.running_nodes p)
    pub turned_off :
        (p : lib.RunningProxy)
        → All
            (λ n. (requests n ≡ none) × (responses n ≡ none))
            (lib.running_nodes (lib.turn_off_proxy p))

  abbrev pub Rules : Type 0
  Rules = Option (List lib.RequestRule) × Option (List lib.ResponseRule)

  -- The rules after a message, as the tests mean them.
  abbrev pub rules_after : Message lib → Rules → Rules
  rules_after (start []) v = v
  rules_after (start (cfg ∷ cfgs)) v = (none, none)
  rules_after stop v = v
  rules_after (change_request_rules r) v = (r, v.1)
  rules_after (change_response_rules r) v = (v.0, r)
  rules_after turn_off_rules v = (none, none)

  abbrev pub rules_after_all : List (Message lib) → Rules → Rules
  rules_after_all [] v = v
  rules_after_all (m ∷ ms) v = rules_after_all ms (rules_after m v)

  module _ (laws : HasRules) where
    abbrev pub Has : Rules → lib.RunningNode → Type 0
    Has v n = (laws.requests n ≡ v.0) × (laws.responses n ≡ v.1)

    -- Every node of a running proxy has these rules.
    abbrev pub AllHave : Rules → Option lib.RunningProxy → Type 0
    AllHave v none = Unit
    AllHave v (some p) = All (Has v) (lib.running_nodes p)

    map-requests :
        (r : Option (List lib.RequestRule)) (v : Rules) (ns : List lib.RunningNode)
        → All (Has v) ns
        → All (Has (r, v.1)) (map (lib.change_node_requests r) ns)
    map-requests r v [] h = tt
    map-requests r v (n ∷ ns) h =
        ((laws.requests_changed r n, laws.responses_kept r n ∙ h.0.1), map-requests r v ns h.1)

    map-responses :
        (r : Option (List lib.ResponseRule)) (v : Rules) (ns : List lib.RunningNode)
        → All (Has v) ns
        → All (Has (v.0, r)) (map (lib.change_node_responses r) ns)
    map-responses r v [] h = tt
    map-responses r v (n ∷ ns) h =
        ((laws.requests_kept r n ∙ h.0.0, laws.responses_changed r n), map-responses r v ns h.1)

    start-AllHave :
        (ns : List ProxyNode) (w : lib.World) (o : Option lib.RunningProxy)
        → (lib.run ns w).0 ≡ o
        → AllHave (none, none) o
    start-AllHave ns w none e = tt
    start-AllHave ns w (some p) e = laws.started ns w p e

    stop-Yields :
        (p : Option lib.RunningProxy) (w : lib.World)
        → Yields (λ q _. q ≡ none) (stop_proxy lib p w)
    unfolding stop_proxy
    stop-Yields none w = yields refl
    stop-Yields (some p) w = yields refl

    process-AllHave :
        (m : Message lib) (v : Rules) (p : Option lib.RunningProxy) (w : lib.World)
        → AllHave v p
        → Yields (λ r _. AllHave (rules_after m v) r.1) (process lib m p w)
    unfolding process start_proxy change_requests change_responses turn_off
    process-AllHave (start []) v p w h =
        Yields-bind {P = λ r _. AllHave v r.1} _ _ _ (yields h) λ r t k. yields k
    process-AllHave (start (cfg ∷ cfgs)) v p w h =
        Yields-bind {P = λ r _. AllHave (none, none) r.1} _ _ _
          (Yields-bind _ _ _ (stop-Yields p w) λ q t e.
            Yields-bind {P = λ o _. AllHave (none, none) o} _ _ _
              (yields (start-AllHave (map proxy_node (cfg ∷ cfgs)) t _ refl)) λ o u k. yields k)
          λ r t k. yields k
    process-AllHave stop v p w h =
        Yields-bind _ _ _ (stop-Yields p w) λ q t e. yields (subst (AllHave v) (sym e) tt)
    process-AllHave (change_request_rules r) v none w h = yields tt
    process-AllHave (change_request_rules r) v (some p) w h = yields (
        subst (All (Has (r, v.1))) (sym (laws.nodes_set _ p))
          (map-requests r v (lib.running_nodes p) h))
    process-AllHave (change_response_rules r) v none w h = yields tt
    process-AllHave (change_response_rules r) v (some p) w h = yields (
        subst (All (Has (v.0, r))) (sym (laws.nodes_set _ p))
          (map-responses r v (lib.running_nodes p) h))
    process-AllHave turn_off_rules v none w h = yields tt
    process-AllHave turn_off_rules v (some p) w h = yields (laws.turned_off p)

    -- With the proxy's library as it says, the actor answers every sequence of messages. Afterwards
    -- each node of the proxy, if one is running, has the request rules and the response rules that
    -- were set last since the last start, and none after they were turned off.
    pub settle-AllHave :
        (ms : List (Message lib)) (v : Rules) (p : Option lib.RunningProxy) (w : lib.World)
        → AllHave v p
        → Yields (λ q _. AllHave (rules_after_all ms v) q) (settle (process lib) ms p w)
    unfolding settle
    settle-AllHave [] v p w h = yields h
    settle-AllHave (m ∷ ms) v p w h =
        Yields-bind _ _ _ (process-AllHave m v p w h)
          λ r t k. settle-AllHave ms (rules_after m v) r.1 t k
