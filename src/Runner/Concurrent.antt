-- ===== src/Runner/Concurrent.antt =====
-- group.rs, test.rs: tests that run concurrently, in any interleaving.
use e2etest_rs.Prelude.{ℕ, suc, ◌+◌, ◌≡◌, ◌<◌, true, Option, none, some, List, [], ◌∷◌, arith, any}
use e2etest_rs.Prelude.Text.{Text, text_eq_refl}
use e2etest_rs.Prelude.Text.Split.{path}
use e2etest_rs.Prelude.Collections.{IsIn}
use e2etest_rs.Statistics.{is_at_or_below, test as test_task}
use e2etest_rs.Statistics.Invariant.{any-of_IsIn}
use e2etest_rs.Runner.Runtime.{
  Duration, TestCase, Result, ok, err, Runtime, State, Yields, yields, Yields-bind, unwrap_or,
}
use e2etest_rs.Runner.Task.{spawned}
use e2etest_rs.Runner.Test.{teardown_of}
use e2etest_rs.Runner.Steps.{
  Phase, starting, setting_up, testing, tearing_down, finished, after_setup, advance,
}
use e2etest_rs.Runner.Accounts.{
  At, spawned-At, dropped-At, setup_launched-At, setup_event-At, teardown_launched-At,
  teardown_event-At, test_launched-At, test_event-At,
}

module _ {H : Type 0} where
  -- What a test at a phase still owes: a setup's, a teardown's or a test's result, a teardown, a
  -- setup; and how often it is polled at most before it is done.
  abbrev pub open_setups : Phase H → ℕ
  open_setups setting_up = 1
  open_setups _ = 0

  abbrev pub open_teardowns : Phase H → ℕ
  open_teardowns tearing_down = 1
  open_teardowns _ = 0

  abbrev pub open_tests : Phase H → ℕ
  open_tests (testing h) = 1
  open_tests _ = 0

  abbrev pub owed : Phase H → ℕ
  owed setting_up = 1
  owed (testing h) = 1
  owed _ = 0

  abbrev pub begun : Phase H → ℕ
  begun starting = 0
  begun _ = 1

  abbrev pub weight : Phase H → ℕ
  weight starting = 4
  weight setting_up = 3
  weight (testing h) = 2
  weight _ = 1

  -- How often it is polled yet at most, once it is polled no more when it is done.
  abbrev pub remaining : Phase H → ℕ
  remaining finished = 0
  remaining starting = 4
  remaining setting_up = 3
  remaining (testing h) = 2
  remaining tearing_down = 1

  abbrev pub total : (Phase H → ℕ) → List (TestCase × Phase H) → ℕ
  total f [] = 0
  total f ((t, p) ∷ rest) = f p + total f rest

abbrev pub IsAt :
    (rt : Runtime) → List Text → ℕ → ℕ → ℕ → ℕ → ℕ → Phase rt.Handle → State rt → Type 0
IsAt rt included a b c d n p =
    At rt included (a + open_setups p) (b + open_teardowns p) (c + open_tests p) (d + owed p)
      (n + begun p)

pub At-cast :
    {rt : Runtime} {included : List Text} {a b c d n a' b' c' d' n' : ℕ} {s : State rt}
    → At rt included a b c d n s
    → (a ≡ a') × (b ≡ b') × (c ≡ c') × (d ≡ d') × (n ≡ n')
    → At rt included a' b' c' d' n' s
At-cast at e = record { same = at.same; accounts = omega (arith, at.accounts, e) }

module _ (rt : Runtime) (default_timeout : Duration) (group_name : Text)
    (included : List Text) where
  abbrev pub IsListed : TestCase → Type 0
  IsListed t = IsIn (path group_name t.name) included

  pub here_of :
      (t : TestCase) → IsListed t → any (is_at_or_below (path group_name t.name)) included ≡ true
  here_of t l =
      any-of_IsIn (is_at_or_below (path group_name t.name)) (path group_name t.name) included
        (ground (arith, text_eq_refl (path group_name t.name))) l

  module _ (a b c d n : ℕ) where
    after_setup-At :
        (t : TestCase) (r : Result (Option rt.Handle)) (s : State rt)
        → IsListed t
        → At rt included a b c (suc d) (suc n) s
        → Yields
            (λ p' u. IsAt rt included a b c d n p' u × (remaining p' < 3))
            (after_setup rt default_timeout (path group_name t.name) r s)
    after_setup-At t (ok (some h)) s l at =
        Yields-bind _ _ _ (test_launched-At rt included _ l s at)
          λ _ u at₁. yields (At-cast at₁ (omega arith), omega arith)
    after_setup-At t (ok none) s l at =
        Yields-bind _ _ _ (teardown_launched-At rt included _ (here_of t l) s at)
          λ _ u at₁. yields (At-cast at₁ (omega arith), omega arith)
    after_setup-At t err s l at =
        Yields-bind _ _ _ (teardown_launched-At rt included _ (here_of t l) s at)
          λ _ u at₁. yields (At-cast at₁ (omega arith), omega arith)

    -- From one `await` to the next, the accounts move with the phase, which gets closer to the end.
    pub advance-At :
        (t : TestCase) (p : Phase rt.Handle) (s : State rt)
        → IsListed t
        → IsAt rt included a b c d n p s
        → Yields
            (λ p' u. IsAt rt included a b c d n p' u × (remaining p' < weight p))
            (advance rt default_timeout group_name t p s)
    unfolding advance
    advance-At t starting s l at =
        Yields-bind _ _ _
          (setup_launched-At rt included _ (here_of t l) s
            (At-cast {a' = a} {b' = b} {c' = c} {d' = d} {n' = n} at (omega arith)))
          λ _ u at₁. yields (At-cast at₁ (omega arith), omega arith)
    advance-At t setting_up s l at =
        Yields-bind
          (spawned rt
            (rt.spawn_setup t.fixture.type_id (unwrap_or t.fixture.timeout_setup default_timeout)))
          _ s
          (spawned-At rt
            (rt.spawn_setup t.fixture.type_id (unwrap_or t.fixture.timeout_setup default_timeout)) s
            at)
          λ r u at₁.
            Yields-bind _ _ _
              (setup_event-At rt included _ (here_of t l) test_task r u (
                At-cast {a' = suc a} {b' = b} {c' = c} {d' = suc d} {n' = suc n} at₁ (omega arith)))
              λ _ v at₂. after_setup-At t r v l at₂
    advance-At t (testing h) s l at =
        Yields-bind
          (spawned rt
            (rt.spawn_test (path group_name t.name) h (unwrap_or t.timeout default_timeout)))
          _ s
          (spawned-At rt
            (rt.spawn_test (path group_name t.name) h (unwrap_or t.timeout default_timeout)) s at)
          λ r u at₁.
            Yields-bind _ _ _
              (test_event-At rt included _ l r u (
                At-cast {a' = a} {b' = b} {c' = suc c} {d' = suc d} {n' = suc n} at₁ (omega arith)))
              λ _ v at₂. Yields-bind _ _ _ (dropped-At rt h v at₂) λ _ w at₃.
                Yields-bind _ _ _ (teardown_launched-At rt included _ (here_of t l) w at₃)
                  λ _ x at₄. yields (At-cast at₄ (omega arith), omega arith)
    advance-At t tearing_down s l at =
        Yields-bind (spawned rt (teardown_of rt default_timeout t)) _ s
          (spawned-At rt (teardown_of rt default_timeout t) s at)
          λ r u at₁.
            Yields-bind _ _ _
              (teardown_event-At rt included _ (here_of t l) r u
                (At-cast {a' = a} {b' = suc b} {c' = c} {d' = d} {n' = suc n} at₁ (omega arith)))
              λ _ v at₂. yields (At-cast at₂ (omega arith), omega arith)
    advance-At t finished s l at = yields (at, omega arith)
