-- ===== src/Runner/Single.antt =====
-- task.rs, test.rs: one test, and the tests of a group that run one after the other.
use e2etest_rs.Prelude.{ℕ, suc, ◌+◌, Option, none, some, List, [], ◌∷◌, arith, length, All}
use e2etest_rs.Prelude.Text.{Text}
use e2etest_rs.Prelude.Text.Split.{path}
use e2etest_rs.Prelude.Collections.{IsIn}
use e2etest_rs.Statistics.{test as test_task}
use e2etest_rs.Runner.Runtime.{
  Duration, TestCase, Joined, Result, ok, err, Runtime, State, unwrap_or, Yields, yields,
  Yields-bind, Yields-map,
}
use e2etest_rs.Runner.Task.{spawned}
use e2etest_rs.Runner.Task
use e2etest_rs.Runner.Test.{run_test, teardown_of}
use e2etest_rs.Runner.Test
use e2etest_rs.Runner.Pool.{for_each}
use e2etest_rs.Runner.Accounts.{
  At, spawned-At, dropped-At, test_launched-At, test_event-At, setup-At, teardown-At,
}
use e2etest_rs.Runner.Concurrent.{At-cast, IsListed, here_of}

module _ (rt : Runtime) (default_timeout : Duration) (group_name : Text)
    (included : List Text) where
  test-At :
      (name : Text)
      → IsIn name included
      → (fut : rt.World → Joined (Unit {0}) × rt.World) (s : State rt) {a b c d n : ℕ}
      → At rt included a b c d n s
      → Yields (λ _. At rt included a b c d n) (Task.test rt name fut s)
  unfolding Task.test
  test-At name l fut s at = Yields-bind _ _ _ (test_launched-At rt included name l s at) λ _ t at₁.
      Yields-bind _ _ _ (spawned-At rt fut t at₁)
        λ r u at₂. test_event-At rt included name l r u at₂

  abbrev Listed : TestCase → Type 0
  Listed = IsListed rt default_timeout group_name included

  with_fixture-At :
      (t : TestCase) (r : Result (Option rt.Handle)) (s : State rt) {a b c d n : ℕ}
      → Listed t
      → At rt included a b c (suc d) n s
      → Yields
          (λ _. At rt included a b c d n)
          (Test.with_fixture rt default_timeout (path group_name t.name) t r s)
  with_fixture-At t (ok (some h)) s l at =
      Yields-bind _ _ _
        (test-At (path group_name t.name) l
          (rt.spawn_test (path group_name t.name) h (unwrap_or t.timeout default_timeout)) s at)
        λ _ u at₁. Yields-bind _ _ _ (dropped-At rt h u at₁) λ _ v at₂.
          teardown-At rt included _ (here_of rt default_timeout group_name included t l)
            (teardown_of rt default_timeout t) v at₂
  with_fixture-At t (ok none) s l at =
      teardown-At rt included _ (here_of rt default_timeout group_name included t l)
        (teardown_of rt default_timeout t) s at
  with_fixture-At t err s l at =
      teardown-At rt included _ (here_of rt default_timeout group_name included t l)
        (teardown_of rt default_timeout t) s at

  run_test-At :
      (t : TestCase) (s : State rt) {a b c d n : ℕ}
      → Listed t
      → At rt included a b c d n s
      → Yields (λ _. At rt included a b c d (suc n)) (run_test rt default_timeout group_name t s)
  unfolding run_test
  run_test-At t s l at =
      Yields-bind _ _ _
        (setup-At rt included _ (here_of rt default_timeout group_name included t l) test_task
          (rt.spawn_setup t.fixture.type_id (unwrap_or t.fixture.timeout_setup default_timeout)) s
          at)
        λ r u at₁. with_fixture-At t r u l at₁

  pub for_each-At :
      (tests : List TestCase) (s : State rt) {a b c d n : ℕ}
      → All Listed tests
      → At rt included a b c d n s
      → Yields
          (λ _. At rt included a b c d (n + length tests))
          (for_each rt default_timeout group_name tests s)
  unfolding for_each
  for_each-At [] s l at = yields (At-cast at (omega arith))
  for_each-At (t ∷ tests) s l at =
      Yields-bind _ _ _ (run_test-At t s l.0 at)
        λ _ u at₁. Yields-map (λ _ v end. At-cast end (omega arith)) (for_each-At tests u l.1 at₁)
