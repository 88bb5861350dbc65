-- ===== src/Runner/Test.antt =====
-- crates/e2etest/src/test.rs: running one test with its fixture.
use e2etest_rs.Prelude.{Option, none, some}
use e2etest_rs.Prelude.Text.{Text}
use e2etest_rs.Prelude.Text.Split.{path}
use e2etest_rs.Statistics.{test as test_task}
use e2etest_rs.Runner.Runtime.{
  Duration, TestCase, Joined, Result, ok, err, Runtime, Run, unwrap_or, dropped, ◌>>=◌, ◌>>◌,
}
use e2etest_rs.Runner.Task

module _ (rt : Runtime) (default_timeout : Duration) where
  abbrev pub teardown_of : TestCase → rt.World → Joined (Unit {0}) × rt.World
  teardown_of t w = rt.spawn_teardown (unwrap_or t.fixture.timeout_teardown default_timeout) w

  -- The part after the setup. Without a fixture the test is not run, and the teardown is.
  abbrev pub with_fixture : Text → TestCase → Result (Option rt.Handle) → Run rt (Unit {0})
  with_fixture name t (ok (some fixture)) = do
    Task.test rt name (rt.spawn_test name fixture (unwrap_or t.timeout default_timeout))
    dropped rt fixture
    Task.teardown rt name (teardown_of t)
  with_fixture name t (ok none) = Task.teardown rt name (teardown_of t)
  with_fixture name t err = Task.teardown rt name (teardown_of t)

  unfoldable pub run_test : Text → TestCase → Run rt (Unit {0})
  run_test group_name t = do
    let name = path group_name t.name
    fixture ←
        Task.setup rt name test_task
          (rt.spawn_setup t.fixture.type_id (unwrap_or t.fixture.timeout_setup default_timeout))
    with_fixture name t fixture
