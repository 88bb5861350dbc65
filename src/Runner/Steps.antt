-- ===== src/Runner/Steps.antt =====
-- test.rs as the executor sees it: a test that is polled goes from one `await` to the next. Between
-- two of them other tests may run, so their entries and their changes of the world interleave.
-- A spawned future changes the world at the point where it is joined.
use e2etest_rs.Prelude.{ℕ, zero, suc, ◌≡◌, Option, none, some, arith}
use e2etest_rs.Prelude.Text.{Text}
use e2etest_rs.Prelude.Text.Split.{path}
use e2etest_rs.Statistics.{test as test_task, setup_launched, teardown_launched, test_launched}
use e2etest_rs.Runner.Runtime.{
  Duration, TestCase, Result, ok, err, Runtime, State, Run, unwrap_or, record_stats, dropped, ◌>>=◌,
  ◌>>◌, pure,
}
use e2etest_rs.Runner.Task.{setup_event, teardown_event, test_event, spawned}
use e2etest_rs.Runner.Task
use e2etest_rs.Runner.Test.{run_test, teardown_of}

-- Where a test stands: at the start, or awaiting a spawned future.
pub data Phase (H : Type 0) : Type 0 where
  starting : Phase H
  setting_up : Phase H
  testing : H → Phase H
  tearing_down : Phase H
  finished : Phase H

module _ (rt : Runtime) (default_timeout : Duration) where
  abbrev pub after_setup : Text → Result (Option rt.Handle) → Run rt (Phase rt.Handle)
  after_setup name (ok (some fixture)) = do
    record_stats rt name test_launched
    pure (testing fixture)
  after_setup name (ok none) = do record_stats rt name teardown_launched; pure tearing_down
  after_setup name err = do record_stats rt name teardown_launched; pure tearing_down

  -- From one `await` to the next.
  unfoldable pub advance : Text → TestCase → Phase rt.Handle → Run rt (Phase rt.Handle)
  advance group_name t starting = do
    record_stats rt (path group_name t.name) setup_launched
    pure setting_up
  advance group_name t setting_up = do
    result ←
        spawned rt
          (rt.spawn_setup t.fixture.type_id (unwrap_or t.fixture.timeout_setup default_timeout))
    record_stats rt (path group_name t.name) (setup_event test_task result)
    after_setup (path group_name t.name) result
  advance group_name t (testing fixture) = do
    result ←
        spawned rt
          (rt.spawn_test (path group_name t.name) fixture (unwrap_or t.timeout default_timeout))
    record_stats rt (path group_name t.name) (test_event result)
    dropped rt fixture
    record_stats rt (path group_name t.name) teardown_launched
    pure tearing_down
  advance group_name t tearing_down = do
    result ← spawned rt (teardown_of rt default_timeout t)
    record_stats rt (path group_name t.name) (teardown_event result)
    pure finished
  advance group_name t finished = pure finished

  unfoldable pub advance_times : ℕ → Text → TestCase → Phase rt.Handle → Run rt (Phase rt.Handle)
  advance_times zero group_name t p = pure p
  advance_times (suc n) group_name t p = do
    p' ← advance group_name t p
    advance_times n group_name t p'

  -- Polled alone, a test is finished after four polls and has done what `run_test` does.
  pub run_test-advance :
      (group_name : Text) (t : TestCase) (s : State rt)
      → advance_times 4 group_name t starting s
        ≡ (do run_test rt default_timeout group_name t; pure finished) s
  unfolding advance_times advance run_test Task.setup Task.test Task.teardown ◌>>=◌
  run_test-advance group_name t s = ground arith
