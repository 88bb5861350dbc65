-- ===== src/Runner/Task.antt =====
-- crates/e2etest/src/task.rs: one setup, test or teardown, with its entries in the statistics.
use e2etest_rs.Prelude.{Option, none, some}
use e2etest_rs.Prelude.Text.{Text}
use e2etest_rs.Statistics.{
  Task, Event, setup_launched, setup_skipped, setup_passed, setup_failed, teardown_launched,
  teardown_passed, teardown_failed, test_launched, test_passed, test_failed,
}
use e2etest_rs.Runner.Runtime.{
  Joined, joined, join_error, Result, ok, err, Runtime, Run, record_stats, ◌>>=◌, ◌>>◌, pure,
}

-- `single`: the error of a task that panicked or timed out is logged and dropped.
abbrev pub single : {A : Type 0} → Joined A → Result A
single (joined a) = ok a
single join_error = err

-- The entry for the result of a setup.
abbrev pub setup_event : {A : Type 0} → Task → Result (Option A) → Event
setup_event task (ok (some _)) = setup_passed
setup_event task (ok none) = setup_skipped task
setup_event task err = setup_failed task

abbrev pub teardown_event : Result (Unit {0}) → Event
teardown_event (ok _) = teardown_passed
teardown_event err = teardown_failed

abbrev pub test_event : Result (Unit {0}) → Event
test_event (ok _) = test_passed
test_event err = test_failed

module _ (rt : Runtime) where
  -- A future that is spawned and joined.
  abbrev pub spawned : {A : Type 0} → (rt.World → Joined A × rt.World) → Run rt (Result A)
  spawned fut s = let (r, w) = fut s.world in some (single r, record s { world = w })

  unfoldable pub setup :
      Text
      → Task
      → (rt.World → Joined (Option rt.Handle) × rt.World)
      → Run rt (Result (Option rt.Handle))
  setup name task fut = do
    record_stats rt name setup_launched
    result ← spawned fut
    record_stats rt name (setup_event task result)
    pure result

  unfoldable pub teardown : Text → (rt.World → Joined (Unit {0}) × rt.World) → Run rt (Unit {0})
  teardown name fut = do
    record_stats rt name teardown_launched
    result ← spawned fut
    record_stats rt name (teardown_event result)

  unfoldable pub test : Text → (rt.World → Joined (Unit {0}) × rt.World) → Run rt (Unit {0})
  test name fut = do
    record_stats rt name test_launched
    result ← spawned fut
    record_stats rt name (test_event result)
