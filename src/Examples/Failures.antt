-- ===== src/Examples/Failures.antt =====
-- The unit test of group.rs, as a test of the model: the teardown of a group fails, and a test.
use e2etest_rs.Prelude.{
  ℕ, ◌≡◌, refl, Bool, false, Option, none, some, List, [], ◌∷◌, ◌==◌, if◌then◌else◌,
}
use e2etest_rs.Prelude.Text.{Text, codes, text_eq, starts_with}
use e2etest_rs.Prelude.Text.Split.{join}
use e2etest_rs.Prelude.Text.Order.{sort, dedup, text_le}
use e2etest_rs.Prelude.Collections.{contains, insert}
use e2etest_rs.Statistics.{
  Inner, test_defined, test_included, record_event, is_success, tests_included, tests_launched,
  tests_passed, tests_failed, tests_skipped_by_fixture_err, teardowns_failed, failed_names,
}
use e2etest_rs.Statistics
use e2etest_rs.Filter
use e2etest_rs.Filter.{consider_test}
use e2etest_rs.Statistics.Invariant.{record_all}
use e2etest_rs.Fixture.{TypeId}
use e2etest_rs.Runner.Runtime.{Joined, joined, join_error, Runtime, State, record_stats, ◌>>=◌}
use e2etest_rs.Runner.Task
use e2etest_rs.Runner.Pool.{drive, fill, for_each_concurrent, for_each}
use e2etest_rs.Runner.Test.{run_test}
use e2etest_rs.Runner.Group.{Group, test_names, run_group}
use e2etest_rs.Runner.Run.{context}
use e2etest_rs.Examples.Filtering.{group_fixture, make_dummy_group}

-- A fixture of the group panics in its teardown, the test `boom` panics. The world is the list of the
-- fixtures that are set up, the newest first.
abbrev close_newest : List TypeId → Joined (Unit {0}) × List TypeId
close_newest [] = (joined tt, [])
close_newest (id ∷ ids) =
    if id == group_fixture.type_id then (join_error, ids) else (joined tt, ids)

abbrev boom_runtime : Runtime
boom_runtime = record {
  World = List TypeId;
  Handle = Unit;
  spawn_setup = λ id timeout ids. (joined (some tt), id ∷ ids);
  spawn_test = λ name h timeout ids.
      (if text_eq name (codes "crud::boom") then join_error else joined tt, ids);
  spawn_teardown = λ timeout ids. close_newest ids;
  drop_handle = λ h ids. ids;
  next_ready = λ n ids. (0, ids);
}

abbrev crud : Group
crud = make_dummy_group (codes "crud") (codes "ok" ∷ codes "boom" ∷ [])

abbrev recorded : Option Inner
recorded =
    record_all
      ((codes "crud::ok", test_defined)
        ∷ (codes "crud::boom", test_defined)
        ∷ (codes "crud::ok", test_included)
        ∷ (codes "crud::boom", test_included)
        ∷ [])
      Statistics.new

-- The group is run from the record that was made, without filters.
abbrev run_recorded : Option Inner → Option (Unit {0} × State boom_runtime)
run_recorded none = none
run_recorded (some i) =
    run_group boom_runtime crud [] (context (Filter.new [] (codes "crud") (test_names crud)) 1000 1)
      (record { stats = i; world = [] })

-- The counters, in the order of the assertions.
abbrev read_out : Inner → Bool × List ℕ × List Text
read_out i = (
  is_success i,
  tests_included i
      ∷ tests_launched i
      ∷ tests_passed i
      ∷ tests_failed i
      ∷ tests_skipped_by_fixture_err i
      ∷ teardowns_failed i
      ∷ [],
  failed_names i,
)

abbrev collects_failed_test_names : Option (Bool × List ℕ × List Text)
collects_failed_test_names = elim (run_recorded recorded) [
  | none ↦ none
  | some (_, s) ↦ some (read_out s.stats)
]

collects_failed_test_names_passes :
    collects_failed_test_names
    ≡ some (false, 2 ∷ 2 ∷ 1 ∷ 1 ∷ 0 ∷ 1 ∷ [], codes "crud" ∷ codes "crud::boom" ∷ [])
unfolding Filter.new test_names record_event run_group ◌>>=◌ Task.setup record_stats text_eq join
    starts_with for_each_concurrent drive fill consider_test for_each run_test Task.test contains
    insert Task.teardown is_success failed_names sort dedup text_le
collects_failed_test_names_passes = refl
