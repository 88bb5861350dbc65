-- ===== src/Runner/Group.antt =====
-- crates/e2etest/src/group.rs: the tree of groups, its test names, and running a group.
use e2etest_rs.Prelude.{
  ℕ, Bool, not, ◌&&◌, Option, none, some, List, [], ◌∷◌, ◌++◌, map, if◌then◌else◌, filter,
}
use e2etest_rs.Prelude.Text.{Text}
use e2etest_rs.Prelude.Text.Split.{join, path}
use e2etest_rs.Statistics.{group as group_task}
use e2etest_rs.Filter.{Filter, consider_group, consider_test}
use e2etest_rs.Runner.Runtime.{
  Duration, FixtureType, TestCase, can_run_concurrently, Result, ok, err, Runtime, Run, unwrap_or,
  dropped, ◌>>=◌, ◌>>◌,
}
use e2etest_rs.Runner.Task
use e2etest_rs.Runner.Pool.{for_each_concurrent, for_each}

mutual
  pub data Group : Type 0 where
    node : Text → FixtureType → List TestCase → Groups → Group

  pub data Groups : Type 0 where
    nil : Groups
    cons : Group → Groups → Groups

abbrev pub name_of : Group → Text
name_of (node name fixture tests groups) = name

-- The part of `RunContext` that is not shared state.
pub record Context : Type 0 where
  pub filter : Filter
  pub default_timeout : Duration
  pub concurrency : ℕ
  pub concurrency_enabled : Bool

-- `self.concurrency_enabled &= enabled_for_next_level`
abbrev pub update_concurrency_enabled : Context → Bool → Context
update_concurrency_enabled ctx enabled = record ctx {
  concurrency_enabled = ctx.concurrency_enabled && enabled;
}

abbrev pub is_concurrency_enabled : Context → Bool → Bool
is_concurrency_enabled ctx enabled = ctx.concurrency_enabled && enabled

unfoldable mutual
  -- `test_names`: those of the subgroups, then the group's own
  pub test_names : Group → List Text
  test_names (node name fixture tests groups) = names_below groups ++ map (λ t. t.name) tests

  pub names_below : Groups → List Text
  names_below nil = []
  names_below (cons g groups) = map (path (name_of g)) (test_names g) ++ names_below groups

-- The tests that the two streams of `run_group` take.
abbrev pub concurrent_tests : Context → List Text → List TestCase → List TestCase
concurrent_tests ctx names tests =
    filter (λ t. is_concurrency_enabled ctx (can_run_concurrently t))
      (filter (λ t. consider_test ctx.filter names t.name) tests)

abbrev pub sequential_tests : Context → List Text → List TestCase → List TestCase
sequential_tests ctx names tests =
    filter (λ t. not (is_concurrency_enabled ctx (can_run_concurrently t)))
      (filter (λ t. consider_test ctx.filter names t.name) tests)

module _ (rt : Runtime) where
  abbrev pub teardown_group : List Text → FixtureType → Context → Run rt (Unit {0})
  teardown_group names fixture ctx =
      Task.teardown rt (join names)
        (rt.spawn_teardown (unwrap_or fixture.timeout_teardown ctx.default_timeout))

  -- What follows the setup of a group, its subgroups being run by `subgroups`.
  abbrev pub with_fixture :
      List Text
      → FixtureType
      → List TestCase
      → (Context → Run rt (Unit {0}))
      → Context
      → Result (Option rt.Handle)
      → Run rt (Unit {0})
  with_fixture names fixture tests subgroups ctx (ok (some handle)) =
      let ctx' = update_concurrency_enabled ctx fixture.test_can_run_concurrently in
      do
        subgroups ctx'
        for_each_concurrent rt ctx.default_timeout (join names) ctx.concurrency
            (concurrent_tests ctx' names tests)
        for_each rt ctx.default_timeout (join names) (sequential_tests ctx' names tests)
        dropped rt handle
        teardown_group names fixture ctx
  with_fixture names fixture tests subgroups ctx (ok none) = teardown_group names fixture ctx
  with_fixture names fixture tests subgroups ctx err = teardown_group names fixture ctx

  unfoldable mutual
    -- `run_group`, with the names of the groups above
    pub run_group : Group → List Text → Context → Run rt (Unit {0})
    run_group (node name fixture tests groups) parents ctx s =
        let names = parents ++ name ∷ [] in
        (do
          handle ←
              Task.setup rt (join names) group_task (
                rt.spawn_setup fixture.type_id
                  (unwrap_or fixture.timeout_setup ctx.default_timeout))
          with_fixture names fixture tests (run_groups groups names) ctx handle)
          s

    -- The loop over the considered subgroups.
    pub run_groups : Groups → List Text → Context → Run rt (Unit {0})
    run_groups nil names ctx s = some (tt, s)
    run_groups (cons g groups) names ctx s =
        let both = (do run_group g names ctx; run_groups groups names ctx) s in
        let rest = run_groups groups names ctx s in
        if consider_group ctx.filter names (name_of g) then both else rest
