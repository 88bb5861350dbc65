-- ===== src/Runner/Run.antt =====
-- crates/e2etest/src/run.rs and lib.rs: a whole run, from its configuration to its statistics.
use e2etest_rs.Prelude.{ℕ, Bool, true, false, Option, List, [], ◌∷◌, ◌++◌, if◌then◌else◌, ltb}
use e2etest_rs.Prelude.Text.{Text}
use e2etest_rs.Prelude.Text.Split.{split, path}
use e2etest_rs.Statistics.{Inner, test_defined, test_included}
use e2etest_rs.Statistics
use e2etest_rs.Filter
use e2etest_rs.Filter.{Filter, consider_test}
use e2etest_rs.Fixture.{TypeId}
use e2etest_rs.Runner.Runtime.{Duration, Runtime, State, Run, record_stats, ◌>>=◌, ◌>>◌, pure}
use e2etest_rs.Runner.Group.{Group, name_of, Context, test_names, run_group}

-- `RunContext::new().with_filter(..).with_default_timeout(..).with_concurrency(..)`
abbrev pub context : Filter → Duration → ℕ → Context
context filter default_timeout concurrency = record {
  filter = filter;
  default_timeout = default_timeout;
  concurrency = if ltb 0 concurrency then concurrency else 1;
  concurrency_enabled = true;
}

-- `&parts[..parts.len() - 1]` and `parts.last().unwrap_or(&"")`
abbrev pub init : List Text → List Text
init [] = []
init (p ∷ []) = []
init (p ∷ q ∷ ps) = p ∷ init (q ∷ ps)

abbrev pub last : List Text → Text
last [] = []
last (p ∷ []) = p
last (p ∷ q ∷ ps) = last (q ∷ ps)

abbrev pub is_included : Context → Text → Text → Bool
is_included ctx root name = consider_test ctx.filter (root ∷ init (split name)) (last (split name))

module _ (rt : Runtime) where
  -- The loop over the test names; the result is `empty`, whether no test was included.
  unfoldable pub record_tests : Context → Text → List Text → Bool → Run rt Bool
  record_tests ctx root [] empty = pure empty
  record_tests ctx root (name ∷ names) empty = do
    record_stats rt (path root name) test_defined
    if is_included ctx root name
        then (do record_stats rt (path root name) test_included; record_tests ctx root names false)
        else record_tests ctx root names empty

  abbrev pub run_unless_empty : Group → Context → Bool → Run rt (Unit {0})
  run_unless_empty group ctx true = pure tt
  run_unless_empty group ctx false = run_group rt group [] ctx

  -- `run` of run.rs, from the world that the fixture manager and the tests start in
  unfoldable pub run : Group → Filter → Duration → ℕ → rt.World → Option (Unit {0} × State rt)
  run group filter default_timeout concurrency world =
      let ctx = context filter default_timeout concurrency in
      (do
        empty ← record_tests ctx (name_of group) (test_names group) true
        run_unless_empty group ctx empty)
        (record { stats = Statistics.new; world = world })

-- `Config`
pub record Config : Type 0 where
  pub permanent_fixtures : List TypeId
  pub filters : List Text
  pub default_timeout : Duration
  pub concurrency : ℕ

abbrev pub default_config : Config
default_config = record {
  permanent_fixtures = [];
  filters = [];
  default_timeout = 60000;
  concurrency = 1;
}

abbrev pub with_permanent_fixture : TypeId → Config → Config
with_permanent_fixture fixture c = record c {
  permanent_fixtures = c.permanent_fixtures ++ fixture ∷ [];
}

abbrev pub with_filter : Text → Config → Config
with_filter filter c = record c { filters = c.filters ++ filter ∷ [] }

abbrev pub with_default_timeout : Duration → Config → Config
with_default_timeout timeout c = record c { default_timeout = timeout }

abbrev pub with_concurrency : ℕ → Config → Config
with_concurrency concurrency c = record c { concurrency = concurrency }

-- `run` of lib.rs; `start` is the world with the permanent fixtures in the manager.
unfoldable pub run_config :
    (rt : Runtime) → (List TypeId → rt.World) → Config → Group → Option (Unit {0} × State rt)
run_config rt start c group =
    run rt group (Filter.new c.filters (name_of group) (test_names group)) c.default_timeout
      c.concurrency (start c.permanent_fixtures)
