-- ===== src/Examples/Configurations.antt =====
-- A run with a filter, and a run that stops at a subgroup without tests.
use e2etest_rs.Prelude.{◌≡◌, refl, false, none, [], ◌∷◌, arith}
use e2etest_rs.Prelude.Text.{codes, text_eq, starts_with, contains_text}
use e2etest_rs.Prelude.Text.Split.{rsplit_once}
use e2etest_rs.Prelude.Collections.{contains}
use e2etest_rs.Filter.Matcher
use e2etest_rs.Filter.Matcher.{matches}
use e2etest_rs.Runner.Unfiltered.{IsInhabited, AreInhabited}
use e2etest_rs.Filter
use e2etest_rs.Filter.{empty}
use e2etest_rs.Runner.Runtime.{Yields}
use e2etest_rs.Runner.Group.{Group, node, nil, cons, test_names, names_below}
use e2etest_rs.Runner.Run.{
  context, Config, default_config, with_filter, with_concurrency, run, run_config,
}
use e2etest_rs.Runner.Parts.{HasPlainNames, HavePlainNames}
use e2etest_rs.Runner.Complete.{IsFinished}
use e2etest_rs.Runner.Configured.{run_config-IsFinished, run_config-included}
use e2etest_rs.Runner.Panic.{run-none}
use e2etest_rs.Examples.Runs.{counting, simple, everything, everything-IsInhabited}

abbrev config : Config
config = with_concurrency 2 (with_filter (codes "crud::sim") default_config)

everything-HasPlainNames : HasPlainNames everything
unfolding HasPlainNames HavePlainNames
everything-HasPlainNames = ((ground arith, (tt, (ground arith, tt)), tt), tt)

run_config-IsFinished_example :
    Yields
      (λ _ t.
        IsFinished counting
          (context (Filter.new config.filters (codes "all") (test_names everything)) 60000 2)
          everything
          t)
      (run_config counting (λ _. 0) config everything)
run_config-IsFinished_example =
    run_config-IsFinished counting (λ _. 0) config everything everything-IsInhabited
      everything-HasPlainNames

abbrev bare : Group
bare = node (codes "bare") simple.fixture [] nil

run-none_example :
    run counting (node (codes "all") simple.fixture (simple ∷ []) (cons bare nil)) empty 60000 2 0
    ≡ none
unfolding test_names text_eq starts_with
run-none_example =
    run-none counting (codes "all") simple.fixture (simple ∷ []) bare nil 60000 2 0 tt 1 refl refl
      refl

-- The two filters of `narrowing` leave `drop` out of its group.
abbrev narrowed : Config
narrowed = with_filter (codes "crud::sim") (with_filter (codes "crud::") default_config)

abbrev two_tests : Group
two_tests = node (codes "all") simple.fixture [] (
    cons
      (node (codes "crud") simple.fixture (simple ∷ record simple { name = codes "drop" } ∷ []) nil)
      nil)

two_tests-IsInhabited : IsInhabited two_tests
unfolding IsInhabited AreInhabited test_names names_below
two_tests-IsInhabited = (refl, ((refl, tt), tt))

two_tests-HasPlainNames : HasPlainNames two_tests
unfolding HasPlainNames HavePlainNames
two_tests-HasPlainNames = ((ground arith, (tt, (ground arith, (ground arith, tt))), tt), tt)

run_config-included_example :
    Yields
      (λ _ s. contains (codes "all::crud::drop") s.stats.included ≡ false)
      (run_config counting (λ _. 0) narrowed two_tests)
unfolding test_names contains text_eq rsplit_once matches Matcher.new contains_text starts_with
run_config-included_example =
    run_config-included counting (λ _. 0) narrowed two_tests (codes "crud") (codes "drop")
      two_tests-IsInhabited two_tests-HasPlainNames (ground arith) refl
