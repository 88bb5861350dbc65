-- ===== src/Examples/Recordings.antt =====
-- The unit tests of statistics.rs, as tests of the model.
use e2etest_rs.Prelude.{
  ℕ, ◌≡◌, refl, Bool, true, false, not, ◌&&◌, Option, none, some, List, [], ◌∷◌, ◌++◌, map,
}
use e2etest_rs.Prelude.Text.{Text, codes, text_eq, starts_with}
use e2etest_rs.Prelude.Text.Order.{sort, dedup, text_le}
use e2etest_rs.Prelude.Collections.{contains, insert}
use e2etest_rs.Statistics.{
  group, test, Event, Inner, new, test_defined, test_included, setup_launched, setup_skipped,
  setup_passed, setup_failed, teardown_launched, teardown_passed, teardown_failed, test_launched,
  test_passed, test_failed, record_event, is_success, tests_defined, tests_included, tests_launched,
  tests_skipped, tests_skipped_by_fixture_err, tests_passed, tests_failed, setups_launched,
  setups_passed, setups_skipped, setups_failed, teardowns_launched, teardowns_passed,
  teardowns_failed, tests_passed_names, tests_skipped_names, tests_skipped_by_fixture_err_names,
  failed_names,
}
use e2etest_rs.Statistics.Invariant.{record_all}

abbrev each : List Text → Event → List (Text × Event)
each names event = map (λ name. (name, event)) names

abbrev fails_after : Event → Bool
fails_after event =
    elim (record_all
      ((codes "foo", test_defined) ∷ (codes "foo", test_included) ∷ (codes "foo", event) ∷ [])
      new) [ none ↦ false | some i ↦ not (is_success i) ]

abbrev succeeds_at_first : Bool
succeeds_at_first =
    elim (record_all ((codes "foo", test_defined) ∷ (codes "foo", test_included) ∷ []) new) [
      | none ↦ false
      | some i ↦ is_success i
    ]

-- `failing`
abbrev failing : Bool
failing =
    succeeds_at_first
    && fails_after test_failed
    && fails_after (setup_failed test)
    && fails_after (setup_failed group)
    && fails_after teardown_failed

-- A hierarchy of tests and groups.
abbrev defined_names : List Text
defined_names =
    codes "root1::branch1::test1"
    ∷ codes "root1::branch1::test2"
    ∷ codes "root1::branch1::test3"
    ∷ codes "root1::branch2::test1"
    ∷ codes "root1::branch2::test2"
    ∷ codes "root1::branch2::test3"
    ∷ codes "root1::test1"
    ∷ codes "root1::test2"
    ∷ codes "root1::test3"
    ∷ codes "root2::branch1::test1"
    ∷ codes "root2::branch1::test2"
    ∷ codes "root2::branch1::test3"
    ∷ codes "root2::branch2::test1"
    ∷ codes "root2::branch2::test2"
    ∷ codes "root2::branch2::test3"
    ∷ codes "root2::test1"
    ∷ codes "root2::test2"
    ∷ codes "root2::test3"
    ∷ []

abbrev included_names : List Text
included_names =
    codes "root1::branch1::test1"
    ∷ codes "root1::branch1::test2"
    ∷ codes "root1::branch2::test3"
    ∷ codes "root1::test1"
    ∷ codes "root1::test2"
    ∷ codes "root2::branch1::test2"
    ∷ codes "root2::branch1::test3"
    ∷ codes "root2::branch2::test2"
    ∷ codes "root2::test3"
    ∷ []

-- A task that is set up with this result, runs so, and is torn down so.
abbrev opened : Text → Event → List (Text × Event)
opened name event = (name, setup_launched) ∷ (name, event) ∷ []

abbrev ran : Text → Event → List (Text × Event)
ran name event = (name, test_launched) ∷ (name, event) ∷ []

abbrev closed : Text → Event → List (Text × Event)
closed name event = (name, teardown_launched) ∷ (name, event) ∷ []

abbrev first_root : List (Text × Event)
first_root =
    opened (codes "root1") setup_passed
    ++ opened (codes "root1::branch1") setup_passed
    ++ opened (codes "root1::branch1::test1") setup_passed
    ++ ran (codes "root1::branch1::test1") test_passed
    ++ closed (codes "root1::branch1::test1") teardown_passed
    ++ opened (codes "root1::branch1::test2") (setup_skipped test)
    ++ closed (codes "root1::branch1::test2") teardown_passed
    ++ closed (codes "root1::branch1") teardown_passed
    ++ opened (codes "root1::branch2") (setup_skipped group)
    ++ closed (codes "root1::branch2") teardown_passed
    ++ opened (codes "root1::test1") (setup_failed test)
    ++ closed (codes "root1::test1") teardown_passed
    ++ opened (codes "root1::test2") setup_passed
    ++ ran (codes "root1::test2") test_passed
    ++ closed (codes "root1::test2") teardown_passed
    ++ closed (codes "root1") teardown_failed

abbrev second_root : List (Text × Event)
second_root =
    opened (codes "root2") setup_passed
    ++ opened (codes "root2::branch1") (setup_skipped group)
    ++ closed (codes "root2::branch1") teardown_passed
    ++ opened (codes "root2::branch2") (setup_failed group)
    ++ closed (codes "root2::branch2") teardown_passed
    ++ opened (codes "root2::test3") setup_passed
    ++ ran (codes "root2::test3") test_failed
    ++ closed (codes "root2::test3") teardown_passed
    ++ closed (codes "root2") teardown_passed

abbrev calls : List (Text × Event)
calls =
    each defined_names test_defined
    ++ each included_names test_included
    ++ first_root
    ++ second_root

-- The counters, in the order of the assertions.
abbrev counters : Inner → List ℕ
counters i =
    tests_defined i
    ∷ tests_included i
    ∷ tests_launched i
    ∷ tests_skipped i
    ∷ tests_skipped_by_fixture_err i
    ∷ tests_passed i
    ∷ tests_failed i
    ∷ setups_launched i
    ∷ setups_passed i
    ∷ setups_skipped i
    ∷ setups_failed i
    ∷ teardowns_launched i
    ∷ teardowns_passed i
    ∷ teardowns_failed i
    ∷ []

abbrev name_lists : Inner → List (List Text)
name_lists i =
    tests_passed_names i
    ∷ tests_skipped_names i
    ∷ tests_skipped_by_fixture_err_names i
    ∷ failed_names i
    ∷ []

-- `calculations`: the record that the calls leave, and what is read of it.
abbrev calculations : Option (List ℕ × List (List Text))
calculations = elim (record_all calls new) [
  | none ↦ none
  | some i ↦ some (counters i, name_lists i)
]

failing_passes : failing ≡ true
unfolding record_event is_success text_eq starts_with contains insert
failing_passes = refl

calculations_passes :
    calculations
    ≡ some (
      18 ∷ 9 ∷ 3 ∷ 4 ∷ 2 ∷ 2 ∷ 1 ∷ 11 ∷ 6 ∷ 3 ∷ 2 ∷ 11 ∷ 10 ∷ 1 ∷ [],
      (codes "root1::branch1::test1" ∷ codes "root1::test2" ∷ [])
          ∷ (codes "root1::branch1::test2"
              ∷ codes "root1::branch2::test3"
              ∷ codes "root2::branch1::test2"
              ∷ codes "root2::branch1::test3"
              ∷ [])
          ∷ (codes "root1::test1" ∷ codes "root2::branch2::test2" ∷ [])
          ∷ (codes "root1"
              ∷ codes "root1::test1"
              ∷ codes "root2::branch2"
              ∷ codes "root2::test3"
              ∷ [])
          ∷ [],
    )
unfolding record_event tests_passed_names tests_skipped_names tests_skipped_by_fixture_err_names
    failed_names sort dedup text_le text_eq starts_with contains insert
calculations_passes = refl
