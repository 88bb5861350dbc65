-- ===== src/Examples/Records.antt =====
-- The record of a run with one test that failed.
use e2etest_rs.Prelude.{◌≤◌, ◌≡◌, ◌↔◌, refl, true, false, [], ◌∷◌, is_empty}
use e2etest_rs.Prelude.Text.{Text, codes, text_eq}
use e2etest_rs.Prelude.Text.Order.{IsAscending}
use e2etest_rs.Prelude.Collections.{contains, insert}
use e2etest_rs.Statistics.{
  Inner, new, record_event, is_success, is_failed, failed_names, setups_failed, tests_failed,
  teardowns_failed, tests_included, tests_defined, test_defined, test_included, test_failed,
}
use e2etest_rs.Statistics.Counters.{is_success_iff, failed_names_lem, has_event}
use e2etest_rs.Statistics.Invariant.{
  WellFormed, WellFormed-new, record_event-WellFormed, included-le-defined,
}

abbrev name : Text
name = codes "all::crud::simple"

abbrev pub with_test : Inner
with_test = record { defined = name ∷ []; included = name ∷ []; events = [] }

abbrev with_failure : Inner
with_failure = record with_test { events = record { name = name; event = test_failed } ∷ [] }

abbrev with_defined : Inner
with_defined = record { defined = name ∷ []; included = []; events = [] }

defined-WellFormed : WellFormed with_defined
unfolding record_event contains text_eq insert
defined-WellFormed = record_event-WellFormed new name test_defined refl WellFormed-new

test-WellFormed : WellFormed with_test
unfolding record_event contains text_eq insert
test-WellFormed = record_event-WellFormed with_defined name test_included refl defined-WellFormed

record_event-WellFormed_example : WellFormed with_failure
unfolding record_event contains text_eq insert
record_event-WellFormed_example =
    record_event-WellFormed with_test name test_failed refl test-WellFormed

included-le-defined_example : tests_included with_test ≤ tests_defined with_test
unfolding record_event contains text_eq insert
included-le-defined_example =
    included-le-defined ((name, test_defined) ∷ (name, test_included) ∷ []) with_test refl

is_success_iff_example : (is_success with_failure ≡ true) ↔ (
    (is_empty with_failure.included ≡ false)
    × (setups_failed with_failure ≡ 0)
    × (tests_failed with_failure ≡ 0)
    × (teardowns_failed with_failure ≡ 0))
is_success_iff_example = is_success_iff with_failure

failed_names_lem_example :
    IsAscending (failed_names with_failure)
    × ((x : Text)
        → contains x (failed_names with_failure) ≡ has_event is_failed x with_failure.events)
failed_names_lem_example = failed_names_lem with_failure
