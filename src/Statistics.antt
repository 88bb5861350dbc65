-- ===== src/Statistics.antt =====
-- crates/e2etest/src/statistics.rs: the record of a test run, and the numbers read from it.
pub mod Counters
pub mod Invariant
pub mod Accounts
use e2etest_rs.Prelude.{
  ℕ, ◌+◌, Bool, true, false, not, ◌&&◌, ◌||◌, Option, none, some, List, [], ◌∷◌, ◌++◌, map,
  if◌then◌else◌, filter, any, is_empty, length, count,
}
use e2etest_rs.Prelude.Text.{Text, text_eq, starts_with}
use e2etest_rs.Prelude.Text.Split.{sep}
use e2etest_rs.Prelude.Text.Order.{sort, dedup}
use e2etest_rs.Prelude.Collections.{contains, insert}

pub data Task : Type 0 where
  group : Task
  test : Task

pub data Event : Type 0 where
  setup_launched : Event
  setup_skipped : Task → Event
  setup_passed : Event
  setup_failed : Task → Event
  teardown_launched : Event
  teardown_passed : Event
  teardown_failed : Event
  test_defined : Event
  test_included : Event
  test_launched : Event
  test_passed : Event
  test_failed : Event

pub record EventEntry : Type 0 where
  pub name : Text
  pub event : Event

-- The `matches!` patterns.
abbrev pub is_setup_launched : Event → Bool
is_setup_launched setup_launched = true
is_setup_launched _ = false

abbrev pub is_setup_skipped : Event → Bool
is_setup_skipped (setup_skipped _) = true
is_setup_skipped _ = false

abbrev pub is_test_setup_skipped : Event → Bool
is_test_setup_skipped (setup_skipped test) = true
is_test_setup_skipped _ = false

abbrev pub is_group_setup_skipped : Event → Bool
is_group_setup_skipped (setup_skipped group) = true
is_group_setup_skipped _ = false

abbrev pub is_setup_passed : Event → Bool
is_setup_passed setup_passed = true
is_setup_passed _ = false

abbrev pub is_setup_failed : Event → Bool
is_setup_failed (setup_failed _) = true
is_setup_failed _ = false

abbrev pub is_test_setup_failed : Event → Bool
is_test_setup_failed (setup_failed test) = true
is_test_setup_failed _ = false

abbrev pub is_group_setup_failed : Event → Bool
is_group_setup_failed (setup_failed group) = true
is_group_setup_failed _ = false

abbrev pub is_teardown_launched : Event → Bool
is_teardown_launched teardown_launched = true
is_teardown_launched _ = false

abbrev pub is_teardown_passed : Event → Bool
is_teardown_passed teardown_passed = true
is_teardown_passed _ = false

abbrev pub is_teardown_failed : Event → Bool
is_teardown_failed teardown_failed = true
is_teardown_failed _ = false

abbrev pub is_test_launched : Event → Bool
is_test_launched test_launched = true
is_test_launched _ = false

abbrev pub is_test_passed : Event → Bool
is_test_passed test_passed = true
is_test_passed _ = false

abbrev pub is_test_failed : Event → Bool
is_test_failed test_failed = true
is_test_failed _ = false

abbrev pub is_failed_event : Event → Bool
is_failed_event (setup_failed _) = true
is_failed_event test_failed = true
is_failed_event teardown_failed = true
is_failed_event _ = false

-- `EventEntry::is_failed`
abbrev pub is_failed : EventEntry → Bool
is_failed entry = is_failed_event entry.event

pub record Inner : Type 0 where
  pub defined : List Text
  pub included : List Text
  pub events : List EventEntry

abbrev pub new : Inner
new = record { defined = []; included = []; events = [] }

-- The path `name` itself, or a path below it.
abbrev pub is_at_or_below : Text → Text → Bool
is_at_or_below name included = text_eq included name || starts_with (name ++ sep) included

abbrev pub iter_included : Inner → Text → List Text
iter_included i name = filter (is_at_or_below name) i.included

abbrev push_event : Inner → Text → Event → Inner
push_event i name event = record i {
  events = i.events ++ record { name = name; event = event } ∷ [];
}

-- `Statistics::record`. `none` is a failed `assert!`, which panics before anything is changed and
-- poisons the mutex.
unfoldable pub record_event : Inner → Text → Event → Option Inner
record_event i name test_defined = some (record i { defined = insert name i.defined })
record_event i name test_included =
    if contains name i.defined then some (record i { included = insert name i.included }) else none
record_event i name test_launched =
    if contains name i.included then some (push_event i name test_launched) else none
record_event i name test_passed =
    if contains name i.included then some (push_event i name test_passed) else none
record_event i name test_failed =
    if contains name i.included then some (push_event i name test_failed) else none
record_event i name event =
    if is_empty (iter_included i name) then none else some (push_event i name event)

abbrev pub count_events : (Event → Bool) → Inner → ℕ
count_events p i = count (λ entry. p entry.event) i.events

unfoldable pub is_success : Inner → Bool
is_success i = not (is_empty i.included) && not (any is_failed i.events)

abbrev pub tests_defined : Inner → ℕ
tests_defined i = length i.defined

abbrev pub tests_included : Inner → ℕ
tests_included i = length i.included

abbrev pub tests_launched : Inner → ℕ
tests_launched = count_events is_test_launched

abbrev pub tests_passed : Inner → ℕ
tests_passed = count_events is_test_passed

abbrev pub tests_failed : Inner → ℕ
tests_failed = count_events is_test_failed

-- The `fold` over the entries of whole groups: each counts the included tests below it.
abbrev pub sum_included : Inner → (Event → Bool) → List EventEntry → ℕ
sum_included i p [] = 0
sum_included i p (entry ∷ rest) =
    let below = sum_included i p rest in
    if p entry.event then length (iter_included i entry.name) + below else below

abbrev pub tests_skipped : Inner → ℕ
tests_skipped i =
    count_events is_test_setup_skipped i + sum_included i is_group_setup_skipped i.events

abbrev pub tests_skipped_by_fixture_err : Inner → ℕ
tests_skipped_by_fixture_err i =
    count_events is_test_setup_failed i + sum_included i is_group_setup_failed i.events

abbrev pub setups_launched : Inner → ℕ
setups_launched = count_events is_setup_launched

abbrev pub setups_passed : Inner → ℕ
setups_passed = count_events is_setup_passed

abbrev pub setups_skipped : Inner → ℕ
setups_skipped = count_events is_setup_skipped

abbrev pub setups_failed : Inner → ℕ
setups_failed = count_events is_setup_failed

abbrev pub teardowns_launched : Inner → ℕ
teardowns_launched = count_events is_teardown_launched

abbrev pub teardowns_passed : Inner → ℕ
teardowns_passed = count_events is_teardown_passed

abbrev pub teardowns_failed : Inner → ℕ
teardowns_failed = count_events is_teardown_failed

abbrev names_of : (Event → Bool) → List EventEntry → List Text
names_of p events = map (λ entry. entry.name) (filter (λ entry. p entry.event) events)

-- The `flat_map` over the entries of whole groups.
abbrev included_below : Inner → (Event → Bool) → List EventEntry → List Text
included_below i p [] = []
included_below i p (entry ∷ rest) =
    let below = included_below i p rest in
    if p entry.event then iter_included i entry.name ++ below else below

unfoldable pub tests_passed_names : Inner → List Text
tests_passed_names i = dedup (sort (names_of is_test_passed i.events))

unfoldable pub tests_skipped_names : Inner → List Text
tests_skipped_names i = dedup (
    sort
      (names_of is_test_setup_skipped i.events ++ included_below i is_group_setup_skipped i.events))

unfoldable pub tests_skipped_by_fixture_err_names : Inner → List Text
tests_skipped_by_fixture_err_names i = dedup (
    sort
      (names_of is_test_setup_failed i.events ++ included_below i is_group_setup_failed i.events))

unfoldable pub failed_names : Inner → List Text
failed_names i = dedup (sort (map (λ entry. entry.name) (filter is_failed i.events)))
