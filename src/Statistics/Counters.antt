-- ===== src/Statistics/Counters.antt =====
-- statistics.rs: what the counters and the verdict say about the recorded events.
use e2etest_rs.Prelude.{
  ◌+◌, ◌≡◌, refl, ◌↔◌, Bool, true, false, ◌&&◌, List, [], ◌∷◌, map, arith, ◌∙◌, inl, inr,
  Bool-cases, filter, any, is_empty, count, any-count, count-any,
}
use e2etest_rs.Prelude.Text.{Text, text_eq, text_eq_iff}
use e2etest_rs.Prelude.Text.Order.{
  contains-sort, contains-dedup, IsAscending, dedup-sort-IsAscending,
}
use e2etest_rs.Prelude.Collections.{contains}
use e2etest_rs.Statistics.{
  EventEntry, Inner, is_failed, is_success, setups_failed, tests_failed, teardowns_failed,
  failed_names, is_setup_failed, is_test_failed, is_teardown_failed,
}

-- The failed entries are the failed setups, tests and teardowns.
count-is_failed :
    (events : List EventEntry)
    → count is_failed events
      ≡ count (λ e. is_setup_failed e.event) events
        + count (λ e. is_test_failed e.event) events
        + count (λ e. is_teardown_failed e.event) events
count-is_failed [] = refl
count-is_failed (e ∷ events) = ground (arith, count-is_failed events)

-- The verdict is success exactly when a test is included and no failure counter has moved.
pub is_success_iff :
    (i : Inner)
    → (is_success i ≡ true) ↔ (
        (is_empty i.included ≡ false)
        × (setups_failed i ≡ 0)
        × (tests_failed i ≡ 0)
        × (teardowns_failed i ≡ 0))
unfolding is_success
is_success_iff i = elim (Bool-cases (any is_failed i.events)) [
  | inl bad ↦ ground (arith, count-is_failed i.events, count-any is_failed i.events)
  | inr good ↦ ground (arith, count-is_failed i.events, any-count is_failed i.events)
]

abbrev pub has_event : (EventEntry → Bool) → Text → List EventEntry → Bool
has_event p x = any (λ e. p e && text_eq x e.name)

contains-map-filter :
    (p : EventEntry → Bool) (x : Text) (events : List EventEntry)
    → contains x (map (λ e. e.name) (filter p events)) ≡ has_event p x events
unfolding contains
contains-map-filter p x [] = refl
contains-map-filter p x (e ∷ events) = ground (arith, contains-map-filter p x events)

-- The failed names are listed in strictly ascending order, and a name is among them exactly when a
-- setup, a test or a teardown of that name has failed.
pub failed_names_lem :
    (i : Inner)
    → IsAscending (failed_names i)
      × ((x : Text) → contains x (failed_names i) ≡ has_event is_failed x i.events)
unfolding failed_names
failed_names_lem i = (
  dedup-sort-IsAscending _,
  λ x. contains-dedup x _ ∙ contains-sort x _ ∙ contains-map-filter is_failed x i.events,
)

has_event-none :
    (p : EventEntry → Bool) (x : Text) (events : List EventEntry)
    → any p events ≡ false
    → has_event p x events ≡ false
has_event-none p x [] h = refl
has_event-none p x (e ∷ events) h = ground (arith, has_event-none p x events)

is_empty-of_contains : (xs : List Text) → ((x : Text) → contains x xs ≡ false) → xs ≡ []
unfolding contains
is_empty-of_contains [] h = refl
is_empty-of_contains (x ∷ xs) h = ground (arith, h x, text_eq_iff x x)

-- A successful run has no failed name.
pub failed_names-of_is_success : (i : Inner) → is_success i ≡ true → failed_names i ≡ []
unfolding is_success
failed_names-of_is_success i h =
    is_empty-of_contains _
      λ x. (failed_names_lem i).1 x ∙ has_event-none is_failed x i.events (ground arith)
