-- ===== src/Filter/Root.antt =====
-- filter.rs: the tests directly in the root group, whose names in the test names have no "::".
use e2etest_rs.Prelude.{
  ◌≡◌, refl, ◌∙◌, sym, false, none, List, [], ◌∷◌, ◌++◌, arith, is_empty, Bool-cases, inl, inr, not,
  any,
}
use mathlib.Core.List.{append-nil}
use mathlib.Core.Path.{subst}
use e2etest_rs.Prelude.Text.{Text, text_eq, text_eq-append}
use e2etest_rs.Prelude.Text.Split.{join, path, sep}
use e2etest_rs.Prelude.Collections.{insert, get, update_entry, get-update_entry}
use e2etest_rs.Filter.{Filter, empty, take_group, take_test, new, consider_test}
use e2etest_rs.Filter.Wanted.{matches_some}
use e2etest_rs.Filter.Several.{is_empty-apply_filters}
use e2etest_rs.Filter.Keeping.{apply_filters-Holds}

other-path : (p g : Text) → text_eq p (path p g) ≡ false
unfolding text_eq
other-path p g =
    subst (λ q. text_eq q (path p g) ≡ false) (append-nil p) (text_eq-append p [] (sep ++ g))

-- The root group has no entry.
abbrev HasNoEntry : Text → Filter → Type 0
HasNoEntry parent f = get parent f.tests ≡ none

update_entry-HasNoEntry :
    (parent g : Text) (u : List Text → List Text) (m : List (Text × List Text))
    → get parent m ≡ none
    → get parent (update_entry (path parent g) [] u m) ≡ none
update_entry-HasNoEntry parent g u m h =
    rw (get-update_entry parent (path parent g) [] u m, other-path parent g) h

new-HasNoEntry :
    (filters : List Text) (parent : Text) (names : List Text)
    → get parent (new filters parent names).tests ≡ none
unfolding new get
new-HasNoEntry filters parent names =
    apply_filters-Holds parent (HasNoEntry parent)
      (λ g f. unfold take_group in update_entry-HasNoEntry parent g (λ names. names) f.tests)
      (λ g t f. unfold take_test in update_entry-HasNoEntry parent g (insert t) f.tests) filters
      names empty refl

is_empty-new :
    (filters : List Text) (parent : Text) (names : List Text)
    → is_empty (new filters parent names).tests
      ≡ not (any (λ filter. matches_some filter names) filters)
unfolding new
is_empty-new filters parent names =
    ground (arith, is_empty-apply_filters parent names filters empty)

-- A test directly in the root group is considered exactly when no filter matches a test of a
-- subgroup, even if a filter is its own name.
pub consider_test-of_root :
    (filters : List Text) (parent : Text) (names : List Text) (t : Text)
    → consider_test (new filters parent names) (parent ∷ []) t
      ≡ not (any (λ filter. matches_some filter names) filters)
unfolding consider_test join
consider_test-of_root filters parent names t =
    elim (Bool-cases (is_empty (new filters parent names).tests)) [
      | inl bare ↦ rw bare (sym bare ∙ is_empty-new filters parent names)
      | inr some_test ↦
          rw (some_test, new-HasNoEntry filters parent names)
            (sym some_test ∙ is_empty-new filters parent names)
    ]
