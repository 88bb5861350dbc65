-- ===== src/Examples/Filtering.antt =====
-- The unit tests of filter.rs, as tests of the model.
use e2etest_rs.Prelude.{
  ℕ, ◌≡◌, refl, Bool, true, false, not, ◌&&◌, none, some, List, [], ◌∷◌, map, length, is_empty,
  ◌==◌, All,
}
use e2etest_rs.Prelude.Text.{Text, codes, text_eq, contains_text, starts_with, strip_suffix}
use e2etest_rs.Prelude.Text.Split.{split, rsplit_once}
use e2etest_rs.Prelude.Collections.{contains, insert, get, update_entry}
use e2etest_rs.Filter.Matcher
use e2etest_rs.Filter.Matcher.{matches}
use e2etest_rs.Filter
use e2etest_rs.Filter.{
  Filter, visit_names, visit_pair, visit_plain, take_test, take_group, apply_filters,
}
use e2etest_rs.Runner.Runtime.{FixtureType, TestCase}
use e2etest_rs.Runner.Group.{Group, Groups, node, nil, cons, name_of, test_names, names_below}

abbrev pub group_fixture : FixtureType
group_fixture = record {
  type_id = 0;
  timeout_setup = none;
  timeout_teardown = none;
  test_can_run_concurrently = false;
}

abbrev test_fixture : FixtureType
test_fixture = record {
  type_id = 1;
  timeout_setup = none;
  timeout_teardown = none;
  test_can_run_concurrently = false;
}

abbrev test_impl : Text → TestCase
test_impl name = record { name = name; timeout = none; fixture = test_fixture }

abbrev pub make_dummy_group : Text → List Text → Group
make_dummy_group group_name test_names =
    node group_name group_fixture (map test_impl test_names) nil

abbrev group_list : List Group → Groups
group_list [] = nil
group_list (g ∷ gs) = cons g (group_list gs)

abbrev make_test_cases : Group
make_test_cases = node (codes "root") group_fixture [] (
    group_list (
      make_dummy_group (codes "crud") (codes "simple_create" ∷ codes "drop_index" ∷ [])
      ∷ make_dummy_group (codes "full_scan") (codes "scan_index" ∷ codes "scan_all" ∷ [])
      ∷ make_dummy_group (codes "other") (codes "misc" ∷ codes "simple_misc" ∷ [])
      ∷ []))

abbrev make_overlapping_test_cases : Group
make_overlapping_test_cases = node (codes "root") group_fixture [] (
    group_list (
      make_dummy_group (codes "crud") (codes "simple_create" ∷ codes "simple_create_extra" ∷ [])
      ∷ make_dummy_group (codes "crud_extra")
          (codes "simple_create" ∷ codes "simple_create_additional" ∷ [])
      ∷ []))

-- `Filter::new(&filters, group)`
abbrev filter_of : List Text → Group → Filter
filter_of filters group = Filter.new filters (name_of group) (test_names group)

-- `result.tests[key].is_empty()`, and `result.tests[key].contains(name)`; a missing key fails.
abbrev takes_whole : Filter → Text → Bool
takes_whole result key = elim (get key result.tests) [ none ↦ false | some s ↦ is_empty s ]

abbrev takes_name : Filter → Text → Text → Bool
takes_name result key name = elim (get key result.tests) [ none ↦ false | some s ↦ contains name s ]

abbrev takes_no : Filter → Text → Text → Bool
takes_no result key name = elim (get key result.tests) [
  | none ↦ false
  | some s ↦ not (contains name s)
]

abbrev have_lengths : Filter → ℕ → Bool
have_lengths result n = (length result.groups == n) && (length result.tests == n)

abbrev test_no_filters_runs_all : Bool
test_no_filters_runs_all =
    let result = filter_of [] make_test_cases in is_empty result.groups && is_empty result.tests

abbrev test_empty_filters_runs_all : Bool
test_empty_filters_runs_all =
    let result = filter_of (codes "::" ∷ []) make_test_cases in
    have_lengths result 3
    && contains (codes "root::crud") result.groups
    && takes_whole result (codes "root::crud")
    && contains (codes "root::full_scan") result.groups
    && takes_whole result (codes "root::full_scan")
    && contains (codes "root::other") result.groups
    && takes_whole result (codes "root::other")

abbrev test_group_partial_match : Bool
test_group_partial_match =
    let result = filter_of (codes "crud" ∷ []) make_test_cases in
    contains (codes "root::crud") result.groups
    && takes_whole result (codes "root::crud")
    && have_lengths result 1

abbrev test_test_case_partial_match : Bool
test_test_case_partial_match =
    let result = filter_of (codes "simple" ∷ []) make_test_cases in
    contains (codes "root::crud") result.groups
    && takes_name result (codes "root::crud") (codes "simple_create")
    && contains (codes "root::other") result.groups
    && takes_name result (codes "root::other") (codes "simple_misc")
    && have_lengths result 2

abbrev test_group_and_test_case_syntax : Bool
test_group_and_test_case_syntax =
    let result = filter_of (codes "crud::simple" ∷ []) make_test_cases in
    contains (codes "root::crud") result.groups
    && takes_name result (codes "root::crud") (codes "simple_create")
    && have_lengths result 1

abbrev test_group_and_empty_test_case_syntax : Bool
test_group_and_empty_test_case_syntax =
    let result = filter_of (codes "crud::" ∷ []) make_test_cases in
    contains (codes "root::crud") result.groups
    && takes_whole result (codes "root::crud")
    && have_lengths result 1

abbrev test_empty_group_and_test_case_syntax : Bool
test_empty_group_and_test_case_syntax =
    let result = filter_of (codes "::simple" ∷ []) make_test_cases in
    contains (codes "root::crud") result.groups
    && takes_name result (codes "root::crud") (codes "simple_create")
    && contains (codes "root::other") result.groups
    && takes_name result (codes "root::other") (codes "simple_misc")
    && have_lengths result 2

abbrev test_exact_group_match_syntax : Bool
test_exact_group_match_syntax =
    let result = filter_of (codes "\"crud\"::" ∷ []) make_overlapping_test_cases in
    contains (codes "root::crud") result.groups
    && takes_whole result (codes "root::crud")
    && have_lengths result 1

abbrev test_exact_test_case_match_syntax : Bool
test_exact_test_case_match_syntax =
    let result = filter_of (codes "::\"simple_create\"" ∷ []) make_overlapping_test_cases in
    contains (codes "root::crud") result.groups
    && takes_name result (codes "root::crud") (codes "simple_create")
    && takes_no result (codes "root::crud") (codes "simple_create_extra")
    && contains (codes "root::crud_extra") result.groups
    && takes_name result (codes "root::crud_extra") (codes "simple_create")
    && takes_no result (codes "root::crud_extra") (codes "simple_create_additional")
    && have_lengths result 2

abbrev test_exact_group_and_test_case_syntax : Bool
test_exact_group_and_test_case_syntax =
    let result = filter_of (codes "\"crud\"::\"simple_create\"" ∷ []) make_overlapping_test_cases in
    contains (codes "root::crud") result.groups
    && takes_name result (codes "root::crud") (codes "simple_create")
    && takes_no result (codes "root::crud") (codes "simple_create_extra")
    && have_lengths result 1

-- Every one of them passes.
filter_tests_pass :
    All
      (λ passes. passes ≡ true)
      (test_no_filters_runs_all ∷ test_empty_filters_runs_all ∷ test_group_partial_match
        ∷ test_test_case_partial_match ∷ test_group_and_test_case_syntax
        ∷ test_group_and_empty_test_case_syntax ∷ test_empty_group_and_test_case_syntax
        ∷ test_exact_group_match_syntax ∷ test_exact_test_case_match_syntax
        ∷ test_exact_group_and_test_case_syntax ∷ [])
unfolding strip_suffix Filter.new apply_filters visit_names visit_pair visit_plain take_group
    take_test test_names names_below split rsplit_once matches Matcher.new contains_text starts_with
    text_eq contains insert get update_entry
filter_tests_pass =
    (refl, (refl, (refl, (refl, (refl, (refl, (refl, (refl, (refl, (refl, tt))))))))))
