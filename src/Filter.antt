-- ===== src/Filter.antt =====
-- crates/e2etest/src/filter.rs: which groups and tests a run considers.
pub mod Matcher
pub mod Keeping
pub mod Root
pub mod Groups
pub mod Entries
pub mod Wanted
pub mod Observed
pub mod Several
pub mod Selection
pub mod Ways
pub mod Reach
use e2etest_rs.Prelude.{
  Bool, true, false, not, ◌||◌, Option, none, some, List, [], ◌∷◌, ◌++◌, if◌then◌else◌, is_empty,
}
use e2etest_rs.Prelude.Text.{Text}
use e2etest_rs.Prelude.Text.Split.{split, rsplit_once, join, path}
use e2etest_rs.Prelude.Collections.{contains, insert, get, update_entry}
use Matcher.{FilterMatcher, matches, is_any}

-- `tests` maps a group's path to the names of its selected tests; no name means all of them.
pub record Filter : Type 0 where
  pub tests : List (Text × List Text)
  pub groups : List Text

abbrev pub empty : Filter
empty = record { tests = []; groups = [] }

-- The `fold` of `update_group_set`: every prefix of the group's path is inserted.
abbrev pub insert_prefixes : Text → List Text → List Text → List Text
insert_prefixes acc [] groups = groups
insert_prefixes acc (name ∷ names) groups =
    insert_prefixes (path acc name) names (insert (path acc name) groups)

abbrev pub update_group_set : Text → Text → List Text → List Text
update_group_set parent group_name groups = insert_prefixes parent (split group_name) groups

-- `entry(..).or_default()` and the update of the group set
unfoldable pub take_group : Text → Text → Filter → Filter
take_group parent group_name f = record {
  tests = update_entry (path parent group_name) [] (λ names. names) f.tests;
  groups = update_group_set parent group_name f.groups;
}

-- `entry(..).or_default().insert(test_name)` and the update of the group set
unfoldable pub take_test : Text → Text → Text → Filter → Filter
take_test parent group_name test_name f = record {
  tests = update_entry (path parent group_name) [] (insert test_name) f.tests;
  groups = update_group_set parent group_name f.groups;
}

-- The body of the loop for a filter `<group>::<test>`.
unfoldable pub visit_pair : FilterMatcher → FilterMatcher → Text → Text → Text → Filter → Filter
visit_pair group_filter test_filter parent group_name test_name f =
    if not (matches group_filter group_name)
    then f
    else if is_any test_filter
    then take_group parent group_name f
    else if matches test_filter test_name
    then take_test parent group_name test_name f
    else f

-- The body of the loop for a filter without `::`.
unfoldable pub visit_plain : FilterMatcher → Text → Text → Text → Filter → Filter
visit_plain filter parent group_name test_name f =
    if matches filter group_name
    then take_group parent group_name f
    else if matches filter test_name
    then take_test parent group_name test_name f
    else f

abbrev pub visit_split : (Text → Text → Filter → Filter) → Option (Text × Text) → Filter → Filter
visit_split body none f = f
visit_split body (some (g, t)) f = body g t f

-- The loop over `test_names().filter_map(|name| name.rsplit_once("::"))`.
unfoldable pub visit_names : (Text → Text → Filter → Filter) → List Text → Filter → Filter
visit_names body [] f = f
visit_names body (name ∷ names) f = visit_names body names (visit_split body (rsplit_once name) f)

abbrev pub body_of : Option (Text × Text) → Text → Text → Text → Text → Filter → Filter
body_of none filter = visit_plain (Matcher.new filter)
body_of (some (group_part, test_part)) filter =
    visit_pair (Matcher.new group_part) (Matcher.new test_part)

abbrev pub apply_filter : Text → Text → List Text → Filter → Filter
apply_filter filter parent names f =
    visit_names (body_of (rsplit_once filter) filter parent) names f

unfoldable pub apply_filters : List Text → Text → List Text → Filter → Filter
apply_filters [] parent names f = f
apply_filters (filter ∷ filters) parent names f =
    apply_filters filters parent names (apply_filter filter parent names f)

-- `Filter::new`, with the group's name and its test names. No filter leaves both maps empty.
unfoldable pub new : List Text → Text → List Text → Filter
unfolding apply_filters
new filters parent names = apply_filters filters parent names empty

unfoldable pub consider_group : Filter → List Text → Text → Bool
consider_group f group_names group_name =
    is_empty f.groups || contains (join (group_names ++ group_name ∷ [])) f.groups

abbrev pub consider_names : Option (List Text) → Text → Bool
consider_names none test_name = false
consider_names (some tests) test_name = is_empty tests || contains test_name tests

unfoldable pub consider_test : Filter → List Text → Text → Bool
consider_test f group_names test_name =
    if is_empty f.tests then true else consider_names (get (join group_names) f.tests) test_name
