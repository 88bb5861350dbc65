-- ===== src/Examples/Filters.antt =====
-- Filters on a run of two groups.
use e2etest_rs.Prelude.{◌≡◌, ◌↔◌, refl, true, not, ◌||◌, List, [], ◌∷◌, arith}
use e2etest_rs.Prelude.Text.{Text, codes, text_eq, contains_text, starts_with}
use e2etest_rs.Prelude.Text.Split.{split, rsplit_once, join}
use e2etest_rs.Prelude.Collections.{contains, insert, get, update_entry}
use e2etest_rs.Filter.{visit_names, visit_pair, take_test, new, consider_group, consider_test}
use e2etest_rs.Filter.Matcher
use e2etest_rs.Filter.Matcher.{matches, quoted, Selects}
use e2etest_rs.Filter.Matcher.{matches-new}
use e2etest_rs.Filter.Groups.{consider_group-of_consider_test}
use e2etest_rs.Filter.Wanted.{wanted, matches_some}
use e2etest_rs.Filter.Selection.{consider_test-one_filter}

abbrev all : Text
all = codes "all"

abbrev crud : Text
crud = codes "crud"

abbrev index : Text
index = codes "index"

abbrev simple : Text
simple = codes "simple"

abbrev names : List Text
names = codes "crud::simple" ∷ codes "crud::drop" ∷ codes "index::simple" ∷ []

consider_test-one_filter_example :
    consider_test (new (codes "crud::sim" ∷ []) all names) (all ∷ split crud) simple
    ≡ (not (matches_some (codes "crud::sim") names) || wanted (codes "crud::sim") crud simple)
unfolding contains text_eq
consider_test-one_filter_example =
    consider_test-one_filter (codes "crud::sim") all names crud simple (ground arith) refl

simple_considered :
    consider_test (new (codes "crud::sim" ∷ []) all names) (all ∷ crud ∷ []) simple ≡ true
unfolding consider_test new visit_names rsplit_once visit_pair matches Matcher.new contains_text
    starts_with take_test update_entry get text_eq join insert contains
simple_considered = refl

consider_group-of_consider_test_example :
    consider_group (new (codes "crud::sim" ∷ []) all names) (all ∷ []) crud ≡ true
consider_group-of_consider_test_example =
    consider_group-of_consider_test (codes "crud::sim" ∷ []) all names [] crud [] simple
      (ground arith) simple_considered

matches-new_example : (matches (Matcher.new (quoted crud)) crud ≡ true) ↔ Selects (quoted crud) crud
matches-new_example = matches-new (quoted crud) crud
