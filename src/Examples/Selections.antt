-- ===== src/Examples/Selections.antt =====
-- Several filters on a run of two groups and a test directly in the root group.
use e2etest_rs.Prelude.{◌≡◌, refl, true, false, some, List, [], ◌∷◌, ◌++◌, arith, is_empty}
use e2etest_rs.Prelude.Text.{Text, codes, text_eq, contains_text, starts_with}
use e2etest_rs.Prelude.Text.Split.{split, rsplit_once, join, path}
use e2etest_rs.Prelude.Collections.{IsIn, contains, insert}
use e2etest_rs.Statistics.{is_at_or_below}
use e2etest_rs.Filter.{visit_names, visit_pair, take_test, new, consider_group, consider_test}
use e2etest_rs.Filter.Matcher
use e2etest_rs.Filter.Matcher.{matches}
use e2etest_rs.Filter.Several.{consider_test-filters}
use e2etest_rs.Filter.Reach.{consider_test-of_consider_group}
use e2etest_rs.Filter.Root.{consider_test-of_root}

abbrev all : Text
all = codes "all"

abbrev crud : Text
crud = codes "crud"

abbrev drop : Text
drop = codes "drop"

abbrev ping : Text
ping = codes "ping"

abbrev names : List Text
names = codes "crud::simple" ∷ codes "crud::drop" ∷ codes "index::simple" ∷ codes "ping" ∷ []

-- The second filter takes `simple` alone, and `drop` is lost, although the first takes the group.
abbrev narrowing : List Text
narrowing = codes "crud::" ∷ codes "crud::sim" ∷ []

consider_test-filters_example :
    consider_test (new narrowing all names) (all ∷ split crud) drop ≡ false
unfolding contains text_eq rsplit_once matches Matcher.new contains_text starts_with
consider_test-filters_example =
    consider_test-filters narrowing all names crud drop (ground arith) refl

abbrev one : List Text
one = codes "crud::sim" ∷ []

some_group : is_empty (new one all names).groups ≡ false
unfolding new visit_names rsplit_once visit_pair matches Matcher.new contains_text starts_with
    take_test split insert contains text_eq
some_group = refl

crud_considered : consider_group (new one all names) (all ∷ []) crud ≡ true
unfolding consider_group new visit_names rsplit_once visit_pair matches Matcher.new contains_text
    starts_with take_test split join insert contains text_eq
crud_considered = refl

consider_test-of_consider_group_example :
    (n : Text) × (g : Text) × (t : Text) × IsIn n names
    × (rsplit_once n ≡ some (g, t))
    × (is_at_or_below (join (all ∷ ([] ++ crud ∷ []))) (path all n) ≡ true)
    × (consider_test (new one all names) (all ∷ split g) t ≡ true)
consider_test-of_consider_group_example =
    consider_test-of_consider_group one all names [] crud some_group crud_considered

-- A test of the root group is not considered by a filter that is its name, beside another one.
consider_test-of_root_example :
    consider_test (new (ping ∷ crud ∷ []) all names) (all ∷ []) ping ≡ false
unfolding contains text_eq rsplit_once matches Matcher.new contains_text starts_with
consider_test-of_root_example = consider_test-of_root (ping ∷ crud ∷ []) all names ping
