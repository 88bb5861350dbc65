-- ===== src/Filter/Selection.antt =====
-- filter.rs: which tests one filter selects.
use e2etest_rs.Prelude.{◌≡◌, refl, true, false, not, ◌||◌, Option, none, some, List, [], ◌∷◌, arith}
use e2etest_rs.Prelude.Text.{Text}
use e2etest_rs.Prelude.Text.Split.{rsplit_once, split, path, HasNoColon}
use e2etest_rs.Prelude.Collections.{IsIn}
use e2etest_rs.Filter.{new, consider_test}
use e2etest_rs.Filter.Observed.{takes_alone}
use e2etest_rs.Filter.Several.{wants_group, wants_some_alone, consider_test-filters}
use e2etest_rs.Filter.Wanted.{wanted, matches_some, whole-asks_for}

-- A filter that takes the whole group takes no test of it alone.
none_alone :
    (filter g : Text) (names : List Text)
    → wants_group filter g ≡ true
    → wants_some_alone names g filter ≡ false
none_alone filter g [] h = refl
none_alone filter g (n ∷ names) h = ground (arith, one (rsplit_once n), none_alone filter g names h)
  where
    one :
        (parts : Option (Text × Text))
        → takes_alone (wants_group filter) (wanted filter) g parts ≡ false
    one none = refl
    one (some (k, t)) = ground (arith, h)

-- With one filter, a test of the run that stands in a subgroup and has no colon in its name is
-- considered exactly when the filter asks for it, or when
-- the filter asks for no test of the run at all: then every test is considered.
pub consider_test-one_filter :
    (filter parent : Text) (names : List Text) (g t : Text)
    → HasNoColon t
    → IsIn (path g t) names
    → consider_test (new (filter ∷ []) parent names) (parent ∷ split g) t
      ≡ (not (matches_some filter names) || wanted filter g t)
consider_test-one_filter filter parent names g t plain m = ground (
  arith,
  consider_test-filters (filter ∷ []) parent names g t plain m,
  none_alone filter g names,
  whole-asks_for (rsplit_once filter) filter g t,
)
