-- ===== src/Filter/Keeping.antt =====
-- filter.rs: what both ways to take a group keep, all filters keep.
use e2etest_rs.Prelude.{Bool, true, false, Option, none, some, List, [], ◌∷◌, if◌then◌else◌}
use e2etest_rs.Prelude.Text.{Text}
use e2etest_rs.Prelude.Text.Split.{rsplit_once}
use e2etest_rs.Filter.Matcher.{FilterMatcher}
use e2etest_rs.Filter.{
  Filter, take_group, take_test, visit_pair, visit_plain, visit_split, visit_names, body_of,
  apply_filters,
}

-- `Holds` is kept by both ways to take a group.
module _ (parent : Text) (Holds : Filter → Type 0)
    (take_group-Holds : (g : Text) (f : Filter) → Holds f → Holds (take_group parent g f))
    (take_test-Holds : (g t : Text) (f : Filter) → Holds f → Holds (take_test parent g t f)) where
  if-Holds : (b : Bool) (f g : Filter) → Holds f → Holds g → Holds (if b then f else g)
  if-Holds true f g c d = c
  if-Holds false f g c d = d

  visit_pair-Holds :
      (a b : FilterMatcher) (g t : Text) (f : Filter)
      → Holds f
      → Holds (visit_pair a b parent g t f)
  unfolding visit_pair
  visit_pair-Holds a b g t f c = search (take_group-Holds, take_test-Holds, if-Holds) depth 8

  visit_plain-Holds :
      (a : FilterMatcher) (g t : Text) (f : Filter) → Holds f → Holds (visit_plain a parent g t f)
  unfolding visit_plain
  visit_plain-Holds a g t f c = search (take_group-Holds, take_test-Holds, if-Holds) depth 8

  body_of-Holds :
      (parts : Option (Text × Text)) (filter g t : Text) (f : Filter)
      → Holds f
      → Holds (body_of parts filter parent g t f)
  body_of-Holds none filter g t f c = visit_plain-Holds _ g t f c
  body_of-Holds (some (a, b)) filter g t f c = visit_pair-Holds _ _ g t f c

  visit_split-Holds :
      (parts split : Option (Text × Text)) (filter : Text) (f : Filter)
      → Holds f
      → Holds (visit_split (body_of parts filter parent) split f)
  visit_split-Holds parts none filter f c = c
  visit_split-Holds parts (some (g, t)) filter f c = body_of-Holds parts filter g t f c

  visit_names-Holds :
      (parts : Option (Text × Text)) (filter : Text) (names : List Text) (f : Filter)
      → Holds f
      → Holds (visit_names (body_of parts filter parent) names f)
  unfolding visit_names
  visit_names-Holds parts filter [] f c = c
  visit_names-Holds parts filter (name ∷ names) f c =
      visit_names-Holds parts filter names _ (visit_split-Holds parts (rsplit_once name) filter f c)

  pub apply_filters-Holds :
      (filters names : List Text) (f : Filter)
      → Holds f
      → Holds (apply_filters filters parent names f)
  unfolding apply_filters
  apply_filters-Holds [] names f c = c
  apply_filters-Holds (filter ∷ filters) names f c =
      apply_filters-Holds filters names _ (visit_names-Holds (rsplit_once filter) filter names f c)
